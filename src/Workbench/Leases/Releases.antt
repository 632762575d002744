-- ===== src/Workbench/Leases/Releases.antt =====
-- workbench/recording.go: what `Close` and `Replay` do to the controls that are granted.
use mathlib.Core.Path.{subst}
use tuicast.Prelude.{
  ℕ, ◌+◌, ◌-◌, ◌≡◌, refl, sym, ap, ◌∙◌, Bool, false, Option, none, some, List, [], ◌∷◌,
  if◌then◌else◌, ◌⊎◌, inl, inr, Bytes, arith, Option-cases,
}
use tuicast.Ansi.Valid.{if_both}
use tuicast.Keys.{Key, KeyModifier}
use tuicast.Workbench.{
  Driver, Failure, Step, is_empty, waits_for_text, types, presses, other_action, StepAction,
}
use tuicast.Workbench.Manager.{
  Manager, RecordingState, stopped, close_all, release_held, closed, after_close,
}
use tuicast.Workbench.Replay.{
  replay_steps, replay_step, replay_with, replay_state, outcome, typed, pressed, replay_action,
}
use tuicast.Workbench.Modifiers.{parse_modifiers}
use tuicast.Workbench.Consistency.{
  IsConsistent, holding, idle, AllConsistent, held, held_by, is_panic, if_true, if_false,
}
use tuicast.Workbench.Leases.{Leases}

module _ {H W E : Type 0} (driver : Driver H W E) where
  module _ (same : H → H → Bool) (leases : W → H → ℕ) (laws : Leases driver same leases) where
    closed-IsConsistent :
        (s : RecordingState H)
        → IsConsistent s
        → IsConsistent (closed s) × ((k : H) → held_by same k (closed s).control ≡ 0)
    unfolding closed
    closed-IsConsistent s (holding h t e) =
        subst (λ (r : RecordingState H). IsConsistent r × ((k : H) → held_by same k r.control ≡ 0))
          (sym (if_true (stopped s) s t)) (idle refl refl, λ k. refl)
    closed-IsConsistent s (idle t e) =
        subst (λ (r : RecordingState H). IsConsistent r × ((k : H) → held_by same k r.control ≡ 0))
          (sym (if_false (stopped s) s t)) (idle t e, λ k. ap (held_by same k) e)

    after_close-leases :
        (s : RecordingState H) (w : W) (k : H)
        → IsConsistent s
        → leases (after_close driver s w) k ≡ leases w k - held_by same k s.control
    unfolding after_close
    after_close-leases s w k (holding h t e) =
        ap (λ v. leases v k) (if_true _ w t ∙ ap (λ c. release_held driver c w) e)
        ∙ laws.given_back h w k
        ∙ ap (λ c. leases w k - held_by same k c) (sym e)
    after_close-leases s w k (idle t e) =
        let f = ap (λ v. leases v k) (if_false (release_held driver s.control w) w t) in
        let g = ap (held_by same k) e in omega (arith, f, g)

    pub close_all-Accounts :
        (m : Manager H) (w : W) (more : H → ℕ)
        → AllConsistent m
        → ((k : H) → leases w k ≡ more k + held same k m)
        → AllConsistent (close_all driver m w).0
          × ((k : H) → leases (close_all driver m w).1 k ≡ more k)
          × ((k : H) → held same k (close_all driver m w).0 ≡ 0)
    unfolding close_all held
    close_all-Accounts [] w more c b = (tt, λ k. omega (arith, b k), λ k. refl)
    close_all-Accounts ((id, s) ∷ m) w more (c, cs) b =
        let (f, g) = closed-IsConsistent s c in
        let (x, y, z) =
          close_all-Accounts m (after_close driver s w) more cs
            (λ k. omega (arith, after_close-leases s w k c, b k)) in
        ((f, x), y, λ k. omega (arith, g k, z k))

    outcome-same :
        (w : W) (r : W × Option E)
        → ((k : H) → leases r.0 k ≡ leases w k)
        → (k : H) → leases (outcome driver r).0 k ≡ leases w k
    outcome-same w (v, none) q = q
    outcome-same w (v, some e) q = q

    typed-same :
        (h : H) (name : Bytes) (o : Option Bytes) (w : W) (k : H)
        → leases (typed driver h name o w).0 k ≡ leases w k
    typed-same h name none w = λ k. refl
    typed-same h name (some words) w = outcome-same w (driver.send h words w) (laws.sent h words w)

    pressed-same :
        (h : H) (key : Key) (r : Failure E ⊎ List KeyModifier) (w : W) (k : H)
        → leases (pressed driver h key r w).0 k ≡ leases w k
    pressed-same h key (inl e) w = λ k. refl
    pressed-same h key (inr ms) w =
        outcome-same w (driver.press h key ms w) (laws.struck h key ms w)

    replay_action-same :
        (h : H) (parameters : Bytes → Option Bytes) (action : StepAction) (step : Step) (w : W)
        (k : H)
        → leases (replay_action driver h parameters action step w).0 k ≡ leases w k
    replay_action-same h parameters waits_for_text step w =
        outcome-same w (driver.wait_for h step.timeout_milliseconds step.text w)
          (laws.waited h step.timeout_milliseconds step.text w)
    replay_action-same h parameters types step w =
        typed-same h step.parameter
          (if is_empty step.parameter then some step.text else parameters step.parameter) w
    replay_action-same h parameters presses step w =
        pressed-same h step.key (parse_modifiers step.modifiers) w
    replay_action-same h parameters (other_action name) step w = λ k. refl

    replay_steps-same :
        (h : H) (parameters : Bytes → Option Bytes) (index : ℕ) (steps : List Step) (w : W) (k : H)
        → leases (replay_steps driver h parameters index steps w).0 k ≡ leases w k
    unfolding replay_steps replay_step
    replay_steps-same h parameters index [] w k = refl
    replay_steps-same h parameters index (step ∷ steps) w k =
        let r = replay_step driver h parameters step w in
        let f = replay_action-same h parameters step.action step w k in
        elim (Option-cases r.1) [
          | inr (x, e) ↦ rw (e, replay_steps) f
          | inl e ↦
              rw (e, replay_steps) (replay_steps-same h parameters (index + 1) steps r.0 k ∙ f)
        ]

    replay_with-same :
        (parameters : Bytes → Option Bytes) (steps : List Step) (id : ℕ) (w : W) (r : W × (E ⊎ H))
        (k : H)
        → driver.acquire id w ≡ r
        → leases (replay_with driver parameters steps r).0 k ≡ leases w k
    replay_with-same parameters steps id w (v, inl e) k q = laws.refused id w v e k q
    replay_with-same parameters steps id w (v, inr h) k q =
        let u = (replay_steps driver h parameters 1 steps v).0 in
        omega (
          arith,
          laws.given_back h u k,
          laws.acquired id w v h k q,
          replay_steps-same h parameters 1 steps v k,
        )

    replay_steps-quiet :
        (h : H) (parameters : Bytes → Option Bytes) (index : ℕ) (steps : List Step) (w : W)
        → is_panic (replay_steps driver h parameters index steps w).1 ≡ false
    unfolding replay_steps
    replay_steps-quiet h parameters index [] w = refl
    replay_steps-quiet h parameters index (step ∷ steps) w =
        let r = replay_step driver h parameters step w in
        elim (Option-cases r.1) [
          | inr (x, e) ↦ rw (e, replay_steps) refl
          | inl e ↦ rw (e, replay_steps) (replay_steps-quiet h parameters (index + 1) steps r.0)
        ]

    replay_with-quiet :
        (parameters : Bytes → Option Bytes) (steps : List Step) (r : W × (E ⊎ H))
        → is_panic (replay_with driver parameters steps r).1 ≡ false
    replay_with-quiet parameters steps (w, inl e) = refl
    replay_with-quiet parameters steps (w, inr h) = replay_steps-quiet h parameters 1 steps w

    -- A replay gives its control back.
    pub replay_state-same :
        (parameters : Bytes → Option Bytes) (id : ℕ) (o : Option (RecordingState H)) (w : W) (k : H)
        → leases (replay_state driver parameters id o w).0 k ≡ leases w k
    replay_state-same parameters id none w k = refl
    replay_state-same parameters id (some s) w k =
        if_both (λ (r : W × Option (Failure E)). leases r.0 k ≡ leases w k) s.active (λ _. refl)
          (λ _. replay_with-same parameters s.recording.steps id w (driver.acquire id w) k refl)

    pub replay_state-quiet :
        (parameters : Bytes → Option Bytes) (id : ℕ) (o : Option (RecordingState H)) (w : W)
        → is_panic (replay_state driver parameters id o w).1 ≡ false
    replay_state-quiet parameters id none w = refl
    replay_state-quiet parameters id (some s) w =
        if_both (λ (r : W × Option (Failure E)). is_panic r.1 ≡ false) s.active (λ _. refl)
          (λ _. replay_with-quiet parameters s.recording.steps (driver.acquire id w))
