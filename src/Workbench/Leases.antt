-- ===== src/Workbench/Leases.antt =====
-- workbench/recording.go: what each operation of the manager does to the controls that are granted.
pub mod Releases
pub mod Calls
use mathlib.Core.Path.{subst}
use tuicast.Prelude.{
  ℕ, ◌+◌, ◌-◌, ◌≡◌, ◌≢◌, refl, sym, ap, ◌∙◌, Bool, true, false, ◌||◌, not, Option, none, some, List,
  [], ◌∷◌, ◌==◌, if◌then◌else◌, ◌⊎◌, inl, inr, Bytes, arith, Bool-cases, Option-cases, ltb,
}
use tuicast.Prelude.Int.{ℤ, pos, ltb_ℤ}
use tuicast.Ansi.Valid.{if_both}
use tuicast.Screen.{text}
use tuicast.Matcher.{contains}
use tuicast.Keys.{Key, KeyModifier}
use tuicast.Workbench.{
  Driver, Failure, Step, SessionInfo, Recording, nil_control, not_shown, text_required,
  timeout_required, already_recording, id_required, session_required, is_empty, type_step,
  press_step, milliseconds, text_step, waits_for_text, types, presses, other_action, StepAction,
}
use tuicast.Workbench.Manager.{
  Manager, RecordingState, lookup, store, find_active, appended, stopped, started, is_active, start,
  start_with, type_text, press_key, assert_text, stop, close_all, append_after, type_on, press_on,
  assert_on, stop_on, type_with, Result, release_held, closed, after_close,
}
use tuicast.Workbench.Replay.{
  replay, replay_steps, replay_step, replay_with, replay_state, outcome, typed, pressed,
  replay_action,
}
use tuicast.Workbench.Modifiers.{parse_modifiers}
use tuicast.Workbench.Consistency.{
  IsConsistent, holding, idle, AllConsistent, held, held_by, weight, is_panic, Found, absent,
  present, store-AllConsistent, lookup-IsConsistent, find_active-Found, store-held, if_true,
  if_false,
}

abbrev pub failure_of : {A E : Type 0} → Failure E ⊎ A → Option (Failure E)
failure_of (inl e) = some e
failure_of (inr a) = none

-- How a driver accounts for its controls: a granted control counts once more, a released one once
-- less if it counts at all, and input changes nothing.
pub record Leases {H W E : Type 0} (driver : Driver H W E) (same : H → H → Bool)
    (leases : W → H → ℕ) : Type 0 where
  pub acquired :
      (id : ℕ) (w v : W) (h k : H)
      → driver.acquire id w ≡ (v, inr h)
      → leases v k ≡ leases w k + (if same h k then 1 else 0)
  pub refused :
      (id : ℕ) (w v : W) (e : E) (k : H)
      → driver.acquire id w ≡ (v, inl e)
      → leases v k ≡ leases w k
  pub sent :
      (h : H) (bytes : Bytes) (w : W) (k : H) → leases (driver.send h bytes w).0 k ≡ leases w k
  pub struck :
      (h : H) (key : Key) (ms : List KeyModifier) (w : W) (k : H)
      → leases (driver.press h key ms w).0 k ≡ leases w k
  pub waited :
      (h : H) (timeout : ℕ) (wanted : Bytes) (w : W) (k : H)
      → leases (driver.wait_for h timeout wanted w).0 k ≡ leases w k
  pub given_back :
      (h : H) (w : W) (k : H)
      → leases (driver.release h w) k ≡ leases w k - (if same h k then 1 else 0)

module _ {H W E : Type 0} (driver : Driver H W E) where
  module _ (same : H → H → Bool) (leases : W → H → ℕ) (base : H → ℕ) where
    -- Beyond `base`, the driver counts exactly the controls that the manager holds.
    pub record Accounts (m : Manager H) (w : W) : Type 0 where
      pub consistent : AllConsistent m
      pub balanced : (k : H) → leases w k ≡ base k + held same k m

    pub record Fine (r : Result driver) : Type 0 where
      pub accounts : Accounts r.0.0 r.0.1
      pub no_panic : is_panic (failure_of r.1) ≡ false

    module _ (laws : Leases driver same leases) where
      pub same_count :
          (m : Manager H) (w v : W)
          → Accounts m w
          → ((k : H) → leases v k ≡ leases w k)
          → Accounts m v
      same_count m w v a e = record {
        consistent = a.consistent;
        balanced = λ k. e k ∙ a.balanced k;
      }

      append_after-Fine :
          (id : ℕ) (step : Step) (s : RecordingState H) (h : H) (m : Manager H) (w : W)
          (r : W × Option E)
          → lookup id m ≡ some s
          → s.active ≡ true
          → s.control ≡ some h
          → Accounts m w
          → ((k : H) → leases r.0 k ≡ leases w k)
          → Fine (append_after driver id step s m r)
      append_after-Fine id step s h m w (v, some e) l t c a q = record {
        accounts = same_count m w v a q;
        no_panic = refl;
      }
      append_after-Fine id step s h m w (v, none) l t c a q = record {
        accounts = record {
          consistent = store-AllConsistent id (appended step s) m (holding h t c) a.consistent;
          balanced = λ k.
              let x = store-held same k id (appended step s) m in
              let y : weight same k (lookup id m) ≡ held_by same k s.control = rw l refl in
              omega (arith, q k, a.balanced k, x, y);
        };
        no_panic = refl;
      }

      quiet_failure :
          (m : Manager H) (w : W) (e : Failure E)
          → is_panic (some e) ≡ false
          → Accounts m w
          → Fine ((m, w), inl e)
      quiet_failure m w e p a = record { accounts = a; no_panic = p }

      type_on-Fine :
          (id : ℕ) (text : Bytes) (step : Step) (m : Manager H) (w : W)
          (r : Failure E ⊎ (RecordingState H × H))
          → Found id m r
          → Accounts m w
          → Fine (type_on driver id text step m w r)
      type_on-Fine id text step m w r (absent e p) a = quiet_failure m w e p a
      type_on-Fine id text step m w r (present s h l t c) a =
          append_after-Fine id step s h m w (driver.send h text w) l t c a (laws.sent h text w)

      pub press_on-Fine :
          (id : ℕ) (key : Key) (ms : List KeyModifier) (m : Manager H) (w : W)
          (r : Failure E ⊎ (RecordingState H × H))
          → Found id m r
          → Accounts m w
          → Fine (press_on driver id key ms m w r)
      press_on-Fine id key ms m w r (absent e p) a = quiet_failure m w e p a
      press_on-Fine id key ms m w r (present s h l t c) a =
          append_after-Fine id (press_step key ms) s h m w (driver.press h key ms w) l t c a
            (laws.struck h key ms w)

      assert_on-Fine :
          (id : ℕ) (wanted : Bytes) (timeout : ℕ) (m : Manager H) (w : W)
          (r : Failure E ⊎ (RecordingState H × H))
          → Found id m r
          → Accounts m w
          → Fine (assert_on driver id wanted timeout m w r)
      assert_on-Fine id wanted timeout m w r (absent e p) a = quiet_failure m w e p a
      assert_on-Fine id wanted timeout m w r (present s h l t c) a =
          if_both Fine (contains (text (driver.screen h w)) wanted)
            (λ _.
              append_after-Fine id (text_step wanted timeout) s h m w (w, none) l t c a (λ k. refl))
            (λ _. quiet_failure m w not_shown refl a)

      pub stop_on-Fine :
          (id : ℕ) (m : Manager H) (w : W) (r : Failure E ⊎ (RecordingState H × H))
          → Found id m r
          → Accounts m w
          → Fine (stop_on driver id m w r)
      stop_on-Fine id m w r (absent e p) a = quiet_failure m w e p a
      stop_on-Fine id m w r (present s h l t c) a = record {
        accounts = record {
          consistent = store-AllConsistent id (stopped s) m (idle refl refl) a.consistent;
          balanced = λ k.
              let x = store-held same k id (stopped s) m in
              let y : weight same k (lookup id m) ≡ (if same h k then 1 else 0) =
                ap (weight same k) l ∙ ap (held_by same k) c in
              omega (arith, laws.given_back h w k, a.balanced k, x, y);
        };
        no_panic = refl;
      }

      pub type_with-Fine :
          (id : ℕ) (text : Bytes) (m : Manager H) (w : W) (r : Failure E ⊎ Step)
          → is_panic (failure_of r) ≡ false
          → Accounts m w
          → Fine (type_with driver id text m w r)
      type_with-Fine id text m w (inl e) p a = quiet_failure m w e p a
      type_with-Fine id text m w (inr step) p a =
          type_on-Fine id text step m w (find_active id m) (find_active-Found id m a.consistent) a

      pub assert_text-Fine :
          (id : ℕ) (wanted : Bytes) (timeout : ℤ) (m : Manager H) (w : W)
          → Accounts m w
          → Fine (assert_text driver id wanted timeout m w)
      unfolding assert_text
      assert_text-Fine id wanted timeout m w a =
          if_both Fine (is_empty wanted) (λ _. quiet_failure m w text_required refl a)
            (λ _.
              if_both Fine (not (ltb 0 (milliseconds timeout)))
                (λ _. quiet_failure m w timeout_required refl a)
                (λ _.
                  assert_on-Fine id wanted (milliseconds timeout) m w (find_active id m)
                    (find_active-Found id m a.consistent) a))

      -- What is held under an id that is not recording.
      free-weight :
          (id : ℕ) (m : Manager H) (k : H) (o : Option (RecordingState H))
          → AllConsistent m
          → lookup id m ≡ o
          → is_active o ≡ false
          → weight same k o ≡ 0
      free-weight id m k none c l f = refl
      free-weight id m k (some s) c l f = elim (lookup-IsConsistent id m s c l) [
        | holding h t e ↦ absurd cc
        | idle t e ↦ ap (held_by same k) e
      ]

      start_with-Fine :
          (info : SessionInfo) (m : Manager H) (w : W) (r : W × (E ⊎ H))
          → driver.acquire info.id w ≡ r
          → Accounts m w
          → Fine (start_with driver info m r)
      start_with-Fine info m w (v, inl e) q a = record {
        accounts = same_count m w v a (λ k. laws.refused info.id w v e k q);
        no_panic = refl;
      }
      start_with-Fine info m w (v, inr h) q a = elim (Bool-cases (is_active (lookup info.id m))) [
        | inl f ↦ rw f (
            quiet_failure m (driver.release h v) (already_recording info.id) refl (
              same_count m w (driver.release h v) a
                (λ k. omega (arith, laws.given_back h v k, laws.acquired info.id w v h k q))))
        | inr f ↦ rw f (record {
          accounts = record {
            consistent =
                store-AllConsistent info.id (started info h) m (holding h refl refl) a.consistent;
            balanced = λ k.
                let x = store-held same k info.id (started info h) m in
                let y = free-weight info.id m k (lookup info.id m) a.consistent refl f in
                omega (arith, laws.acquired info.id w v h k q, a.balanced k, x, y);
          };
          no_panic = refl;
        })
      ]

      pub start-Fine :
          (info : SessionInfo) (m : Manager H) (w : W) → Accounts m w → Fine (start driver info m w)
      unfolding start
      start-Fine info m w a =
          if_both Fine (info.id == 0) (λ _. quiet_failure m w id_required refl a)
            (λ _.
              if_both Fine
                (is_empty info.terminal
                  || not (ltb_ℤ (pos 0) info.width)
                  || not (ltb_ℤ (pos 0) info.height))
                (λ _. quiet_failure m w session_required refl a)
                (λ _. start_with-Fine info m w (driver.acquire info.id w) refl a))
