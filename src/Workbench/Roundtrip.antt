-- ===== src/Workbench/Roundtrip.antt =====
-- workbench/recording.go: a recording, replayed.
use tuicast.Prelude.{
  ℕ, ◌+◌, ◌≡◌, refl, ap, ◌∙◌, true, ◌||◌, not, Option, none, some, List, [], ◌∷◌, ◌==◌, ◌⊎◌, inl,
  inr, Bytes, Bool-cases, map,
}
use tuicast.Prelude.Int.{pos, ltb_ℤ}
use tuicast.Ansi.Valid.{if_both}
use tuicast.Workbench.{
  Driver, Failure, Step, SessionInfo, Recording, is_empty, press_step, driving, replaying,
  acquiring, already_recording, id_required, session_required,
}
use tuicast.Workbench.Manager.{
  Manager, RecordingState, lookup, stopped, started, is_active, start, start_with, stop, stop_on,
  Result,
}
use tuicast.Workbench.Modifiers.{parse-all_single}
use tuicast.Workbench.Replay.{
  replay, replay_steps, replay_step, outcome, typed, pressed, replay_with, replay_state, released,
}
use tuicast.Workbench.Trace.{
  Input, entered, struck, shown, step_of, IsReplayable, AllReplayable, perform, perform_all,
  record_all, with_steps, find_active-found, record_all-Recorded, lookup-store,
}

module _ {H W E : Type 0} (driver : Driver H W E) where
  replay-step_of :
      (h : H) (parameters : Bytes → Option Bytes) (i : Input) (w : W)
      → IsReplayable parameters i
      → replay_step driver h parameters (step_of i) w ≡ outcome driver (perform driver h i w)
  unfolding replay_step step_of perform IsReplayable press_step
  replay-step_of h parameters (entered words parameter) w k =
      elim (Bool-cases (is_empty parameter)) [
        | inl e ↦ rw e refl
        | inr e ↦
            rw (e, e)
              (elim k [ inl f ↦ absurd cc | inr f ↦ ap (λ o. typed driver h parameter o w) f ])
      ]
  replay-step_of h parameters (struck key ms) w k =
      ap (λ r. pressed driver h key r w) (parse-all_single ms k)
  replay-step_of h parameters (shown wanted timeout) w k = refl

  -- The rest of the loop of `Replay`, behind a step.
  abbrev next :
      H → (Bytes → Option Bytes) → ℕ → List Step → W × Option (Failure E) → W × Option (Failure E)
  next h parameters index steps (v, none) = replay_steps driver h parameters (index + 1) steps v
  next h parameters index steps (v, some x) = (v, some (replaying index x))

  abbrev next_input : H → ℕ → List Input → W × Option E → W × Option (Failure E)
  next_input h index is (v, none) = perform_all driver h (index + 1) is v
  next_input h index is (v, some x) = (v, some (replaying index (driving x)))

  replay-map :
      (h : H) (parameters : Bytes → Option Bytes) (index : ℕ) (is : List Input) (w : W)
      → AllReplayable parameters is
      → replay_steps driver h parameters index (map step_of is) w ≡ perform_all driver h index is w
  unfolding replay_steps perform_all
  replay-map h parameters index [] w k = refl
  replay-map h parameters index (i ∷ is) w (k, ks) =
      ap (next h parameters index (map step_of is)) (replay-step_of h parameters i w k)
      ∙ go (λ v. replay-map h parameters (index + 1) is v ks) (perform driver h i w)
    where
      go :
          ((v : W)
            → replay_steps driver h parameters (index + 1) (map step_of is) v
              ≡ perform_all driver h (index + 1) is v)
          → (r : W × Option E)
          → next h parameters index (map step_of is) (outcome driver r) ≡ next_input h index is r
      go rest (v, none) = rest v
      go rest (v, some x) = refl

  -- What a recording that was started stands for.
  record Opened (info : SessionInfo) (r : Result driver) : Type 0 where
    opens : (x : Recording) → r.1 ≡ inr x → (h : H) × (lookup info.id r.0.0 ≡ some (started info h))

  refused_start :
      (info : SessionInfo) (m : Manager H) (w : W) (e : Failure E) → Opened info ((m, w), inl e)
  refused_start info m w e = record { opens = λ x f. absurd cc }

  start_with-Opened :
      (info : SessionInfo) (m : Manager H) (r : W × (E ⊎ H))
      → Opened info (start_with driver info m r)
  start_with-Opened info m (w, inl e) = refused_start info m w (acquiring e)
  start_with-Opened info m (w, inr h) =
      if_both (Opened info) (is_active (lookup info.id m))
        (λ _. refused_start info m (driver.release h w) (already_recording info.id))
        (λ _. record { opens = λ x f. (h, lookup-store driver info.id (started info h) m) })

  start-Opened : (info : SessionInfo) (m : Manager H) (w : W) → Opened info (start driver info m w)
  unfolding start
  start-Opened info m w =
      if_both (Opened info) (info.id == 0) (λ _. refused_start info m w id_required)
        (λ _.
          if_both (Opened info)
            (is_empty info.terminal
              || not (ltb_ℤ (pos 0) info.width)
              || not (ltb_ℤ (pos 0) info.height))
            (λ _. refused_start info m w session_required)
            (λ _. start_with-Opened info m (driver.acquire info.id w)))

  stop-lookup :
      (id : ℕ) (m : Manager H) (w : W) (s : RecordingState H) (h : H)
      → lookup id m ≡ some s
      → s.active ≡ true
      → s.control ≡ some h
      → lookup id (stop driver id m w).0.0 ≡ some (stopped s)
  unfolding stop
  stop-lookup id m w s h l a c =
      ap (λ r. lookup id (stop_on driver id m w r).0.0) (find_active-found driver id m s h l a c)
      ∙ lookup-store driver id (stopped s) m

  -- A recording that was started, filled by any inputs and stopped is replayed, in any world and on
  -- any control that the driver grants then, as the inputs that did not fail, done one after another
  -- until one fails, with the control given back: a typed parameter with the text that was typed, a
  -- press with its modifiers without repetitions. For parameters whose values are those texts, and
  -- presses whose modifiers are single ones.
  pub replay_repeats :
      (info : SessionInfo) (inputs : List Input) (m : Manager H) (w : W) (r : Recording)
      → (start driver info m w).1 ≡ inr r
      → let (m1, w1) = (start driver info m w).0 in
        let ((m2, w2), taken) = record_all driver info.id inputs m1 w1 in
        let m3 = (stop driver info.id m2 w2).0.0 in
        (parameters : Bytes → Option Bytes)
        → AllReplayable parameters taken
        → (v u : W) (h : H) → driver.acquire info.id v ≡ (u, inr h)
        → replay driver parameters info.id m3 v ≡ released driver h (perform_all driver h 1 taken u)
  unfolding replay
  replay_repeats info inputs m w r e parameters k v u h g =
      let (h', l) = (start-Opened info m w).opens r e in
      let m1 = (start driver info m w).0.0 in
      let w1 = (start driver info m w).0.1 in
      let m2 = (record_all driver info.id inputs m1 w1).0.0 in
      let w2 = (record_all driver info.id inputs m1 w1).0.1 in
      let taken = (record_all driver info.id inputs m1 w1).1 in
      let s = with_steps driver (started info h') (map step_of taken) in
      let l2 = record_all-Recorded driver info.id inputs m1 w1 (started info h') h' l refl refl in
      let l3 = stop-lookup info.id m2 w2 s h' l2 refl refl in
      ap (λ o. replay_state driver parameters info.id o v) l3
      ∙ ap (replay_with driver parameters (map step_of taken)) g
      ∙ ap (released driver h) (replay-map h parameters 1 taken u k)
