-- ===== src/Workbench/Replay.antt =====
-- workbench/recording.go: the replay of a recording.
use tuicast.Prelude.{ℕ, ◌+◌, Option, none, some, List, [], ◌∷◌, ◌⊎◌, inl, inr, Bytes, if◌then◌else◌}
use tuicast.Keys.{Key, KeyModifier}
use tuicast.Workbench.{
  Driver, Failure, Step, StepAction, waits_for_text, types, presses, other_action, is_empty,
  no_recording, stop_first, acquiring, driving, replaying, parameter_required, unsupported_action,
}
use tuicast.Workbench.Manager.{Manager, RecordingState, lookup}
use tuicast.Workbench.Modifiers.{parse_modifiers}

module _ {H W E : Type 0} (driver : Driver H W E) where
  -- What a call of the control gives.
  abbrev pub outcome : W × Option E → W × Option (Failure E)
  outcome (w, none) = (w, none)
  outcome (w, some e) = (w, some (driving e))

  -- The text of a type step; `parameters` is the map of the values.
  abbrev pub typed : H → Bytes → Option Bytes → W → W × Option (Failure E)
  typed h name none w = (w, some (parameter_required name))
  typed h name (some text) w = outcome (driver.send h text w)

  abbrev pub pressed : H → Key → Failure E ⊎ List KeyModifier → W → W × Option (Failure E)
  pressed h key (inl e) w = (w, some e)
  pressed h key (inr ms) w = outcome (driver.press h key ms w)

  abbrev pub replay_action :
      H → (Bytes → Option Bytes) → StepAction → Step → W → W × Option (Failure E)
  replay_action h parameters waits_for_text step w =
      outcome (driver.wait_for h step.timeout_milliseconds step.text w)
  replay_action h parameters types step w =
      typed h step.parameter
        (if is_empty step.parameter then some step.text else parameters step.parameter) w
  replay_action h parameters presses step w = pressed h step.key (parse_modifiers step.modifiers) w
  replay_action h parameters (other_action action) step w = (w, some (unsupported_action action))

  -- One round of the loop of `Replay`, with the error not yet wrapped.
  unfoldable pub replay_step : H → (Bytes → Option Bytes) → Step → W → W × Option (Failure E)
  replay_step h parameters step w = replay_action h parameters step.action step w

  -- The loop from the step of number `index`, counted from 1.
  unfoldable pub replay_steps :
      H → (Bytes → Option Bytes) → ℕ → List Step → W → W × Option (Failure E)
  replay_steps h parameters index [] w = (w, none)
  replay_steps h parameters index (step ∷ steps) w =
      let (v, e) = replay_step h parameters step w in
      let rest = replay_steps h parameters (index + 1) steps v in
      elim e [ some x ↦ (v, some (replaying index x)) | none ↦ rest ]

  abbrev pub released : H → W × Option (Failure E) → W × Option (Failure E)
  released h (w, e) = (driver.release h w, e)

  abbrev pub replay_with : (Bytes → Option Bytes) → List Step → W × (E ⊎ H) → W × Option (Failure E)
  replay_with parameters steps (w, inl e) = (w, some (acquiring e))
  replay_with parameters steps (w, inr h) = released h (replay_steps h parameters 1 steps w)

  abbrev pub replay_state :
      (Bytes → Option Bytes) → ℕ → Option (RecordingState H) → W → W × Option (Failure E)
  replay_state parameters id none w = (w, some (no_recording id))
  replay_state parameters id (some s) w =
      let outcome_of = replay_with parameters s.recording.steps (driver.acquire id w) in
      if s.active then (w, some (stop_first id)) else outcome_of

  unfoldable pub replay : (Bytes → Option Bytes) → ℕ → Manager H → W → W × Option (Failure E)
  replay parameters id m w = replay_state parameters id (lookup id m) w
