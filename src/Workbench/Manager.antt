-- ===== src/Workbench/Manager.antt =====
-- workbench/recording.go: the manager of recordings, its operations under the locks they hold
-- throughout. `W` is the world that the controls act on.
use tuicast.Prelude.{
  ℕ, Bool, true, false, ◌||◌, not, Option, none, some, List, [], ◌∷◌, ◌++◌, ◌==◌, ltb,
  if◌then◌else◌, ◌⊎◌, inl, inr, Bytes,
}
use tuicast.Prelude.Int.{ℤ, pos, ltb_ℤ}
use tuicast.Screen.{text}
use tuicast.Matcher.{contains}
use tuicast.Keys.{Key, KeyModifier}
use tuicast.Workbench.{
  Driver, Failure, Step, SessionInfo, Recording, recording_version, is_empty, type_step, press_step,
  text_step, milliseconds, text_required, id_required, session_required, timeout_required,
  not_shown, nil_control, no_recording, not_recording, already_recording, acquiring, driving,
}

pub record RecordingState (H : Type 0) : Type 0 where
  pub active : Bool
  pub control : Option H
  pub recording : Recording

-- The map from session ids, as an association list.
abbrev pub Manager : Type 0 → Type 0
Manager H = List (ℕ × RecordingState H)

abbrev pub lookup : {A : Type 0} → ℕ → List (ℕ × A) → Option A
lookup id [] = none
lookup id ((k, a) ∷ entries) = if k == id then some a else lookup id entries

unfoldable pub store : {A : Type 0} → ℕ → A → List (ℕ × A) → List (ℕ × A)
store id b [] = (id, b) ∷ []
store id b ((k, a) ∷ entries) =
    let rest = store id b entries in if k == id then (id, b) ∷ entries else (k, a) ∷ rest

module _ {H : Type 0} where
  abbrev pub started : SessionInfo → H → RecordingState H
  started info h = record {
    active = true;
    control = some h;
    recording = record { version = recording_version; session = info; steps = [] };
  }

  -- The state with the step appended.
  abbrev pub appended : Step → RecordingState H → RecordingState H
  appended step s = record s {
    recording = record (s.recording) { steps = s.recording.steps ++ step ∷ [] };
  }

  abbrev pub stopped : RecordingState H → RecordingState H
  stopped s = record s { active = false; control = none }

  -- One round of the loop of `Close`.
  unfoldable pub closed : RecordingState H → RecordingState H
  closed s = if s.active then stopped s else s

  abbrev pub is_active : Option (RecordingState H) → Bool
  is_active none = false
  is_active (some s) = s.active

module _ {H E : Type 0} where
  abbrev pub active_in : ℕ → RecordingState H → Option H → (Failure E) ⊎ (RecordingState H × H)
  active_in id s none = if s.active then inl nil_control else inl (not_recording id)
  active_in id s (some h) = if s.active then inr (s, h) else inl (not_recording id)

  abbrev pub found : ℕ → Option (RecordingState H) → (Failure E) ⊎ (RecordingState H × H)
  found id none = inl (no_recording id)
  found id (some s) = active_in id s s.control

  -- `activeState`, the test for an active recording, and its control.
  unfoldable pub find_active : ℕ → Manager H → (Failure E) ⊎ (RecordingState H × H)
  find_active id m = found id (lookup id m)

module _ {H W E : Type 0} (driver : Driver H W E) where
  -- What a manager operation returns beside the manager and the world.
  abbrev pub Result : Type 0
  Result = (Manager H × W) × (Failure E ⊎ Recording)

  abbrev pub start_with : SessionInfo → Manager H → W × (E ⊎ H) → Result
  start_with info m (w, inl e) = ((m, w), inl (acquiring e))
  start_with info m (w, inr h) =
      if is_active (lookup info.id m)
      then ((m, driver.release h w), inl (already_recording info.id))
      else ((store info.id (started info h) m, w), inr (started info h).recording)

  unfoldable pub start : SessionInfo → Manager H → W → Result
  start info m w =
      if info.id == 0
      then ((m, w), inl id_required)
      else if is_empty info.terminal
          || not (ltb_ℤ (pos 0) info.width)
          || not (ltb_ℤ (pos 0) info.height)
      then ((m, w), inl session_required)
      else start_with info m (driver.acquire info.id w)

  -- The step is appended once the control has done it.
  abbrev pub append_after : ℕ → Step → RecordingState H → Manager H → W × Option E → Result
  append_after id step s m (w, some e) = ((m, w), inl (driving e))
  append_after id step s m (w, none) =
      ((store id (appended step s) m, w), inr (appended step s).recording)

  abbrev pub type_on :
      ℕ → Bytes → Step → Manager H → W → Failure E ⊎ (RecordingState H × H) → Result
  type_on id text step m w (inl e) = ((m, w), inl e)
  type_on id text step m w (inr (s, h)) = append_after id step s m (driver.send h text w)

  abbrev pub type_with : ℕ → Bytes → Manager H → W → Failure E ⊎ Step → Result
  type_with id text m w (inl e) = ((m, w), inl e)
  type_with id text m w (inr step) = type_on id text step m w (find_active id m)

  unfoldable pub type_text : ℕ → Bytes → Bytes → Manager H → W → Result
  type_text id text parameter m w = type_with id text m w (type_step text parameter)

  abbrev pub press_on :
      ℕ → Key → List KeyModifier → Manager H → W → Failure E ⊎ (RecordingState H × H) → Result
  press_on id key ms m w (inl e) = ((m, w), inl e)
  press_on id key ms m w (inr (s, h)) =
      append_after id (press_step key ms) s m (driver.press h key ms w)

  unfoldable pub press_key : ℕ → Key → List KeyModifier → Manager H → W → Result
  press_key id key ms m w = press_on id key ms m w (find_active id m)

  abbrev pub assert_on : ℕ → Bytes → ℕ → Manager H → W → Failure E ⊎ (RecordingState H × H) → Result
  assert_on id wanted timeout m w (inl e) = ((m, w), inl e)
  assert_on id wanted timeout m w (inr (s, h)) =
      if contains (text (driver.screen h w)) wanted
      then append_after id (text_step wanted timeout) s m (w, none)
      else ((m, w), inl not_shown)

  unfoldable pub assert_text : ℕ → Bytes → ℤ → Manager H → W → Result
  assert_text id wanted timeout m w =
      if is_empty wanted
      then ((m, w), inl text_required)
      else if not (ltb 0 (milliseconds timeout))
      then ((m, w), inl timeout_required)
      else assert_on id wanted (milliseconds timeout) m w (find_active id m)

  abbrev pub stop_on : ℕ → Manager H → W → Failure E ⊎ (RecordingState H × H) → Result
  stop_on id m w (inl e) = ((m, w), inl e)
  stop_on id m w (inr (s, h)) = ((store id (stopped s) m, driver.release h w), inr s.recording)

  unfoldable pub stop : ℕ → Manager H → W → Result
  stop id m w = stop_on id m w (find_active id m)

  -- `Recording`, with whether the recording is active.
  unfoldable pub recording_of : ℕ → Manager H → Failure E ⊎ (Recording × Bool)
  recording_of id m = elim (lookup id m) [
    | none ↦ inl (no_recording id)
    | some s ↦ inr (s.recording, s.active)
  ]

  abbrev pub release_held : Option H → W → W
  release_held none w = w
  release_held (some h) w = driver.release h w

  -- The other part of the round.
  unfoldable pub after_close : RecordingState H → W → W
  after_close s w = if s.active then release_held s.control w else w

  -- The loop of `Close`, in the order of the association list.
  unfoldable pub close_all : Manager H → W → Manager H × W
  close_all [] w = ([], w)
  close_all ((id, s) ∷ states) w =
      let (rest, v) = close_all states (after_close s w) in ((id, closed s) ∷ rest, v)
