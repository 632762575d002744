-- ===== src/Workbench/Trace.antt =====
-- workbench/recording.go: what is recorded, and replayed.
use mathlib.Core.Path.{subst}
use tuicast.Prelude.{
  ℕ, ◌+◌, ◌≡◌, refl, sym, ap, ◌∙◌, Bool, true, false, not, Option, none, some, List, [], ◌∷◌, ◌++◌,
  ◌==◌, if◌then◌else◌, ◌⊎◌, inl, inr, Bytes, arith, Bool-cases, map, append-nil, append_assoc, ltb,
}
use tuicast.Prelude.Int.{ℤ}
use tuicast.Ansi.Valid.{if_both}
use tuicast.Screen.{text}
use tuicast.Matcher.{contains}
use tuicast.Keys.{Key, KeyModifier}
use tuicast.Workbench.{
  Driver, Failure, Step, is_empty, type_step, press_step, text_step, plain_step, milliseconds,
  types, driving, not_shown, not_recording, replaying, text_required, timeout_required,
  valid_parameter, bad_parameter,
}
use tuicast.Workbench.Manager.{
  Manager, RecordingState, lookup, store, find_active, found, active_in, appended, type_text,
  press_key, assert_text, append_after, type_on, press_on, assert_on, type_with, Result,
}
use tuicast.Workbench.Modifiers.{distinct, all_single}
use tuicast.Workbench.Consistency.{if_true, if_false}

-- What a user does on a session that is recorded.
pub data Input : Type 0 where
  entered : Bytes → Bytes → Input
  struck : Key → List KeyModifier → Input
  shown : Bytes → ℤ → Input

unfoldable pub step_of : Input → Step
step_of (entered words parameter) =
    if is_empty parameter
    then record (plain_step types) { text = words }
    else record (plain_step types) { parameter = parameter }
step_of (struck key ms) = press_step key ms
step_of (shown wanted timeout) = text_step wanted (milliseconds timeout)

-- The parameter has a value, and it is what was typed; each modifier is a single one.
unfoldable pub IsReplayable : (Bytes → Option Bytes) → Input → Type 0
IsReplayable parameters (entered words parameter) =
    (is_empty parameter ≡ true) ⊎ (parameters parameter ≡ some words)
IsReplayable parameters (struck key ms) = all_single ms ≡ true
IsReplayable parameters (shown wanted timeout) = Unit

abbrev pub AllReplayable : (Bytes → Option Bytes) → List Input → Type 0
AllReplayable parameters [] = Unit
AllReplayable parameters (i ∷ is) = IsReplayable parameters i × AllReplayable parameters is

abbrev pub succeeded : {A B : Type 0} → A ⊎ B → Bool
succeeded (inl a) = false
succeeded (inr b) = true

-- What `TypeStep` gives.
pub data TypeStep {E : Type 0} (words parameter : Bytes) : Failure E ⊎ Step → Type 0 where
  refused_step : (e : Failure E) → TypeStep words parameter (inl e)
  given_step :
      (step : Step) → step ≡ step_of (entered words parameter) → TypeStep words parameter (inr step)

pub type_step-TypeStep :
    {E : Type 0} (words parameter : Bytes)
    → TypeStep {E = E} words parameter (type_step words parameter)
unfolding type_step step_of
type_step-TypeStep words parameter = elim (Bool-cases (is_empty words)) [
  | inl e ↦ rw e (refused_step text_required)
  | inr e ↦ elim (Bool-cases (is_empty parameter)) [
    | inl f ↦ rw (e, f) (given_step _ (rw f refl))
    | inr f ↦ elim (Bool-cases (valid_parameter parameter)) [
      | inl g ↦ rw (e, f, g) (given_step _ (rw f refl))
      | inr g ↦ rw (e, f, g) (refused_step bad_parameter)
    ]
  ]
]

module _ {H W E : Type 0} (driver : Driver H W E) where
  -- An input, done on the session without a recording.
  unfoldable pub perform : H → Input → W → W × Option E
  perform h (entered words parameter) w = driver.send h words w
  perform h (struck key ms) w = driver.press h key (distinct ms) w
  perform h (shown wanted timeout) w = driver.wait_for h (milliseconds timeout) wanted w

  -- One input after another, until one fails.
  unfoldable pub perform_all : H → ℕ → List Input → W → W × Option (Failure E)
  perform_all h index [] w = (w, none)
  perform_all h index (i ∷ is) w =
      let (v, e) = perform h i w in
      let rest = perform_all h (index + 1) is v in
      elim e [ some x ↦ (v, some (replaying index (driving x))) | none ↦ rest ]

  abbrev pub record_input : ℕ → Input → Manager H → W → Result driver
  record_input id (entered words parameter) m w = type_text driver id words parameter m w
  record_input id (struck key ms) m w = press_key driver id key ms m w
  record_input id (shown wanted timeout) m w = assert_text driver id wanted timeout m w

  -- The calls of a recording, with the inputs that did not fail.
  unfoldable pub record_all : ℕ → List Input → Manager H → W → (Manager H × W) × List Input
  record_all id [] m w = ((m, w), [])
  record_all id (i ∷ is) m w =
      let ((n, v), r) = record_input id i m w in
      let (end, taken) = record_all id is n v in (end, if succeeded r then i ∷ taken else taken)

  -- The state under the id, after an input that may have failed.
  record Recorded (id : ℕ) (i : Input) (s : RecordingState H) (r : Result driver) : Type 0 where
    state_is : lookup id r.0.0 ≡ some (if succeeded r.1 then appended (step_of i) s else s)

  pub lookup-store :
      (id : ℕ) (b : RecordingState H) (m : Manager H) → lookup id (store id b m) ≡ some b
  unfolding store
  lookup-store id b [] = ground arith
  lookup-store id b ((k, a) ∷ m) = elim (Bool-cases (k == id)) [
    | inl e ↦ rw e (ground arith)
    | inr e ↦ rw (e, e) (lookup-store id b m)
  ]

  module _ (id : ℕ) (s : RecordingState H) (h : H) (m : Manager H) (l : lookup id m ≡ some s) where
    unchanged : (i : Input) (w : W) (e : Failure E) → Recorded id i s ((m, w), inl e)
    unchanged i w e = record { state_is = l }

    append_after-Recorded :
        (i : Input) (r : W × Option E) → Recorded id i s (append_after driver id (step_of i) s m r)
    append_after-Recorded i (w, some e) = unchanged i w (driving e)
    append_after-Recorded i (w, none) = record {
      state_is = lookup-store id (appended (step_of i) s) m;
    }

    type_on-Recorded :
        (words parameter : Bytes) (w : W) (r : Failure E ⊎ Step)
        → find_active {E = E} id m ≡ inr (s, h)
        → TypeStep words parameter r
        → Recorded id (entered words parameter) s (type_with driver id words m w r)
    type_on-Recorded words parameter w r f (refused_step e) =
        unchanged (entered words parameter) w e
    type_on-Recorded words parameter w r f (given_step step q) =
        let P = λ (t : Step) (x : Failure E ⊎ (RecordingState H × H)).
          Recorded id (entered words parameter) s (type_on driver id words t m w x) in
        subst (P step) (sym f) (
          subst (λ t. P t (inr (s, h))) (sym q)
            (append_after-Recorded (entered words parameter) (driver.send h words w)))

    input-Recorded :
        (i : Input) (w : W)
        → find_active {E = E} id m ≡ inr (s, h)
        → Recorded id i s (record_input id i m w)
    unfolding type_text press_key assert_text step_of
    input-Recorded (entered words parameter) w f =
        type_on-Recorded words parameter w (type_step words parameter) f
          (type_step-TypeStep words parameter)
    input-Recorded (struck key ms) w f =
        subst (λ r. Recorded id (struck key ms) s (press_on driver id key ms m w r)) (sym f)
          (append_after-Recorded (struck key ms) (driver.press h key ms w))
    input-Recorded (shown wanted timeout) w f =
        if_both (Recorded id (shown wanted timeout) s) (is_empty wanted)
          (λ _. unchanged (shown wanted timeout) w text_required)
          (λ _.
            if_both (Recorded id (shown wanted timeout) s) (not (ltb 0 (milliseconds timeout)))
              (λ _. unchanged (shown wanted timeout) w timeout_required)
              (λ _.
                subst
                  (λ x.
                    Recorded id (shown wanted timeout) s
                      (assert_on driver id wanted (milliseconds timeout) m w x))
                  (sym f)
                  (if_both (Recorded id (shown wanted timeout) s)
                    (contains (text (driver.screen h w)) wanted)
                    (λ _. append_after-Recorded (shown wanted timeout) (w, none))
                    (λ _. unchanged (shown wanted timeout) w not_shown))))

  -- An active recording, found.
  pub find_active-found :
      (id : ℕ) (m : Manager H) (s : RecordingState H) (h : H)
      → lookup id m ≡ some s
      → s.active ≡ true
      → s.control ≡ some h
      → find_active {E = E} id m ≡ inr (s, h)
  unfolding find_active
  find_active-found id m s h l a c =
      ap (found id) l ∙ ap (active_in id s) c ∙ if_true (inr (s, h)) (inl (not_recording id)) a

  abbrev pub at_steps : RecordingState H → List Step → RecordingState H
  at_steps s steps = record s { recording = record (s.recording) { steps = steps } }

  -- The state with steps appended.
  abbrev pub with_steps : RecordingState H → List Step → RecordingState H
  with_steps s steps = at_steps s (s.recording.steps ++ steps)

  pub record_all-Recorded :
      (id : ℕ) (is : List Input) (m : Manager H) (w : W) (s : RecordingState H) (h : H)
      → lookup id m ≡ some s
      → s.active ≡ true
      → s.control ≡ some h
      → lookup id (record_all id is m w).0.0
        ≡ some (with_steps s (map step_of (record_all id is m w).1))
  unfolding record_all
  record_all-Recorded id [] m w s h l a c =
      l ∙ ap (λ steps. some (at_steps s steps)) (sym (append-nil s.recording.steps))
  record_all-Recorded id (i ∷ is) m w s h l a c =
      let r = record_input id i m w in
      let k = (input-Recorded id s h m l i w (find_active-found id m s h l a c)).state_is in
      elim (Bool-cases (succeeded r.1)) [
        | inl e ↦ rw e (
            record_all-Recorded id is r.0.0 r.0.1 (appended (step_of i) s) h
              (k ∙ ap some (if_true (appended (step_of i) s) s e)) a c
            ∙ ap (λ steps. some (at_steps s steps))
                (append_assoc s.recording.steps (step_of i ∷ [])
                  (map step_of (record_all id is r.0.0 r.0.1).1)))
        | inr e ↦ rw e (
            record_all-Recorded id is r.0.0 r.0.1 s h
              (k ∙ ap some (if_false (appended (step_of i) s) s e)) a c)
      ]
