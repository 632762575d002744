-- ===== src/Workbench/Secrets.antt =====
-- workbench/recording.go: what a recording keeps of a text that is typed under a parameter.
use tuicast.Prelude.{ℕ, ◌≡◌, refl, sym, ap, ◌∙◌, false, Option, none, some, ◌⊎◌, inl, inr, Bytes}
use tuicast.Workbench.{Driver, Failure, Step, Recording, is_empty, type_step}
use tuicast.Workbench.Manager.{
  Manager, RecordingState, find_active, appended, append_after, type_on, type_with, type_text,
}
use tuicast.Workbench.Trace.{
  step_of, entered, TypeStep, refused_step, given_step, type_step-TypeStep,
}

module _ {H W E : Type 0} (driver : Driver H W E) (id : ℕ) (m : Manager H) (w : W) where
  abbrev recorded_as : Step → Failure E ⊎ (RecordingState H × H) → Option Recording
  recorded_as step (inl e) = none
  recorded_as step (inr (s, h)) = some (appended step s).recording

  append_after-recorded :
      (step : Step) (s : RecordingState H) (x : W × Option E) (r : Recording)
      → (append_after driver id step s m x).1 ≡ inr r
      → some (appended step s).recording ≡ some r
  append_after-recorded step s (v, none) r e = cc
  append_after-recorded step s (v, some x) r e = absurd cc

  type_on-recorded :
      (words : Bytes) (step : Step) (x : Failure E ⊎ (RecordingState H × H)) (r : Recording)
      → (type_on driver id words step m w x).1 ≡ inr r
      → recorded_as step x ≡ some r
  type_on-recorded words step (inl x) r e = absurd cc
  type_on-recorded words step (inr (s, h)) r e =
      append_after-recorded step s (driver.send h words w) r e

  type_with-recorded :
      (words parameter : Bytes) (x : Failure E ⊎ Step) (r : Recording)
      → TypeStep words parameter x
      → (type_with driver id words m w x).1 ≡ inr r
      → recorded_as (step_of (entered words parameter)) (find_active id m) ≡ some r
  type_with-recorded words parameter x r (refused_step f) e = absurd cc
  type_with-recorded words parameter x r (given_step step q) e =
      ap (λ t. recorded_as t (find_active id m)) (sym q)
      ∙ type_on-recorded words step (find_active id m) r e

  hidden :
      (words others parameter : Bytes)
      → is_empty parameter ≡ false
      → step_of (entered words parameter) ≡ step_of (entered others parameter)
  unfolding step_of
  hidden words others parameter e = rw e refl

  -- What is recorded of a text that is typed under a parameter does not depend on the text: two texts,
  -- typed in the same state, leave the same recording, when both are taken.
  pub secrets_hidden :
      (words others parameter : Bytes) (r q : Recording)
      → is_empty parameter ≡ false
      → (type_text driver id words parameter m w).1 ≡ inr r
      → (type_text driver id others parameter m w).1 ≡ inr q
      → r ≡ q
  unfolding type_text
  secrets_hidden words others parameter r q n e f =
      let a =
        type_with-recorded words parameter (type_step words parameter) r
          (type_step-TypeStep words parameter) e in
      let b =
        type_with-recorded others parameter (type_step others parameter) q
          (type_step-TypeStep others parameter) f in
      let c = ap (λ t. recorded_as t (find_active id m)) (hidden words others parameter n) in
      let d : some r ≡ some q = sym a ∙ c ∙ b in cc
