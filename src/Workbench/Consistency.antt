-- ===== src/Workbench/Consistency.antt =====
-- workbench/recording.go: the controls that the recordings of a manager hold.
use mathlib.Core.Path.{subst}
use tuicast.Prelude.{
  ℕ, ◌+◌, ◌≡◌, refl, sym, ap, ◌∙◌, Bool, true, false, Option, none, some, [], ◌∷◌, ◌==◌,
  if◌then◌else◌, ◌⊎◌, inl, inr, arith, Bool-cases,
}
use tuicast.Ansi.Valid.{if_both}
use tuicast.Workbench.{Failure, nil_control, no_recording, not_recording}
use tuicast.Workbench.Manager.{
  Manager, RecordingState, found, active_in, lookup, store, find_active,
}

abbrev pub is_panic : {E : Type 0} → Option (Failure E) → Bool
is_panic (some nil_control) = true
is_panic _ = false

-- A recording holds a control while it is active, and at no other time.
pub data IsConsistent {H : Type 0} (s : RecordingState H) : Type 0 where
  holding : (h : H) → s.active ≡ true → s.control ≡ some h → IsConsistent s
  idle : s.active ≡ false → s.control ≡ none → IsConsistent s

abbrev pub AllConsistent : {H : Type 0} → Manager H → Type 0
AllConsistent [] = Unit
AllConsistent ((id, s) ∷ states) = IsConsistent s × AllConsistent states

-- How often the control `k` is held, by one recording and by all.
abbrev pub held_by : {H : Type 0} → (H → H → Bool) → H → Option H → ℕ
held_by same k none = 0
held_by same k (some h) = if same h k then 1 else 0

unfoldable pub held : {H : Type 0} → (H → H → Bool) → H → Manager H → ℕ
held same k [] = 0
held same k ((id, s) ∷ states) = held_by same k s.control + held same k states

-- What `find_active` gives for a consistent manager.
pub data Found {H E : Type 0} (id : ℕ) (m : Manager H)
    : Failure E ⊎ (RecordingState H × H) → Type 0 where
  absent : (e : Failure E) → is_panic (some e) ≡ false → Found id m (inl e)
  present :
      (s : RecordingState H) (h : H)
      → lookup id m ≡ some s
      → s.active ≡ true
      → s.control ≡ some h
      → Found id m (inr (s, h))

module _ {A : Type 0} where
  pub if_true : (x y : A) {b : Bool} → b ≡ true → (if b then x else y) ≡ x
  if_true x y e = rw e refl

  pub if_false : (x y : A) {b : Bool} → b ≡ false → (if b then x else y) ≡ y
  if_false x y e = rw e refl

module _ {H : Type 0} where
  pub lookup-IsConsistent :
      (id : ℕ) (m : Manager H) (s : RecordingState H)
      → AllConsistent m
      → lookup id m ≡ some s
      → IsConsistent s
  lookup-IsConsistent id [] s c e = absurd cc
  lookup-IsConsistent id ((k, a) ∷ m) s (c, cs) e = elim (Bool-cases (k == id)) [
    | inl f ↦ let same : a ≡ s = cc in subst IsConsistent same c
    | inr f ↦ lookup-IsConsistent id m s cs (rw f at e)
  ]

  pub store-AllConsistent :
      (id : ℕ) (b : RecordingState H) (m : Manager H)
      → IsConsistent b
      → AllConsistent m
      → AllConsistent (store id b m)
  unfolding store
  store-AllConsistent id b [] k c = (k, tt)
  store-AllConsistent id b ((j, a) ∷ m) k (c, cs) =
      if_both AllConsistent (j == id) (λ _. (k, cs)) (λ _. (c, store-AllConsistent id b m k cs))

  active_in-Found :
      {E : Type 0} (id : ℕ) (m : Manager H) (s : RecordingState H)
      → lookup id m ≡ some s
      → IsConsistent s
      → Found {H = H} {E = E} id m (active_in id s s.control)
  active_in-Found id m s e (holding h a c) =
      subst (Found id m)
        (sym (ap (active_in id s) c ∙ if_true (inr (s, h)) (inl (not_recording id)) a))
        (present s h e a c)
  active_in-Found id m s e (idle a c) =
      subst (Found id m)
        (sym (ap (active_in id s) c ∙ if_false (inl nil_control) (inl (not_recording id)) a))
        (absent (not_recording id) refl)

  found-Found :
      {E : Type 0} (id : ℕ) (m : Manager H) (o : Option (RecordingState H))
      → lookup id m ≡ o
      → AllConsistent m
      → Found {H = H} {E = E} id m (found id o)
  found-Found id m none e c = absent (no_recording id) refl
  found-Found id m (some s) e c = active_in-Found id m s e (lookup-IsConsistent id m s c e)

  pub find_active-Found :
      {E : Type 0} (id : ℕ) (m : Manager H)
      → AllConsistent m
      → Found {H = H} {E = E} id m (find_active id m)
  unfolding find_active
  find_active-Found id m c = found-Found id m (lookup id m) refl c

module _ {H : Type 0} (same : H → H → Bool) (k : H) where
  abbrev pub weight : Option (RecordingState H) → ℕ
  weight none = 0
  weight (some s) = held_by same k s.control

  pub store-held :
      (id : ℕ) (b : RecordingState H) (m : Manager H)
      → held same k (store id b m) + weight (lookup id m) ≡ held same k m + held_by same k b.control
  unfolding store held
  store-held id b [] = omega arith
  store-held id b ((j, a) ∷ m) = elim (Bool-cases (j == id)) [
    | inl e ↦ rw e (omega arith)
    | inr e ↦ rw e (omega (arith, store-held id b m))
  ]
