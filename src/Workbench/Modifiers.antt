-- ===== src/Workbench/Modifiers.antt =====
-- workbench/recording.go: the names of modifiers, read back.
use tuicast.Prelude.{
  ◌≡◌, refl, ap, ◌∙◌, Bool, true, false, ◌||◌, ◌&&◌, Option, none, some, List, [], ◌∷◌, ◌==◌,
  if◌then◌else◌, ◌⊎◌, inl, inr, arith, Bool-cases,
}
use tuicast.Keys.{KeyModifier, modifier_shift, modifier_alt, modifier_control}
use tuicast.Workbench.{
  ModifierName, shift_name, alt_name, meta_name, control_name, unknown_name, Failure,
  unknown_modifier, name_of, is_seen, names_from, modifier_names,
}

-- One name, in the `switch` of `parseModifiers`.
abbrev pub parse_name : ModifierName → Option KeyModifier
parse_name shift_name = some modifier_shift
parse_name alt_name = some modifier_alt
parse_name meta_name = some modifier_alt
parse_name control_name = some modifier_control
parse_name _ = none

abbrev pub with_modifier :
    {E : Type 0} → KeyModifier → Failure E ⊎ List KeyModifier → Failure E ⊎ List KeyModifier
with_modifier m (inl e) = inl e
with_modifier m (inr ms) = inr (m ∷ ms)

unfoldable pub parse_modifiers : {E : Type 0} → List ModifierName → Failure E ⊎ List KeyModifier
parse_modifiers [] = inr []
parse_modifiers (name ∷ names) =
    let rest = parse_modifiers names in
    elim (parse_name name) [ none ↦ inl (unknown_modifier name) | some m ↦ with_modifier m rest ]

-- One of the three modifiers by itself.
abbrev pub is_single : KeyModifier → Bool
is_single m = m == modifier_shift || (m == modifier_alt || m == modifier_control)

-- The list without repetitions of what was seen before.
unfoldable pub distinct_from : List KeyModifier → List KeyModifier → List KeyModifier
distinct_from seen [] = []
distinct_from seen (m ∷ ms) =
    let skipped = distinct_from seen ms in
    let kept = distinct_from (m ∷ seen) ms in if is_seen seen m then skipped else m ∷ kept

abbrev pub distinct : List KeyModifier → List KeyModifier
distinct ms = distinct_from [] ms

-- The modifiers read back, up to the first that is not a single one.
unfoldable pub singles : {E : Type 0} → List KeyModifier → Failure E ⊎ List KeyModifier
singles [] = inr []
singles (m ∷ ms) =
    let rest = singles ms in
    if is_single m then with_modifier m rest else inl (unknown_modifier (unknown_name m))

parse-name_single : (m : KeyModifier) → is_single m ≡ true → parse_name (name_of m) ≡ some m
unfolding name_of
parse-name_single m e = ground arith

parse-name_combined : (m : KeyModifier) → is_single m ≡ false → name_of m ≡ unknown_name m
unfolding name_of
parse-name_combined m e = ground arith

parse-cons_some :
    {E : Type 0} (name : ModifierName) (names : List ModifierName) (m : KeyModifier)
    → parse_name name ≡ some m
    → parse_modifiers {E = E} (name ∷ names) ≡ with_modifier m (parse_modifiers names)
unfolding parse_modifiers
parse-cons_some name names m e = rw (e, parse_modifiers) refl

parse-names_from :
    {E : Type 0} (seen ms : List KeyModifier)
    → parse_modifiers {E = E} (names_from seen ms) ≡ singles (distinct_from seen ms)
unfolding names_from distinct_from singles parse_modifiers
parse-names_from seen [] = refl
parse-names_from seen (m ∷ ms) = elim (Bool-cases (is_seen seen m)) [
  | inl e ↦ rw e (parse-names_from seen ms)
  | inr e ↦ elim (Bool-cases (is_single m)) [
    | inl f ↦
        rw (e, f)
          (parse-cons_some (name_of m) (names_from (m ∷ seen) ms) m (parse-name_single m f)
            ∙ ap (with_modifier m) (parse-names_from (m ∷ seen) ms))
    | inr f ↦ rw (e, f, parse-name_combined m f) refl
  ]
]

-- The names of a recorded press are read back as its modifiers without repetitions, when each is one
-- of Shift, Alt and Control; with any other, a combination of them included, reading fails at the
-- first such.
pub parse-modifier_names :
    {E : Type 0} (ms : List KeyModifier)
    → parse_modifiers {E = E} (modifier_names ms) ≡ singles (distinct ms)
parse-modifier_names ms = parse-names_from [] ms

abbrev pub all_single : List KeyModifier → Bool
all_single [] = true
all_single (m ∷ ms) = is_single m && all_single ms

both : {a b : Bool} → (a && b) ≡ true → (a ≡ true) × (b ≡ true)
both {a = true} e = (refl, e)
both {a = false} e = absurd cc

singles-distinct_from :
    {E : Type 0} (seen ms : List KeyModifier)
    → all_single ms ≡ true
    → singles {E = E} (distinct_from seen ms) ≡ inr (distinct_from seen ms)
unfolding singles distinct_from
singles-distinct_from seen [] e = refl
singles-distinct_from seen (m ∷ ms) e =
    let (f, g) = both {a = is_single m} e in
    elim (Bool-cases (is_seen seen m)) [
      | inl q ↦ rw q (singles-distinct_from seen ms g)
      | inr q ↦ rw (q, f) (ap (with_modifier m) (singles-distinct_from (m ∷ seen) ms g))
    ]

pub parse-all_single :
    {E : Type 0} (ms : List KeyModifier)
    → all_single ms ≡ true
    → parse_modifiers {E = E} (modifier_names ms) ≡ inr (distinct ms)
parse-all_single ms e = parse-modifier_names ms ∙ singles-distinct_from [] ms e
