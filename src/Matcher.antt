-- ===== src/Matcher.antt =====
-- matcher.go: screen matchers, and the serializable expectations that they are built from. A
-- matcher's description, which only error messages show, is not modelled.
pub mod Expectation
pub mod Builds
pub mod Accepts
mod Tests
use tuicast.Prelude.{
  ℕ, ◌+◌, Bool, true, false, ◌&&◌, ◌||◌, not, Option, none, some, List, [], ◌∷◌, ltb, ◌==◌,
  if◌then◌else◌,
}
use tuicast.Prelude.Int.{ℤ, pos, negsuc, ltb_ℤ}
use tuicast.Screen.{Screen, line, text}

abbrev pub Text : Type 0
Text = List ℕ

-- A `ScreenMatcher`, which may be nil.
abbrev pub ScreenMatcher : Type 0
ScreenMatcher = Option (Screen → Bool)

unfoldable pub same_text : Text → Text → Bool
same_text [] [] = true
same_text (x ∷ xs) (y ∷ ys) = x == y && same_text xs ys
same_text _ _ = false

unfoldable pub has_prefix : Text → Text → Bool
has_prefix s [] = true
has_prefix [] (y ∷ ys) = false
has_prefix (x ∷ xs) (y ∷ ys) = x == y && has_prefix xs ys

-- `strings.Contains`
unfoldable pub contains : Text → Text → Bool
contains [] wanted = has_prefix [] wanted
contains (x ∷ xs) wanted = has_prefix (x ∷ xs) wanted || contains xs wanted

-- `==` of two `int`s
unfoldable pub same_int : ℤ → ℤ → Bool
same_int (pos m) (pos n) = m == n
same_int (negsuc m) (negsuc n) = m == n
same_int _ _ = false

-- The functions that `ScreenContains`, `ScreenLineEquals` and `CursorAt` put into their matchers.
unfoldable pub match_contains : Text → Screen → Bool
match_contains wanted screen = contains (text screen) wanted

unfoldable pub match_line : ℤ → Text → Screen → Bool
match_line row wanted screen =
    not (ltb_ℤ row (pos 0)) && (ltb_ℤ row (pos screen.height) && same_text (line screen row) wanted)

unfoldable pub match_cursor : ℤ → ℤ → Screen → Bool
match_cursor column row screen =
    same_int (pos screen.cursor.column) column && same_int (pos screen.cursor.row) row

-- `matcher != nil && matcher.Match(screen)`
abbrev pub succeeds : ScreenMatcher → Screen → Bool
succeeds none screen = false
succeeds (some m) screen = m screen

-- The loops of `AllOf` and `AnyOf`, and `Not`.
unfoldable pub match_all : List ScreenMatcher → Screen → Bool
match_all [] screen = true
match_all (m ∷ ms) screen = if not (succeeds m screen) then false else match_all ms screen

unfoldable pub match_any : List ScreenMatcher → Screen → Bool
match_any [] screen = false
match_any (m ∷ ms) screen = if succeeds m screen then true else match_any ms screen

unfoldable pub match_not : ScreenMatcher → Screen → Bool
match_not none screen = false
match_not (some m) screen = not (m screen)

pub record LineMatcherSpec : Type 0 where
  pub row : ℤ
  pub text : Text

pub record CursorMatcherSpec : Type 0 where
  pub column : ℤ
  pub row : ℤ

-- The fields are `Contains`, `Line`, `Cursor`, `All`, `Any` and `Not`; each may be nil, and a slice
-- may be empty without being nil.
mutual
  pub data MatcherSpec : Type 0 where
    spec :
        Option Text
        → Option LineMatcherSpec
        → Option CursorMatcherSpec
        → SpecSlice
        → SpecSlice
        → SpecPointer
        → MatcherSpec

  pub data SpecSlice : Type 0 where
    nil_slice : SpecSlice
    slice_of : Specs → SpecSlice

  pub data Specs : Type 0 where
    no_specs : Specs
    more : MatcherSpec → Specs → Specs

  pub data SpecPointer : Type 0 where
    nil_pointer : SpecPointer
    pointer : MatcherSpec → SpecPointer

abbrev pub maximum_matcher_spec_depth : ℕ
maximum_matcher_spec_depth = 64

pub data MatcherError : Type 0 where
  too_deep not_one no_children : MatcherError

pub data Built (A : Type 0) : Type 0 where
  rejected : MatcherError → Built A
  built : A → Built A

-- `if err != nil { return nil, err }`, and what follows.
abbrev pub and_then : {A B : Type 0} → Built A → (A → Built B) → Built B
and_then (rejected e) k = rejected e
and_then (built a) k = k a

abbrev pub wrap : {A : Type 0} → (A → Screen → Bool) → Built A → Built ScreenMatcher
wrap f r = and_then r (λ a. built (some (f a)))

abbrev bit : Bool → ℕ
bit true = 1
bit false = 0

abbrev pub is_some : {A : Type 0} → Option A → Bool
is_some none = false
is_some (some _) = true

abbrev pub is_slice : SpecSlice → Bool
is_slice nil_slice = false
is_slice (slice_of _) = true

abbrev pub is_pointer : SpecPointer → Bool
is_pointer nil_pointer = false
is_pointer (pointer _) = true

-- The loop that counts the fields that are set.
abbrev pub count_set : MatcherSpec → ℕ
count_set (spec wanted at_line cursor all any negated) =
    bit (is_some wanted)
    + (bit (is_some at_line)
        + (bit (is_some cursor)
            + (bit (is_slice all) + (bit (is_slice any) + bit (is_pointer negated)))))

unfoldable mutual
  pub screen_matcher_at_depth : MatcherSpec → ℕ → Built ScreenMatcher
  screen_matcher_at_depth (spec wanted at_line cursor all any negated) depth =
      let one = build_negated negated depth in
      let every = child_slice all depth in
      let either = child_slice any depth in
      if ltb maximum_matcher_spec_depth depth
      then rejected too_deep
      else if not (count_set (spec wanted at_line cursor all any negated) == 1)
      then rejected not_one
      else elim wanted [
        | some w ↦ built (some (match_contains w))
        | none ↦ elim at_line [
          | some l ↦ built (some (match_line l.row l.text))
          | none ↦ elim cursor [
            | some c ↦ built (some (match_cursor c.column c.row))
            | none ↦
                if is_pointer negated
                then wrap match_not one
                else if is_slice all
                then wrap match_all every
                else wrap match_any either
          ]
        ]
      ]

  -- `s.Not.screenMatcherAtDepth(depth + 1)`; the code does not come here for a nil pointer.
  pub build_negated : SpecPointer → ℕ → Built ScreenMatcher
  build_negated nil_pointer depth = built none
  build_negated (pointer s) depth = screen_matcher_at_depth s (depth + 1)

  -- `childScreenMatchers`: a nil slice has no elements.
  pub child_slice : SpecSlice → ℕ → Built (List ScreenMatcher)
  child_slice nil_slice depth = rejected no_children
  child_slice (slice_of specs) depth = child_screen_matchers specs depth

  pub child_screen_matchers : Specs → ℕ → Built (List ScreenMatcher)
  child_screen_matchers no_specs depth = rejected no_children
  child_screen_matchers (more s specs) depth =
      and_then (screen_matcher_at_depth s (depth + 1))
        (λ m. and_then (build_each specs depth) (λ ms. built (m ∷ ms)))

  -- The loop of `childScreenMatchers`.
  pub build_each : Specs → ℕ → Built (List ScreenMatcher)
  build_each no_specs depth = built []
  build_each (more s specs) depth =
      and_then (screen_matcher_at_depth s (depth + 1))
        (λ m. and_then (build_each specs depth) (λ ms. built (m ∷ ms)))

-- `ScreenMatcher`
abbrev pub screen_matcher : MatcherSpec → Built ScreenMatcher
screen_matcher s = screen_matcher_at_depth s 0
