-- ===== src/Matcher/Tests.antt =====
-- Runs of the matcher model.
use tuicast.Prelude.{ℕ, ◌≡◌, ◌≤◌, refl, Bool, true, none, some, [], ◌∷◌, arith}
use tuicast.Prelude.Int.{pos}
use tuicast.Screen.{Screen, Cell, default_color, text, text_from, line, line_from, cell_at}
use tuicast.Matcher.{
  succeeds, contains, has_prefix, same_int, match_contains, match_cursor, MatcherSpec, spec,
  nil_slice, nil_pointer, rejected, built, not_one, screen_matcher, screen_matcher_at_depth,
}
use tuicast.Matcher.Expectation.{
  Expectation, shows, cursor_is, every, never, also, no_more, holds, levels, to_spec,
}
use tuicast.Matcher.Builds.{screen_matcher-to_spec}
use tuicast.Matcher.Accepts.{screen_matcher_accepts}

abbrev letter : ℕ → Cell
letter c = record {
  text = c ∷ [];
  width = 1;
  foreground = default_color;
  background = default_color;
  attributes = 0;
}

abbrev shown : Screen
shown = record {
  width = 2;
  height = 2;
  cells = letter b'o' ∷ letter b'k' ∷ letter b'?' ∷ letter b' ' ∷ [];
  cursor = record { column = 1; row = 1; visible = true };
  revision = 1;
  title = [];
}

-- The text contains `k`, a line's end and `?`, and the cursor is not at 0, 0.
abbrev expected : Expectation
expected =
    every (shows (b'k' ∷ b'\n' ∷ b'?' ∷ [])) (also (never (cursor_is (pos 0) (pos 0))) no_more)

holds-expected : holds expected shown ≡ true
unfolding holds match_contains contains has_prefix text text_from line line_from cell_at
    match_cursor same_int
holds-expected = refl

levels-expected : levels expected ≤ 64
unfolding levels
levels-expected = omega arith

screen_matcher-to_spec_example :
    (test : Screen → Bool) × (screen_matcher (to_spec expected) ≡ built (some test))
    × ((screen : Screen) → test screen ≡ holds expected screen)
screen_matcher-to_spec_example = screen_matcher-to_spec expected levels-expected

-- `{"cursor": {"column": 1, "row": 1}}`
abbrev at_end : MatcherSpec
at_end =
    spec none none (some (record { column = pos 1; row = pos 1 })) nil_slice nil_slice nil_pointer

at_end_built : screen_matcher at_end ≡ built (some (match_cursor (pos 1) (pos 1)))
unfolding screen_matcher_at_depth
at_end_built = refl

screen_matcher_accepts_example :
    (e : Expectation) × (at_end ≡ to_spec e)
    × (levels e ≤ 64)
    × ((screen : Screen) → succeeds (some (match_cursor (pos 1) (pos 1))) screen ≡ holds e screen)
screen_matcher_accepts_example = screen_matcher_accepts at_end at_end_built

-- Two fields are one too many.
two_fields :
    screen_matcher (
      spec
        (some [])
        none
        (some (record { column = pos 1; row = pos 1 }))
        nil_slice
        nil_slice
        nil_pointer)
    ≡ rejected not_one
unfolding screen_matcher_at_depth
two_fields = refl
