-- ===== src/Matcher/Expectation.antt =====
-- matcher.go: what a well-formed matcher specification says, as an expression of its own. Its
-- connectives are written out anew; its leaves are the matcher's own tests of one screen.
use tuicast.Prelude.{ℕ, ◌+◌, max, Bool, true, false, ◌&&◌, ◌||◌, not, none, some}
use tuicast.Prelude.Int.{ℤ}
use tuicast.Screen.{Screen}
use tuicast.Matcher.{
  Text, match_contains, match_line, match_cursor, MatcherSpec, spec, nil_slice, slice_of, Specs,
  no_specs, more, nil_pointer, pointer,
}

-- `All` and `Any` have a first child and others.
mutual
  pub data Expectation : Type 0 where
    shows : Text → Expectation
    line_is : ℤ → Text → Expectation
    cursor_is : ℤ → ℤ → Expectation
    every : Expectation → Expectations → Expectation
    either : Expectation → Expectations → Expectation
    never : Expectation → Expectation

  pub data Expectations : Type 0 where
    no_more : Expectations
    also : Expectation → Expectations → Expectations

unfoldable mutual
  pub holds : Expectation → Screen → Bool
  holds (shows wanted) screen = match_contains wanted screen
  holds (line_is row wanted) screen = match_line row wanted screen
  holds (cursor_is column row) screen = match_cursor column row screen
  holds (every e es) screen = holds e screen && all_hold es screen
  holds (either e es) screen = holds e screen || any_holds es screen
  holds (never e) screen = not (holds e screen)

  pub all_hold : Expectations → Screen → Bool
  all_hold no_more screen = true
  all_hold (also e es) screen = holds e screen && all_hold es screen

  pub any_holds : Expectations → Screen → Bool
  any_holds no_more screen = false
  any_holds (also e es) screen = holds e screen || any_holds es screen

-- How many levels stand below the outermost.
unfoldable mutual
  pub levels : Expectation → ℕ
  levels (every e es) = max (1 + levels e) (levels_of es)
  levels (either e es) = max (1 + levels e) (levels_of es)
  levels (never e) = 1 + levels e
  levels _ = 0

  pub levels_of : Expectations → ℕ
  levels_of no_more = 0
  levels_of (also e es) = max (1 + levels e) (levels_of es)

-- The specification that says it.
unfoldable mutual
  pub to_spec : Expectation → MatcherSpec
  to_spec (shows wanted) = spec (some wanted) none none nil_slice nil_slice nil_pointer
  to_spec (line_is row wanted) =
      spec none (some (record { row = row; text = wanted })) none nil_slice nil_slice nil_pointer
  to_spec (cursor_is column row) =
      spec none none (some (record { column = column; row = row })) nil_slice nil_slice nil_pointer
  to_spec (every e es) =
      spec none none none (slice_of (more (to_spec e) (to_specs es))) nil_slice nil_pointer
  to_spec (either e es) =
      spec none none none nil_slice (slice_of (more (to_spec e) (to_specs es))) nil_pointer
  to_spec (never e) = spec none none none nil_slice nil_slice (pointer (to_spec e))

  pub to_specs : Expectations → Specs
  to_specs no_more = no_specs
  to_specs (also e es) = more (to_spec e) (to_specs es)
