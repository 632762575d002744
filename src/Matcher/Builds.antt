-- ===== src/Matcher/Builds.antt =====
-- Which specifications `MatcherSpec.ScreenMatcher` accepts, and what the matchers test.
use tuicast.Prelude.{ℕ, ◌+◌, ◌≤◌, ◌≡◌, refl, Bool, false, none, some, List, [], ◌∷◌, arith, ltb}
use tuicast.Screen.{Screen}
use tuicast.Matcher.{
  ScreenMatcher, match_all, match_any, match_not, match_contains, match_line, match_cursor,
  MatcherSpec, spec, nil_slice, slice_of, Specs, more, nil_pointer, pointer,
  maximum_matcher_spec_depth, built, screen_matcher_at_depth, child_screen_matchers, build_each,
  screen_matcher,
}
use tuicast.Matcher.Expectation.{
  Expectation, shows, line_is, cursor_is, every, either, never, Expectations, no_more, also, holds,
  all_hold, any_holds, levels, levels_of, to_spec, to_specs,
}

-- The code builds a matcher for `e`, and it succeeds where `e` holds.
pub record Builds (e : Expectation) (depth : ℕ) : Type 0 where
  pub test : Screen → Bool
  pub builds : screen_matcher_at_depth (to_spec e) depth ≡ built (some test)
  pub tests : (screen : Screen) → test screen ≡ holds e screen

record BuildsEach (es : Expectations) (depth : ℕ) : Type 0 where
  matchers : List ScreenMatcher
  builds_each : build_each (to_specs es) depth ≡ built matchers
  tests_all : (screen : Screen) → match_all matchers screen ≡ all_hold es screen
  tests_any : (screen : Screen) → match_any matchers screen ≡ any_holds es screen

-- The code's steps for a specification whose parts are known to be built.
build-more :
    (s : MatcherSpec) (specs : Specs) (depth : ℕ) {m : ScreenMatcher} {ms : List ScreenMatcher}
    → screen_matcher_at_depth s (depth + 1) ≡ built m
    → build_each specs depth ≡ built ms
    → child_screen_matchers (more s specs) depth ≡ built (m ∷ ms)
unfolding child_screen_matchers
build-more s specs depth h k = rw h (rw k refl)

build_each-more :
    (s : MatcherSpec) (specs : Specs) (depth : ℕ) {m : ScreenMatcher} {ms : List ScreenMatcher}
    → screen_matcher_at_depth s (depth + 1) ≡ built m
    → build_each specs depth ≡ built ms
    → build_each (more s specs) depth ≡ built (m ∷ ms)
unfolding build_each
build_each-more s specs depth h k = rw h (rw k refl)

within_depth : (depth : ℕ) → depth ≤ 64 → ltb maximum_matcher_spec_depth depth ≡ false
within_depth depth h = ground arith

build-every :
    (specs : Specs) (depth : ℕ) {ms : List ScreenMatcher}
    → depth ≤ 64
    → child_screen_matchers specs depth ≡ built ms
    → screen_matcher_at_depth (spec none none none (slice_of specs) nil_slice nil_pointer) depth
      ≡ built (some (match_all ms))
unfolding screen_matcher_at_depth
build-every specs depth h k = rw (within_depth depth h) (rw k refl)

build-either :
    (specs : Specs) (depth : ℕ) {ms : List ScreenMatcher}
    → depth ≤ 64
    → child_screen_matchers specs depth ≡ built ms
    → screen_matcher_at_depth (spec none none none nil_slice (slice_of specs) nil_pointer) depth
      ≡ built (some (match_any ms))
unfolding screen_matcher_at_depth
build-either specs depth h k = rw (within_depth depth h) (rw k refl)

build-never :
    (s : MatcherSpec) (depth : ℕ) {m : ScreenMatcher}
    → depth ≤ 64
    → screen_matcher_at_depth s (depth + 1) ≡ built m
    → screen_matcher_at_depth (spec none none none nil_slice nil_slice (pointer s)) depth
      ≡ built (some (match_not m))
unfolding screen_matcher_at_depth
build-never s depth h k = rw (within_depth depth h) (rw k refl)

mutual
  unfolding screen_matcher_at_depth holds levels to_spec match_all match_any match_not

  to_spec-Builds : (e : Expectation) (depth : ℕ) → depth + levels e ≤ 64 → Builds e depth
  to_spec-Builds (shows wanted) depth h = record {
    test = match_contains wanted;
    builds = ground arith;
    tests = λ _. refl;
  }
  to_spec-Builds (line_is row wanted) depth h = record {
    test = match_line row wanted;
    builds = ground arith;
    tests = λ _. refl;
  }
  to_spec-Builds (cursor_is column row) depth h = record {
    test = match_cursor column row;
    builds = ground arith;
    tests = λ _. refl;
  }
  to_spec-Builds (never e) depth h =
      let b = to_spec-Builds e (depth + 1) (omega arith) in
      record {
        test = match_not (some b.test);
        builds = build-never (to_spec e) depth (omega arith) b.builds;
        tests = λ screen. ground (arith, b.tests screen);
      }
  to_spec-Builds (every e es) depth h =
      let b = to_spec-Builds e (depth + 1) (omega arith) in
      let bs = to_specs-BuildsEach es depth (omega arith) in
      record {
        test = match_all (some b.test ∷ bs.matchers);
        builds =
            build-every (more (to_spec e) (to_specs es)) depth (omega arith)
              (build-more (to_spec e) (to_specs es) depth b.builds bs.builds_each);
        tests = λ screen. ground (arith, b.tests screen, bs.tests_all screen);
      }
  to_spec-Builds (either e es) depth h =
      let b = to_spec-Builds e (depth + 1) (omega arith) in
      let bs = to_specs-BuildsEach es depth (omega arith) in
      record {
        test = match_any (some b.test ∷ bs.matchers);
        builds =
            build-either (more (to_spec e) (to_specs es)) depth (omega arith)
              (build-more (to_spec e) (to_specs es) depth b.builds bs.builds_each);
        tests = λ screen. ground (arith, b.tests screen, bs.tests_any screen);
      }

  to_specs-BuildsEach :
      (es : Expectations) (depth : ℕ) → depth + levels_of es ≤ 64 → BuildsEach es depth
  to_specs-BuildsEach no_more depth h = record {
    matchers = [];
    builds_each = refl;
    tests_all = λ _. refl;
    tests_any = λ _. refl;
  }
  to_specs-BuildsEach (also e es) depth h =
      let b = to_spec-Builds e (depth + 1) (omega arith) in
      let bs = to_specs-BuildsEach es depth (omega arith) in
      record {
        matchers = some b.test ∷ bs.matchers;
        builds_each = build_each-more (to_spec e) (to_specs es) depth b.builds bs.builds_each;
        tests_all = λ screen. ground (arith, b.tests screen, bs.tests_all screen);
        tests_any = λ screen. ground (arith, b.tests screen, bs.tests_any screen);
      }

-- An expectation of at most 64 levels below the outermost is built from its specification, and the
-- matcher succeeds on exactly the screens where the expectation holds.
pub screen_matcher-to_spec :
    (e : Expectation)
    → levels e ≤ 64
    → (test : Screen → Bool) × (screen_matcher (to_spec e) ≡ built (some test))
      × ((screen : Screen) → test screen ≡ holds e screen)
screen_matcher-to_spec e h = let b = to_spec-Builds e 0 (omega arith) in (b.test, b.builds, b.tests)
