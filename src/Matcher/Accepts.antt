-- ===== src/Matcher/Accepts.antt =====
-- matcher.go: the specifications that `MatcherSpec.ScreenMatcher` accepts.
use tuicast.Prelude.{
  ℕ, ◌+◌, ◌≤◌, ◌≡◌, refl, ap, sym, ◌∙◌, max, not, none, some, List, if◌then◌else◌, arith, ltb, ◌==◌,
}
use tuicast.Screen.{Screen}
use tuicast.Matcher.{
  ScreenMatcher, succeeds, MatcherSpec, spec, nil_slice, slice_of, Specs, no_specs, more,
  nil_pointer, pointer, maximum_matcher_spec_depth, too_deep, not_one, Built, rejected, built,
  and_then, screen_matcher_at_depth, child_screen_matchers, build_each, screen_matcher, count_set,
}
use tuicast.Matcher.Expectation.{
  Expectation, shows, line_is, cursor_is, every, either, never, Expectations, no_more, also, holds,
  levels, levels_of, to_spec, to_specs,
}
use tuicast.Matcher.Builds.{screen_matcher-to_spec}

built-injective : {A : Type 0} {a b : A} → built a ≡ built b → a ≡ b
built-injective e = cc

-- A step that is built is built from a part that is built.
and_then-built :
    {A B : Type 0} (r : Built A) {k : A → Built B} {b : B}
    → and_then r k ≡ built b
    → (a : A) × (r ≡ built a) × (k a ≡ built b)
and_then-built (rejected e) h = cc
and_then-built (built a) h = (a, refl, h)

-- What passes the guard on the depth.
passes-depth :
    {A : Type 0} (depth : ℕ) (r : Built A) {a : A}
    → (if ltb maximum_matcher_spec_depth depth then rejected too_deep else r) ≡ built a
    → (depth ≤ 64) × (r ≡ built a)
passes-depth depth r h = ground arith

passes-one :
    {A : Type 0} (count : ℕ) (r : Built A) {a : A}
    → (if not (count == 1) then rejected not_one else r) ≡ built a
    → count ≡ 1
passes-one count r h = ground arith

passes-count :
    (s : MatcherSpec) (depth : ℕ) {m : ScreenMatcher}
    → screen_matcher_at_depth s depth ≡ built m
    → count_set s ≡ 1
unfolding screen_matcher_at_depth
passes-count (spec wanted at_line cursor all any negated) depth h =
    passes-one (count_set (spec wanted at_line cursor all any negated)) _ (passes-depth depth _ h).1

-- `s` says an expectation that fits under `depth`.
abbrev Says : MatcherSpec → ℕ → Type 0
Says s depth = (e : Expectation) × (s ≡ to_spec e) × (depth + levels e ≤ 64)

abbrev SayEach : Specs → ℕ → Type 0
SayEach specs depth = (es : Expectations) × (specs ≡ to_specs es) × (depth + levels_of es ≤ 64)

mutual
  unfolding screen_matcher_at_depth to_spec levels

  built-Says :
      (s : MatcherSpec) (depth : ℕ) {m : ScreenMatcher}
      → screen_matcher_at_depth s depth ≡ built m
      → Says s depth
  built-Says (spec (some w) none none nil_slice nil_slice nil_pointer) depth h =
      (shows w, refl, omega (arith, (passes-depth depth _ h).0))
  built-Says (spec none (some l) none nil_slice nil_slice nil_pointer) depth h =
      (line_is l.row l.text, refl, omega (arith, (passes-depth depth _ h).0))
  built-Says (spec none none (some c) nil_slice nil_slice nil_pointer) depth h =
      (cursor_is c.column c.row, refl, omega (arith, (passes-depth depth _ h).0))
  built-Says (spec none none none nil_slice nil_slice (pointer s)) depth h =
      let (m, part, _) =
        and_then-built (screen_matcher_at_depth s (depth + 1)) (passes-depth depth _ h).1 in
      let (e, same, fits) = built-Says s (depth + 1) part in
      (
        never e,
        ap (λ x. spec none none none nil_slice nil_slice (pointer x)) same,
        omega (arith, fits),
      )
  built-Says (spec none none none (slice_of specs) nil_slice nil_pointer) depth h =
      let (d, made) = passes-depth depth _ h in
      let (ms, part, _) = and_then-built (child_screen_matchers specs depth) made in
      let (e, es, same, fits) = children-Say specs depth d part in
      (
        every e es,
        ap (λ x. spec none none none (slice_of x) nil_slice nil_pointer) same,
        omega (arith, fits),
      )
  built-Says (spec none none none nil_slice (slice_of specs) nil_pointer) depth h =
      let (d, made) = passes-depth depth _ h in
      let (ms, part, _) = and_then-built (child_screen_matchers specs depth) made in
      let (e, es, same, fits) = children-Say specs depth d part in
      (
        either e es,
        ap (λ x. spec none none none nil_slice (slice_of x) nil_pointer) same,
        omega (arith, fits),
      )
  built-Says s depth h = absurd (omega (arith, passes-count s depth h))

  children-Say :
      (specs : Specs) (depth : ℕ) {ms : List ScreenMatcher}
      → depth ≤ 64
      → child_screen_matchers specs depth ≡ built ms
      → (e : Expectation) × (es : Expectations) × (specs ≡ more (to_spec e) (to_specs es))
        × (depth + max (1 + levels e) (levels_of es) ≤ 64)
  children-Say no_specs depth d h = cc
  children-Say (more s specs) depth d h =
      let (m, first, others) = and_then-built (screen_matcher_at_depth s (depth + 1)) h in
      let (ms, rest, _) = and_then-built (build_each specs depth) others in
      let (e, same, fits) = built-Says s (depth + 1) first in
      let (es, alike, fit) = each-SayEach specs depth d rest in
      (e, es, rw same (rw alike refl), omega (arith, fits, fit))

  each-SayEach :
      (specs : Specs) (depth : ℕ) {ms : List ScreenMatcher}
      → depth ≤ 64
      → build_each specs depth ≡ built ms
      → SayEach specs depth
  each-SayEach no_specs depth d h = (no_more, refl, omega (arith, d))
  each-SayEach (more s specs) depth d h =
      let (m, first, others) = and_then-built (screen_matcher_at_depth s (depth + 1)) h in
      let (ms, rest, _) = and_then-built (build_each specs depth) others in
      let (e, same, fits) = built-Says s (depth + 1) first in
      let (es, alike, fit) = each-SayEach specs depth d rest in
      (also e es, rw same (rw alike refl), omega (arith, fits, fit))

-- A specification that is accepted is that of an expectation of at most 64 levels below the
-- outermost, and its matcher succeeds on exactly the screens where the expectation holds.
pub screen_matcher_accepts :
    (s : MatcherSpec) {m : ScreenMatcher}
    → screen_matcher s ≡ built m
    → (e : Expectation) × (s ≡ to_spec e)
      × (levels e ≤ 64)
      × ((screen : Screen) → succeeds m screen ≡ holds e screen)
screen_matcher_accepts s h =
    let (e, same, fits) = built-Says s 0 h in
    let (test, builds, tests) = screen_matcher-to_spec e (omega (arith, fits)) in
    let found = built-injective (sym h ∙ ap screen_matcher same ∙ builds) in
    (e, same, omega (arith, fits), λ screen. rw found (tests screen))
