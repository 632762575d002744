-- ===== src/Prelude/Slices.antt =====
-- Loops that write to a Go slice, over a list: fill, copy, and what they leave at each index.
use Prim.Native.Nat.{ℕ, zero, suc, ◌+◌, ◌-◌, ◌≤◌}
use mathlib.Core.Path.{◌≡◌, refl, ap, ◌∙◌}
use mathlib.Core.List.{List, [], ◌∷◌}
use mathlib.Core.Bool.{◌&&◌}
use native.Mathlib.Omega.{arith}
use tuicast.Prelude.Tests.{ltb, leb, ◌==◌, if◌then◌else◌}
use tuicast.Prelude.Lists.{
  length, get_or, set, take, drop, length-set, get_or-set, length-take, length-drop,
}

index_shift : (at i : ℕ) → i - at - 1 ≡ i - (at + 1)
index_shift at i = omega arith

pred_suc : (k : ℕ) → k ≡ suc k - 1
pred_suc k = omega arith

suc_add : (n i : ℕ) → suc (n + i) ≡ suc n + i
suc_add n i = omega arith

module _ {ℓ} {A : Type ℓ} where
  -- `for i := start; i < start+n; i++ { cells[i] = v }`
  unfoldable pub fill : List A → ℕ → ℕ → A → List A
  fill xs start zero v = xs
  fill xs start (suc n) v = fill (set xs start v) (start + 1) n v

  -- `copy(xs[at:], ys)`
  unfoldable pub copy_to : List A → ℕ → List A → List A
  copy_to xs at [] = xs
  copy_to xs at (y ∷ ys) = copy_to (set xs at y) (at + 1) ys

  -- `xs[start : start+n]`
  abbrev pub slice : List A → ℕ → ℕ → List A
  slice xs start n = take n (drop start xs)

  -- `copy(xs[to:to+n], xs[from:from+n])`, which may overlap
  unfoldable pub copy_within : List A → ℕ → ℕ → ℕ → List A
  copy_within xs to from n = copy_to xs to (slice xs from n)

  pub length-fill : (xs : List A) (start n : ℕ) (v : A) → length (fill xs start n v) ≡ length xs
  unfolding fill
  length-fill xs start zero v = refl
  length-fill xs start (suc n) v =
      length-fill (set xs start v) (start + 1) n v ∙ length-set xs start v

  pub length-copy_to : (xs : List A) (at : ℕ) (ys : List A) → length (copy_to xs at ys) ≡ length xs
  unfolding copy_to
  length-copy_to xs at [] = refl
  length-copy_to xs at (y ∷ ys) = length-copy_to (set xs at y) (at + 1) ys ∙ length-set xs at y

  pub length-copy_within :
      (xs : List A) (to from n : ℕ) → length (copy_within xs to from n) ≡ length xs
  unfolding copy_within
  length-copy_within xs to from n = length-copy_to xs to (slice xs from n)

-- What a read finds after each loop. (The arithmetic tactics split cases at `Type 0`.)
module _ {A : Type 0} where
  get_or-cons :
      (y : A) (ys : List A) (k : ℕ) (d : A)
      → get_or (y ∷ ys) k d ≡ (if k == 0 then y else get_or ys (k - 1) d)
  get_or-cons y ys zero d = refl
  get_or-cons y ys (suc k) d = ground (arith, ap (λ j. get_or ys j d) (pred_suc k))

  pub get_or-fill :
      (xs : List A) (start n : ℕ) (v : A) (i : ℕ) (d : A)
      → get_or (fill xs start n v) i d
        ≡ (if leb start i && ltb i (start + n) && ltb i (length xs) then v else get_or xs i d)
  unfolding fill
  get_or-fill xs start zero v i d = ground arith
  get_or-fill xs start (suc n) v i d = ground (
    arith,
    get_or-fill (set xs start v) (start + 1) n v i d,
    length-set xs start v,
    get_or-set xs start i v d,
  )

  pub get_or-copy_to :
      (xs : List A) (at : ℕ) (ys : List A) (i : ℕ) (d : A)
      → get_or (copy_to xs at ys) i d ≡ (
          if leb at i && ltb i (at + length ys) && ltb i (length xs)
          then get_or ys (i - at) d
          else get_or xs i d)
  unfolding copy_to
  get_or-copy_to xs at [] i d = ground arith
  get_or-copy_to xs at (y ∷ ys) i d = ground (
    arith,
    get_or-copy_to (set xs at y) (at + 1) ys i d,
    length-set xs at y,
    get_or-set xs at i y d,
    get_or-cons y ys (i - at) d,
    ap (λ k. get_or ys k d) (index_shift at i),
  )

  pub get_or-take :
      (n : ℕ) (xs : List A) (i : ℕ) (d : A)
      → get_or (take n xs) i d ≡ (if ltb i n then get_or xs i d else d)
  get_or-take zero xs i d = ground arith
  get_or-take (suc n) [] i d = ground arith
  get_or-take (suc n) (x ∷ xs) zero d = ground arith
  get_or-take (suc n) (x ∷ xs) (suc i) d = ground (arith, get_or-take n xs i d)

  pub get_or-drop :
      (n : ℕ) (xs : List A) (i : ℕ) (d : A) → get_or (drop n xs) i d ≡ get_or xs (n + i) d
  get_or-drop zero xs i d = ground arith
  get_or-drop (suc n) [] i d = refl
  get_or-drop (suc n) (x ∷ xs) i d =
      get_or-drop n xs i d ∙ ap (λ k. get_or (x ∷ xs) k d) (suc_add n i)

  pub get_or-copy_within :
      (xs : List A) (to from n i : ℕ) (d : A)
      → from + n ≤ length xs
      → get_or (copy_within xs to from n) i d ≡ (
          if leb to i && ltb i (to + n) && ltb i (length xs)
          then get_or xs (from + (i - to)) d
          else get_or xs i d)
  unfolding copy_within
  get_or-copy_within xs to from n i d h = ground (
    arith,
    get_or-copy_to xs to (slice xs from n) i d,
    get_or-take n (drop from xs) (i - to) d,
    get_or-drop from xs (i - to) d,
    length-take n (drop from xs),
    length-drop from xs,
  )
