-- ===== src/Ansi/Rows.antt =====
-- The row operations, read cell by cell: what stands at each row and column after them.
pub mod Scrolling
pub mod Lines
use tuicast.Prelude.{
  ℕ, zero, suc, ◌+◌, ◌-◌, ◌*◌, ◌≤◌, ◌<◌, ◌≡◌, ◌≢◌, refl, sym, ap, ◌∙◌, Bool, true, false, ◌&&◌,
  ◌||◌, List, [], ◌∷◌, if◌then◌else◌, length, get_or, arith, leb, ltb, ◌==◌, ==_iff, Bool-cases,
  inl, inr, ◌⊎◌, replicate, copy_to, copy_within, get_or-copy_to, get_or-copy_within,
  length-replicate, get_or-replicate, length-copy_to, length-copy_within,
}
use tuicast.Screen.{Cell, zero_cell}
use tuicast.Ansi.State.{Terminal, blank_cell, blank_cells}
use tuicast.Ansi.Edit.{copy_row, clear_row, rows_up, rows_down, clear_rows}

-- The cell at a row and column of a grid `w` wide.
abbrev pub cell_in : ℕ → List Cell → ℕ → ℕ → Cell
cell_in w cells row column = get_or cells (row * w + column) zero_cell

mul_mono : (a b w : ℕ) → a ≤ b → a * w ≤ b * w
mul_mono a b w h = grind arith

suc_mul : (a w : ℕ) → (a + 1) * w ≡ a * w + w
suc_mul a w = grind arith

in_slice :
    (s w c size : ℕ)
    → c < w
    → s + w ≤ size
    → (leb s (s + c) && ltb (s + c) (s + w) && ltb (s + c) size) ≡ true
in_slice s w c size h k = ground arith

out_of_slice :
    (s w i size : ℕ) → (i < s) ⊎ (s + w ≤ i) → (leb s i && ltb i (s + w) && ltb i size) ≡ false
out_of_slice s w i size h = ground arith

row_below : (r to w c : ℕ) → r < to → c < w → r * w + c < to * w
row_below r to w c h k = omega (arith, mul_mono (r + 1) to w (omega arith), suc_mul r w)

row_above : (r to w c : ℕ) → to < r → to * w + w ≤ r * w + c
row_above r to w c h = omega (arith, mul_mono (to + 1) r w (omega arith), suc_mul to w)

-- A place in another row lies outside.
other_row :
    (r to w c : ℕ) → c < w → (r == to) ≡ false → (r * w + c < to * w) ⊎ (to * w + w ≤ r * w + c)
other_row r to w c k e = elim (Bool-cases (ltb r to)) [
  | inl h ↦ inl (row_below r to w c (ground arith) k)
  | inr h ↦ inr (row_above r to w c (ground arith))
]

-- Row `r` ends within a full grid.
row_fits : (r w h size : ℕ) → r < h → size ≡ w * h → r * w + w ≤ size
row_fits r w h size k e = grind arith

offset : (from s c : ℕ) → from + (s + c - s) ≡ from + c
offset from s c = omega arith

module _ (t : Terminal) where
  cell-copy_row :
      (to from : ℕ) (cells : List Cell) (r column : ℕ)
      → column < t.width
      → to < t.height
      → from < t.height
      → length cells ≡ t.width * t.height
      → cell_in t.width (copy_row t to from cells) r column
        ≡ (if r == to then cell_in t.width cells from column else cell_in t.width cells r column)
  cell-copy_row to from cells r column c h k full =
      get_or-copy_within cells (to * t.width) (from * t.width) t.width (r * t.width + column)
        zero_cell (row_fits from t.width t.height _ k full)
      ∙ elim (Bool-cases (r == to)) [
        | inl e ↦ rw e (
            rw ((==_iff r to).0 e) (
              rw
                (in_slice (to * t.width) t.width column (length cells) c
                  (row_fits to t.width t.height _ h full))
                (ap (λ i. get_or cells i zero_cell)
                  (offset (from * t.width) (to * t.width) column))))
        | inr e ↦ rw (e, out_of_slice _ _ _ _ (other_row r to t.width column c e)) refl
      ]

  length-blank_cells : (n : ℕ) → length (blank_cells t n) ≡ n
  length-blank_cells n = length-replicate n (blank_cell t)

  -- Within the blank cells.
  blank_at :
      (s column : ℕ)
      → column < t.width
      → get_or (blank_cells t t.width) (s + column - s) zero_cell ≡ blank_cell t
  blank_at s column c =
      ground (arith, get_or-replicate t.width (s + column - s) (blank_cell t) zero_cell)

  pub cell-clear_row :
      (row : ℕ) (cells : List Cell) (r column : ℕ)
      → column < t.width
      → row < t.height
      → length cells ≡ t.width * t.height
      → cell_in t.width (clear_row t row cells) r column
        ≡ (if r == row then blank_cell t else cell_in t.width cells r column)
  cell-clear_row row cells r column c h full =
      get_or-copy_to cells (row * t.width) (blank_cells t t.width) (r * t.width + column) zero_cell
      ∙ rw length-blank_cells (elim (Bool-cases (r == row)) [
        | inl e ↦ rw e (
            rw ((==_iff r row).0 e) (
              rw
                (in_slice (row * t.width) t.width column (length cells) c
                  (row_fits row t.width t.height _ h full))
                (blank_at (row * t.width) column c)))
        | inr e ↦ rw (e, out_of_slice _ _ _ _ (other_row r row t.width column c e)) refl
      ])

  pub length-copy_row :
      (to from : ℕ) (cells : List Cell) → length (copy_row t to from cells) ≡ length cells
  length-copy_row to from cells = length-copy_within cells _ _ _

  -- The rows from `row` on take the cells of the rows `by` below them.
  pub cell-rows_up :
      (by row left : ℕ) (cells : List Cell) (r column : ℕ)
      → column < t.width
      → row + left + by ≤ t.height
      → 0 < by
      → length cells ≡ t.width * t.height
      → cell_in t.width (rows_up t by row left cells) r column ≡ (
          if leb row r && ltb r (row + left)
          then cell_in t.width cells (r + by) column
          else cell_in t.width cells r column)
  unfolding rows_up
  cell-rows_up by row zero cells r column c h k full = ground arith
  cell-rows_up by row (suc left) cells r column c h k full =
      let moved = copy_row t row (row + by) cells in
      cell-rows_up by (row + 1) left moved r column c (omega arith) k
        (length-copy_row row (row + by) cells ∙ full)
      ∙ ground (
        arith,
        cell-copy_row row (row + by) cells r column c (omega arith) (omega arith) full,
        cell-copy_row row (row + by) cells (r + by) column c (omega arith) (omega arith) full,
      )

  pub length-rows_up :
      (by row left : ℕ) (cells : List Cell) → length (rows_up t by row left cells) ≡ length cells
  unfolding rows_up
  length-rows_up by row zero cells = refl
  length-rows_up by row (suc left) cells =
      length-rows_up by (row + 1) left _ ∙ length-copy_row row (row + by) cells

  -- The rows up to `row` take the cells of the rows `by` above them.
  pub cell-rows_down :
      (by row left : ℕ) (cells : List Cell) (r column : ℕ)
      → column < t.width
      → row < t.height
      → left + by ≤ row + 1
      → 0 < by
      → length cells ≡ t.width * t.height
      → cell_in t.width (rows_down t by row left cells) r column ≡ (
          if ltb row (r + left) && leb r row
          then cell_in t.width cells (r - by) column
          else cell_in t.width cells r column)
  unfolding rows_down
  cell-rows_down by row zero cells r column c h m k full = ground arith
  cell-rows_down by row (suc zero) cells r column c h m k full =
      cell-copy_row row (row - by) cells r column c h (omega arith) full ∙ ground arith
  cell-rows_down by row (suc (suc left)) cells r column c h m k full =
      let moved = copy_row t row (row - by) cells in
      cell-rows_down by (row - 1) (suc left) moved r column c (omega arith) (omega arith) k
        (length-copy_row row (row - by) cells ∙ full)
      ∙ ground (
        arith,
        cell-copy_row row (row - by) cells r column c h (omega arith) full,
        cell-copy_row row (row - by) cells (r - by) column c h (omega arith) full,
      )

  pub length-rows_down :
      (by row left : ℕ) (cells : List Cell) → length (rows_down t by row left cells) ≡ length cells
  unfolding rows_down
  length-rows_down by row zero cells = refl
  length-rows_down by row (suc left) cells =
      length-rows_down by (row - 1) left _ ∙ length-copy_row row (row - by) cells

  length-clear_row : (row : ℕ) (cells : List Cell) → length (clear_row t row cells) ≡ length cells
  length-clear_row row cells = length-copy_to cells _ _

  pub cell-clear_rows :
      (row left : ℕ) (cells : List Cell) (r column : ℕ)
      → column < t.width
      → row + left ≤ t.height
      → length cells ≡ t.width * t.height
      → cell_in t.width (clear_rows t row left cells) r column
        ≡ (if leb row r && ltb r (row + left) then blank_cell t else cell_in t.width cells r column)
  unfolding clear_rows
  cell-clear_rows row zero cells r column c h full = ground arith
  cell-clear_rows row (suc left) cells r column c h full =
      cell-clear_rows (row + 1) left (clear_row t row cells) r column c (omega arith)
        (length-clear_row row cells ∙ full)
      ∙ ground (arith, cell-clear_row row cells r column c (omega arith) full)
