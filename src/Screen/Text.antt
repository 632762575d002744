-- ===== src/Screen/Text.antt =====
-- What `CellAt`, `Line` and `Text` give for a full grid of cells.
use tuicast.Prelude.{ℕ, ◌+◌, ◌*◌, ◌<◌, ◌≡◌, true, ◌||◌, none, some, length, get_or, arith}
use native.Mathlib.Nat.{mul_comm}
use tuicast.Prelude.Int.{ℤ, pos, leb_ℤ, ltb_ℤ}
use tuicast.Screen.{Screen, cell_at, zero_cell}

index_in_grid :
    (row column width height : ℕ)
    → row < height
    → column < width
    → row * width + column < height * width
index_in_grid row column width height r c = grind arith

-- A snapshot with a full grid has a cell at every position on the screen.
pub cell_at_on_screen :
    (s : Screen) (column row : ℕ)
    → length s.cells ≡ s.width * s.height
    → column < s.width
    → row < s.height
    → cell_at s (pos column) (pos row) ≡ some (get_or s.cells (row * s.width + column) zero_cell)
unfolding cell_at
cell_at_on_screen s column row full c r =
    ground (arith, index_in_grid row column s.width s.height r c, mul_comm s.width s.height)

-- And it has none off the screen.
pub cell_at_off_screen :
    (s : Screen) (column row : ℤ)
    → (leb_ℤ (pos s.width) column
        || ltb_ℤ column (pos 0)
        || leb_ℤ (pos s.height) row
        || ltb_ℤ row (pos 0))
      ≡ true
    → cell_at s column row ≡ none
unfolding cell_at
cell_at_off_screen s column row off = ground arith
