-- ===== src/Screen.antt =====
-- screen.go: cells, the cursor, and the snapshot of a screen with the text it shows.
pub mod Text
use Prim.Native.Nat.{bit_and}
use tuicast.Prelude.{
  ℕ, zero, suc, ◌+◌, ◌*◌, Bool, true, false, ◌||◌, Option, none, some, List, [], ◌∷◌, ◌++◌, ltb,
  leb, ◌==◌, if◌then◌else◌, length, get_or, Bytes,
}
use tuicast.Prelude.Int.{ℤ, pos, negsuc, pos_part, leb_ℤ, ltb_ℤ}

-- An `int16`; -1 is the terminal's default.
abbrev pub Color : Type 0
Color = ℤ

abbrev pub default_color : Color
default_color = negsuc 0

-- The bits of a `uint16`.
abbrev pub Attributes : Type 0
Attributes = ℕ

abbrev pub bold : Attributes
bold = 1

abbrev pub underline : Attributes
underline = 2

abbrev pub blink : Attributes
blink = 4

abbrev pub reverse : Attributes
reverse = 8

abbrev pub conceal : Attributes
conceal = 16

unfoldable pub has : Attributes → Attributes → Bool
has a attributes = bit_and a attributes == attributes

-- `text` holds code points.
pub record Cell : Type 0 where
  pub text : List ℕ
  pub width : ℕ
  pub foreground : Color
  pub background : Color
  pub attributes : Attributes

pub record Cursor : Type 0 where
  pub column : ℕ
  pub row : ℕ
  pub visible : Bool

pub record Screen : Type 0 where
  pub width : ℕ
  pub height : ℕ
  pub cells : List Cell
  pub cursor : Cursor
  pub revision : ℕ
  pub title : Bytes

-- The zero value, which an out-of-range read gives beside `false`.
abbrev pub zero_cell : Cell
zero_cell = record { text = []; width = 0; foreground = pos 0; background = pos 0; attributes = 0 }

-- `none` is the result `Cell{}, false`.
unfoldable pub cell_at : Screen → ℤ → ℤ → Option Cell
cell_at s column row =
    if ltb_ℤ column (pos 0)
      || leb_ℤ (pos s.width) column
      || ltb_ℤ row (pos 0)
      || leb_ℤ (pos s.height) row
    then none
    else (let index = pos_part row * s.width + pos_part column in
        if leb (length s.cells) index then none else some (get_or s.cells index zero_cell))

-- The loop of `Line` from `column` on, for the columns that are left.
unfoldable pub line_from : Screen → ℤ → ℕ → ℕ → List ℕ
line_from s row column zero = []
line_from s row column (suc left) =
    let rest = line_from s row (column + 1) left in
    elim (cell_at s (pos column) row) [
      | none ↦ []
      | some cell ↦ if cell.width == 0 then rest else cell.text ++ rest
    ]

unfoldable pub line : Screen → ℤ → List ℕ
line s row = if ltb_ℤ row (pos 0) || leb_ℤ (pos s.height) row then [] else line_from s row 0 s.width

-- The loop of `Text` from `row` on, for the rows that are left.
unfoldable pub text_from : Screen → ℕ → ℕ → List ℕ
text_from s row zero = []
text_from s row (suc left) =
    (if row == 0 then [] else b'\n' ∷ []) ++ (line s (pos row) ++ text_from s (row + 1) left)

unfoldable pub text : Screen → List ℕ
text s = text_from s 0 s.height
