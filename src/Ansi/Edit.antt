-- ===== src/Ansi/Edit.antt =====
-- ansi/terminal.go: the helpers that move, clear and erase cells of the active buffer.
use tuicast.Prelude.{
  ℕ, zero, suc, ◌+◌, ◌-◌, ◌*◌, min, max, Bool, ◌||◌, List, ltb, ◌==◌, if◌then◌else◌, length, fill,
  copy_to, copy_within,
}
use tuicast.Screen.{Cell}
use tuicast.Ansi.State.{
  Terminal, blank_cell, blank_cells, changed, put_cells, cells_of, cursor_of, set_row, normalize,
}

-- `clearRow`, on the cells.
abbrev pub clear_row : Terminal → ℕ → List Cell → List Cell
clear_row t row cells = copy_to cells (row * t.width) (blank_cells t t.width)

-- `copy(t.row(to), t.row(from))`, on the cells.
abbrev pub copy_row : Terminal → ℕ → ℕ → List Cell → List Cell
copy_row t to from cells = copy_within cells (to * t.width) (from * t.width) t.width

-- `for row := row; ...; row++ { copy(t.row(row), t.row(row+by)) }`, `left` rounds.
unfoldable pub rows_up : Terminal → ℕ → ℕ → ℕ → List Cell → List Cell
rows_up t by row zero cells = cells
rows_up t by row (suc left) cells = rows_up t by (row + 1) left (copy_row t row (row + by) cells)

-- `for row := row; ...; row-- { copy(t.row(row), t.row(row-by)) }`, `left` rounds.
unfoldable pub rows_down : Terminal → ℕ → ℕ → ℕ → List Cell → List Cell
rows_down t by row zero cells = cells
rows_down t by row (suc left) cells =
    rows_down t by (row - 1) left (copy_row t row (row - by) cells)

-- `for blank := row; ...; blank++ { t.clearRow(blank) }`, `left` rounds.
unfoldable pub clear_rows : Terminal → ℕ → ℕ → List Cell → List Cell
clear_rows t row zero cells = cells
clear_rows t row (suc left) cells = clear_rows t (row + 1) left (clear_row t row cells)

unfoldable pub scroll_up : Terminal → Terminal
scroll_up t =
    put_cells
      (clear_row t t.scroll_bottom
        (rows_up t 1 t.scroll_top (t.scroll_bottom - t.scroll_top) (cells_of t)))
      t

unfoldable pub line_feed : Terminal → Terminal
line_feed t = changed (
    if (cursor_of t).row == t.scroll_bottom
    then scroll_up t
    else if ltb (cursor_of t).row (t.height - 1)
    then set_row ((cursor_of t).row + 1) t
    else t)

unfoldable pub reverse_index : Terminal → Terminal
reverse_index t = changed (
    if (cursor_of t).row == t.scroll_top
    then put_cells
        (clear_row t t.scroll_top
          (rows_down t 1 t.scroll_bottom (t.scroll_bottom - t.scroll_top) (cells_of t)))
        t
    else if ltb 0 (cursor_of t).row
    then set_row ((cursor_of t).row - 1) t
    else t)

-- `t.active.cells[i] = t.blankCell()` for `i` from `start` up to, not including, `end`.
abbrev pub erase : ℕ → ℕ → Terminal → Terminal
erase start end t = put_cells (fill (cells_of t) start (end - start) (blank_cell t)) t

-- The index of the cursor's cell, and of the first cell of its row.
abbrev pub cursor_index : Terminal → ℕ
cursor_index t = (cursor_of t).row * t.width + (cursor_of t).column

abbrev pub row_start : Terminal → ℕ
row_start t = (cursor_of t).row * t.width

unfoldable pub erase_display : ℕ → Terminal → Terminal
erase_display mode t =
    if mode == 0
    then changed (erase (cursor_index t) (length (cells_of t)) t)
    else if mode == 1
    then changed (erase 0 (cursor_index t + 1) t)
    else if mode == 2
    then changed (erase 0 (length (cells_of t)) t)
    else if mode == 3
    then (if t.xterm then changed (erase 0 (length (cells_of t)) t) else t)
    else t

unfoldable pub erase_line : ℕ → Terminal → Terminal
erase_line mode t =
    if mode == 0
    then changed (erase (row_start t + (cursor_of t).column) (row_start t + t.width) t)
    else if mode == 1
    then changed (erase (row_start t) (row_start t + (cursor_of t).column + 1) t)
    else if mode == 2
    then changed (erase (row_start t) (row_start t + t.width) t)
    else t

-- `min(max(1, count), t.width-t.active.cursor.Column)`
abbrev pub clamp_count : ℕ → Terminal → ℕ
clamp_count count t = min (max 1 count) (t.width - (cursor_of t).column)

unfoldable pub erase_characters : ℕ → Terminal → Terminal
erase_characters count t = changed (erase (cursor_index t) (cursor_index t + clamp_count count t) t)

-- The cells after the two copies of `insertCharacters`; `n` is the clamped count.
unfoldable pub open_gap : ℕ → Terminal → List Cell
open_gap n t =
    copy_to
      (copy_within (cells_of t) (cursor_index t + n) (cursor_index t)
        (t.width - n - (cursor_of t).column))
      (cursor_index t) (blank_cells t n)

unfoldable pub insert_characters : ℕ → Terminal → Terminal
insert_characters count t = changed (
    put_cells (normalize (blank_cell t) (open_gap (clamp_count count t) t) (row_start t) t.width) t)

-- The cells after the two copies of `deleteCharacters`.
unfoldable pub close_gap : ℕ → Terminal → List Cell
close_gap n t =
    copy_to
      (copy_within (cells_of t) (cursor_index t) (cursor_index t + n)
        (t.width - n - (cursor_of t).column))
      (row_start t + (t.width - n)) (blank_cells t n)

unfoldable pub delete_characters : ℕ → Terminal → Terminal
delete_characters count t = changed (
    put_cells (normalize (blank_cell t) (close_gap (clamp_count count t) t) (row_start t) t.width)
      t)

-- `row < t.scrollTop || row > t.scrollBottom`
abbrev pub outside_region : Terminal → Bool
outside_region t = ltb (cursor_of t).row t.scroll_top || ltb t.scroll_bottom (cursor_of t).row

-- `min(max(1, count), t.scrollBottom-row+1)`
abbrev pub clamp_lines : ℕ → Terminal → ℕ
clamp_lines count t = min (max 1 count) (t.scroll_bottom - (cursor_of t).row + 1)

unfoldable pub insert_lines : ℕ → Terminal → Terminal
insert_lines count t =
    if outside_region t
    then t
    else (let row = (cursor_of t).row in
        let n = clamp_lines count t in
        changed (
          put_cells
            (clear_rows t row n
              (rows_down t n t.scroll_bottom (t.scroll_bottom + 1 - (row + n)) (cells_of t)))
            t))

unfoldable pub delete_lines : ℕ → Terminal → Terminal
delete_lines count t =
    if outside_region t
    then t
    else (let row = (cursor_of t).row in
        let n = clamp_lines count t in
        changed (
          put_cells
            (clear_rows t (t.scroll_bottom + 1 - n) n
              (rows_up t n row (t.scroll_bottom + 1 - n - row) (cells_of t)))
            t))
