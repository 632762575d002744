-- ===== src/Ansi/Rows/Lines.antt =====
-- What inserting and deleting lines shows, at each row and column.
use tuicast.Prelude.{
  ℕ, ◌+◌, ◌-◌, ◌≤◌, ◌<◌, ◌≡◌, ap, ◌∙◌, false, ◌&&◌, List, if◌then◌else◌, arith, leb, ltb,
}
use tuicast.Screen.{Cell}
use tuicast.Ansi.State.{Terminal, cells_of, cursor_of, changed, blank_cell}
use tuicast.Ansi.Edit.{
  clear_rows, rows_up, rows_down, outside_region, clamp_lines, insert_lines, delete_lines,
}
use tuicast.Ansi.Valid.{IsValid, active-Ok}
use tuicast.Ansi.Rows.{
  cell_in, cell-rows_up, cell-rows_down, cell-clear_rows, length-rows_up, length-rows_down,
}
use tuicast.Ansi.Rows.Scrolling.{cell_of, cells_of-put}

module _ (t : Terminal) (v : IsValid t) (count : ℕ) where
  -- The cursor's row, and how many lines are inserted or deleted.
  abbrev here : ℕ
  here = (cursor_of t).row

  abbrev n : ℕ
  n = clamp_lines count t

  in_region : outside_region t ≡ false → (t.scroll_top ≤ here) × (here ≤ t.scroll_bottom)
  in_region h = ground arith

  opened : List Cell
  opened = rows_down t n t.scroll_bottom (t.scroll_bottom + 1 - (here + n)) (cells_of t)

  -- Within the scroll region, inserting lines blanks as many rows from the cursor's on as fit, at
  -- least one, moves the rows below them down to the end of the region, and leaves every other cell
  -- as it was; for a valid terminal.
  pub insert_lines_moves :
      (row column : ℕ)
      → outside_region t ≡ false
      → column < t.width
      → cell_of (insert_lines count t) row column ≡ (
          if leb here row && ltb row (here + n)
          then blank_cell t
          else if leb (here + n) row && leb row t.scroll_bottom
          then cell_of t (row - n) column
          else cell_of t row column)
  unfolding insert_lines changed opened
  insert_lines_moves row column inside c =
      let full = (active-Ok v).sized in
      let (above, below) = in_region inside in
      rw inside (
        ap (λ l. cell_in t.width l row column) (cells_of-put (clear_rows t here n opened) t)
        ∙ cell-clear_rows t here n opened row column c (omega (arith, above, below, v.region_in)) (
            length-rows_down t n t.scroll_bottom (t.scroll_bottom + 1 - (here + n)) (cells_of t)
            ∙ full)
        ∙ ground (
          arith,
          above,
          below,
          cell-rows_down t n t.scroll_bottom (t.scroll_bottom + 1 - (here + n)) (cells_of t) row
              column c v.region_in (omega (arith, below)) (omega (arith, below)) full,
        ))

  closed : List Cell
  closed = rows_up t n here (t.scroll_bottom + 1 - n - here) (cells_of t)

  -- Within the scroll region, deleting lines moves the rows below the deleted ones up to the
  -- cursor's, blanks as many at the end of the region, and leaves every other cell as it was; for a
  -- valid terminal.
  pub delete_lines_moves :
      (row column : ℕ)
      → outside_region t ≡ false
      → column < t.width
      → cell_of (delete_lines count t) row column ≡ (
          if leb (t.scroll_bottom + 1 - n) row && leb row t.scroll_bottom
          then blank_cell t
          else if leb here row && ltb row (t.scroll_bottom + 1 - n)
          then cell_of t (row + n) column
          else cell_of t row column)
  unfolding delete_lines changed closed
  delete_lines_moves row column inside c =
      let full = (active-Ok v).sized in
      let (above, below) = in_region inside in
      rw inside (
        ap (λ l. cell_in t.width l row column)
          (cells_of-put (clear_rows t (t.scroll_bottom + 1 - n) n closed) t)
        ∙ cell-clear_rows t (t.scroll_bottom + 1 - n) n closed row column c
            (omega (arith, above, below, v.region_in))
            (length-rows_up t n here (t.scroll_bottom + 1 - n - here) (cells_of t) ∙ full)
        ∙ ground (
          arith,
          above,
          below,
          cell-rows_up t n here (t.scroll_bottom + 1 - n - here) (cells_of t) row column c
              (omega (arith, below, v.region_in)) (omega (arith, below)) full,
        ))
