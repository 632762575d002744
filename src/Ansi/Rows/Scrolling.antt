-- ===== src/Ansi/Rows/Scrolling.antt =====
-- What a line feed shows, at each row and column.
use tuicast.Prelude.{
  ℕ, ◌+◌, ◌-◌, ◌<◌, ◌≡◌, refl, ap, ◌∙◌, ◌&&◌, List, if◌then◌else◌, arith, leb, ltb, ◌==◌, ==_iff,
}
use tuicast.Screen.{Cell}
use tuicast.Ansi.State.{
  Terminal, ScreenBuffer, Active, on_main, on_alternate, pick, active_buffer, put_cells, cells_of,
  cursor_of, changed, blank_cell,
}
use tuicast.Ansi.Edit.{clear_row, rows_up, scroll_up, line_feed}
use tuicast.Ansi.Valid.{IsValid, active-Ok}
use tuicast.Ansi.Rows.{cell_in, cell-rows_up, cell-clear_row, length-rows_up}

pick-pick : {A : Type 0} (a : Active) (b m n : A) → pick a (pick a b m) (pick a n b) ≡ b
pick-pick on_main b m n = refl
pick-pick on_alternate b m n = refl

-- The cell that the active screen shows.
abbrev pub cell_of : Terminal → ℕ → ℕ → Cell
cell_of t row column = cell_in t.width (cells_of t) row column

pub cells_of-put : (cells : List Cell) (t : Terminal) → cells_of (put_cells cells t) ≡ cells
cells_of-put cells t =
    ap (λ (b : ScreenBuffer). b.cells)
      (pick-pick t.active (record (active_buffer t) { cells = cells }) t.main t.alternate)

pub cursor_of-put : (cells : List Cell) (t : Terminal) → cursor_of (put_cells cells t) ≡ cursor_of t
cursor_of-put cells t =
    ap (λ (b : ScreenBuffer). b.cursor)
      (pick-pick t.active (record (active_buffer t) { cells = cells }) t.main t.alternate)

module _ (t : Terminal) (v : IsValid t) where
  scrolled : List Cell
  scrolled = rows_up t 1 t.scroll_top (t.scroll_bottom - t.scroll_top) (cells_of t)

  cell-scrolled :
      (row column : ℕ)
      → column < t.width
      → cell_in t.width (clear_row t t.scroll_bottom scrolled) row column ≡ (
          if row == t.scroll_bottom
          then blank_cell t
          else if leb t.scroll_top row && ltb row t.scroll_bottom
          then cell_of t (row + 1) column
          else cell_of t row column)
  unfolding scrolled
  cell-scrolled row column c =
      let full = (active-Ok v).sized in
      cell-clear_row t t.scroll_bottom scrolled row column c v.region_in
        (length-rows_up t 1 t.scroll_top (t.scroll_bottom - t.scroll_top) (cells_of t) ∙ full)
      ∙ ground (
        arith,
        v.region,
        cell-rows_up t 1 t.scroll_top (t.scroll_bottom - t.scroll_top) (cells_of t) row column c
            (omega (arith, v.region, v.region_in)) (omega arith) full,
      )

  -- A line feed on the last row of the scroll region moves each row of the region up by one, blanks
  -- the last, and leaves every cell outside the region and the cursor as they were; for a
  -- valid terminal.
  pub line_feed_scrolls :
      (row column : ℕ)
      → (cursor_of t).row ≡ t.scroll_bottom
      → column < t.width
      → (cell_of (line_feed t) row column ≡ (
          if row == t.scroll_bottom
          then blank_cell t
          else if leb t.scroll_top row && ltb row t.scroll_bottom
          then cell_of t (row + 1) column
          else cell_of t row column))
        × (cursor_of (line_feed t) ≡ cursor_of t)
  unfolding line_feed scroll_up changed scrolled
  line_feed_scrolls row column h c =
      let cells = clear_row t t.scroll_bottom scrolled in
      rw ((==_iff (cursor_of t).row t.scroll_bottom).1 h) (
        ap (λ l. cell_in t.width l row column) (cells_of-put cells t) ∙ cell-scrolled row column c,
        cursor_of-put cells t,
      )
