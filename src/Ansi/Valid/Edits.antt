-- ===== src/Ansi/Valid/Edits.antt =====
-- The helpers that edit cells keep the invariant.
use tuicast.Prelude.{
  ℕ, zero, suc, ◌+◌, ◌-◌, ◌≡◌, refl, ◌∙◌, List, length, set, arith, ltb, ◌==◌, length-set,
  length-fill, length-copy_to, length-copy_within,
}
use tuicast.Screen.{Cell}
use tuicast.Ansi.State.{
  Terminal, changed, cells_of, cursor_of, normalize, normalize_from, normal_cell,
}
use tuicast.Ansi.Edit.{
  rows_up, rows_down, clear_rows, scroll_up, line_feed, reverse_index, erase, erase_display,
  erase_line, erase_characters, open_gap, insert_characters, close_gap, delete_characters,
  insert_lines, delete_lines, outside_region,
}
use tuicast.Ansi.Valid.{
  IsValid, if_both, active-Ok, put_cells-IsValid, set_row-IsValid, changed-IsValid,
}

pub length-normalize_from :
    (blank : Cell) (cells : List Cell) (base size column left : ℕ)
    → length (normalize_from blank cells base size column left) ≡ length cells
unfolding normalize_from
length-normalize_from blank cells base size column zero = refl
length-normalize_from blank cells base size column (suc left) =
    length-normalize_from blank
      (set cells (base + column) (normal_cell blank cells base size column)) base size (column + 1)
      left
    ∙ length-set cells (base + column) _

pub length-normalize :
    (blank : Cell) (cells : List Cell) (base size : ℕ)
    → length (normalize blank cells base size) ≡ length cells
unfolding normalize
length-normalize blank cells base size = length-normalize_from blank cells base size 0 size

length-rows_up :
    (t : Terminal) (by row left : ℕ) (cells : List Cell)
    → length (rows_up t by row left cells) ≡ length cells
unfolding rows_up
length-rows_up t by row zero cells = refl
length-rows_up t by row (suc left) cells =
    length-rows_up t by (row + 1) left _ ∙ length-copy_within cells _ _ t.width

length-rows_down :
    (t : Terminal) (by row left : ℕ) (cells : List Cell)
    → length (rows_down t by row left cells) ≡ length cells
unfolding rows_down
length-rows_down t by row zero cells = refl
length-rows_down t by row (suc left) cells =
    length-rows_down t by (row - 1) left _ ∙ length-copy_within cells _ _ t.width

length-clear_rows :
    (t : Terminal) (row left : ℕ) (cells : List Cell)
    → length (clear_rows t row left cells) ≡ length cells
unfolding clear_rows
length-clear_rows t row zero cells = refl
length-clear_rows t row (suc left) cells =
    length-clear_rows t (row + 1) left _ ∙ length-copy_to cells _ _

pub scroll_up-IsValid : (t : Terminal) → IsValid t → IsValid (scroll_up t)
unfolding scroll_up
scroll_up-IsValid t v =
    put_cells-IsValid _ t v (length-copy_to _ _ _ ∙ length-rows_up t 1 _ _ (cells_of t))

pub line_feed-IsValid : (t : Terminal) → IsValid t → IsValid (line_feed t)
unfolding line_feed
line_feed-IsValid t v = changed-IsValid _ (
    if_both IsValid ((cursor_of t).row == t.scroll_bottom) (λ _. scroll_up-IsValid t v)
      (λ _.
        if_both IsValid (ltb (cursor_of t).row (t.height - 1))
          (λ h. set_row-IsValid _ t v (ground (arith, v.high))) (λ _. v)))

pub reverse_index-IsValid : (t : Terminal) → IsValid t → IsValid (reverse_index t)
unfolding reverse_index
reverse_index-IsValid t v = changed-IsValid _ (
    if_both IsValid ((cursor_of t).row == t.scroll_top)
      (λ _. put_cells-IsValid _ t v (length-copy_to _ _ _ ∙ length-rows_down t 1 _ _ (cells_of t)))
      (λ _.
        if_both IsValid (ltb 0 (cursor_of t).row)
          (λ h. set_row-IsValid _ t v (omega (arith, (active-Ok v).row_in))) (λ _. v)))

erase-IsValid : (start end : ℕ) (t : Terminal) → IsValid t → IsValid (changed (erase start end t))
erase-IsValid start end t v =
    changed-IsValid _ (put_cells-IsValid _ t v (length-fill (cells_of t) start (end - start) _))

pub erase_display-IsValid : (mode : ℕ) (t : Terminal) → IsValid t → IsValid (erase_display mode t)
unfolding erase_display
erase_display-IsValid mode t v =
    if_both IsValid (mode == 0) (λ _. erase-IsValid _ _ t v)
      (λ _.
        if_both IsValid (mode == 1) (λ _. erase-IsValid _ _ t v)
          (λ _.
            if_both IsValid (mode == 2) (λ _. erase-IsValid _ _ t v)
              (λ _.
                if_both IsValid (mode == 3)
                  (λ _. if_both IsValid t.xterm (λ _. erase-IsValid _ _ t v) (λ _. v)) (λ _. v))))

pub erase_line-IsValid : (mode : ℕ) (t : Terminal) → IsValid t → IsValid (erase_line mode t)
unfolding erase_line
erase_line-IsValid mode t v =
    if_both IsValid (mode == 0) (λ _. erase-IsValid _ _ t v)
      (λ _.
        if_both IsValid (mode == 1) (λ _. erase-IsValid _ _ t v)
          (λ _. if_both IsValid (mode == 2) (λ _. erase-IsValid _ _ t v) (λ _. v)))

pub erase_characters-IsValid :
    (count : ℕ) (t : Terminal) → IsValid t → IsValid (erase_characters count t)
unfolding erase_characters
erase_characters-IsValid count t v = erase-IsValid _ _ t v

pub insert_characters-IsValid :
    (count : ℕ) (t : Terminal) → IsValid t → IsValid (insert_characters count t)
unfolding insert_characters open_gap
insert_characters-IsValid count t v = changed-IsValid _ (
    put_cells-IsValid _ t v (
      length-normalize _ _ _ t.width
      ∙ length-copy_to _ _ _
      ∙ length-copy_within (cells_of t) _ _ _))

pub delete_characters-IsValid :
    (count : ℕ) (t : Terminal) → IsValid t → IsValid (delete_characters count t)
unfolding delete_characters close_gap
delete_characters-IsValid count t v = changed-IsValid _ (
    put_cells-IsValid _ t v (
      length-normalize _ _ _ t.width
      ∙ length-copy_to _ _ _
      ∙ length-copy_within (cells_of t) _ _ _))

pub insert_lines-IsValid : (count : ℕ) (t : Terminal) → IsValid t → IsValid (insert_lines count t)
unfolding insert_lines
insert_lines-IsValid count t v =
    if_both IsValid (outside_region t) (λ _. v)
      (λ _. changed-IsValid _ (
        put_cells-IsValid _ t v
          (length-clear_rows t _ _ _ ∙ length-rows_down t _ _ _ (cells_of t))))

pub delete_lines-IsValid : (count : ℕ) (t : Terminal) → IsValid t → IsValid (delete_lines count t)
unfolding delete_lines
delete_lines-IsValid count t v =
    if_both IsValid (outside_region t) (λ _. v)
      (λ _.
        changed-IsValid _ (
          put_cells-IsValid _ t v
            (length-clear_rows t _ _ _ ∙ length-rows_up t _ _ _ (cells_of t))))
