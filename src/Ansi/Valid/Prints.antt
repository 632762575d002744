-- ===== src/Ansi/Valid/Prints.antt =====
-- Printing a character keeps the invariant, and writes inside the grid.
use tuicast.Prelude.{
  ℕ, ◌+◌, ◌-◌, ◌*◌, ◌≡◌, ◌∙◌, ◌||◌, ◌&&◌, List, length, set, arith, leb, ◌==◌, length-set,
}
use tuicast.Prelude.Int.{ℤ}
use tuicast.Screen.{Cell}
use tuicast.Ansi.State.{Terminal, cells_of, cursor_of, blank_cell}
use tuicast.Ansi.Print.{
  combine_at, append_combining, base_index, clear_wide, clear_wide_at, wrap_before, write_glyph,
  advance, overwrite, place, print_width, print,
}
use tuicast.Ansi.Valid.{IsValid, if_both, put_cells-IsValid, set_column-IsValid, changed-IsValid}
use tuicast.Ansi.Valid.Edits.{line_feed-IsValid, insert_characters-IsValid}

combine_at-IsValid : (r column : ℕ) (t : Terminal) → IsValid t → IsValid (combine_at r column t)
unfolding combine_at
combine_at-IsValid r column t v =
    if_both IsValid (base_index (cells_of t) ((cursor_of t).row * t.width + column) == 0) (λ _. v)
      (λ _. changed-IsValid _ (put_cells-IsValid _ t v (length-set (cells_of t) _ _)))

append_combining-IsValid : (r : ℕ) (t : Terminal) → IsValid t → IsValid (append_combining r t)
unfolding append_combining
append_combining-IsValid r t v =
    if_both IsValid t.wrap_pending (λ _. combine_at-IsValid r _ t v)
      (λ _. if_both IsValid ((cursor_of t).column == 0) (λ _. v) (λ _. combine_at-IsValid r _ t v))

pub length-clear_wide :
    (blank : Cell) (cells : List Cell) (row_at width column : ℕ)
    → length (clear_wide blank cells row_at width column) ≡ length cells
unfolding clear_wide
length-clear_wide blank cells row_at width column = ground (
  arith,
  length-set cells (row_at + column) blank,
  length-set cells (row_at + (column - 1)) blank,
  length-set (set cells (row_at + (column - 1)) blank) (row_at + column) blank,
  length-set (set cells (row_at + column) blank) (row_at + (column + 1)) blank,
)

clear_wide_at-IsValid :
    (row column : ℕ) (t : Terminal) → IsValid t → IsValid (clear_wide_at row column t)
clear_wide_at-IsValid row column t v =
    put_cells-IsValid _ t v (length-clear_wide (blank_cell t) (cells_of t) _ t.width column)

wrap_before-IsValid : (width : ℕ) (t : Terminal) → IsValid t → IsValid (wrap_before width t)
unfolding wrap_before
wrap_before-IsValid width t v =
    if_both IsValid
      (t.wrap_pending || (width == 2 && ((cursor_of t).column == t.width - 1 && t.auto_wrap)))
      (λ _. record {
        shape =
            (if_both IsValid t.auto_wrap
              (λ _. line_feed-IsValid _ (set_column-IsValid 0 t v v.wide)) (λ _. v)).shape;
      })
      (λ _. v)

write_glyph-IsValid : (r width : ℕ) (t : Terminal) → IsValid t → IsValid (write_glyph r width t)
unfolding write_glyph
write_glyph-IsValid r width t v = put_cells-IsValid _ t v (
    if_both (λ (cells : List Cell). length cells ≡ length (cells_of t)) (width == 2)
      (λ _. length-set _ _ _ ∙ length-set (cells_of t) _ _) (λ _. length-set (cells_of t) _ _))

advance-IsValid : (width : ℕ) (t : Terminal) → IsValid t → IsValid (advance width t)
unfolding advance
advance-IsValid width t v = changed-IsValid _ (
    if_both IsValid (leb t.width ((cursor_of t).column + width))
      (λ _. record { shape = (set_column-IsValid (t.width - 1) t v (omega (arith, v.wide))).shape })
      (λ e. set_column-IsValid ((cursor_of t).column + width) t v (ground arith)))

overwrite-IsValid : (r width : ℕ) (t : Terminal) → IsValid t → IsValid (overwrite r width t)
unfolding overwrite
overwrite-IsValid r width t v =
    let t1 = clear_wide_at (cursor_of t).row (cursor_of t).column t in
    let v1 = clear_wide_at-IsValid (cursor_of t).row (cursor_of t).column t v in
    advance-IsValid width _ (
      write_glyph-IsValid r width _ (
        if_both IsValid (width == 2)
          (λ _. clear_wide_at-IsValid (cursor_of t).row ((cursor_of t).column + 1) t1 v1)
          (λ _. v1)))

place-IsValid : (r width : ℕ) (t : Terminal) → IsValid t → IsValid (place r width t)
unfolding place
place-IsValid r width t v =
    overwrite-IsValid r _ _
      (if_both IsValid t.insert_mode (λ _. insert_characters-IsValid _ t v) (λ _. v))

print_width-IsValid : (r width : ℕ) (t : Terminal) → IsValid t → IsValid (print_width r width t)
unfolding print_width
print_width-IsValid r width t v =
    if_both IsValid (width == 0) (λ _. append_combining-IsValid r t v)
      (λ _. place-IsValid r _ _ (wrap_before-IsValid _ t v))

pub print-IsValid :
    (string_width : ℕ → ℤ) (r : ℕ) (t : Terminal) → IsValid t → IsValid (print string_width r t)
unfolding print
print-IsValid string_width r t v = print_width-IsValid _ _ t v
