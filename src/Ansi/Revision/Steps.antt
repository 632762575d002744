-- ===== src/Ansi/Revision/Steps.antt =====
-- ansi/terminal.go: the revision under the handlers that edit, print and move.
use tuicast.Prelude.{
  ℕ, ◌+◌, ◌-◌, ◌*◌, ◌≡◌, refl, ◌∙◌, Bool, false, ◌||◌, ◌&&◌, if◌then◌else◌, arith, leb, ltb, ◌==◌,
}
use tuicast.Prelude.Int.{ℤ}
use tuicast.Ansi.State.{Terminal, cells_of, cursor_of, set_column, snapshot}
use tuicast.Ansi.Edit.{
  scroll_up, line_feed, reverse_index, erase_display, erase_line, erase_characters,
  insert_characters, delete_characters, insert_lines, delete_lines, outside_region,
}
use tuicast.Ansi.Print.{
  combine_at, append_combining, base_index, wrap_before, write_glyph, advance, overwrite, place,
  print_width, print,
}
use tuicast.Ansi.Valid.{if_both}
use tuicast.Ansi.Revision.{Tracked, Tracked-trans, announced, weaken, same, also}

revision-scroll_up : (t : Terminal) → (scroll_up t).revision ≡ t.revision
unfolding scroll_up
revision-scroll_up t = refl

-- The revision of a conditional whose branches have that of `t`.
pub if_revision :
    (b : Bool) (x y : Terminal) (r : ℕ)
    → x.revision ≡ r
    → y.revision ≡ r
    → (if b then x else y).revision ≡ r
if_revision b x y r p q = if_both (λ (x : Terminal). x.revision ≡ r) b (λ _. p) (λ _. q)

pub line_feed-Tracked : (t : Terminal) → Tracked 1 t (line_feed t)
unfolding line_feed
line_feed-Tracked t = announced _ (
    if_revision ((cursor_of t).row == t.scroll_bottom) _ _ t.revision (revision-scroll_up t)
      (if_revision (ltb (cursor_of t).row (t.height - 1)) _ _ t.revision refl refl))

pub reverse_index-Tracked : (t : Terminal) → Tracked 1 t (reverse_index t)
unfolding reverse_index
reverse_index-Tracked t = announced _ (
    if_revision ((cursor_of t).row == t.scroll_top) _ _ t.revision refl
      (if_revision (ltb 0 (cursor_of t).row) _ _ t.revision refl refl))

pub erase_display-Tracked : (mode : ℕ) (t : Terminal) → Tracked 1 t (erase_display mode t)
unfolding erase_display
erase_display-Tracked mode t =
    if_both (Tracked 1 t) (mode == 0) (λ _. announced _ refl)
      (λ _.
        if_both (Tracked 1 t) (mode == 1) (λ _. announced _ refl)
          (λ _.
            if_both (Tracked 1 t) (mode == 2) (λ _. announced _ refl)
              (λ _.
                if_both (Tracked 1 t) (mode == 3)
                  (λ _. if_both (Tracked 1 t) t.xterm (λ _. announced _ refl) (λ _. same 1 t))
                  (λ _. same 1 t))))

pub erase_line-Tracked : (mode : ℕ) (t : Terminal) → Tracked 1 t (erase_line mode t)
unfolding erase_line
erase_line-Tracked mode t =
    if_both (Tracked 1 t) (mode == 0) (λ _. announced _ refl)
      (λ _.
        if_both (Tracked 1 t) (mode == 1) (λ _. announced _ refl)
          (λ _. if_both (Tracked 1 t) (mode == 2) (λ _. announced _ refl) (λ _. same 1 t)))

pub erase_characters-Tracked : (count : ℕ) (t : Terminal) → Tracked 1 t (erase_characters count t)
unfolding erase_characters
erase_characters-Tracked count t = announced _ refl

pub insert_characters-Tracked : (count : ℕ) (t : Terminal) → Tracked 1 t (insert_characters count t)
unfolding insert_characters
insert_characters-Tracked count t = announced _ refl

pub delete_characters-Tracked : (count : ℕ) (t : Terminal) → Tracked 1 t (delete_characters count t)
unfolding delete_characters
delete_characters-Tracked count t = announced _ refl

pub insert_lines-Tracked : (count : ℕ) (t : Terminal) → Tracked 1 t (insert_lines count t)
unfolding insert_lines
insert_lines-Tracked count t =
    if_both (Tracked 1 t) (outside_region t) (λ _. same 1 t) (λ _. announced _ refl)

pub delete_lines-Tracked : (count : ℕ) (t : Terminal) → Tracked 1 t (delete_lines count t)
unfolding delete_lines
delete_lines-Tracked count t =
    if_both (Tracked 1 t) (outside_region t) (λ _. same 1 t) (λ _. announced _ refl)

combine_at-Tracked : (r column : ℕ) (t : Terminal) → Tracked 1 t (combine_at r column t)
unfolding combine_at
combine_at-Tracked r column t =
    if_both (Tracked 1 t) (base_index (cells_of t) ((cursor_of t).row * t.width + column) == 0)
      (λ _. same 1 t) (λ _. announced _ refl)

append_combining-Tracked : (r : ℕ) (t : Terminal) → Tracked 1 t (append_combining r t)
unfolding append_combining
append_combining-Tracked r t =
    if_both (Tracked 1 t) t.wrap_pending (λ _. combine_at-Tracked r _ t)
      (λ _.
        if_both (Tracked 1 t) ((cursor_of t).column == 0) (λ _. same 1 t)
          (λ _. combine_at-Tracked r _ t))

-- Moving to column 0 shows, but the line feed that follows announces it.
pub wrap_feed-Tracked : (t : Terminal) → Tracked 1 t (line_feed (set_column 0 t))
unfolding line_feed
wrap_feed-Tracked t = announced _ (
    if_revision ((cursor_of (set_column 0 t)).row == t.scroll_bottom) _ _ t.revision
      (revision-scroll_up (set_column 0 t))
      (if_revision (ltb (cursor_of (set_column 0 t)).row (t.height - 1)) _ _ t.revision refl refl))

wrap_before-Tracked : (width : ℕ) (t : Terminal) → Tracked 1 t (wrap_before width t)
unfolding wrap_before snapshot
wrap_before-Tracked width t =
    if_both (Tracked 1 t)
      (t.wrap_pending || (width == 2 && ((cursor_of t).column == t.width - 1 && t.auto_wrap)))
      (λ _.
        also
          (record (if t.auto_wrap then line_feed (set_column 0 t) else t) { wrap_pending = false })
          (if_both (Tracked 1 t) t.auto_wrap (λ _. wrap_feed-Tracked t) (λ _. same 1 t)) refl refl)
      (λ _. same 1 t)

revision-write_glyph : (r width : ℕ) (t : Terminal) → (write_glyph r width t).revision ≡ t.revision
unfolding write_glyph
revision-write_glyph r width t = refl

advance-Tracked :
    (width : ℕ) {s : Terminal} (t : Terminal)
    → t.revision ≡ s.revision
    → Tracked 1 s (advance width t)
unfolding advance
advance-Tracked width t r =
    announced _ (if_revision (leb t.width ((cursor_of t).column + width)) _ _ _ r r)

overwrite-Tracked : (r width : ℕ) (t : Terminal) → Tracked 1 t (overwrite r width t)
unfolding overwrite
overwrite-Tracked r width t =
    advance-Tracked width _
      (revision-write_glyph r width _ ∙ if_revision (width == 2) _ _ t.revision refl refl)

place-Tracked : (r width : ℕ) (t : Terminal) → Tracked 2 t (place r width t)
unfolding place
place-Tracked r width t =
    Tracked-trans
      (if_both (Tracked 1 t) t.insert_mode (λ _. insert_characters-Tracked _ t) (λ _. same 1 t))
      (overwrite-Tracked r _ _)

print_width-Tracked : (r width : ℕ) (t : Terminal) → Tracked 3 t (print_width r width t)
unfolding print_width
print_width-Tracked r width t =
    if_both (Tracked 3 t) (width == 0) (λ _. weaken 3 (omega arith) (append_combining-Tracked r t))
      (λ _. Tracked-trans (wrap_before-Tracked _ t) (place-Tracked r _ _))

pub print-Tracked :
    (string_width : ℕ → ℤ) (r : ℕ) (t : Terminal) → Tracked 3 t (print string_width r t)
unfolding print
print-Tracked string_width r t = print_width-Tracked _ _ t
