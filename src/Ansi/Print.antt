-- ===== src/Ansi/Print.antt =====
-- ansi/terminal.go: `print` and what it calls. `string_width` is `StringWidth` of
-- charmbracelet/x/ansi on the text of one code point.
use tuicast.Prelude.{
  ℕ, zero, suc, ◌+◌, ◌-◌, ◌*◌, Bool, false, ◌&&◌, ◌||◌, List, [], ◌∷◌, ◌++◌, ltb, leb, ◌==◌,
  if◌then◌else◌, get_or, set,
}
use tuicast.Prelude.Int.{ℤ, pos, pos_part, ltb_ℤ}
use tuicast.Screen.{Cell, zero_cell}
use tuicast.Ansi.State.{Terminal, blank_cell, changed, put_cells, cells_of, cursor_of, set_column}
use tuicast.Ansi.Edit.{line_feed, insert_characters}

-- `decSpecialGraphics`
unfoldable pub dec_special_graphics : ℕ → ℕ
dec_special_graphics r =
    if r == b'j'
    then 0x2518
    else if r == b'k'
    then 0x2510
    else if r == b'l'
    then 0x250c
    else if r == b'm'
    then 0x2514
    else if r == b'n'
    then 0x253c
    else if r == b'q'
    then 0x2500
    else if r == b't'
    then 0x251c
    else if r == b'u'
    then 0x2524
    else if r == b'v'
    then 0x2534
    else if r == b'w'
    then 0x252c
    else if r == b'x'
    then 0x2502
    else r

-- `t.charsets[t.charset]`
abbrev pub uses_graphics : Terminal → Bool
uses_graphics t = if t.charset == 0 then t.charset_0 else t.charset_1

-- The loop of `appendCombining`: the last index, at most `index`, of a cell that is no
-- continuation, plus one; 0 if there is none.
unfoldable pub base_index : List Cell → ℕ → ℕ
base_index cells zero = if (get_or cells 0 zero_cell).width == 0 then 0 else 1
base_index cells (suc index) =
    let rest = base_index cells index in
    if (get_or cells (suc index) zero_cell).width == 0 then rest else suc (suc index)

abbrev pub add_text : List Cell → ℕ → ℕ → List Cell
add_text cells r index =
    set cells index (record (get_or cells index zero_cell) {
      text = (get_or cells index zero_cell).text ++ r ∷ [];
    })

-- `appendCombining` at the column where the loop starts.
unfoldable pub combine_at : ℕ → ℕ → Terminal → Terminal
combine_at r column t =
    let found = base_index (cells_of t) ((cursor_of t).row * t.width + column) in
    if found == 0 then t else changed (put_cells (add_text (cells_of t) r (found - 1)) t)

unfoldable pub append_combining : ℕ → Terminal → Terminal
append_combining r t =
    if t.wrap_pending
    then combine_at r (cursor_of t).column t
    else if (cursor_of t).column == 0
    then t
    else combine_at r ((cursor_of t).column - 1) t

-- `clearWideCharacterAt`, on the cells; `row_at` is the index of the row's first cell.
unfoldable pub clear_wide : Cell → List Cell → ℕ → ℕ → ℕ → List Cell
clear_wide blank cells row_at width column =
    if leb width column
    then cells
    else (let here = (get_or cells (row_at + column) zero_cell).width in
        if here == 0
        then set
            (if ltb 0 column && (get_or cells (row_at + (column - 1)) zero_cell).width == 2
              then set cells (row_at + (column - 1)) blank
              else cells)
            (row_at + column) blank
        else if here == 2
        then (let cleared = set cells (row_at + column) blank in
            if ltb (column + 1) width
              && (get_or cleared (row_at + (column + 1)) zero_cell).width == 0
            then set cleared (row_at + (column + 1)) blank
            else cleared)
        else cells)

abbrev pub clear_wide_at : ℕ → ℕ → Terminal → Terminal
clear_wide_at row column t =
    put_cells (clear_wide (blank_cell t) (cells_of t) (row * t.width) t.width column) t

-- The `if` of `print` that wraps to the next line before the character is placed.
unfoldable pub wrap_before : ℕ → Terminal → Terminal
wrap_before width t =
    if t.wrap_pending || (width == 2 && ((cursor_of t).column == t.width - 1 && t.auto_wrap))
    then (let t' = if t.auto_wrap then line_feed (set_column 0 t) else t in
        record t' { wrap_pending = false })
    else t

-- The two writes of `print`, at the cursor.
unfoldable pub write_glyph : ℕ → ℕ → Terminal → Terminal
write_glyph r width t =
    let index = (cursor_of t).row * t.width + (cursor_of t).column in
    let cells = set (cells_of t) index (record (t.style) { text = r ∷ []; width = width }) in
    put_cells
      (if width == 2
        then set cells (index + 1) (record (t.style) { text = []; width = 0 })
        else cells)
      t

-- The end of `print`: the cursor goes on, or stays on the last column.
unfoldable pub advance : ℕ → Terminal → Terminal
advance width t =
    let end = (cursor_of t).column + width in
    changed (
      if leb t.width end
      then record (set_column (t.width - 1) t) { wrap_pending = t.auto_wrap }
      else set_column end t)

-- `print` from `clearWideCharacterAt` on.
unfoldable pub overwrite : ℕ → ℕ → Terminal → Terminal
overwrite r width t =
    let row = (cursor_of t).row in
    let column = (cursor_of t).column in
    let t1 = clear_wide_at row column t in
    let t2 = if width == 2 then clear_wide_at row (column + 1) t1 else t1 in
    advance width (write_glyph r width t2)

-- `print` from the second test of the width on.
unfoldable pub place : ℕ → ℕ → Terminal → Terminal
place r width t =
    let fitted = if width == 2 && (cursor_of t).column == t.width - 1 then 1 else width in
    overwrite r fitted (if t.insert_mode then insert_characters fitted t else t)

-- The width that `print` starts with: 1, and for xterm what the library says if it is 0, 1 or 2.
unfoldable pub glyph_width : (ℕ → ℤ) → ℕ → Terminal → ℕ
glyph_width string_width r t =
    if t.xterm
    then (if ltb_ℤ (string_width r) (pos 0) || ltb_ℤ (pos 2) (string_width r)
        then 1
        else pos_part (string_width r))
    else 1

unfoldable pub print_width : ℕ → ℕ → Terminal → Terminal
print_width r width t =
    if width == 0
    then append_combining r t
    else (let fitted = if ltb t.width width then 1 else width in
        place r fitted (wrap_before fitted t))

unfoldable pub print : (ℕ → ℤ) → ℕ → Terminal → Terminal
print string_width r t =
    let glyph = if uses_graphics t then dec_special_graphics r else r in
    print_width glyph (glyph_width string_width glyph t) t
