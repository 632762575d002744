-- ===== src/Ansi/Tests.antt =====
-- Runs of the terminal model, on a screen of 4 columns and 3 rows.
use tuicast.Prelude.{
  ℕ, ◌≡◌, ◌+◌, ◌%◌, ◌^◌, ◌⊎◌, refl, true, false, some, List, [], ◌∷◌, replicate, ◌++◌, arith,
}
use tuicast.Prelude.Int.{ℤ, pos}
use tuicast.Screen.{Cell}
use tuicast.Ansi.State.{
  Profile, is_xterm, Terminal, ScreenBuffer, on_main, on_alternate, default_cell, home, zero_cursor,
  nil_buffer, new_terminal, snapshot, cursor_of, set_row, put_cells, set_column, changed,
}
use tuicast.Ansi.Describe.{Parameter}
use tuicast.Ansi.Rendition.{set_rendition, rendition_loop}
use tuicast.Ansi.Control.{Event, printed, executed, csi, write, handle_all, handle, handle_csi}
use tuicast.Ansi.Modes.{
  set_private_modes, set_private_mode, set_xterm_private_mode, ignored_private_mode, xterm_mode,
  enter_alternate, clear_alternate, exit_alternate, exit_and_restore,
}
use tuicast.Ansi.Rows.Lines.{insert_lines_moves, delete_lines_moves}
use tuicast.Ansi.Edit.{line_feed, insert_lines, delete_lines}
use tuicast.Ansi.Rows.Scrolling.{cell_of, line_feed_scrolls}
use tuicast.Ansi.Valid.{IsValid, set_row-IsValid, put_cells-IsValid}
use tuicast.Ansi.Valid.Controls.{write-IsValid}
use tuicast.Ansi.Valid.Resizing.{Call, writes, resizes, drains, calls, new_terminal-IsValid}
use tuicast.Ansi.Valid.Snapshots.{Readable, calls-Readable}
use tuicast.Ansi.StyleOnly.{set_rendition-StyleOnly, Ends, rendition_loop-Ends}
use tuicast.Ansi.Revision.Writes.{write_revision}

-- Every character is one column wide.
abbrev pub one_wide : ℕ → ℤ
one_wide _ = pos 1

abbrev full_buffer : ScreenBuffer
full_buffer = record {
  cells = replicate 12 default_cell;
  cursor = home true;
  saved_cursor = zero_cursor;
}

abbrev pub small : Terminal
small = record {
  profile = Profile.xterm;
  xterm = true;
  width = 4;
  height = 3;
  main = full_buffer;
  alternate = nil_buffer;
  active = on_main;
  style = default_cell;
  revision = 0;
  wrap_pending = false;
  auto_wrap = true;
  application_cursor = false;
  insert_mode = false;
  scroll_top = 0;
  scroll_bottom = 2;
  charset_0 = false;
  charset_1 = false;
  charset = 0;
  answerback = [];
  events = [];
  title = [];
}

abbrev on_second : Terminal
on_second = record small { alternate = full_buffer; active = on_alternate }

pub new_terminal-small : new_terminal (pos 4) (pos 3) Profile.xterm ≡ some small
unfolding new_terminal is_xterm
new_terminal-small = refl

small-IsValid : IsValid small
small-IsValid = new_terminal-IsValid (pos 4) (pos 3) Profile.xterm new_terminal-small

-- `Hi`, a line feed, and `CSI 2 K`.
abbrev hello : List Event
hello =
    printed b'H'
    ∷ printed b'i'
    ∷ executed 0x0a
    ∷ csi (record { prefix = 0; intermediate = 0; final = b'K' })
        (record { value = 2; present = true; more = false } ∷ [])
    ∷ []

abbrev session : List Call
session = writes hello ∷ resizes (pos 6) (pos 2) ∷ drains ∷ []

calls-Readable_example : Readable (calls one_wide session small)
calls-Readable_example =
    calls-Readable one_wide (pos 4) (pos 3) Profile.xterm session new_terminal-small

write-IsValid_example : IsValid (write one_wide hello small)
write-IsValid_example = write-IsValid one_wide hello small small-IsValid

write_revision_example :
    let t' = write one_wide hello small in
    ((t'.revision ≡ (0 + 1) % 2 ^ 64) ⊎ ((t'.revision ≡ 0) × (snapshot t' ≡ snapshot small)))
write_revision_example = write_revision one_wide hello small (omega arith) refl (omega arith)

-- `CSI ? mode final`
abbrev private_mode : ℕ → ℕ → Event
private_mode mode final =
    csi (record { prefix = b'?'; intermediate = 0; final = final })
      (record { value = mode; present = true; more = false } ∷ [])

-- `CSI ? 1047 h`, the cursor in column 1 of the alternate screen.
abbrev second_moved : Terminal
second_moved = set_column 1 on_second

abbrev second_cleared : Terminal
second_cleared = write one_wide (private_mode 1047 b'h' ∷ []) second_moved

cleared_unannounced :
    (second_cleared.revision ≡ second_moved.revision)
    × ((snapshot second_moved).cursor.column ≡ 1)
    × ((snapshot second_cleared).cursor.column ≡ 0)
unfolding write handle_all handle handle_csi set_private_modes set_private_mode
    set_xterm_private_mode ignored_private_mode xterm_mode enter_alternate clear_alternate
    exit_alternate exit_and_restore snapshot changed
cleared_unannounced = (refl, refl, refl)

-- `CSI ? 1049 l`, the cursor in column 1 of the main screen.
abbrev main_moved : Terminal
main_moved = set_column 1 small

abbrev main_restored : Terminal
main_restored = write one_wide (private_mode 1049 b'l' ∷ []) main_moved

moved_unannounced :
    (main_restored.revision ≡ main_moved.revision)
    × ((snapshot main_moved).cursor.column ≡ 1)
    × ((snapshot main_restored).cursor.column ≡ 0)
unfolding write handle_all handle handle_csi set_private_modes set_private_mode
    set_xterm_private_mode ignored_private_mode xterm_mode enter_alternate clear_alternate
    exit_alternate exit_and_restore snapshot changed
moved_unannounced = (refl, refl, refl)

-- `38;5;9;1`
abbrev bright_bold : List Parameter
bright_bold =
    record { value = 38; present = true; more = false }
    ∷ record { value = 5; present = true; more = false }
    ∷ record { value = 9; present = true; more = false }
    ∷ record { value = 1; present = true; more = false }
    ∷ []

rendition_loop-Ends_example : Ends bright_bold 0 small (rendition_loop 4 bright_bold 0 small)
rendition_loop-Ends_example = rendition_loop-Ends 4 bright_bold 0 small (omega arith)

set_rendition-StyleOnly_example : set_rendition bright_bold small ≡ record small {
  style = (set_rendition bright_bold small).style;
  events = (set_rendition bright_bold small).events;
}
set_rendition-StyleOnly_example = set_rendition-StyleOnly bright_bold small

abbrev letter : ℕ → Cell
letter c = record default_cell { text = c ∷ [] }

-- Rows of `a`, `b` and `c`.
abbrev lettered : Terminal
lettered =
    put_cells
      (replicate 4 (letter b'a') ++ (replicate 4 (letter b'b') ++ replicate 4 (letter b'c'))) small

lettered-IsValid : IsValid lettered
lettered-IsValid = put_cells-IsValid _ small small-IsValid refl

abbrev at_row : ℕ → Terminal
at_row row = set_row row lettered

-- The cursor on the last row of the scroll region.
line_feed_scrolls_example :
    (cell_of (line_feed (at_row 2)) 1 0 ≡ letter b'c')
    × (cursor_of (line_feed (at_row 2)) ≡ cursor_of (at_row 2))
line_feed_scrolls_example =
    line_feed_scrolls (at_row 2) (set_row-IsValid 2 lettered lettered-IsValid (omega arith)) 1 0
      refl (omega arith)

insert_lines_moves_example : cell_of (insert_lines 1 (at_row 1)) 2 0 ≡ letter b'b'
insert_lines_moves_example =
    insert_lines_moves (at_row 1) (set_row-IsValid 1 lettered lettered-IsValid (omega arith)) 1 2 0
      refl (omega arith)

delete_lines_moves_example : cell_of (delete_lines 1 (at_row 1)) 1 0 ≡ letter b'c'
delete_lines_moves_example =
    delete_lines_moves (at_row 1) (set_row-IsValid 1 lettered lettered-IsValid (omega arith)) 1 1 0
      refl (omega arith)
