-- ===== src/Ansi/Modes.antt =====
-- ansi/terminal.go: reset, the modes and the alternate screen.
use tuicast.Prelude.{
  ℕ, ◌-◌, ◌*◌, Bool, true, false, ◌||◌, not, List, [], ◌∷◌, ◌==◌, if◌then◌else◌, replicate,
}
use tuicast.Ansi.State.{
  Terminal, on_main, on_alternate, blank_cells, changed, zero_cursor, home, nil_buffer, is_nil,
  default_cell, pick,
}
use tuicast.Ansi.Describe.{Command, Parameter, describe, unsupported, codes}

unfoldable pub reset : Terminal → Terminal
reset t = changed (record t {
  style = default_cell;
  main = record {
    cells = replicate (t.width * t.height) default_cell;
    cursor = home true;
    saved_cursor = zero_cursor;
  };
  alternate = nil_buffer;
  active = on_main;
  scroll_top = 0;
  scroll_bottom = t.height - 1;
  wrap_pending = false;
  auto_wrap = true;
  application_cursor = false;
  insert_mode = false;
  charset_0 = false;
  charset_1 = false;
  charset = 0;
})

-- `enterAlternate` where the alternate buffer is not active.
unfoldable pub switch_to_alternate : Bool → Terminal → Terminal
switch_to_alternate clear t = changed (record t {
  alternate =
      if is_nil t.alternate.cells || clear
      then record {
        cells = blank_cells t (t.width * t.height);
        cursor = home t.main.cursor.visible;
        saved_cursor = zero_cursor;
      }
      else t.alternate;
  active = on_alternate;
  wrap_pending = false;
})

-- `enterAlternate` where it is.
unfoldable pub clear_alternate : Bool → Terminal → Terminal
clear_alternate clear t =
    if clear
    then record t {
      alternate = record (t.alternate) {
        cells = blank_cells t (t.width * t.height);
        cursor = home true;
      };
    }
    else t

unfoldable pub enter_alternate : Bool → Terminal → Terminal
enter_alternate clear t = pick t.active (switch_to_alternate clear t) (clear_alternate clear t)

unfoldable pub exit_alternate : Terminal → Terminal
exit_alternate t = pick t.active t (changed (record t { active = on_main; wrap_pending = false }))

unfoldable pub ignored_private_mode : ℕ → Bool
ignored_private_mode mode =
    mode == 12
    || mode == 1000
    || mode == 1002
    || mode == 1003
    || mode == 1004
    || mode == 1005
    || mode == 1006
    || mode == 1015
    || mode == 2004

-- `case 1049` when the mode is set and when it is reset.
unfoldable pub save_and_enter : Terminal → Terminal
save_and_enter t =
    enter_alternate true (record t { main = record (t.main) { saved_cursor = t.main.cursor } })

unfoldable pub exit_and_restore : Terminal → Terminal
exit_and_restore t =
    let t' = exit_alternate t in
    record t' {
      main = record (t'.main) {
        cursor = record (t'.main.saved_cursor) { visible = t'.main.cursor.visible };
      };
    }

-- The modes that `setXTermPrivateMode` supports, and what it does for one of them.
unfoldable pub xterm_mode : ℕ → Bool
xterm_mode mode = mode == 47 || mode == 1047 || mode == 1049

unfoldable pub set_xterm_private_mode : ℕ → Bool → Terminal → Terminal
set_xterm_private_mode mode enabled t =
    if mode == 47 || mode == 1047
    then (if enabled then enter_alternate (mode == 1047) t else exit_alternate t)
    else if mode == 1049
    then (if enabled then save_and_enter t else exit_and_restore t)
    else t

-- `case parameter.Value == 25`
unfoldable pub set_visible : Bool → Terminal → Terminal
set_visible enabled t = changed (record t {
  main = record (t.main) { cursor = record (t.main.cursor) { visible = enabled } };
  alternate =
      if is_nil t.alternate.cells
      then t.alternate
      else record (t.alternate) { cursor = record (t.alternate.cursor) { visible = enabled } };
})

-- One round of the loop of `setPrivateModes`.
unfoldable pub set_private_mode : Command → Parameter → Terminal → Terminal
set_private_mode command parameter t =
    let enabled = command.final == b'h' in
    let mode = parameter.value in
    if not parameter.present
    then t
    else if mode == 1
    then record t { application_cursor = enabled }
    else if mode == 7
    then record t { auto_wrap = enabled; wrap_pending = false }
    else if mode == 25
    then set_visible enabled t
    else if ignored_private_mode mode
    then t
    else if not t.xterm || not (xterm_mode mode)
    then unsupported (describe (codes "CSI") command (parameter ∷ [])) t
    else set_xterm_private_mode mode enabled t

unfoldable pub set_private_modes : Command → List Parameter → Terminal → Terminal
set_private_modes command [] t = t
set_private_modes command (p ∷ ps) t = set_private_modes command ps (set_private_mode command p t)

-- One round of the loop of `setModes`.
unfoldable pub set_mode : Command → Parameter → Terminal → Terminal
set_mode command parameter t =
    if not parameter.present
    then t
    else if parameter.value == 4
    then record t { insert_mode = command.final == b'h' }
    else unsupported (describe (codes "CSI") command (parameter ∷ [])) t

unfoldable pub set_modes : Command → List Parameter → Terminal → Terminal
set_modes command [] t = t
set_modes command (p ∷ ps) t = set_modes command ps (set_mode command p t)
