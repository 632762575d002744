-- ===== src/Ansi/Control.antt =====
-- ansi/terminal.go: the handlers of the parser's events, and `Write`, `DrainEvents` and
-- `SetAnswerback`. `string_width` is `StringWidth` of charmbracelet/x/ansi.
use tuicast.Prelude.{
  ℕ, ◌+◌, ◌-◌, ◌*◌, ◌/◌, min, Bool, true, false, ◌&&◌, ◌||◌, not, Option, none, some, List, [], ◌∷◌,
  ◌++◌, ltb, leb, ◌==◌, if◌then◌else◌, length, Bytes,
}
use tuicast.Prelude.Int.{ℤ, pos, negsuc, pos_part, ltb_ℤ}
use tuicast.Ansi.State.{
  Terminal, TerminalEvent, EventType, active_buffer, changed, put_active, put_cursor, cursor_of,
  set_column, set_row, cursor_changed, bump,
}
use tuicast.Ansi.Edit.{
  line_feed, reverse_index, erase_display, erase_line, erase_characters, insert_characters,
  delete_characters, insert_lines, delete_lines,
}
use tuicast.Ansi.Describe.{
  Command, Parameter, codes, itoa, hex_byte, describe, emit, unsupported, to_valid_utf8,
}
use tuicast.Ansi.Print.{print}
use tuicast.Ansi.Modes.{reset, set_private_modes, set_modes}
use tuicast.Ansi.Rendition.{at, set_rendition}

-- What the parser delivers to the handlers.
pub data Event : Type 0 where
  printed : ℕ → Event
  executed : ℕ → Event
  csi : Command → List Parameter → Event
  escape : Command → Event
  osc : ℤ → Bytes → Event
  dcs : Command → List Parameter → Bytes → Event
  control_string : Bytes → Event

unfoldable pub execute : ℕ → Terminal → Terminal
execute control t =
    if control == 0x05
    then emit EventType.enquiry t.answerback t
    else if control == 0x07
    then emit EventType.bell [] t
    else if control == 0x08
    then cursor_changed (set_column ((cursor_of t).column - 1) t)
    else if control == 0x09
    then cursor_changed (set_column (min (((cursor_of t).column / 8 + 1) * 8) (t.width - 1)) t)
    else if control == 0x0a || control == 0x0b || control == 0x0c
    then record (line_feed t) { wrap_pending = false }
    else if control == 0x0d
    then cursor_changed (set_column 0 t)
    else if control == 0x0e
    then record t { charset = 1 }
    else if control == 0x0f
    then record t { charset = 0 }
    else if leb 0x80 control
    then unsupported (codes "C1 0x" ++ hex_byte control) t
    else t

abbrev pub selects : ℕ → Command → Bool
selects intermediate command =
    command.intermediate == intermediate && (command.final == b'0' || command.final == b'B')

-- `case command.Final == '7'` and `'8'`
unfoldable pub save_cursor : Terminal → Terminal
save_cursor t = put_active (record (active_buffer t) { saved_cursor = cursor_of t }) t

unfoldable pub restore_cursor : Terminal → Terminal
restore_cursor t = cursor_changed (put_cursor (active_buffer t).saved_cursor t)

unfoldable pub handle_escape : Command → Terminal → Terminal
handle_escape command t =
    if selects b'(' command
    then record t { charset_0 = command.final == b'0' }
    else if selects b')' command
    then record t { charset_1 = command.final == b'0' }
    else if not (command.intermediate == 0)
    then unsupported (describe (codes "ESC") command []) t
    else if command.final == b'7'
    then save_cursor t
    else if command.final == b'8'
    then restore_cursor t
    else if command.final == b'D'
    then line_feed t
    else if command.final == b'E'
    then line_feed (set_column 0 t)
    else if command.final == b'M'
    then reverse_index t
    else if command.final == b'c'
    then reset t
    else if command.final == b'=' || command.final == b'>'
    then t
    else if command.final == b'\\'
    then t
    else unsupported (describe (codes "ESC") command []) t

-- Equality of two byte strings.
unfoldable pub same_bytes : Bytes → Bytes → Bool
same_bytes [] [] = true
same_bytes (x ∷ xs) (y ∷ ys) = x == y && same_bytes xs ys
same_bytes _ _ = false

unfoldable pub set_title : Bytes → Terminal → Terminal
set_title title t = if same_bytes title t.title then t else changed (record t { title = title })

-- `command == n`, for an `int`.
abbrev pub is_command : ℤ → ℕ → Bool
is_command (pos m) n = m == n
is_command (negsuc _) n = false

unfoldable pub handle_osc : ℤ → Bytes → Terminal → Terminal
handle_osc command text t =
    if t.xterm && (is_command command 0 || is_command command 2)
    then set_title (to_valid_utf8 text) t
    else if t.xterm && is_command command 1
    then t
    else if ltb_ℤ command (pos 0)
    then unsupported (codes "OSC") t
    else unsupported (codes "OSC " ++ itoa (pos_part command)) t

-- `param`
unfoldable pub param : List Parameter → ℕ → ℕ → ℕ
param parameters index fallback =
    if leb (length parameters) index
      || not (at parameters index).present
      || (at parameters index).value == 0
    then fallback
    else (at parameters index).value

unfoldable pub set_scroll_region : List Parameter → Terminal → Terminal
set_scroll_region parameters t =
    let top = param parameters 0 1 - 1 in
    let bottom = param parameters 1 t.height - 1 in
    if leb t.height bottom || leb bottom top
    then t
    else cursor_changed
        (set_row 0 (set_column 0 (record t { scroll_top = top; scroll_bottom = bottom })))

-- The cases of `handleCSI` that move the cursor.
unfoldable pub move_cursor : ℕ → List Parameter → Terminal → Terminal
move_cursor final parameters t =
    let n = param parameters 0 1 in
    cursor_changed (
      if final == b'A'
      then set_row ((cursor_of t).row - n) t
      else if final == b'B'
      then set_row (min (t.height - 1) ((cursor_of t).row + n)) t
      else if final == b'C'
      then set_column (min (t.width - 1) ((cursor_of t).column + n)) t
      else if final == b'D'
      then set_column ((cursor_of t).column - n) t
      else if final == b'G'
      then set_column (min (t.width - 1) (n - 1)) t
      else set_column (min (t.width - 1) (param parameters 1 1 - 1))
          (set_row (min (t.height - 1) (n - 1)) t))

abbrev pub is_move : ℕ → Bool
is_move final =
    final == b'A'
    || final == b'B'
    || final == b'C'
    || final == b'D'
    || final == b'G'
    || final == b'H'
    || final == b'f'

-- `handleCSI` for a command with no prefix and no intermediate byte.
unfoldable pub plain_csi : Command → List Parameter → Terminal → Terminal
plain_csi command parameters t =
    let final = command.final in
    if is_move final
    then move_cursor final parameters t
    else if final == b'@'
    then insert_characters (param parameters 0 1) t
    else if final == b'J'
    then erase_display (param parameters 0 0) t
    else if final == b'K'
    then erase_line (param parameters 0 0) t
    else if final == b'L'
    then insert_lines (param parameters 0 1) t
    else if final == b'M'
    then delete_lines (param parameters 0 1) t
    else if final == b'P'
    then delete_characters (param parameters 0 1) t
    else if final == b'X'
    then erase_characters (param parameters 0 1) t
    else if final == b'h' || final == b'l'
    then set_modes command parameters t
    else if final == b'm'
    then set_rendition parameters t
    else if final == b'r'
    then set_scroll_region parameters t
    else unsupported (describe (codes "CSI") command parameters) t

unfoldable pub handle_csi : Command → List Parameter → Terminal → Terminal
handle_csi command parameters t =
    if command.prefix == b'?'
      && (command.intermediate == 0 && (command.final == b'h' || command.final == b'l'))
    then set_private_modes command parameters t
    else if not (command.prefix == 0) || not (command.intermediate == 0)
    then unsupported (describe (codes "CSI") command parameters) t
    else plain_csi command parameters t

module _ (string_width : ℕ → ℤ) where
  unfoldable pub handle : Event → Terminal → Terminal
  handle (printed r) t = print string_width r t
  handle (executed control) t = execute control t
  handle (csi command parameters) t = handle_csi command parameters t
  handle (escape command) t = handle_escape command t
  handle (osc command text) t = handle_osc command text t
  handle (dcs command parameters text) t = unsupported (describe (codes "DCS") command parameters) t
  handle (control_string kind) t = unsupported kind t

  unfoldable pub handle_all : List Event → Terminal → Terminal
  handle_all [] t = t
  handle_all (e ∷ es) t = handle_all es (handle e t)

  -- `Write`, for the events that the parser delivers for its bytes. (The parser returns no error.)
  unfoldable pub write : List Event → Terminal → Terminal
  write events t =
      let t' = handle_all events t in
      if t'.revision == t.revision then t' else record t' { revision = bump t.revision }

unfoldable pub drain_events : Terminal → List TerminalEvent × Terminal
drain_events t = (t.events, record t { events = [] })

-- The loop of `SetAnswerback`.
unfoldable pub all_printable : Bytes → Bool
all_printable [] = true
all_printable (b ∷ bytes) = leb 0x20 b && leb b 0x7e && all_printable bytes

-- `SetAnswerback`; `none` is an error.
unfoldable pub set_answerback : Bytes → Terminal → Option Terminal
set_answerback answerback t =
    if ltb 20 (length answerback) || not (all_printable answerback)
    then none
    else some (record t { answerback = answerback })
