-- ===== src/Telnet/Protocol.antt =====
-- telnet/stream.go: the protocol machine of `process`, the option negotiation, and the methods
-- `Read`, `Write`, `Resize` and `Close`.
use tuicast.Prelude.{
  ℕ, ◌/◌, ◌%◌, ◌^◌, Bool, true, false, ◌||◌, not, Option, none, some, List, [], ◌∷◌, ◌++◌, ltb,
  ◌==◌, if◌then◌else◌, length, take, drop, Bytes,
}
use tuicast.Prelude.Int.{ℤ, pos, pos_part, leb_ℤ}
use tuicast.Telnet.Stream.{
  command_se, command_sb, command_will, command_wont, command_do, command_dont, command_iac,
  option_binary, option_echo, option_suppress_go_ahead, option_terminal_type,
  option_negotiate_window, terminal_type_is, terminal_type_send, ParseState, state_data, state_iac,
  state_negotiation, state_sub_option, state_sub_data, state_sub_iac, StreamError, eof, net_closed,
  processing, reading, writing, sending_window, closing, not_positive, naws_limits, Stream, Action,
  ◌>>◌, done, write_bytes, append_escaped,
}

unfoldable pub supports_local : ℕ → Bool
supports_local option =
    option == option_binary
    || option == option_suppress_go_ahead
    || option == option_terminal_type
    || option == option_negotiate_window

unfoldable pub supports_remote : ℕ → Bool
supports_remote option =
    option == option_binary || option == option_echo || option == option_suppress_go_ahead

unfoldable pub send_command : ℕ → ℕ → Action
send_command command option = write_bytes (command_iac ∷ command ∷ option ∷ [])

-- `byte(n >> 8)` and `byte(n)`
abbrev pub high_byte : ℕ → ℕ
high_byte n = n / 2 ^ 8 % 2 ^ 8

abbrev pub low_byte : ℕ → ℕ
low_byte n = n % 2 ^ 8

abbrev pub window_bytes : Stream → Bytes
window_bytes s = high_byte s.width ∷ low_byte s.width ∷ high_byte s.height ∷ low_byte s.height ∷ []

unfoldable pub window_payload : Stream → Bytes
window_payload s =
    append_escaped (command_iac ∷ command_sb ∷ option_negotiate_window ∷ []) (window_bytes s)
    ++ command_iac ∷ command_se ∷ []

unfoldable pub send_window_size : Action
send_window_size s = write_bytes (window_payload s) s

-- `m[option] = b` and, for `false`, `delete(m, option)`
abbrev pub set_option : (ℕ → Bool) → ℕ → Bool → ℕ → Bool
set_option m option b k = if k == option then b else m k

abbrev pub set_local : ℕ → Bool → Action
set_local option b s = (record s { local = set_option s.local option b }, none)

abbrev pub set_remote : ℕ → Bool → Action
set_remote option b s = (record s { remote = set_option s.remote option b }, none)

-- `case commandDO`
unfoldable pub negotiate_do : ℕ → Action
negotiate_do option s =
    if not (supports_local option)
    then send_command command_wont option s
    else if s.local option
    then set_local option true s
    else (set_local option true
          >> send_command command_will option
          >> (if option == option_negotiate_window then send_window_size else done))
        s

-- `case commandDONT`
unfoldable pub negotiate_dont : ℕ → Action
negotiate_dont option s =
    (set_local option false >> (if s.local option then send_command command_wont option else done))
      s

-- `case commandWILL`
unfoldable pub negotiate_will : ℕ → Action
negotiate_will option s =
    if not (supports_remote option)
    then send_command command_dont option s
    else (set_remote option true
          >> (if s.remote option then done else send_command command_do option))
        s

-- `case commandWONT`
unfoldable pub negotiate_wont : ℕ → Action
negotiate_wont option s =
    (set_remote option false
        >> (if s.remote option then send_command command_dont option else done))
      s

unfoldable pub negotiate : ℕ → ℕ → Action
negotiate command option =
    if command == command_do
    then negotiate_do option
    else if command == command_dont
    then negotiate_dont option
    else if command == command_will
    then negotiate_will option
    else if command == command_wont
    then negotiate_wont option
    else done

-- `len(s.subData) == 0 || s.subData[0] != terminalTypeSend`, negated
abbrev pub asks_type : Bytes → Bool
asks_type [] = false
asks_type (b ∷ _) = b == terminal_type_send

unfoldable pub type_payload : Stream → Bytes
type_payload s =
    append_escaped (command_iac ∷ command_sb ∷ option_terminal_type ∷ terminal_type_is ∷ [])
      s.terminal
    ++ command_iac ∷ command_se ∷ []

unfoldable pub subnegotiate : Action
subnegotiate s =
    if not (s.sub_option == option_terminal_type) || not (asks_type s.sub_data)
    then (s, none)
    else write_bytes (type_payload s) s

abbrev pub to_state : ParseState → Action
to_state q s = (record s { state = q }, none)

-- One round of the loop of `process`, by the state.
unfoldable pub process_in : ParseState → ℕ → Action
process_in state_data b s =
    if b == command_iac
    then to_state state_iac s
    else (record s { pending = s.pending ++ b ∷ [] }, none)
process_in state_iac b s =
    if b == command_iac
    then (record s { pending = s.pending ++ command_iac ∷ []; state = state_data }, none)
    else if b == command_do || b == command_dont || b == command_will || b == command_wont
    then (record s { negotiation = b; state = state_negotiation }, none)
    else if b == command_sb
    then to_state state_sub_option s
    else to_state state_data s
process_in state_negotiation b s = (to_state state_data >> negotiate s.negotiation b) s
process_in state_sub_option b s =
    (record s { sub_option = b; sub_data = []; state = state_sub_data }, none)
process_in state_sub_data b s =
    if b == command_iac
    then to_state state_sub_iac s
    else (record s { sub_data = s.sub_data ++ b ∷ [] }, none)
process_in state_sub_iac b s =
    if b == command_iac
    then (record s { sub_data = s.sub_data ++ command_iac ∷ []; state = state_sub_data }, none)
    else if b == command_se
    then (to_state state_data >> subnegotiate) s
    else to_state state_data s

abbrev pub process_byte : ℕ → Action
process_byte b s = process_in s.state b s

unfoldable pub process : Bytes → Action
process [] = done
process (b ∷ bytes) = process_byte b >> process bytes

-- `Write`: the number of bytes it reports, and the error.
unfoldable pub write : Bytes → Stream → Stream × ℕ × Option StreamError
write bytes s =
    let (s', e) = write_bytes (append_escaped [] bytes) s in
    elim e [ none ↦ (s', length bytes, none) | some x ↦ (s', 0, some (writing x)) ]

abbrev pub wrap : (StreamError → StreamError) → Option StreamError → Option StreamError
wrap f none = none
wrap f (some x) = some (f x)

abbrev pub with_size : ℤ → ℤ → Stream → Stream
with_size width height s = record s { width = pos_part width; height = pos_part height }

unfoldable pub resize : ℤ → ℤ → Action
resize width height s =
    if leb_ℤ width (pos 0) || leb_ℤ height (pos 0)
    then (s, some not_positive)
    else if ltb 65535 (pos_part width) || ltb 65535 (pos_part height)
    then (s, some naws_limits)
    else if s.local option_negotiate_window
    then (let (t, e) = send_window_size (with_size width height s) in (t, wrap sending_window e))
    else (with_size width height s, none)

-- The error of `conn.Close`, if it is not `net.ErrClosed`, is kept for every later call.
abbrev pub close_failure : Option StreamError → Option StreamError
close_failure none = none
close_failure (some net_closed) = none
close_failure (some x) = some (closing x)

unfoldable pub close : Action
close s = if s.closed then (s, s.close_err) else (
  record s { closed = true; close_err = close_failure s.conn.on_close },
  close_failure s.conn.on_close,
)

abbrev pub read_failure : StreamError → StreamError
read_failure eof = eof
read_failure x = reading x

abbrev first_error : Option StreamError → Option StreamError → Option StreamError
first_error (some x) e = some x
first_error none e = e

-- What the body of the loop of `Read` does with one result of `conn.Read`.
unfoldable pub absorb : Bytes → Option StreamError → Stream → Stream
absorb chunk read_err s =
    let (t, e) = process chunk s in
    record t {
      pending_err =
          first_error (first_error (wrap processing e) t.pending_err) (wrap read_failure read_err);
    }

-- What `Read` hands back: bytes, or an error.
pub data ReadResult : Type 0 where
  got : Bytes → ReadResult
  failed : StreamError → ReadResult

-- What `Read` finds before it asks the network, if anything.
unfoldable pub read_ready : ℕ → Stream → Option (ReadResult × Stream)
read_ready size s = elim s.pending [
  | b ∷ rest ↦ some (got (take size (b ∷ rest)), record s { pending = drop size (b ∷ rest) })
  | [] ↦ elim s.pending_err [
    | some x ↦ some (failed x, record s { pending_err = none })
    | none ↦ none
  ]
]

-- The loop of `Read` for a buffer of `size` bytes, over what the network delivers; `none` means
-- that it waits for the network.
unfoldable pub read_loop :
    List (Bytes × Option StreamError) → ℕ → Stream → Option (ReadResult × Stream)
read_loop [] size s = read_ready size s
read_loop ((chunk, e) ∷ reads) size s =
    let rest =
      read_loop reads size
        (absorb chunk e (record s { conn = record (s.conn) { reads = reads } })) in
    elim (read_ready size s) [ some r ↦ some r | none ↦ rest ]

unfoldable pub read : ℕ → Stream → Option (ReadResult × Stream)
read size s = if size == 0 then some (got [], s) else read_loop s.conn.reads size s
