-- ===== src/Telnet/Tests.antt =====
-- Runs of the Telnet model.
use tuicast.Prelude.{
  ℕ, ◌+◌, ◌*◌, ◌≤◌, true, false, length, List, none, some, [], ◌∷◌, ◌++◌, ◌≡◌, refl, Bytes, arith,
}
use tuicast.Prelude.Int.{pos}
use tuicast.Telnet.Connector.{
  ConnectionCall, opens, closes, Connection, opened_streams, AllWindow, close_connection,
  opens_one_session,
}
use tuicast.Telnet.Stream.{
  Conn, Stream, state_data, eof, new_stream, write_bytes, write_loop, append_escaped,
  conn_write_with, command_do, option_terminal_type, terminal_type_is, terminal_type_send,
  option_negotiate_window,
}
use tuicast.Telnet.Protocol.{
  process, process_in, negotiate, negotiate_do, subnegotiate, send_command, send_window_size,
  window_payload, type_payload, supports_local, write,
}
use tuicast.Telnet.Writing.{Delivered, write_bytes-Delivered}
use tuicast.Telnet.Negotiation.{OnlySupported, process-OnlySupported, negotiate_settles}
use tuicast.Telnet.Delivery.{write-process, send_window_size-process, framed, terminal_type-process}

abbrev quiet : Conn
quiet = record { sent = []; writes = []; reads = []; on_close = none }

abbrev fresh : Stream
fresh = new_stream quiet (b'v' ∷ b't' ∷ []) 80 255

-- `a`, a request for the window's size, `b`
abbrev request : Bytes
request = b'a' ∷ 255 ∷ 253 ∷ 31 ∷ b'b' ∷ []

naws_reply :
    (process request fresh).0.conn.sent
    ≡ 255 ∷ 251 ∷ 31 ∷ 255 ∷ 250 ∷ 31 ∷ 0 ∷ 80 ∷ 0 ∷ 255 ∷ 255 ∷ 255 ∷ 240 ∷ []
unfolding process process_in negotiate negotiate_do send_command send_window_size window_payload
    supports_local write_bytes write_loop append_escaped new_stream conn_write_with
naws_reply = refl

write_fine : (write (b'a' ∷ 255 ∷ []) fresh).2 ≡ none
unfolding write write_bytes write_loop append_escaped new_stream conn_write_with
write_fine = refl

starts_in_data : fresh.state ≡ state_data
unfolding new_stream
starts_in_data = refl

write-process_example :
    (wire : Bytes) × ((write (b'a' ∷ 255 ∷ []) fresh).0.conn.sent ≡ fresh.conn.sent ++ wire)
    × (process wire fresh ≡ (record fresh { pending = fresh.pending ++ b'a' ∷ 255 ∷ [] }, none))
    × ((write (b'a' ∷ 255 ∷ []) fresh).1 ≡ 2)
write-process_example = write-process (b'a' ∷ 255 ∷ []) fresh fresh write_fine starts_in_data

negotiate_settles_example :
    let s' = (negotiate command_do option_terminal_type fresh).0 in
    ((negotiate command_do option_terminal_type s').0.conn ≡ s'.conn)
    × ((negotiate command_do option_terminal_type s').1 ≡ none)
    × ((k : ℕ) → (negotiate command_do option_terminal_type s').0.local k ≡ s'.local k)
    × ((k : ℕ) → (negotiate command_do option_terminal_type s').0.remote k ≡ s'.remote k)
unfolding supports_local
negotiate_settles_example =
    negotiate_settles command_do option_terminal_type fresh (λ _. refl) (λ e. absurd (omega arith))

fresh-OnlySupported : OnlySupported fresh
unfolding new_stream
fresh-OnlySupported = record { local_supported = λ o on. cc; remote_supported = λ o on. cc }

process-OnlySupported_example : OnlySupported (process request fresh).0
process-OnlySupported_example = process-OnlySupported request fresh fresh-OnlySupported

size_fine : (send_window_size fresh).1 ≡ none
unfolding send_window_size window_payload write_bytes write_loop append_escaped new_stream
    conn_write_with
size_fine = refl

send_window_size-process_example :
    (wire : Bytes) × (hi lo hi' lo' : ℕ) × ((send_window_size fresh).0.conn.sent
      ≡ fresh.conn.sent ++ wire)
    × (process wire fresh ≡ (
      record fresh { sub_option = option_negotiate_window; sub_data = hi ∷ lo ∷ hi' ∷ lo' ∷ [] },
      none,
    ))
    × (hi * 256 + lo ≡ 80)
    × (hi' * 256 + lo' ≡ 255)
unfolding new_stream
send_window_size-process_example =
    send_window_size-process fresh fresh (omega arith) (omega arith) size_fine starts_in_data

type_fine : (process (framed option_terminal_type (terminal_type_send ∷ [])) fresh).1 ≡ none
unfolding process process_in subnegotiate type_payload write_bytes write_loop append_escaped
    new_stream conn_write_with
type_fine = refl

terminal_type-process_example :
    (wire : Bytes) × ((process
        (framed option_terminal_type (terminal_type_send ∷ []))
        fresh).0.conn.sent
      ≡ fresh.conn.sent ++ wire)
    × (process wire fresh ≡ (
      record fresh {
        sub_option = option_terminal_type;
        sub_data = terminal_type_is ∷ fresh.terminal;
      },
      none,
    ))
terminal_type-process_example =
    terminal_type-process fresh fresh starts_in_data starts_in_data type_fine

-- A network that takes two bytes and then fails.
abbrev failing : Stream
failing = record fresh {
  conn = record quiet { writes = record { taken = 2; failure = some eof } ∷ [] };
}

write_bytes-Delivered_example :
    let (s', e) = write_bytes request failing in
    Delivered failing.conn.sent request s'.conn.sent e × (s' ≡ record failing { conn = s'.conn })
write_bytes-Delivered_example = write_bytes-Delivered request failing

-- A cancelled call, one that is too wide, one that opens, and another one.
abbrev connection_calls : List ConnectionCall
connection_calls =
    opens true [] (pos 80) (pos 24)
    ∷ opens false [] (pos 65536) (pos 24)
    ∷ opens false [] (pos 80) (pos 24)
    ∷ opens false [] (pos 80) (pos 24)
    ∷ closes
    ∷ []

abbrev connection : Connection
connection = record { conn = quiet; opened = false; closed = false }

opens_one_session_example :
    (length (opened_streams connection_calls connection) ≤ 1)
    × AllWindow (opened_streams connection_calls connection)
    × (opened_streams connection_calls (close_connection connection).0 ≡ [])
opens_one_session_example = opens_one_session connection_calls connection
