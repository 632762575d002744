-- ===== src/Telnet/Stream.antt =====
-- telnet/stream.go: the state of one Telnet session and the operations on it.
use tuicast.Prelude.{
  ℕ, suc, Bool, false, Option, none, some, List, [], ◌∷◌, ◌++◌, ◌==◌, if◌then◌else◌, length, take,
  drop, Bytes,
}

abbrev pub command_se : ℕ
command_se = 240

abbrev pub command_sb : ℕ
command_sb = 250

abbrev pub command_will : ℕ
command_will = 251

abbrev pub command_wont : ℕ
command_wont = 252

abbrev pub command_do : ℕ
command_do = 253

abbrev pub command_dont : ℕ
command_dont = 254

abbrev pub command_iac : ℕ
command_iac = 255

abbrev pub option_binary : ℕ
option_binary = 0

abbrev pub option_echo : ℕ
option_echo = 1

abbrev pub option_suppress_go_ahead : ℕ
option_suppress_go_ahead = 3

abbrev pub option_terminal_type : ℕ
option_terminal_type = 24

abbrev pub option_negotiate_window : ℕ
option_negotiate_window = 31

abbrev pub terminal_type_is : ℕ
terminal_type_is = 0

abbrev pub terminal_type_send : ℕ
terminal_type_send = 1

pub data ParseState : Type 0 where
  state_data state_iac state_negotiation state_sub_option state_sub_data state_sub_iac : ParseState

-- The errors that the operations return; a wrapping `fmt.Errorf` is a constructor over its cause.
pub data StreamError : Type 0 where
  eof short_write net_closed : StreamError
  network : ℕ → StreamError
  processing reading writing sending_window closing : StreamError → StreamError
  not_positive naws_limits : StreamError

-- What the network does with one `conn.Write`: it takes the first `taken` bytes, and may fail.
pub record WriteOutcome : Type 0 where
  pub taken : ℕ
  pub failure : Option StreamError

-- The network connection: what was sent so far, and what the coming calls of `Write`, `Read` and
-- `Close` meet. Past the end of `writes` each write is taken whole; past the end of `reads` a read
-- blocks.
pub record Conn : Type 0 where
  pub sent : Bytes
  pub writes : List WriteOutcome
  pub reads : List (Bytes × Option StreamError)
  pub on_close : Option StreamError

pub record Stream : Type 0 where
  pub conn : Conn
  pub state : ParseState
  pub negotiation : ℕ
  pub sub_option : ℕ
  pub sub_data : Bytes
  pub pending : Bytes
  pub pending_err : Option StreamError
  pub terminal : Bytes
  pub width : ℕ
  pub height : ℕ
  pub local : ℕ → Bool
  pub remote : ℕ → Bool
  pub closed : Bool
  pub close_err : Option StreamError

unfoldable pub new_stream : Conn → Bytes → ℕ → ℕ → Stream
new_stream conn terminal width height = record {
  conn = conn;
  state = state_data;
  negotiation = 0;
  sub_option = 0;
  sub_data = [];
  pending = [];
  pending_err = none;
  terminal = terminal;
  width = width;
  height = height;
  local = λ _. false;
  remote = λ _. false;
  closed = false;
  close_err = none;
}

-- A method that changes the stream and may return an error.
abbrev pub Action : Type 0
Action = Stream → Stream × Option StreamError

-- `if err := first(); err != nil { return err }`, then the rest.
infixl 5 ◌>>◌
abbrev pub ◌>>◌ : Action → Action → Action
◌>>◌ m k s = let (s', e) = m s in elim e [ none ↦ k s' | some x ↦ (s', some x) ]

abbrev pub done : Action
done s = (s, none)

abbrev pub send : Conn → Bytes → Conn
send c bytes = record c { sent = c.sent ++ bytes }

-- One `conn.Write`: the bytes left over, the error, and the connection after it.
unfoldable pub conn_write_with :
    List WriteOutcome → Conn → Bytes → Bytes × Option StreamError × Conn
conn_write_with [] c bytes = ([], none, send c bytes)
conn_write_with (w ∷ ws) c bytes =
    (drop w.taken bytes, w.failure, record (send c (take w.taken bytes)) { writes = ws })

-- The loop of `writeBytes`. Each round that goes on takes a byte or more, so the number of bytes
-- bounds the rounds.
unfoldable pub write_loop : ℕ → Conn → Bytes → Conn × Option StreamError
write_loop fuel c [] = (c, none)
write_loop ℕ.zero c (b ∷ bytes) = (c, none)
write_loop (suc fuel) c (b ∷ bytes) =
    let (left, e, c') = conn_write_with c.writes c (b ∷ bytes) in
    let rest = write_loop fuel c' left in
    elim e [
      | some x ↦ (c', some x)
      | none ↦ if length left == suc (length bytes) then (c', some short_write) else rest
    ]

unfoldable pub write_bytes : Bytes → Action
write_bytes bytes s =
    let (c, e) = write_loop (length bytes) s.conn bytes in (record s { conn = c }, e)

unfoldable pub append_escaped : Bytes → Bytes → Bytes
append_escaped destination [] = destination
append_escaped destination (b ∷ bytes) =
    append_escaped
      (if b == command_iac then destination ++ b ∷ command_iac ∷ [] else destination ++ b ∷ [])
      bytes
