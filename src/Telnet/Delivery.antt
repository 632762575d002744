-- ===== src/Telnet/Delivery.antt =====
-- What reaches the other end: escaped data, and the answers that carry data of their own.
use tuicast.Prelude.{
  ℕ, ◌+◌, ◌*◌, ◌^◌, ◌≡◌, ◌<◌, refl, sym, ap, ◌∙◌, none, [], ◌∷◌, ◌++◌, ◌==◌, if◌then◌else◌, Bytes,
  arith, length, inl, inr, Bool-cases, append-nil, append_assoc,
}
use tuicast.Telnet.Writing.{write_bytes_ok}
use tuicast.Telnet.Stream.{
  command_iac, command_sb, command_se, option_terminal_type, option_negotiate_window,
  terminal_type_is, terminal_type_send, state_data, state_sub_data, Stream, ◌>>◌, append_escaped,
  write_bytes,
}
use tuicast.Telnet.Protocol.{
  process_in, process, window_payload, window_bytes, type_payload, write, send_window_size,
  subnegotiate, high_byte, low_byte,
}

-- The protocol's escaping: each 255 is doubled.
abbrev pub escape : Bytes → Bytes
escape [] = []
escape (b ∷ bytes) =
    if b == command_iac then command_iac ∷ command_iac ∷ escape bytes else b ∷ escape bytes

pub append_escaped-escape : (d bytes : Bytes) → append_escaped d bytes ≡ d ++ escape bytes
unfolding append_escaped
append_escaped-escape d [] = sym (append-nil d)
append_escaped-escape d (b ∷ bytes) = elim (Bool-cases (b == command_iac)) [
  | inl e ↦ rw e (
      append_escaped-escape (d ++ b ∷ command_iac ∷ []) bytes
      ∙ append_assoc d (b ∷ command_iac ∷ []) (escape bytes)
      ∙ ground (arith))
  | inr e ↦
      rw e (append_escaped-escape (d ++ b ∷ []) bytes ∙ append_assoc d (b ∷ []) (escape bytes))
]

-- The machine reads in pieces, up to the first error.
process-append : (xs ys : Bytes) (s : Stream) → process (xs ++ ys) s ≡ (process xs >> process ys) s
unfolding process
process-append [] ys s = refl
process-append (x ∷ xs) ys s = ground (arith, process-append xs ys (process_in s.state x s).0)

-- Data, escaped, is received as it was, and nothing but `pending` changes.
process-escape :
    (bytes : Bytes) (s : Stream)
    → s.state ≡ state_data
    → process (escape bytes) s ≡ (record s { pending = s.pending ++ bytes }, none)
unfolding process process_in
process-escape [] s h = rw append-nil
process-escape (b ∷ bytes) s h = ground (
  arith,
  process-escape bytes (record s { pending = s.pending ++ b ∷ [] }) h,
  process-escape bytes (record s { pending = s.pending ++ command_iac ∷ []; state = state_data })
      refl,
  append_assoc s.pending (b ∷ []) bytes,
)

-- The same inside a subnegotiation.
process-escape_sub :
    (bytes rest : Bytes) (s : Stream)
    → s.state ≡ state_sub_data
    → process (escape bytes ++ rest) s ≡ process rest (record s { sub_data = s.sub_data ++ bytes })
unfolding process process_in
process-escape_sub [] rest s h = rw append-nil
process-escape_sub (b ∷ bytes) rest s h = ground (
  arith,
  process-escape_sub bytes rest (record s { sub_data = s.sub_data ++ b ∷ [] }) h,
  process-escape_sub bytes rest
      (record s { sub_data = s.sub_data ++ command_iac ∷ []; state = state_sub_data }) refl,
  append_assoc s.sub_data (b ∷ []) bytes,
)

-- A subnegotiation about `option` that carries `content`, as it is put on the wire.
abbrev pub framed : ℕ → Bytes → Bytes
framed option content =
    command_iac ∷ command_sb ∷ option ∷ (escape content ++ command_iac ∷ command_se ∷ [])

-- The other end reads the option and the content, and answers as `subnegotiate` does.
process-framed :
    (option : ℕ) (content : Bytes) (s : Stream)
    → s.state ≡ state_data
    → process (framed option content) s
      ≡ (subnegotiate >> process [])
          (record s { sub_option = option; sub_data = content; state = state_data })
unfolding process process_in
process-framed option content s h = ground (
  arith,
  process-escape_sub content (command_iac ∷ command_se ∷ [])
      (record s { sub_option = option; sub_data = []; state = state_sub_data }) refl,
)

window_payload-framed :
    (s : Stream) → window_payload s ≡ framed option_negotiate_window (window_bytes s)
unfolding window_payload
window_payload-framed s = rw append_escaped-escape refl

type_payload-framed :
    (s : Stream) → type_payload s ≡ framed option_terminal_type (terminal_type_is ∷ s.terminal)
unfolding type_payload
type_payload-framed s = rw append_escaped-escape refl

write_ok :
    (bytes : Bytes) (s : Stream)
    → (write bytes s).2 ≡ none
    → ((write_bytes (append_escaped [] bytes) s).1 ≡ none)
      × ((write bytes s).0 ≡ (write_bytes (append_escaped [] bytes) s).0)
      × ((write bytes s).1 ≡ length bytes)
unfolding write
write_ok bytes s h = ground arith

-- What `Write` puts on the wire when it succeeds is read by the other end as the same bytes,
-- appended to what it holds; the reported count is that of the bytes, and nothing else of the
-- other end's state changes. The other end must be between commands.
pub write-process :
    (bytes : Bytes) (s peer : Stream)
    → (write bytes s).2 ≡ none
    → peer.state ≡ state_data
    → (wire : Bytes) × ((write bytes s).0.conn.sent ≡ s.conn.sent ++ wire)
      × (process wire peer ≡ (record peer { pending = peer.pending ++ bytes }, none))
      × ((write bytes s).1 ≡ length bytes)
write-process bytes s peer h p =
    let (e, same, count) = write_ok bytes s h in
    (
      append_escaped [] bytes,
      ap (λ (t : Stream). t.conn.sent) same ∙ write_bytes_ok (append_escaped [] bytes) s e,
      rw append_escaped-escape (process-escape bytes peer p),
      count,
    )

window_payload-framed-process :
    (s peer : Stream)
    → peer.state ≡ state_data
    → process (window_payload s) peer
      ≡ (record peer { sub_option = option_negotiate_window; sub_data = window_bytes s }, none)
unfolding subnegotiate process
window_payload-framed-process s peer p =
    rw window_payload-framed
      (process-framed option_negotiate_window (window_bytes s) peer p ∙ ground arith)

-- A window size below 2^16 each way that is sent without an error is read back by the other end,
-- if it is between commands, as the same two numbers, and is not answered.
pub send_window_size-process :
    (s peer : Stream)
    → s.width < 2 ^ 16
    → s.height < 2 ^ 16
    → (send_window_size s).1 ≡ none
    → peer.state ≡ state_data
    → (wire : Bytes) × (hi lo hi' lo' : ℕ) × ((send_window_size s).0.conn.sent
        ≡ s.conn.sent ++ wire)
      × (process wire peer ≡ (
        record peer { sub_option = option_negotiate_window; sub_data = hi ∷ lo ∷ hi' ∷ lo' ∷ [] },
        none,
      ))
      × (hi * 256 + lo ≡ s.width)
      × (hi' * 256 + lo' ≡ s.height)
unfolding send_window_size subnegotiate
send_window_size-process s peer w h e p = (
  window_payload s,
  high_byte s.width,
  low_byte s.width,
  high_byte s.height,
  low_byte s.height,
  write_bytes_ok (window_payload s) s e,
  window_payload-framed-process s peer p,
  omega arith,
  omega arith,
)

-- `s` after the request has been read, before it is answered.
abbrev after_request : Stream → Stream
after_request s = record s {
  sub_option = option_terminal_type;
  sub_data = terminal_type_send ∷ [];
  state = state_data;
}

process_request :
    (s : Stream)
    → s.state ≡ state_data
    → let asked = process (framed option_terminal_type (terminal_type_send ∷ [])) s in
      asked.1 ≡ none
      → ((write_bytes (type_payload s) (after_request s)).1 ≡ none)
        × (asked.0 ≡ (write_bytes (type_payload s) (after_request s)).0)
unfolding subnegotiate process type_payload
process_request s h e =
    ground (arith, process-framed option_terminal_type (terminal_type_send ∷ []) s h)

type_payload-process :
    (s peer : Stream)
    → peer.state ≡ state_data
    → process (type_payload s) peer ≡ (
      record peer { sub_option = option_terminal_type; sub_data = terminal_type_is ∷ s.terminal },
      none,
    )
unfolding subnegotiate process
type_payload-process s peer p =
    rw type_payload-framed
      (process-framed option_terminal_type (terminal_type_is ∷ s.terminal) peer p ∙ ground arith)

-- A request for the terminal type is answered by a subnegotiation that the asking end, if it reads
-- as this code does, takes for the answer IS with the terminal's name; the name may hold any byte.
-- The asking end does not answer back. Both ends must be between commands, and the answer written
-- without an error.
pub terminal_type-process :
    (s peer : Stream)
    → s.state ≡ state_data
    → peer.state ≡ state_data
    → let asked = process (framed option_terminal_type (terminal_type_send ∷ [])) s in
      asked.1 ≡ none
      → (wire : Bytes) × (asked.0.conn.sent ≡ s.conn.sent ++ wire)
        × (process wire peer ≡ (
          record peer {
            sub_option = option_terminal_type;
            sub_data = terminal_type_is ∷ s.terminal;
          },
          none,
        ))
terminal_type-process s peer h p e =
    let (fine, same) = process_request s h e in
    (
      type_payload s,
      ap (λ (t : Stream). t.conn.sent) same
          ∙ write_bytes_ok (type_payload s) (after_request s) fine,
      type_payload-process s peer p,
    )
