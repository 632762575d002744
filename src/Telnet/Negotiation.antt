-- ===== src/Telnet/Negotiation.antt =====
-- telnet/stream.go: the option tables and the answers of the negotiation.
use tuicast.Prelude.{
  ℕ, ◌≡◌, refl, Bool, true, false, none, [], ◌∷◌, ◌==◌, if◌then◌else◌, Bytes, arith,
}
use tuicast.Telnet.Stream.{
  command_will, command_wont, command_do, command_dont, ParseState, state_data, state_negotiation,
  state_sub_iac, Stream, write_bytes,
}
use tuicast.Telnet.Protocol.{
  supports_local, supports_remote, send_command, send_window_size, set_option, negotiate_do,
  negotiate_dont, negotiate_will, negotiate_wont, negotiate, subnegotiate, process_in, process,
}
use tuicast.Telnet.Actions.{>>-keeps}

-- Whatever an option table turns on is an option that the code supports.
pub record OnlySupported (s : Stream) : Type 0 where
  pub local_supported : (o : ℕ) → s.local o ≡ true → supports_local o ≡ true
  pub remote_supported : (o : ℕ) → s.remote o ≡ true → supports_remote o ≡ true

-- The option tables and the window are those of `s`.
abbrev SameTables : Stream → Stream → Type 0
SameTables s t = (t.local ≡ s.local) × (t.remote ≡ s.remote)

write_bytes-SameTables : (bytes : Bytes) (s : Stream) → SameTables s (write_bytes bytes s).0
unfolding write_bytes
write_bytes-SameTables bytes s = (refl, refl)

set_option-supported :
    (supports : ℕ → Bool) (m : ℕ → Bool) (o : ℕ) (b : Bool)
    → (b ≡ true → supports o ≡ true)
    → ((k : ℕ) → m k ≡ true → supports k ≡ true)
    → (k : ℕ) → set_option m o b k ≡ true
    → supports k ≡ true
set_option-supported supports m o b new old k on = ground (arith, old k, new)

negotiate_do-tables :
    (o : ℕ) (s : Stream)
    → ((negotiate_do o s).0.local
        ≡ (if supports_local o then set_option s.local o true else s.local))
      × ((negotiate_do o s).0.remote ≡ s.remote)
unfolding negotiate_do send_command send_window_size write_bytes
negotiate_do-tables o s = ground arith

negotiate_dont-tables :
    (o : ℕ) (s : Stream)
    → ((negotiate_dont o s).0.local ≡ set_option s.local o false)
      × ((negotiate_dont o s).0.remote ≡ s.remote)
unfolding negotiate_dont send_command write_bytes
negotiate_dont-tables o s = ground arith

negotiate_will-tables :
    (o : ℕ) (s : Stream)
    → ((negotiate_will o s).0.local ≡ s.local)
      × ((negotiate_will o s).0.remote
          ≡ (if supports_remote o then set_option s.remote o true else s.remote))
unfolding negotiate_will send_command write_bytes
negotiate_will-tables o s = ground arith

negotiate_wont-tables :
    (o : ℕ) (s : Stream)
    → ((negotiate_wont o s).0.local ≡ s.local)
      × ((negotiate_wont o s).0.remote ≡ set_option s.remote o false)
unfolding negotiate_wont send_command write_bytes
negotiate_wont-tables o s = ground arith

-- The tables after a command, from those before it.
abbrev local_after : ℕ → ℕ → (ℕ → Bool) → ℕ → Bool
local_after c o m =
    if c == command_do
    then (if supports_local o then set_option m o true else m)
    else if c == command_dont
    then set_option m o false
    else m

abbrev remote_after : ℕ → ℕ → (ℕ → Bool) → ℕ → Bool
remote_after c o m =
    if c == command_will
    then (if supports_remote o then set_option m o true else m)
    else if c == command_wont
    then set_option m o false
    else m

negotiate-tables :
    (c o : ℕ) (s : Stream)
    → ((negotiate c o s).0.local ≡ local_after c o s.local)
      × ((negotiate c o s).0.remote ≡ remote_after c o s.remote)
unfolding negotiate
negotiate-tables c o s = ground (
  arith,
  negotiate_do-tables o s,
  negotiate_dont-tables o s,
  negotiate_will-tables o s,
  negotiate_wont-tables o s,
)

local_after-supported :
    (c o : ℕ) (m : ℕ → Bool)
    → ((k : ℕ) → m k ≡ true → supports_local k ≡ true)
    → (k : ℕ) → local_after c o m k ≡ true
    → supports_local k ≡ true
local_after-supported c o m old k on = ground (arith, old k)

remote_after-supported :
    (c o : ℕ) (m : ℕ → Bool)
    → ((k : ℕ) → m k ≡ true → supports_remote k ≡ true)
    → (k : ℕ) → remote_after c o m k ≡ true
    → supports_remote k ≡ true
remote_after-supported c o m old k on = ground (arith, old k)

negotiate-OnlySupported :
    (c o : ℕ) (s : Stream) → OnlySupported s → OnlySupported (negotiate c o s).0
negotiate-OnlySupported c o s v = record {
  local_supported =
      rw ((negotiate-tables c o s).0) (local_after-supported c o s.local v.local_supported);
  remote_supported =
      rw ((negotiate-tables c o s).1) (remote_after-supported c o s.remote v.remote_supported);
}

subnegotiate-SameTables : (s : Stream) → SameTables s (subnegotiate s).0
unfolding subnegotiate write_bytes
subnegotiate-SameTables s = ground arith

SameTables-OnlySupported : {s t : Stream} → SameTables s t → OnlySupported s → OnlySupported t
SameTables-OnlySupported e v = record {
  local_supported = λ k on. v.local_supported k (rw (e.0) at on);
  remote_supported = λ k on. v.remote_supported k (rw (e.1) at on);
}

process_in-OnlySupported :
    (q : ParseState) (b : ℕ) (s : Stream) → OnlySupported s → OnlySupported (process_in q b s).0
unfolding process_in
process_in-OnlySupported state_negotiation b s v =
    negotiate-OnlySupported s.negotiation b (record s { state = state_data })
      (SameTables-OnlySupported (refl, refl) v)
process_in-OnlySupported state_sub_iac b s v =
    SameTables-OnlySupported
      (ground (arith, subnegotiate-SameTables (record s { state = state_data }))) v
process_in-OnlySupported _ b s v = SameTables-OnlySupported (ground arith) v

-- Whatever bytes the host sends, and whatever writes fail, the options that are on are among
-- those that the code supports, if they were before.
pub process-OnlySupported :
    (bytes : Bytes) (s : Stream) → OnlySupported s → OnlySupported (process bytes s).0
unfolding process
process-OnlySupported [] s v = v
process-OnlySupported (b ∷ bytes) s v =
    >>-keeps OnlySupported (process_in s.state b) (process bytes) s
      (process_in-OnlySupported s.state b s v) (process-OnlySupported bytes _)

-- A command for an option that already has the state it asks for is not answered.
negotiate_do_on :
    (o : ℕ) (s : Stream)
    → supports_local o ≡ true
    → s.local o ≡ true
    → ((negotiate_do o s).0.conn ≡ s.conn) × ((negotiate_do o s).1 ≡ none)
unfolding negotiate_do
negotiate_do_on o s h on = ground arith

negotiate_will_on :
    (o : ℕ) (s : Stream)
    → supports_remote o ≡ true
    → s.remote o ≡ true
    → ((negotiate_will o s).0.conn ≡ s.conn) × ((negotiate_will o s).1 ≡ none)
unfolding negotiate_will
negotiate_will_on o s h on = ground arith

negotiate_dont_off :
    (o : ℕ) (s : Stream)
    → s.local o ≡ false
    → ((negotiate_dont o s).0.conn ≡ s.conn) × ((negotiate_dont o s).1 ≡ none)
unfolding negotiate_dont
negotiate_dont_off o s off = ground arith

negotiate_wont_off :
    (o : ℕ) (s : Stream)
    → s.remote o ≡ false
    → ((negotiate_wont o s).0.conn ≡ s.conn) × ((negotiate_wont o s).1 ≡ none)
unfolding negotiate_wont
negotiate_wont_off o s off = ground arith

-- `t` has the state of option `o` that command `c` asks for.
abbrev Settled : ℕ → ℕ → Stream → Type 0
Settled c o t =
    (c ≡ command_do → (supports_local o ≡ true) × (t.local o ≡ true))
    × (c ≡ command_dont → t.local o ≡ false)
    × (c ≡ command_will → (supports_remote o ≡ true) × (t.remote o ≡ true))
    × (c ≡ command_wont → t.remote o ≡ false)

negotiate_silent :
    (c o : ℕ) (t : Stream)
    → Settled c o t
    → ((negotiate c o t).0.conn ≡ t.conn) × ((negotiate c o t).1 ≡ none)
unfolding negotiate
negotiate_silent c o t d = ground (
  arith,
  negotiate_do_on o t,
  negotiate_dont_off o t,
  negotiate_will_on o t,
  negotiate_wont_off o t,
)

negotiate-Settled :
    (c o : ℕ) (s : Stream)
    → (c ≡ command_do → supports_local o ≡ true)
    → (c ≡ command_will → supports_remote o ≡ true)
    → Settled c o (negotiate c o s).0
negotiate-Settled c o s h k = rw ((negotiate-tables c o s).0) (
    rw ((negotiate-tables c o s).1) (
      (λ e. ground (arith, h e)),
      (λ e. ground arith),
      (λ e. ground (arith, k e)),
      (λ e. ground arith),
    ))

-- Whatever came of the first answer, the second of two equal commands is not answered: neither
-- the connection nor the option tables change, and there is no error. For DO and WILL the option
-- must be one that the code supports.
pub negotiate_settles :
    (c o : ℕ) (s : Stream)
    → (c ≡ command_do → supports_local o ≡ true)
    → (c ≡ command_will → supports_remote o ≡ true)
    → let s' = (negotiate c o s).0 in
      ((negotiate c o s').0.conn ≡ s'.conn)
      × ((negotiate c o s').1 ≡ none)
      × ((k : ℕ) → (negotiate c o s').0.local k ≡ s'.local k)
      × ((k : ℕ) → (negotiate c o s').0.remote k ≡ s'.remote k)
negotiate_settles c o s h k =
    let s' = (negotiate c o s).0 in
    let quiet = negotiate_silent c o s' (negotiate-Settled c o s h k) in
    (
      quiet.0,
      quiet.1,
      (λ i. ground (arith, negotiate-tables c o s, negotiate-tables c o s', h, k)),
      (λ i. ground (arith, negotiate-tables c o s, negotiate-tables c o s', h, k)),
    )
