-- ===== src/Telnet/Connector.antt =====
-- telnet/connector.go: the connector and the connection, which permits one session.
use tuicast.Prelude.{
  ◌≤◌, ◌<◌, ◌^◌, ◌≡◌, refl, Bool, true, false, ◌||◌, Option, none, some, List, [], ◌∷◌,
  if◌then◌else◌, ◌⊎◌, inl, inr, Bytes, arith, length,
}
use tuicast.Prelude.Int.{ℤ, pos, negsuc, pos_part, leb_ℤ, ltb_ℤ}
use tuicast.Ansi.Valid.{if_both}
use tuicast.Telnet.Stream.{Conn, Stream, StreamError, net_closed, new_stream}

-- The errors, with what dialing or closing the network connection gave.
pub data ConnectorError : Type 0 where
  address_required context_done connection_closed has_session size_not_positive size_too_large :
      ConnectorError
  dialing closing_connection : StreamError → ConnectorError

-- `dial` is the configured function, or that of `net.Dialer`.
pub record Connector : Type 0 where
  pub address : Bytes
  pub dial : Bytes → StreamError ⊎ Conn

pub record Connection : Type 0 where
  pub conn : Conn
  pub opened : Bool
  pub closed : Bool

abbrev pub new_connector :
    Bytes
    → Option (Bytes → StreamError ⊎ Conn)
    → (Bytes → StreamError ⊎ Conn)
    → ConnectorError ⊎ Connector
new_connector [] dial dialer = inl address_required
new_connector (b ∷ address) none dialer = inr (record { address = b ∷ address; dial = dialer })
new_connector (b ∷ address) (some dial) dialer = inr (record { address = b ∷ address; dial = dial })

abbrev pub connected : StreamError ⊎ Conn → ConnectorError ⊎ Connection
connected (inl e) = inl (dialing e)
connected (inr conn) = inr (record { conn = conn; opened = false; closed = false })

unfoldable pub connect : Connector → ConnectorError ⊎ Connection
connect c = connected (c.dial c.address)

-- `OpenSession`; `cancelled` says whether the context is done.
unfoldable pub open_session :
    Bool → Bytes → ℤ → ℤ → Connection → Connection × (ConnectorError ⊎ Stream)
open_session cancelled terminal width height c =
    if cancelled
    then (c, inl context_done)
    else if c.closed
    then (c, inl connection_closed)
    else if c.opened
    then (c, inl has_session)
    else if leb_ℤ width (pos 0) || leb_ℤ height (pos 0)
    then (c, inl size_not_positive)
    else if ltb_ℤ (pos 65535) width || ltb_ℤ (pos 65535) height
    then (c, inl size_too_large)
    else (
      record c { opened = true },
      inr (new_stream c.conn terminal (pos_part width) (pos_part height)),
    )

abbrev pub closing_failure : Option StreamError → Option ConnectorError
closing_failure none = none
closing_failure (some net_closed) = none
closing_failure (some e) = some (closing_connection e)

unfoldable pub close_connection : Connection → Connection × Option ConnectorError
close_connection c =
    if c.closed then (c, none) else (record c { closed = true }, closing_failure c.conn.on_close)

pub data ConnectionCall : Type 0 where
  opens : Bool → Bytes → ℤ → ℤ → ConnectionCall
  closes : ConnectionCall

abbrev pub taken_stream : ConnectorError ⊎ Stream → List Stream → List Stream
taken_stream (inl e) streams = streams
taken_stream (inr s) streams = s ∷ streams

-- The sessions that a connection's calls open.
unfoldable pub opened_streams : List ConnectionCall → Connection → List Stream
opened_streams [] c = []
opened_streams (opens cancelled terminal width height ∷ calls) c =
    let (d, r) = open_session cancelled terminal width height c in
    taken_stream r (opened_streams calls d)
opened_streams (closes ∷ calls) c = opened_streams calls (close_connection c).0

-- The size is one that a window negotiation can send.
pub record HasWindow (s : Stream) : Type 0 where
  pub wide : 1 ≤ s.width
  pub high : 1 ≤ s.height
  pub narrow : s.width < 2 ^ 16
  pub low : s.height < 2 ^ 16

abbrev pub AllWindow : List Stream → Type 0
AllWindow [] = Unit
AllWindow (s ∷ streams) = HasWindow s × AllWindow streams

-- What `OpenSession` may do.
data Opening (c : Connection) : Connection × (ConnectorError ⊎ Stream) → Type 0 where
  fails : (e : ConnectorError) → Opening c (c, inl e)
  gives :
      (d : Connection) (s : Stream)
      → c.opened ≡ false
      → c.closed ≡ false
      → d.opened ≡ true
      → HasWindow s
      → Opening c (d, inr s)

in_range :
    (z : ℤ)
    → leb_ℤ z (pos 0) ≡ false
    → ltb_ℤ (pos 65535) z ≡ false
    → (1 ≤ pos_part z) × (pos_part z < 2 ^ 16)
in_range (pos n) e f = (ground arith, ground arith)
in_range (negsuc n) e f = absurd (ground arith)

new_stream-HasWindow :
    (conn : Conn) (terminal : Bytes) (width height : ℤ)
    → (leb_ℤ width (pos 0) || leb_ℤ height (pos 0)) ≡ false
    → (ltb_ℤ (pos 65535) width || ltb_ℤ (pos 65535) height) ≡ false
    → HasWindow (new_stream conn terminal (pos_part width) (pos_part height))
unfolding new_stream
new_stream-HasWindow conn terminal width height e f =
    let (a, b) = in_range width (ground arith) (ground arith) in
    let (c, d) = in_range height (ground arith) (ground arith) in
    record { wide = a; high = c; narrow = b; low = d }

open_session-Opening :
    (cancelled : Bool) (terminal : Bytes) (width height : ℤ) (c : Connection)
    → Opening c (open_session cancelled terminal width height c)
unfolding open_session
open_session-Opening cancelled terminal width height c =
    if_both (Opening c) cancelled (λ _. fails context_done)
      (λ _.
        if_both (Opening c) c.closed (λ _. fails connection_closed)
          (λ closed.
            if_both (Opening c) c.opened (λ _. fails has_session)
              (λ opened.
                if_both (Opening c) (leb_ℤ width (pos 0) || leb_ℤ height (pos 0))
                  (λ _. fails size_not_positive)
                  (λ positive.
                    if_both (Opening c) (ltb_ℤ (pos 65535) width || ltb_ℤ (pos 65535) height)
                      (λ _. fails size_too_large)
                      (λ small.
                        gives (record c { opened = true })
                          (new_stream c.conn terminal (pos_part width) (pos_part height)) opened
                          closed refl
                          (new_stream-HasWindow c.conn terminal width height positive small))))))

-- A connection that permits no further session.
abbrev IsSpent : Connection → Type 0
IsSpent c = (c.opened ≡ true) ⊎ (c.closed ≡ true)

close-IsSpent : (c : Connection) → (close_connection c).0.closed ≡ true
unfolding close_connection
close-IsSpent c =
    if_both (λ (r : Connection × Option ConnectorError). r.0.closed ≡ true) c.closed (λ e. e)
      (λ _. refl)

spent_opens_none :
    (calls : List ConnectionCall) (c : Connection) → IsSpent c → opened_streams calls c ≡ []
unfolding opened_streams
spent_opens_none [] c k = refl
spent_opens_none (opens cancelled terminal width height ∷ calls) c k =
    go (open_session cancelled terminal width height c)
      (open_session-Opening cancelled terminal width height c) (spent_opens_none calls c k)
  where
    go :
        (r : Connection × (ConnectorError ⊎ Stream))
        → Opening c r
        → opened_streams calls c ≡ []
        → taken_stream r.1 (opened_streams calls r.0) ≡ []
    go r (fails e) rest = rest
    go r (gives d s o l q h) rest = elim k [ inl e ↦ absurd cc | inr e ↦ absurd cc ]
spent_opens_none (closes ∷ calls) c k =
    spent_opens_none calls (close_connection c).0 (inr (close-IsSpent c))

record AtMostOne (streams : List Stream) : Type 0 where
  few : length streams ≤ 1
  sized : AllWindow streams

opens-AtMostOne :
    (calls : List ConnectionCall) (c : Connection) → AtMostOne (opened_streams calls c)
unfolding opened_streams
opens-AtMostOne [] c = record { few = omega arith; sized = tt }
opens-AtMostOne (opens cancelled terminal width height ∷ calls) c =
    go (open_session cancelled terminal width height c)
      (open_session-Opening cancelled terminal width height c) (opens-AtMostOne calls c)
      (spent_opens_none calls)
  where
    go :
        (r : Connection × (ConnectorError ⊎ Stream))
        → Opening c r
        → AtMostOne (opened_streams calls c)
        → ((d : Connection) → IsSpent d → opened_streams calls d ≡ [])
        → AtMostOne (taken_stream r.1 (opened_streams calls r.0))
    go r (fails e) rest none_left = rest
    go r (gives d s o l q h) rest none_left =
        rw (none_left d (inl q)) (record { few = omega arith; sized = (h, tt) })
opens-AtMostOne (closes ∷ calls) c = opens-AtMostOne calls (close_connection c).0

-- Whatever is called on a connection, it opens one session at most, none after `Close`, and one whose
-- size a window negotiation can send: both dimensions are positive and below 2^16.
pub opens_one_session :
    (calls : List ConnectionCall) (c : Connection)
    → (length (opened_streams calls c) ≤ 1)
      × AllWindow (opened_streams calls c)
      × (opened_streams calls (close_connection c).0 ≡ [])
opens_one_session calls c =
    let k = opens-AtMostOne calls c in
    (k.few, k.sized, spent_opens_none calls (close_connection c).0 (inr (close-IsSpent c)))
