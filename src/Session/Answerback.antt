-- ===== src/Session/Answerback.antt =====
-- session.go: the host's ENQ, from the parser through the terminal and the session to the stream.
use tuicast.Prelude.{
  ℕ, ◌≡◌, refl, ap, ◌∙◌, false, Option, none, List, [], ◌∷◌, ◌++◌, length, Bytes, arith,
}
use tuicast.Prelude.Int.{ℤ}
use tuicast.Ansi.State.{Terminal, EventType}
use tuicast.Ansi.Control.{Event, executed, write, handle_all, handle, execute, drain_events}
use tuicast.Ansi.Describe.{emit}
use tuicast.Telnet.Stream.{Conn, write_loop, conn_write_with, send as conn_send}
use tuicast.Session.{Session, SessionStream, SessionError, send, signal_change, signal_output}
use tuicast.Session.Reader.{answer, report, handle_events, apply_output, take_chunk}

-- A connection that takes the write whole.
write_loop_quiet :
    (c : Conn) (b : ℕ) (bytes : Bytes)
    → c.writes ≡ []
    → write_loop (length (b ∷ bytes)) c (b ∷ bytes) ≡ (conn_send c (b ∷ bytes), none)
unfolding write_loop conn_write_with
write_loop_quiet c b bytes h = ground arith

module _ {P : Type 0} where
  send_quiet :
      (b : ℕ) (bytes : Bytes) (s : Session P)
      → s.closing ≡ false
      → s.done ≡ false
      → s.stream.conn.writes ≡ []
      → send (b ∷ bytes) s ≡ (
        record s { stream = record (s.stream) { conn = conn_send (s.stream.conn) (b ∷ bytes) } },
        none,
      )
  unfolding send
  send_quiet b bytes s c d q = rw (c, d, write_loop_quiet s.stream.conn b bytes q) refl

  handle_enquiry :
      (b : ℕ) (text : Bytes) (s : Session P)
      → s.closing ≡ false
      → s.done ≡ false
      → s.stream.conn.writes ≡ []
      → let r =
          handle_events
            (record { sequence = 0; kind = EventType.enquiry; text = b ∷ text } ∷ [])
            s in
        (r.0.stream.conn.sent ≡ s.stream.conn.sent ++ b ∷ text) × (r.1 ≡ none)
  unfolding handle_events answer report
  handle_enquiry b text s c d q =
      rw (send_quiet b text s c d q, handle_events)
        (
          ap (λ (r : Session P × Option SessionError). r.0.stream.conn.sent)
              (send_quiet b text s c d q),
          refl,
        )

  -- The session once the byte is applied.
  module _ (string_width : ℕ → ℤ) (parse : Bytes → P → List Event × P) where
    abbrev enquired : ℕ → Bytes → Session P → Session P
    enquired now bytes s =
        let t = apply_output string_width parse now bytes s in
        record t { terminal = (drain_events t.terminal).1 }

    apply_output_open :
        (now : ℕ) (bytes : Bytes) (s : Session P)
        → s.done ≡ false
        → let t = apply_output string_width parse now bytes s in
          (t.closing ≡ s.closing)
          × (t.done ≡ false)
          × (t.stream ≡ s.stream)
          × (t.terminal ≡ write string_width (parse bytes s.parser).0 s.terminal)
    unfolding apply_output signal_output signal_change
    apply_output_open now bytes s d = rw d (refl, refl, refl, refl)

    write_enquiry :
        (t : Terminal)
        → write string_width (executed 0x05 ∷ []) t ≡ emit EventType.enquiry t.answerback t
    unfolding write handle_all handle execute emit
    write_enquiry t = ground arith

    -- What the terminal hands over after it.
    drained :
        (now : ℕ) (bytes : Bytes) (s : Session P) {text : Bytes}
        → (parse bytes s.parser).0 ≡ executed 0x05 ∷ []
        → s.terminal.answerback ≡ text
        → s.terminal.events ≡ []
        → s.done ≡ false
        → (drain_events (apply_output string_width parse now bytes s).terminal).0
          ≡ record { sequence = 0; kind = EventType.enquiry; text = text } ∷ []
    unfolding drain_events emit
    drained now bytes s p a v d =
        let (_, _, _, term) = apply_output_open now bytes s d in
        ap (λ (t : Terminal). t.events)
          (term ∙ ap (λ es. write string_width es s.terminal) p ∙ write_enquiry s.terminal)
        ∙ rw v (rw a refl)

    -- A chunk that is one ENQ, on an open session whose stream takes the write whole, is answered by
    -- the configured answerback, if there is one, and the reader goes on.
    pub enquiry_answered :
        (now : ℕ) (bytes : Bytes) (s : Session P) (b : ℕ) (text : Bytes)
        → (parse bytes s.parser).0 ≡ executed 0x05 ∷ []
        → s.terminal.answerback ≡ b ∷ text
        → s.terminal.events ≡ []
        → s.closing ≡ false
        → s.done ≡ false
        → s.stream.conn.writes ≡ []
        → let (t, e) = take_chunk string_width parse now bytes s in
          (t.stream.conn.sent ≡ s.stream.conn.sent ++ b ∷ text) × (e ≡ none)
    unfolding take_chunk handle_events answer report drain_events
    enquiry_answered now bytes s b text p a v c d q =
        let (c', d', same, _) = apply_output_open now bytes s d in
        let x = enquired now bytes s in
        let (sent, fine) =
          handle_enquiry b text x (c' ∙ c) d'
            (ap (λ (k : SessionStream). k.conn.writes) same ∙ q) in
        rw (drained now bytes s p a v d)
          (sent ∙ ap (λ (k : SessionStream). k.conn.sent ++ b ∷ text) same, fine)
