-- ===== src/Session/Reader.antt =====
-- session.go: the loop that applies the host's output, and what it does with each terminal event.
use tuicast.Prelude.{
  ℕ, Bool, true, false, ◌&&◌, not, Option, none, some, List, [], ◌∷◌, if◌then◌else◌, Bytes,
}
use tuicast.Prelude.Int.{ℤ}
use tuicast.Ansi.State.{TerminalEvent, EventType, is_nil}
use tuicast.Ansi.Control.{Event, write, drain_events}
use tuicast.Telnet.Stream.{StreamError, eof}
use tuicast.Recorder
use tuicast.Events.{EventLog, publish_event, record_unsupported}
use tuicast.Session.{
  SessionError, transport, sending_answerback, reading_output, closing_ended, Session,
  signal_change, signal_output, finish, send,
}

abbrev pub is_enquiry : EventType → Bool
is_enquiry EventType.enquiry = true
is_enquiry _ = false

abbrev pub is_unsupported : EventType → Bool
is_unsupported EventType.unsupported = true
is_unsupported _ = false

-- `errors.Is(err, io.EOF)`, through what wraps it.
abbrev pub is_eof : StreamError → Bool
is_eof eof = true
is_eof (StreamError.processing e) = is_eof e
is_eof (StreamError.reading e) = is_eof e
is_eof (StreamError.writing e) = is_eof e
is_eof (StreamError.sending_window e) = is_eof e
is_eof (StreamError.closing e) = is_eof e
is_eof _ = false

-- The error that a failing read leaves.
abbrev pub read_failure : StreamError → Option SessionError
read_failure e = if is_eof e then none else some (reading_output (transport e))

-- What a close of the stream adds to the error that ended the loop.
abbrev pub close_error : Bool → Option SessionError → Option StreamError → Option SessionError
close_error closing (some x) e = some x
close_error closing none none = none
close_error closing none (some e) = if closing then none else some (closing_ended (transport e))

module _ {P : Type 0} where
  abbrev pub with_log : EventLog → Session P → Session P
  with_log log s = record s { log = log }

  -- The answerback of an enquiry, and the error that ends the loop.
  unfoldable pub answer : TerminalEvent → Session P → Session P × Option SessionError
  answer event s =
      if is_enquiry event.kind && not (is_nil event.text) then send event.text s else (s, none)

  -- The rest of the round: an unsupported sequence that is not new is not published.
  unfoldable pub report : TerminalEvent → Session P → Session P
  report event s =
      if is_unsupported event.kind
      then (let (fresh, log) = record_unsupported event.text s.log in
          if fresh then with_log (publish_event event log) s else with_log log s)
      else with_log (publish_event event s.log) s

  -- The loop over the drained events.
  unfoldable pub handle_events : List TerminalEvent → Session P → Session P × Option SessionError
  handle_events [] s = (s, none)
  handle_events (event ∷ events) s =
      let (t, e) = answer event s in
      let rest = handle_events events (report event t) in
      elim e [ some x ↦ (t, some (sending_answerback x)) | none ↦ rest ]

  module _ (string_width : ℕ → ℤ) (parse : Bytes → P → List Event × P) where
    -- `signalOutput`, the terminal's `Write` under the recorder, and `signalChange`. (The terminal's
    -- `Write` returns no error.)
    unfoldable pub apply_output : ℕ → Bytes → Session P → Session P
    apply_output now bytes s =
        let s1 = signal_output s in
        let (events, parser) = parse bytes s1.parser in
        let terminal = write string_width events s1.terminal in
        signal_change (record s1 {
          parser = parser;
          terminal = terminal;
          recorder = Recorder.output now bytes terminal.revision s1.recorder;
        })

    -- The body of the loop for `n > 0`.
    unfoldable pub take_chunk : ℕ → Bytes → Session P → Session P × Option SessionError
    take_chunk now bytes s =
        let t = apply_output now bytes s in
        let (events, terminal) = drain_events t.terminal in
        handle_events events (record t { terminal = terminal })

    abbrev pub chunk_or_nothing : ℕ → Bytes → Session P → Session P × Option SessionError
    chunk_or_nothing now [] s = (s, none)
    chunk_or_nothing now (b ∷ bytes) s = take_chunk now (b ∷ bytes) s

  -- What follows the loop.
  unfoldable pub end_reader : Option SessionError → Session P → Session P
  end_reader e s = finish (close_error s.closing e s.stream.conn.on_close) s

  module _ (string_width : ℕ → ℤ) (parse : Bytes → P → List Event × P) where
    -- `readLoop` over the instants and outcomes of the coming reads; past their end it waits.
    unfoldable pub read_loop : List (ℕ × Bytes × Option StreamError) → Session P → Session P
    read_loop [] s = s
    read_loop ((now, bytes, read_err) ∷ reads) s =
        let (t, e) = chunk_or_nothing string_width parse now bytes s in
        let rest = read_loop reads t in
        elim e [
          | some x ↦ end_reader (some x) t
          | none ↦ elim read_err [ some x ↦ end_reader (read_failure x) t | none ↦ rest ]
        ]
