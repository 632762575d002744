-- ===== src/Session/Integrity.antt =====
-- session.go: what every operation of a session keeps of its terminal, its recorder and its events.
use tuicast.Prelude.{
  ℕ, ◌≡◌, refl, ◌||◌, Option, none, some, List, [], ◌∷◌, ◌++◌, Bytes, Option-cases, inl, inr,
}
use tuicast.Prelude.Int.{ℤ, pos_part}
use tuicast.Ansi.State.{Terminal, TerminalEvent}
use tuicast.Ansi.State as State
use tuicast.Ansi.Control.{Event, write, drain_events}
use tuicast.Ansi.Valid.{IsValid, if_both}
use tuicast.Ansi.Valid.Controls.{write-IsValid}
use tuicast.Ansi.Valid.Resizing.{resize-IsValid}
use tuicast.Telnet.Stream.{StreamError}
use tuicast.Keys.{KeyPress}
use tuicast.Keys.Encode.{encode_key_press}
use tuicast.Recorder.{FlightRecord, FlightRecorder}
use tuicast.Recorder.Bounds.{Keeps, wrote, resized, record_entry-Keeps, entry_record}
use tuicast.Events.{EventLog, record_unsupported, publish_event}
use tuicast.Events.Subscribers.{IsCurrent, publishes, counts, operate, operate-IsCurrent}
use tuicast.Session.{
  Session, SessionError, signal_change, signal_output, finish, send, press_with, send_encoded,
  wrapped, resize, resize_with, resize_local, begin_close,
}
use tuicast.Session.Reader.{
  answer, report, with_log, handle_events, is_unsupported, apply_output, take_chunk,
  chunk_or_nothing, end_reader, read_loop, read_failure,
}

-- What the recorder has recorded since `start`, on a screen that was `w` by `h` then.
pub record Recorded (start w h : ℕ) (r : FlightRecorder) : Type 0 where
  pub history : List FlightRecord
  pub keeps : Keeps start w h history r

-- The terminal is valid, the subscribers are current, and the recorder keeps the end of a history.
pub record IsSound {P : Type 0} (start w h : ℕ) (s : Session P) : Type 0 where
  pub terminal_valid : IsValid s.terminal
  pub log_current : IsCurrent s.log
  pub recorded : Recorded start w h s.recorder

published :
    (event : TerminalEvent) (log : EventLog) → IsCurrent log → IsCurrent (publish_event event log)
unfolding operate
published event log c = operate-IsCurrent (publishes event) log c

counted :
    (text : Bytes) (log : EventLog) → IsCurrent log → IsCurrent (record_unsupported text log).1
unfolding operate
counted text log c = operate-IsCurrent (counts text) log c

module _ {P : Type 0} (start w h : ℕ) where
  abbrev Sound : Session P → Type 0
  Sound s = IsSound start w h s

  signal_change-IsSound : (s : Session P) → Sound s → Sound (signal_change s)
  unfolding signal_change
  signal_change-IsSound s k =
      if_both Sound s.done (λ _. k)
        (λ _. record {
          terminal_valid = k.terminal_valid;
          log_current = k.log_current;
          recorded = k.recorded;
        })

  signal_output-IsSound : (s : Session P) → Sound s → Sound (signal_output s)
  unfolding signal_output
  signal_output-IsSound s k =
      if_both Sound s.done (λ _. k)
        (λ _. record {
          terminal_valid = k.terminal_valid;
          log_current = k.log_current;
          recorded = k.recorded;
        })

  finish-IsSound : (e : Option SessionError) (s : Session P) → Sound s → Sound (finish e s)
  unfolding finish
  finish-IsSound e s k = record {
    terminal_valid = k.terminal_valid;
    log_current = record { bounded = k.log_current.bounded; recent = tt };
    recorded = k.recorded;
  }

  pub send-IsSound : (bytes : Bytes) (s : Session P) → Sound s → Sound (send bytes s).0
  unfolding send
  send-IsSound bytes s k =
      if_both (λ (r : Session P × Option SessionError). Sound r.0) (s.closing || s.done) (λ _. k)
        (λ _. record {
          terminal_valid = k.terminal_valid;
          log_current = k.log_current;
          recorded = k.recorded;
        })

  wrapped-IsSound :
      (f : SessionError → SessionError) (r : Session P × Option SessionError)
      → Sound r.0
      → Sound (wrapped f r).0
  wrapped-IsSound f (s, none) k = k
  wrapped-IsSound f (s, some e) k = k

  pub press_with-IsSound :
      (to_upper : ℕ → ℕ) (o : Option KeyPress) (s : Session P)
      → Sound s
      → Sound (press_with to_upper o s).0
  press_with-IsSound to_upper none s k = k
  press_with-IsSound to_upper (some p) s k =
      encoded (encode_key_press to_upper s.terminal.application_cursor p)
    where
      encoded : (o : Option Bytes) → Sound (send_encoded o s).0
      encoded none = k
      encoded (some bytes) = wrapped-IsSound _ (send bytes s) (send-IsSound bytes s k)

  pub resize-IsSound :
      (now : ℕ) (width height : ℤ) (s : Session P) → Sound s → Sound (resize now width height s).0
  unfolding resize
  resize-IsSound now width height s k =
      if_both (λ (r : Session P × Option SessionError). Sound r.0) (s.closing || s.done) (λ _. k)
        (λ _. at_stream (s.stream.on_resize width height))
    where
      at_local :
          (o : Option Terminal)
          → State.resize width height s.terminal ≡ o
          → Sound (resize_local now width height o s).0
      at_local none e = k
      at_local (some t) e = signal_change-IsSound _ (record {
        terminal_valid = resize-IsValid width height s.terminal k.terminal_valid e;
        log_current = k.log_current;
        recorded = record {
          history =
              k.recorded.history
              ++ entry_record start (resized now (pos_part width) (pos_part height)) ∷ [];
          keeps =
              record_entry-Keeps (resized now (pos_part width) (pos_part height)) start w h _
                s.recorder k.recorded.keeps;
        };
      })

      at_stream : (e : Option StreamError) → Sound (resize_with now width height e s).0
      at_stream (some e) = k
      at_stream none = at_local (State.resize width height s.terminal) refl

  pub begin_close-IsSound : (s : Session P) → Sound s → Sound (begin_close s)
  unfolding begin_close
  begin_close-IsSound s k =
      if_both Sound s.close_once (λ _. k)
        (λ _. record {
          terminal_valid = k.terminal_valid;
          log_current = k.log_current;
          recorded = k.recorded;
        })

  with_log-IsSound :
      (log : EventLog) (s : Session P) → Sound s → IsCurrent log → Sound (with_log log s)
  with_log-IsSound log s k c = record {
    terminal_valid = k.terminal_valid;
    log_current = c;
    recorded = k.recorded;
  }

  report-IsSound : (event : TerminalEvent) (s : Session P) → Sound s → Sound (report event s)
  unfolding report
  report-IsSound event s k =
      let r = record_unsupported event.text s.log in
      let c = counted event.text s.log k.log_current in
      if_both Sound (is_unsupported event.kind)
        (λ _.
          if_both Sound r.0 (λ _. with_log-IsSound _ s k (published event r.1 c))
            (λ _. with_log-IsSound _ s k c))
        (λ _. with_log-IsSound _ s k (published event s.log k.log_current))

  answer-IsSound : (event : TerminalEvent) (s : Session P) → Sound s → Sound (answer event s).0
  unfolding answer
  answer-IsSound event s k =
      if_both (λ (r : Session P × Option SessionError). Sound r.0) _
        (λ _. send-IsSound event.text s k) (λ _. k)

  handle_events-IsSound :
      (events : List TerminalEvent) (s : Session P) → Sound s → Sound (handle_events events s).0
  unfolding handle_events
  handle_events-IsSound [] s k = k
  handle_events-IsSound (event ∷ events) s k =
      let t = (answer event s).0 in
      let k' = answer-IsSound event s k in
      elim (Option-cases (answer event s).1) [
        | inr (x, e) ↦ rw (e, handle_events) k'
        | inl e ↦
            rw (e, handle_events)
              (handle_events-IsSound events (report event t) (report-IsSound event t k'))
      ]

  end_reader-IsSound : (e : Option SessionError) (s : Session P) → Sound s → Sound (end_reader e s)
  unfolding end_reader
  end_reader-IsSound e s k = finish-IsSound _ s k

  module _ (string_width : ℕ → ℤ) (parse : Bytes → P → List Event × P) where
    apply_output-IsSound :
        (now : ℕ) (bytes : Bytes) (s : Session P)
        → Sound s
        → Sound (apply_output string_width parse now bytes s)
    unfolding apply_output
    apply_output-IsSound now bytes s k =
        let s1 = signal_output s in
        let k1 = signal_output-IsSound s k in
        let t = write string_width (parse bytes s1.parser).0 s1.terminal in
        signal_change-IsSound _ (record {
          terminal_valid = write-IsValid string_width _ s1.terminal k1.terminal_valid;
          log_current = k1.log_current;
          recorded = record {
            history = k1.recorded.history ++ entry_record start (wrote now bytes t.revision) ∷ [];
            keeps =
                record_entry-Keeps (wrote now bytes t.revision) start w h _ s1.recorder
                  k1.recorded.keeps;
          };
        })

    take_chunk-IsSound :
        (now : ℕ) (bytes : Bytes) (s : Session P)
        → Sound s
        → Sound (take_chunk string_width parse now bytes s).0
    unfolding take_chunk drain_events
    take_chunk-IsSound now bytes s k =
        let k' = apply_output-IsSound now bytes s k in
        handle_events-IsSound _ _ (record {
          terminal_valid = record { shape = k'.terminal_valid.shape };
          log_current = k'.log_current;
          recorded = k'.recorded;
        })

    chunk-IsSound :
        (now : ℕ) (bytes : Bytes) (s : Session P)
        → Sound s
        → Sound (chunk_or_nothing string_width parse now bytes s).0
    chunk-IsSound now [] s k = k
    chunk-IsSound now (b ∷ bytes) s k = take_chunk-IsSound now (b ∷ bytes) s k

    pub read_loop-IsSound :
        (reads : List (ℕ × Bytes × Option StreamError)) (s : Session P)
        → Sound s
        → Sound (read_loop string_width parse reads s)
    unfolding read_loop
    read_loop-IsSound [] s k = k
    read_loop-IsSound ((now, bytes, read_err) ∷ reads) s k =
        let r = chunk_or_nothing string_width parse now bytes s in
        let k' = chunk-IsSound now bytes s k in
        elim (Option-cases r.1) [
          | inr (x, e) ↦ rw (e, read_loop) (end_reader-IsSound (some x) r.0 k')
          | inl e ↦
              rw (e, read_loop)
                (elim (Option-cases read_err) [
                  | inr (x, f) ↦ rw f (end_reader-IsSound (read_failure x) r.0 k')
                  | inl f ↦ rw f (read_loop-IsSound reads r.0 k')
                ])
        ]
