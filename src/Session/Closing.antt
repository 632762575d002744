-- ===== src/Session/Closing.antt =====
-- session.go: how the reader ends, and what a session that is being closed reports.
use tuicast.Prelude.{
  ℕ, ◌≡◌, refl, ◌∙◌, true, false, ◌||◌, Option, none, some, List, [], ◌∷◌, Bytes, Option-cases, inl,
  inr,
}
use tuicast.Prelude.Int.{ℤ}
use tuicast.Ansi.State.{TerminalEvent}
use tuicast.Ansi.Control.{Event}
use tuicast.Ansi.Valid.{if_both}
use tuicast.Telnet.Stream.{StreamError}
use tuicast.Events.{record_unsupported}
use tuicast.Session.{
  Session, SessionError, signal_change, signal_output, finish, send, begin_close, close_failure,
}
use tuicast.Session.Reader.{
  answer, report, handle_events, is_unsupported, apply_output, take_chunk, chunk_or_nothing,
  end_reader, read_loop, read_failure,
}

-- What a step of the reader leaves alone.
record SameEnd {P : Type 0} (s t : Session P) : Type 0 where
  same_closing : t.closing ≡ s.closing
  same_close_err : t.close_err ≡ s.close_err

module _ {P : Type 0} where
  -- `begin_close` for the first time.
  abbrev opened_close : Session P → Session P
  opened_close s = record s {
    close_once = true;
    closing = true;
    close_err = close_failure s.stream.conn.on_close s.close_err;
  }

  same_end : (s : Session P) → SameEnd s s
  same_end s = record { same_closing = refl; same_close_err = refl }

  SameEnd-trans : (s t u : Session P) → SameEnd s t → SameEnd t u → SameEnd s u
  SameEnd-trans s t u a b = record {
    same_closing = b.same_closing ∙ a.same_closing;
    same_close_err = b.same_close_err ∙ a.same_close_err;
  }

  -- Through a state `x` that differs from `t` in other fields.
  via :
      (s t : Session P) {x u : Session P}
      → SameEnd s t
      → SameEnd x u
      → x.closing ≡ t.closing
      → x.close_err ≡ t.close_err
      → SameEnd s u
  via s t a b e f = record {
    same_closing = b.same_closing ∙ e ∙ a.same_closing;
    same_close_err = b.same_close_err ∙ f ∙ a.same_close_err;
  }

  signal_change-SameEnd : (s : Session P) → SameEnd s (signal_change s)
  unfolding signal_change
  signal_change-SameEnd s =
      if_both (SameEnd s) s.done (λ _. same_end s)
        (λ _. record { same_closing = refl; same_close_err = refl })

  signal_output-SameEnd : (s : Session P) → SameEnd s (signal_output s)
  unfolding signal_output
  signal_output-SameEnd s =
      if_both (SameEnd s) s.done (λ _. same_end s)
        (λ _. record { same_closing = refl; same_close_err = refl })

  send-SameEnd : (bytes : Bytes) (s : Session P) → SameEnd s (send bytes s).0
  unfolding send
  send-SameEnd bytes s =
      if_both (λ (r : Session P × Option SessionError). SameEnd s r.0) (s.closing || s.done)
        (λ _. same_end s) (λ _. record { same_closing = refl; same_close_err = refl })

  answer-SameEnd : (event : TerminalEvent) (s : Session P) → SameEnd s (answer event s).0
  unfolding answer
  answer-SameEnd event s =
      if_both (λ (r : Session P × Option SessionError). SameEnd s r.0) _
        (λ _. send-SameEnd event.text s) (λ _. same_end s)

  report-SameEnd : (event : TerminalEvent) (s : Session P) → SameEnd s (report event s)
  unfolding report
  report-SameEnd event s =
      if_both (SameEnd s) (is_unsupported event.kind)
        (λ _.
          if_both (SameEnd s) (record_unsupported event.text s.log).0
            (λ _. record { same_closing = refl; same_close_err = refl })
            (λ _. record { same_closing = refl; same_close_err = refl }))
        (λ _. record { same_closing = refl; same_close_err = refl })

  handle_events-SameEnd :
      (events : List TerminalEvent) (s : Session P) → SameEnd s (handle_events events s).0
  unfolding handle_events
  handle_events-SameEnd [] s = same_end s
  handle_events-SameEnd (event ∷ events) s =
      let t = (answer event s).0 in
      let a = answer-SameEnd event s in
      elim (Option-cases (answer event s).1) [
        | inr (x, e) ↦ rw (e, handle_events) a
        | inl e ↦
            rw (e, handle_events)
              (SameEnd-trans s t _ a (
                SameEnd-trans t (report event t) _ (report-SameEnd event t)
                  (handle_events-SameEnd events (report event t))))
      ]

  module _ (string_width : ℕ → ℤ) (parse : Bytes → P → List Event × P) where
    apply_output-SameEnd :
        (now : ℕ) (bytes : Bytes) (s : Session P)
        → SameEnd s (apply_output string_width parse now bytes s)
    unfolding apply_output
    apply_output-SameEnd now bytes s =
        via s (signal_output s) (signal_output-SameEnd s) (signal_change-SameEnd _) refl refl

    chunk-SameEnd :
        (now : ℕ) (bytes : Bytes) (s : Session P)
        → SameEnd s (chunk_or_nothing string_width parse now bytes s).0
    unfolding take_chunk
    chunk-SameEnd now [] s = same_end s
    chunk-SameEnd now (b ∷ bytes) s =
        via s (apply_output string_width parse now (b ∷ bytes) s)
          (apply_output-SameEnd now (b ∷ bytes) s) (handle_events-SameEnd _ _) refl refl

    -- Some read returns an error.
    abbrev pub SomeFails : List (ℕ × Bytes × Option StreamError) → Type 0
    SomeFails [] = ⊥
    SomeFails ((now, bytes, some e) ∷ reads) = Unit
    SomeFails ((now, bytes, none) ∷ reads) = SomeFails reads

    end_reader-closing :
        (e : Option SessionError) (s : Session P)
        → s.closing ≡ true
        → ((end_reader e s).done ≡ true)
          × ((end_reader e s).err ≡ none)
          × ((end_reader e s).close_err ≡ s.close_err)
    unfolding end_reader finish
    end_reader-closing e s c = (refl, rw c refl, refl)

    closing_ends :
        (reads : List (ℕ × Bytes × Option StreamError)) (s : Session P)
        → s.closing ≡ true
        → SomeFails reads
        → let t = read_loop string_width parse reads s in
          (t.done ≡ true) × (t.err ≡ none) × (t.close_err ≡ s.close_err)
    unfolding read_loop
    closing_ends [] s c h = absurd h
    closing_ends ((now, bytes, some x) ∷ reads) s c h =
        let r = chunk_or_nothing string_width parse now bytes s in
        let k = chunk-SameEnd now bytes s in
        let (d, e, f) = end_reader-closing (read_failure x) r.0 (k.same_closing ∙ c) in
        elim (Option-cases r.1) [
          | inr (y, g) ↦
              rw (g, read_loop)
                (let (d, e, f) = end_reader-closing (some y) r.0 (k.same_closing ∙ c) in
                  (d, e, f ∙ k.same_close_err))
          | inl g ↦ rw (g, read_loop) (d, e, f ∙ k.same_close_err)
        ]
    closing_ends ((now, bytes, none) ∷ reads) s c h =
        let r = chunk_or_nothing string_width parse now bytes s in
        let k = chunk-SameEnd now bytes s in
        elim (Option-cases r.1) [
          | inr (y, g) ↦
              rw (g, read_loop)
                (let (d, e, f) = end_reader-closing (some y) r.0 (k.same_closing ∙ c) in
                  (d, e, f ∙ k.same_close_err))
          | inl g ↦
              rw (g, read_loop)
                (let (d, e, f) = closing_ends reads r.0 (k.same_closing ∙ c) h in
                  (d, e, f ∙ k.same_close_err))
        ]

    -- After `Close` has begun, the reader ends as soon as a read fails, whatever the reads before it
    -- brought: the session is then done, has no error of its own, and `Close` returns what closing
    -- the stream gave. For a session that was not closed before.
    pub close_ends :
        (reads : List (ℕ × Bytes × Option StreamError)) (s : Session P)
        → s.close_once ≡ false
        → SomeFails reads
        → let t = read_loop string_width parse reads (begin_close s) in
          (t.done ≡ true)
          × (t.err ≡ none)
          × (t.close_err ≡ close_failure s.stream.conn.on_close s.close_err)
    unfolding begin_close
    close_ends reads s c h = rw c (closing_ends reads (opened_close s) refl h)
