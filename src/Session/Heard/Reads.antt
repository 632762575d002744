-- ===== src/Session/Heard/Reads.antt =====
-- session.go: what the reader makes of the host's output.
use tuicast.Prelude.{
  arith, ℕ, ◌≡◌, refl, sym, ap, ◌∙◌, false, Option, none, some, List, [], ◌∷◌, ◌++◌, Bytes,
  append_assoc, append-nil, Option-cases, inl, inr,
}
use tuicast.Prelude.Int.{ℤ}
use tuicast.Ansi.State.{Terminal, TerminalEvent}
use tuicast.Ansi.Control.{Event, write, drain_events}
use tuicast.Telnet.Stream.{StreamError}
use tuicast.Recorder.Bounds.{wrote, record_entry-Keeps, entry_record}
use tuicast.Session.{Session, SessionError, signal_output, signal_change, send, finish}
use tuicast.Session.Reader.{
  answer, report, handle_events, apply_output, take_chunk, chunk_or_nothing, end_reader, read_loop,
  read_failure,
}
use tuicast.Session.Heard.{Item, hears, heard, View, view, view_all, written, Shows, Explains}
use tuicast.Session.Heard.Steps.{
  Told, signal_change-Told, signal_output-Told, finish-Told, report-Told, answer-Told,
}

module _ {P : Type 0} (string_width : ℕ → ℤ) (parse : Bytes → P → List Event × P)
    (on_resize : ℤ → ℤ → Option StreamError) (start w h : ℕ) where
  abbrev ToldTo : View P → List TerminalEvent → Session P → Type 0
  ToldTo v p s = Told string_width parse on_resize start w h v p s

  abbrev ShownTo : View P → Session P → Type 0
  ShownTo v s = Shows string_width parse on_resize start w h v s

  -- The events are published up to where an error ended the loop.
  record Handles (v : View P) (r : Session P × Option SessionError) : Type 0 where
    published : List TerminalEvent
    unpublished : List TerminalEvent
    publishes : ToldTo v published r.0
    told_is : v.told ≡ published ++ unpublished
    all_told : r.1 ≡ none → unpublished ≡ []

  handle_events-Handles :
      (v : View P) (p events : List TerminalEvent) (s : Session P)
      → v.told ≡ p ++ events
      → ToldTo v p s
      → Handles v (handle_events events s)
  unfolding handle_events
  handle_events-Handles v p [] s e k = record {
    published = p;
    unpublished = [];
    publishes = k;
    told_is = e;
    all_told = λ _. refl;
  }
  handle_events-Handles v p (event ∷ events) s e k =
      let t = (answer event s).0 in
      let k' = answer-Told string_width parse on_resize start w h v p event s k in
      elim (Option-cases (answer event s).1) [
        | inr (x, f) ↦
            rw (f, handle_events)
              (record {
                published = p;
                unpublished = event ∷ events;
                publishes = k';
                told_is = e;
                all_told = λ g. absurd cc;
              })
        | inl f ↦
            rw (f, handle_events)
              (handle_events-Handles v (p ++ event ∷ []) events (report event t)
                (e ∙ sym (append_assoc p (event ∷ []) events))
                (report-Told string_width parse on_resize start w h v p event t k'))
      ]

  -- Output that is written, before its events are drained.
  abbrev undrained : ℕ → Bytes → View P → View P
  undrained now bytes v =
      let t = write string_width (parse bytes v.parser).0 v.terminal in
      record {
        terminal = t;
        parser = (parse bytes v.parser).1;
        leaving = v.leaving;
        history = v.history ++ entry_record start (wrote now bytes t.revision) ∷ [];
        told = v.told ++ t.events;
      }

  apply_output-Told :
      (v : View P) (p : List TerminalEvent) (now : ℕ) (bytes : Bytes) (s : Session P)
      → ToldTo v p s
      → ToldTo (undrained now bytes v) p (apply_output string_width parse now bytes s)
  unfolding apply_output
  apply_output-Told v p now bytes s k =
      let s1 = signal_output s in
      let k1 = signal_output-Told string_width parse on_resize start w h v p s k in
      let t = write string_width (parse bytes s1.parser).0 s1.terminal in
      let u = write string_width (parse bytes v.parser).0 v.terminal in
      let e : t ≡ u =
        ap (λ q. write string_width (parse bytes q).0 s1.terminal) k1.parser_is
        ∙ ap (write string_width (parse bytes v.parser).0) k1.terminal_is in
      signal_change-Told string_width parse on_resize start w h (undrained now bytes v) p _
        (record {
          terminal_is = e;
          parser_is = ap (λ q. (parse bytes q).1) k1.parser_is;
          leaving_is = k1.leaving_is;
          once_is = k1.once_is;
          far_end_is = k1.far_end_is;
          keeps =
              rw (← e)
                (record_entry-Keeps (wrote now bytes t.revision) start w h _ s1.recorder k1.keeps);
          log_is = k1.log_is;
          unwatched = k1.unwatched;
        })

  chunk-Handles :
      (v : View P) (now : ℕ) (bytes : Bytes) (s : Session P)
      → s.done ≡ false
      → ShownTo v s
      → Handles
          (written string_width parse on_resize start now bytes v)
          (chunk_or_nothing string_width parse now bytes s)
  unfolding take_chunk drain_events
  chunk-Handles v now [] s d k = record {
    published = k.published;
    unpublished = k.unpublished;
    publishes = k.publishes;
    told_is = k.told_is;
    all_told = λ _. k.all_told d;
  }
  chunk-Handles v now (b ∷ bytes) s d k =
      let k' = apply_output-Told v k.published now (b ∷ bytes) s k.publishes in
      let t = apply_output string_width parse now (b ∷ bytes) s in
      let u = write string_width (parse (b ∷ bytes) v.parser).0 v.terminal in
      let told : v.told ≡ k.published =
        k.told_is ∙ ap (◌++◌ k.published) (k.all_told d) ∙ append-nil k.published in
      handle_events-Handles (written string_width parse on_resize start now (b ∷ bytes) v)
        k.published t.terminal.events (record t { terminal = record (t.terminal) { events = [] } })
        (ap (λ l. l ++ u.events) told ∙ ap (λ x. k.published ++ x.events) (sym k'.terminal_is))
        (record {
          terminal_is = ap (λ (x : Terminal). record x { events = [] }) k'.terminal_is;
          parser_is = k'.parser_is;
          leaving_is = k'.leaving_is;
          once_is = k'.once_is;
          far_end_is = k'.far_end_is;
          keeps = k'.keeps;
          log_is = k'.log_is;
          unwatched = k'.unwatched;
        })

  -- Only the end of the reader makes a session done.
  answer-done : (event : TerminalEvent) (s : Session P) → (answer event s).0.done ≡ s.done
  unfolding answer send
  answer-done event s = ground arith

  report-done : (event : TerminalEvent) (s : Session P) → (report event s).done ≡ s.done
  unfolding report
  report-done event s = ground arith

  handle_events-done :
      (events : List TerminalEvent) (s : Session P) → (handle_events events s).0.done ≡ s.done
  unfolding handle_events
  handle_events-done [] s = refl
  handle_events-done (event ∷ events) s =
      let t = (answer event s).0 in
      elim (Option-cases (answer event s).1) [
        | inr (x, f) ↦ rw (f, handle_events) (answer-done event s)
        | inl f ↦
            rw (f, handle_events)
              (handle_events-done events (report event t)
                ∙ report-done event t
                ∙ answer-done event s)
      ]

  apply_output-done :
      (now : ℕ) (bytes : Bytes) (s : Session P)
      → (apply_output string_width parse now bytes s).done ≡ s.done
  unfolding apply_output signal_output signal_change
  apply_output-done now bytes s = ground arith

  chunk-done :
      (now : ℕ) (bytes : Bytes) (s : Session P)
      → (chunk_or_nothing string_width parse now bytes s).0.done ≡ s.done
  unfolding take_chunk drain_events
  chunk-done now [] s = refl
  chunk-done now (b ∷ bytes) s = handle_events-done _ _ ∙ apply_output-done now (b ∷ bytes) s

  -- The session has ended after the first of the reads.
  ended :
      (v : View P) (now : ℕ) (bytes : Bytes) (rest : List Item) (e : Option SessionError)
      (r : Session P × Option SessionError)
      → Handles (written string_width parse on_resize start now bytes v) r
      → Explains string_width parse on_resize start w h
          (hears now bytes ∷ rest)
          v
          (end_reader e r.0)
  unfolding end_reader finish view_all view
  ended v now bytes rest e r k = record {
    taken = hears now bytes ∷ [];
    missed = rest;
    items_are = refl;
    none_missed = λ f. absurd cc;
    shows = record {
      published = k.published;
      unpublished = k.unpublished;
      publishes = finish-Told string_width parse on_resize start w h _ _ _ r.0 k.publishes;
      told_is = k.told_is;
      all_told = λ f. absurd cc;
    };
  }

  pub read_loop-Explains :
      (reads : List (ℕ × Bytes × Option StreamError)) (v : View P) (s : Session P)
      → s.done ≡ false
      → ShownTo v s
      → Explains string_width parse on_resize start w h
          (heard reads)
          v
          (read_loop string_width parse reads s)
  unfolding read_loop view_all view
  read_loop-Explains [] v s d k = record {
    taken = [];
    missed = [];
    items_are = refl;
    none_missed = λ _. refl;
    shows = k;
  }
  read_loop-Explains ((now, bytes, read_err) ∷ reads) v s d k =
      let r = chunk_or_nothing string_width parse now bytes s in
      let k' = chunk-Handles v now bytes s d k in
      elim (Option-cases r.1) [
        | inr (x, e) ↦ rw (e, read_loop) (ended v now bytes (heard reads) (some x) r k')
        | inl e ↦
            rw (e, read_loop)
              (elim (Option-cases read_err) [
                | inr (x, f) ↦ rw f (ended v now bytes (heard reads) (read_failure x) r k')
                | inl f ↦
                    let next =
                      read_loop-Explains reads
                        (written string_width parse on_resize start now bytes v) r.0
                        (chunk-done now bytes s ∙ d)
                        (record {
                          published = k'.published;
                          unpublished = k'.unpublished;
                          publishes = k'.publishes;
                          told_is = k'.told_is;
                          all_told = λ _. k'.all_told e;
                        }) in
                    rw f (record {
                      taken = hears now bytes ∷ next.taken;
                      missed = next.missed;
                      items_are = ap (λ l. hears now bytes ∷ l) next.items_are;
                      none_missed = next.none_missed;
                      shows = next.shows;
                    })
              ])
      ]
