-- ===== src/Session/Waiting/Signals.antt =====
-- session.go: which steps leave the screen alone, and which wake the waiters.
use tuicast.Prelude.{
  ℕ, ◌≤◌, ◌≡◌, refl, ◌∙◌, true, ◌||◌, inl, inr, Option, List, [], ◌∷◌, Bytes, arith, Bool-cases,
  Option-cases,
}
use tuicast.Ansi.State.{TerminalEvent}
use tuicast.Ansi.Valid.{if_both}
use tuicast.Events.{record_unsupported}
use tuicast.Session.{Session, SessionError, signal_change, signal_output, begin_close, send, finish}
use tuicast.Session.Reader.{handle_events, end_reader, answer, report, is_unsupported}
use tuicast.Session.Waiting.{
  ReaderAt, ResizerAt, WaiterAt, World, Step, Reach, reading, announced, applied, handling, stopped,
  idle, resized, entering, loaded, blocked, returned, starts, continues, announces, applies,
  signals, handles, fails, ends, sizes, signals_size, sends, closes, loads, looks, wakes, expires,
  is_closed, look,
}
use tuicast.Session.Waiting

-- What the steps of a session that leave the screen alone have in common.
pub record Unmoved {P : Type 0} (s t : Session P) : Type 0 where
  pub same_terminal : t.terminal ≡ s.terminal
  pub same_changed : t.changed ≡ s.changed
  pub same_done : t.done ≡ s.done

module _ {P : Type 0} where
  unmoved : (s : Session P) → Unmoved s s
  unmoved s = record { same_terminal = refl; same_changed = refl; same_done = refl }

  Unmoved-trans : (s t u : Session P) → Unmoved s t → Unmoved t u → Unmoved s u
  Unmoved-trans s t u a b = record {
    same_terminal = b.same_terminal ∙ a.same_terminal;
    same_changed = b.same_changed ∙ a.same_changed;
    same_done = b.same_done ∙ a.same_done;
  }

  pub send-Unmoved : (bytes : Bytes) (s : Session P) → Unmoved s (send bytes s).0
  unfolding send
  send-Unmoved bytes s =
      if_both (λ (r : Session P × Option SessionError). Unmoved s r.0) (s.closing || s.done)
        (λ _. unmoved s)
        (λ _. record { same_terminal = refl; same_changed = refl; same_done = refl })

  answer-Unmoved : (event : TerminalEvent) (s : Session P) → Unmoved s (answer event s).0
  unfolding answer
  answer-Unmoved event s =
      if_both (λ (r : Session P × Option SessionError). Unmoved s r.0) _
        (λ _. send-Unmoved event.text s) (λ _. unmoved s)

  report-Unmoved : (event : TerminalEvent) (s : Session P) → Unmoved s (report event s)
  unfolding report
  report-Unmoved event s =
      if_both (Unmoved s) (is_unsupported event.kind)
        (λ _.
          if_both (Unmoved s) (record_unsupported event.text s.log).0
            (λ _. record { same_terminal = refl; same_changed = refl; same_done = refl })
            (λ _. record { same_terminal = refl; same_changed = refl; same_done = refl }))
        (λ _. record { same_terminal = refl; same_changed = refl; same_done = refl })

  pub handle_events-Unmoved :
      (events : List TerminalEvent) (s : Session P) → Unmoved s (handle_events events s).0
  unfolding handle_events
  handle_events-Unmoved [] s = unmoved s
  handle_events-Unmoved (event ∷ events) s =
      let t = (answer event s).0 in
      let a = answer-Unmoved event s in
      elim (Option-cases (answer event s).1) [
        | inr (x, e) ↦ rw (e, handle_events) a
        | inl e ↦
            rw (e, handle_events)
              (Unmoved-trans s t _ a (
                Unmoved-trans t (report event t) _ (report-Unmoved event t)
                  (handle_events-Unmoved events (report event t))))
      ]

  pub begin_close-Unmoved : (s : Session P) → Unmoved s (begin_close s)
  unfolding begin_close
  begin_close-Unmoved s =
      if_both (Unmoved s) s.close_once (λ _. unmoved s)
        (λ _. record { same_terminal = refl; same_changed = refl; same_done = refl })

  -- Every channel that was handed out is closed by a signal.
  abbrev pub Closes : Session P → Session P → Type 0
  Closes s t = (s.changed ≤ t.changed) × ((c : ℕ) → c ≤ s.changed → Waiting.is_closed c t ≡ true)

  pub signal_change-Closes : (s : Session P) → Closes s (signal_change s)
  unfolding signal_change
  signal_change-Closes s = elim (Bool-cases s.done) [
    | inl e ↦ rw e (omega arith, λ c h. refl)
    | inr e ↦ rw e (omega arith, λ c h. ground arith)
  ]

  pub signal_output-Closes : (s : Session P) → Closes s (signal_output s)
  unfolding signal_output
  signal_output-Closes s = elim (Bool-cases s.done) [
    | inl e ↦ rw e (omega arith, λ c h. refl)
    | inr e ↦ rw e (omega arith, λ c h. ground arith)
  ]

  pub end_reader-Closes : (e : Option SessionError) (s : Session P) → Closes s (end_reader e s)
  unfolding end_reader finish
  end_reader-Closes e s = (omega arith, λ c h. refl)
