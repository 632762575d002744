-- ===== src/Session/Heard/Steps.antt =====
-- session.go: the operations of a session against what there is to see of it.
use tuicast.Prelude.{
  ℕ, ◌≡◌, refl, sym, ap, ◌∙◌, ◌||◌, Option, none, some, List, [], ◌∷◌, ◌++◌, Bytes, arith,
}
use tuicast.Prelude.Int.{ℤ}
use tuicast.Ansi.State.{TerminalEvent}
use tuicast.Ansi.Control.{Event}
use tuicast.Ansi.Valid.{if_both}
use tuicast.Telnet.Stream.{StreamError}
use tuicast.Keys.{KeyPress}
use tuicast.Keys.Encode.{encode_key_press}
use tuicast.Events.{EventLog, record_at, record_unsupported, publish_event, offer, new_event_log}
use tuicast.Session.{
  Session, SessionError, signal_change, signal_output, finish, send, press_with, send_encoded,
  wrapped,
}
use tuicast.Session.Reader.{answer, report, with_log, is_unsupported}
use tuicast.Session.Heard.{View, tell, tell_all, Publishes}

pub tell_all-append :
    (xs ys : List TerminalEvent) (log : EventLog)
    → tell_all (xs ++ ys) log ≡ tell_all ys (tell_all xs log)
unfolding tell_all
tell_all-append [] ys log = refl
tell_all-append (x ∷ xs) ys log = tell_all-append xs ys (tell x log)

tell_last :
    (event : TerminalEvent) (p : List TerminalEvent) (log : EventLog)
    → tell_all (p ++ event ∷ []) log ≡ tell event (tell_all p log)
unfolding tell_all
tell_last event p log = tell_all-append p (event ∷ []) log

-- A log without subscribers stays one.
record_at-unwatched :
    (o : Option ℕ) (text : Bytes) (log : EventLog)
    → log.event_subscribers ≡ []
    → (record_at o text log).1.event_subscribers ≡ []
unfolding record_at
record_at-unwatched o text log e = ground arith

publish-unwatched :
    (event : TerminalEvent) (log : EventLog)
    → log.event_subscribers ≡ []
    → (publish_event event log).event_subscribers ≡ []
unfolding publish_event offer
publish-unwatched event log e = rw e refl

tell-unwatched :
    (event : TerminalEvent) (log : EventLog)
    → log.event_subscribers ≡ []
    → (tell event log).event_subscribers ≡ []
unfolding record_unsupported
tell-unwatched event log e =
    let r = record_unsupported event.text log in
    let counted = record_at-unwatched (log.unsupported_index event.text) event.text log e in
    if_both (λ (l : EventLog). l.event_subscribers ≡ []) (is_unsupported event.kind)
      (λ _.
        if_both (λ (l : EventLog). l.event_subscribers ≡ []) r.0
          (λ _. publish-unwatched event r.1 counted) (λ _. counted))
      (λ _. publish-unwatched event log e)

module _ {P : Type 0} (string_width : ℕ → ℤ) (parse : Bytes → P → List Event × P)
    (on_resize : ℤ → ℤ → Option StreamError) (start w h : ℕ) where
  abbrev pub Told : View P → List TerminalEvent → Session P → Type 0
  Told v p s = Publishes string_width parse on_resize start w h v p s

  pub signal_change-Told :
      (v : View P) (p : List TerminalEvent) (s : Session P)
      → Told v p s
      → Told v p (signal_change s)
  unfolding signal_change
  signal_change-Told v p s k =
      if_both (Told v p) s.done (λ _. k)
        (λ _. record {
          terminal_is = k.terminal_is;
          parser_is = k.parser_is;
          leaving_is = k.leaving_is;
          once_is = k.once_is;
          far_end_is = k.far_end_is;
          keeps = k.keeps;
          log_is = k.log_is;
          unwatched = k.unwatched;
        })

  pub signal_output-Told :
      (v : View P) (p : List TerminalEvent) (s : Session P)
      → Told v p s
      → Told v p (signal_output s)
  unfolding signal_output
  signal_output-Told v p s k =
      if_both (Told v p) s.done (λ _. k)
        (λ _. record {
          terminal_is = k.terminal_is;
          parser_is = k.parser_is;
          leaving_is = k.leaving_is;
          once_is = k.once_is;
          far_end_is = k.far_end_is;
          keeps = k.keeps;
          log_is = k.log_is;
          unwatched = k.unwatched;
        })

  pub finish-Told :
      (v : View P) (p : List TerminalEvent) (e : Option SessionError) (s : Session P)
      → Told v p s
      → Told v p (finish e s)
  unfolding finish
  finish-Told v p e s k = record {
    terminal_is = k.terminal_is;
    parser_is = k.parser_is;
    leaving_is = λ f. absurd cc;
    once_is = k.once_is;
    far_end_is = k.far_end_is;
    keeps = k.keeps;
    log_is = ap (λ l. record (s.log) { event_subscribers = l }) (sym k.unwatched) ∙ k.log_is;
    unwatched = refl;
  }

  pub send-Told :
      (v : View P) (p : List TerminalEvent) (bytes : Bytes) (s : Session P)
      → Told v p s
      → Told v p (send bytes s).0
  unfolding send
  send-Told v p bytes s k =
      if_both (λ (r : Session P × Option SessionError). Told v p r.0) (s.closing || s.done) (λ _. k)
        (λ _. record {
          terminal_is = k.terminal_is;
          parser_is = k.parser_is;
          leaving_is = k.leaving_is;
          once_is = k.once_is;
          far_end_is = k.far_end_is;
          keeps = k.keeps;
          log_is = k.log_is;
          unwatched = k.unwatched;
        })

  wrapped-Told :
      (v : View P) (p : List TerminalEvent) (f : SessionError → SessionError)
      (r : Session P × Option SessionError)
      → Told v p r.0
      → Told v p (wrapped f r).0
  wrapped-Told v p f (s, none) k = k
  wrapped-Told v p f (s, some e) k = k

  pub press_with-Told :
      (v : View P) (p : List TerminalEvent) (to_upper : ℕ → ℕ) (o : Option KeyPress) (s : Session P)
      → Told v p s
      → Told v p (press_with to_upper o s).0
  press_with-Told v p to_upper none s k = k
  press_with-Told v p to_upper (some press) s k =
      encoded (encode_key_press to_upper s.terminal.application_cursor press)
    where
      encoded : (o : Option Bytes) → Told v p (send_encoded o s).0
      encoded none = k
      encoded (some bytes) = wrapped-Told v p _ (send bytes s) (send-Told v p bytes s k)

  reported-with_log :
      (event : TerminalEvent) (s : Session P) → report event s ≡ with_log (tell event s.log) s
  unfolding report
  reported-with_log event s = ground arith

  pub report-Told :
      (v : View P) (p : List TerminalEvent) (event : TerminalEvent) (s : Session P)
      → Told v p s
      → Told v (p ++ event ∷ []) (report event s)
  report-Told v p event s k = rw reported-with_log (record {
    terminal_is = k.terminal_is;
    parser_is = k.parser_is;
    leaving_is = k.leaving_is;
    once_is = k.once_is;
    far_end_is = k.far_end_is;
    keeps = k.keeps;
    log_is = ap (tell event) k.log_is ∙ sym (tell_last event p new_event_log);
    unwatched = tell-unwatched event s.log k.unwatched;
  })

  pub answer-Told :
      (v : View P) (p : List TerminalEvent) (event : TerminalEvent) (s : Session P)
      → Told v p s
      → Told v p (answer event s).0
  unfolding answer
  answer-Told v p event s k =
      if_both (λ (r : Session P × Option SessionError). Told v p r.0) _
        (λ _. send-Told v p event.text s k) (λ _. k)
