-- ===== src/Session/Calls/Runs.antt =====
-- session.go: one operation of a session against what there is to see of it.
use tuicast.Prelude.{
  ℕ, ◌≡◌, refl, sym, ap, ◌∙◌, true, false, ◌||◌, Option, none, some, List, [], ◌∷◌, Bytes, arith,
}
use tuicast.Prelude.Int.{ℤ, pos_part}
use tuicast.Ansi.State.{Terminal, TerminalEvent, Profile, new_terminal}
use tuicast.Ansi.State as State
use tuicast.Ansi.Control.{Event}
use tuicast.Ansi.Valid.{if_both}
use tuicast.Telnet.Stream.{StreamError}
use tuicast.Keys.{KeyPress, new_key_press}
use tuicast.Keys.Encode.{encode_key_press}
use tuicast.Recorder.Bounds.{resized, record_entry-Keeps}
use tuicast.Session.{
  Session, SessionError, pressing_key, wrapped, send_encoded, press_with, resize_with, resize_local,
  send, press, resize, begin_close,
}
use tuicast.Session.Heard.{
  Item, asks, leaves, heard, View, view, view_all, asked, fitted, Shows, Explains,
}
use tuicast.Session.Heard.Steps.{Told, send-Told, press_with-Told, signal_change-Told}
use tuicast.Session.Heard.Reads.{read_loop-Explains}
use tuicast.Session.Calls.{Action, reads, sends, presses, resizes, closes, act, items_of}

module _ {P : Type 0} (string_width : ℕ → ℤ) (parse : Bytes → P → List Event × P)
    (to_upper : ℕ → ℕ) where
  module _ (on_resize : ℤ → ℤ → Option StreamError) (start w h : ℕ) where
    abbrev ToldTo : View P → List TerminalEvent → Session P → Type 0
    ToldTo v p s = Told string_width parse on_resize start w h v p s

    abbrev ShownTo : View P → Session P → Type 0
    ShownTo v s = Shows string_width parse on_resize start w h v s

    abbrev ExplainedBy : List Item → View P → Session P → Type 0
    ExplainedBy items v s = Explains string_width parse on_resize start w h items v s

    send-done : (bytes : Bytes) (s : Session P) → (send bytes s).0.done ≡ s.done
    unfolding send
    send-done bytes s = ground arith

    press_with-done :
        (o : Option KeyPress) (s : Session P) → (press_with to_upper o s).0.done ≡ s.done
    press_with-done none s = refl
    press_with-done (some p) s = encoded (encode_key_press to_upper s.terminal.application_cursor p)
      where
        outcome :
            (r : Session P × Option SessionError)
            → r.0.done ≡ s.done
            → (wrapped pressing_key r).0.done ≡ s.done
        outcome (t, none) e = e
        outcome (t, some x) e = e

        encoded : (o : Option Bytes) → (send_encoded o s).0.done ≡ s.done
        encoded none = refl
        encoded (some bytes) = outcome (send bytes s) (send-done bytes s)

    -- A session that is done hears nothing more.
    pub act-done :
        (a : Action) (s : Session P)
        → s.done ≡ true
        → (act string_width parse to_upper a s).done ≡ true
    unfolding act send press resize begin_close
    act-done (reads outcomes) s d =
        if_both (λ (t : Session P). t.done ≡ true) s.done (λ _. d) (λ f. absurd cc)
    act-done (sends bytes) s d = ground arith
    act-done (presses key modifiers) s d = press_with-done (new_key_press key modifiers) s ∙ d
    act-done (resizes now width height) s d = ground arith
    act-done closes s d = ground arith

    begin_close-Told :
        (v : View P) (p : List TerminalEvent) (s : Session P)
        → ToldTo v p s
        → s.done ≡ true
        → ToldTo v p (begin_close s)
    unfolding begin_close
    begin_close-Told v p s k d =
        if_both (ToldTo v p) s.close_once (λ _. k)
          (λ _. record {
            terminal_is = k.terminal_is;
            parser_is = k.parser_is;
            leaving_is = λ f. absurd cc;
            once_is = refl;
            far_end_is = k.far_end_is;
            keeps = k.keeps;
            log_is = k.log_is;
            unwatched = k.unwatched;
          })

    act-Told-done :
        (a : Action) (v : View P) (p : List TerminalEvent) (s : Session P)
        → s.done ≡ true
        → ToldTo v p s
        → ToldTo v p (act string_width parse to_upper a s)
    unfolding act press resize
    act-Told-done (reads outcomes) v p s d k = if_both (ToldTo v p) s.done (λ _. k) (λ f. absurd cc)
    act-Told-done (sends bytes) v p s d k =
        send-Told string_width parse on_resize start w h v p bytes s k
    act-Told-done (presses key modifiers) v p s d k =
        press_with-Told string_width parse on_resize start w h v p to_upper
          (new_key_press key modifiers) s k
    act-Told-done (resizes now width height) v p s d k =
        if_both (λ (r : Session P × Option SessionError). ToldTo v p r.0) (s.closing || s.done)
          (λ _. k) (λ f. absurd (ground arith))
    act-Told-done closes v p s d k = begin_close-Told v p s k d

    -- What a call that the host cannot see leaves.
    unheard :
        (v : View P) (s t : Session P)
        → t.done ≡ s.done
        → ((p : List TerminalEvent) → ToldTo v p s → ToldTo v p t)
        → ShownTo v s
        → ExplainedBy [] v t
    unfolding view_all
    unheard v s t e f k = record {
      taken = [];
      missed = [];
      items_are = refl;
      none_missed = λ _. refl;
      shows = record {
        published = k.published;
        unpublished = k.unpublished;
        publishes = f k.published k.publishes;
        told_is = k.told_is;
        all_told = λ d. k.all_told (sym e ∙ d);
      };
    }

    pub act-Shows-done :
        (a : Action) (v : View P) (s : Session P)
        → s.done ≡ true
        → ShownTo v s
        → ShownTo v (act string_width parse to_upper a s)
    act-Shows-done a v s d k =
        let e = act-done a s d in
        record {
          published = k.published;
          unpublished = k.unpublished;
          publishes = act-Told-done a v k.published s d k.publishes;
          told_is = k.told_is;
          all_told = λ f. absurd cc;
        }

    -- One item that is taken.
    taken_one :
        (i : Item) (v : View P) (s : Session P)
        → ShownTo (view string_width parse on_resize start i v) s
        → ExplainedBy (i ∷ []) v s
    unfolding view_all
    taken_one i v s k = record {
      taken = i ∷ [];
      missed = [];
      items_are = refl;
      none_missed = λ _. refl;
      shows = k;
    }

    resizes-Explains :
        (now : ℕ) (width height : ℤ) (v : View P) (s : Session P)
        → s.done ≡ false
        → ShownTo v s
        → ExplainedBy
            (asks now width height ∷ [])
            v
            (act string_width parse to_upper (resizes now width height) s)
    unfolding act resize view
    resizes-Explains now width height v s d k =
        let same = k.publishes.leaving_is d in
        taken_one (asks now width height) v _ (
          if_both
            (λ (r : Session P × Option SessionError).
              ShownTo (view string_width parse on_resize start (asks now width height) v) r.0)
            (s.closing || s.done)
            (λ c.
              if_both (λ (u : View P). ShownTo u s) v.leaving (λ _. k)
                (λ f. absurd (ground (arith, same))))
            (λ c.
              if_both
                (λ (u : View P).
                  ShownTo u (resize_with now width height (s.stream.on_resize width height) s).0)
                v.leaving (λ f. absurd (ground (arith, same)))
                (λ _. at_stream _ _ (ap (λ f. f width height) k.publishes.far_end_is))))
      where
        at_local :
            (o o' : Option Terminal)
            → o ≡ o'
            → ShownTo
                (fitted string_width parse on_resize start now width height o' v)
                (resize_local now width height o s).0
        at_local none none e = k
        at_local none (some t) e = absurd cc
        at_local (some t) none e = absurd cc
        at_local (some t) (some t') e =
            let b = k.publishes in
            record {
              published = k.published;
              unpublished = k.unpublished;
              publishes =
                  signal_change-Told string_width parse on_resize start w h _ k.published _
                    (record {
                      terminal_is = cc;
                      parser_is = b.parser_is;
                      leaving_is = b.leaving_is;
                      once_is = b.once_is;
                      far_end_is = b.far_end_is;
                      keeps =
                          record_entry-Keeps (resized now (pos_part width) (pos_part height)) start
                            w h _ s.recorder b.keeps;
                      log_is = b.log_is;
                      unwatched = b.unwatched;
                    });
              told_is = k.told_is;
              all_told = λ _. k.all_told d;
            }

        at_stream :
            (e e' : Option StreamError)
            → e ≡ e'
            → ShownTo
                (asked string_width parse on_resize start now width height e' v)
                (resize_with now width height e s).0
        at_stream none none e =
            at_local _ _ (ap (State.resize width height) k.publishes.terminal_is)
        at_stream none (some x) e = absurd cc
        at_stream (some x) none e = absurd cc
        at_stream (some x) (some y) e = k

    closes-Explains :
        (v : View P) (s : Session P)
        → s.done ≡ false
        → ShownTo v s
        → ExplainedBy (leaves ∷ []) v (act string_width parse to_upper closes s)
    unfolding act begin_close view
    closes-Explains v s d k =
        let b = k.publishes in
        taken_one leaves v _ (record {
          published = k.published;
          unpublished = k.unpublished;
          publishes =
              if_both (ToldTo (record v { leaving = true }) k.published) s.close_once
                (λ o. record {
                  terminal_is = b.terminal_is;
                  parser_is = b.parser_is;
                  leaving_is = λ _. sym b.once_is ∙ o;
                  once_is = b.once_is;
                  far_end_is = b.far_end_is;
                  keeps = b.keeps;
                  log_is = b.log_is;
                  unwatched = b.unwatched;
                })
                (λ _. record {
                  terminal_is = b.terminal_is;
                  parser_is = b.parser_is;
                  leaving_is = λ _. refl;
                  once_is = refl;
                  far_end_is = b.far_end_is;
                  keeps = b.keeps;
                  log_is = b.log_is;
                  unwatched = b.unwatched;
                });
          told_is = k.told_is;
          all_told = λ _. k.all_told d;
        })

    pub act-Explains :
        (a : Action) (v : View P) (s : Session P)
        → s.done ≡ false
        → ShownTo v s
        → ExplainedBy
            (items_of string_width parse to_upper a)
            v
            (act string_width parse to_upper a s)
    unfolding act press
    act-Explains (reads outcomes) v s d k =
        if_both (ExplainedBy (heard outcomes) v) s.done (λ f. absurd cc)
          (λ _. read_loop-Explains string_width parse on_resize start w h outcomes v s d k)
    act-Explains (sends bytes) v s d k =
        unheard v s _ (send-done bytes s)
          (λ p t. send-Told string_width parse on_resize start w h v p bytes s t) k
    act-Explains (presses key modifiers) v s d k =
        unheard v s _ (press_with-done (new_key_press key modifiers) s)
          (λ p t.
            press_with-Told string_width parse on_resize start w h v p to_upper
              (new_key_press key modifiers) s t)
          k
    act-Explains (resizes now width height) v s d k = resizes-Explains now width height v s d k
    act-Explains closes v s d k = closes-Explains v s d k
