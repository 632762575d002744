-- ===== src/Session/Calls/Explained.antt =====
-- session.go: a whole session against what there is to see of it.
use tuicast.Prelude.{ℕ, false, Option, List, [], Bytes}
use tuicast.Prelude.Int.{ℤ}
use tuicast.Ansi.State.{Terminal, TerminalEvent}
use tuicast.Ansi.Control.{Event}
use tuicast.Telnet.Stream.{StreamError}
use tuicast.Session.{Session}
use tuicast.Session.Heard.{Item, View, Shows, Explains}
use tuicast.Session.Heard.Steps.{Told}

module _ {P : Type 0} (string_width : ℕ → ℤ) (parse : Bytes → P → List Event × P)
    (to_upper : ℕ → ℕ) where
  module _ (on_resize : ℤ → ℤ → Option StreamError) (start w h : ℕ) where
    abbrev ToldTo : View P → List TerminalEvent → Session P → Type 0
    ToldTo v p s = Told string_width parse on_resize start w h v p s

    abbrev ShownTo : View P → Session P → Type 0
    ShownTo v s = Shows string_width parse on_resize start w h v s

    abbrev ExplainedBy : List Item → View P → Session P → Type 0
    ExplainedBy items v s = Explains string_width parse on_resize start w h items v s

  -- The session before anything has happened to it.
  abbrev pub first_view : Terminal → P → View P
  first_view t parser = record {
    terminal = t;
    parser = parser;
    leaving = false;
    history = [];
    told = [];
  }
