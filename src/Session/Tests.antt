-- ===== src/Session/Tests.antt =====
-- Runs of the session, on a screen of 4 columns and 3 rows.
use tuicast.Prelude.{
  ℕ, ◌≡◌, ◌⊎◌, refl, Bool, true, not, none, some, List, [], ◌∷◌, ◌++◌, ◌==◌, Bytes, map, false,
  if◌then◌else◌,
}
use tuicast.Prelude.Int.{pos}
use tuicast.Screen.{Screen}
use tuicast.Ansi.State.{Terminal, snapshot}
use tuicast.Ansi.Control.{Event, printed, executed, handle_all}
use tuicast.Ansi.Tests.{one_wide, small}
use tuicast.Telnet.Stream.{eof}
use tuicast.Keys.{Key}
use tuicast.Session.{Session, SessionStream, new_session, close_failure, begin_close, signal_change}
use tuicast.Session.Reader.{read_loop, take_chunk}
use tuicast.Session.Calls.{Action, reads, sends, presses, resizes, closes}
use tuicast.Session.Closing.{close_ends}
use tuicast.Session.Answerback.{enquiry_answered}
use tuicast.Session.Waiting.{
  World, Reach, starts, continues, loads, looks, applies, announced, applied, idle, resized,
  blocked, is_closed, apply, look,
}
use tuicast.Session.Waiting.Wakeup.{no_lost_wakeup}

-- A parser without state that takes ENQ for the control and each other byte for a character.
abbrev event_of : ℕ → Event
event_of b = if b == 0x05 then executed b else printed b

abbrev NoState : Type 0
NoState = Unit

abbrev parse : Bytes → NoState → List Event × NoState
parse bytes p = (map event_of bytes, p)

abbrev quiet : SessionStream
quiet = record {
  conn = record { sent = []; writes = []; reads = []; on_close = none };
  on_resize = λ width height. none;
}

abbrev answering : Terminal
answering = record small { answerback = b'o' ∷ b'k' ∷ [] }

abbrev fresh : Session NoState
fresh = new_session 1 100 small tt quiet

abbrev actions : List Action
actions =
    sends (b'h' ∷ [])
    ∷ reads ((101, b'a' ∷ 0x05 ∷ [], none) ∷ [])
    ∷ presses Key.enter []
    ∷ resizes 102 (pos 2) (pos 2)
    ∷ closes
    ∷ reads ((103, [], some eof) ∷ [])
    ∷ []

close_ends_example :
    let t =
      read_loop one_wide parse
        ((101, b'a' ∷ [], none) ∷ (102, [], some eof) ∷ [])
        (begin_close fresh) in
    (t.done ≡ true)
    × (t.err ≡ none)
    × (t.close_err ≡ close_failure fresh.stream.conn.on_close fresh.close_err)
unfolding new_session
close_ends_example =
    close_ends one_wide parse ((101, b'a' ∷ [], none) ∷ (102, [], some eof) ∷ []) fresh refl tt

enquiry_answered_example :
    let (t, e) =
      take_chunk one_wide parse 101 (0x05 ∷ []) (record fresh { terminal = answering }) in
    (t.stream.conn.sent ≡ [] ++ b'o' ∷ b'k' ∷ []) × (e ≡ none)
unfolding new_session
enquiry_answered_example =
    enquiry_answered one_wide parse 101 (0x05 ∷ []) (record fresh { terminal = answering }) b'o'
      (b'k' ∷ []) refl refl refl refl refl refl

-- The cursor has left the first column.
abbrev has_moved : Screen → Bool
has_moved screen = not (screen.cursor.column == 0)

-- The reader has written an `a` behind a waiter that looked at the empty screen.
abbrev written : World NoState
written = record {
  session = apply one_wide parse 101 (b'a' ∷ []) fresh;
  reader = applied;
  resizer = idle;
  waiter = blocked 0 (snapshot small);
}

written-Reach : Reach one_wide parse has_moved fresh written
unfolding look new_session snapshot
written-Reach =
    continues
      (continues (continues (starts (announced 101 (b'a' ∷ [])) idle) (loads refl))
        (looks 0 false none refl))
      (applies 101 (b'a' ∷ []) refl)

no_lost_wakeup_example :
    (is_closed 0 written.session ≡ true)
    ⊎ (((written.reader ≡ applied) ⊎ (written.resizer ≡ resized))
        × (is_closed 0 (signal_change written.session) ≡ true))
unfolding apply new_session snapshot tuicast.Ansi.Control.write handle_all
    tuicast.Ansi.Control.handle tuicast.Ansi.Print.print tuicast.Ansi.Print.print_width
    tuicast.Ansi.Print.glyph_width tuicast.Ansi.Print.place tuicast.Ansi.Print.overwrite
    tuicast.Ansi.Print.advance tuicast.Ansi.State.changed tuicast.Ansi.Print.write_glyph
    tuicast.Ansi.Print.wrap_before
no_lost_wakeup_example =
    no_lost_wakeup one_wide parse has_moved fresh written 0 (snapshot small) written-Reach refl refl
