-- ===== src/Session/Waiting.antt =====
-- session.go: `WaitFor` beside the reader and `Resize`, their atomic steps in any order. The step of
-- a goroutine is what it does between two locks.
pub mod Signals
pub mod Wakeup
use tuicast.Prelude.{
  ℕ, ◌≡◌, Bool, true, false, ◌||◌, Option, none, some, List, ltb, if◌then◌else◌, Bytes,
}
use tuicast.Prelude.Int.{ℤ, pos_part}
use tuicast.Screen.{Screen}
use tuicast.Ansi.State.{Terminal, snapshot}
use tuicast.Ansi.State as State
use tuicast.Ansi.Control.{Event, write, drain_events}
use tuicast.Recorder
use tuicast.Session.{Session, SessionError, signal_change, signal_output, begin_close, send}
use tuicast.Session.Reader.{handle_events, end_reader}

-- Why a wait ended without a match.
pub data WaitCause : Type 0 where
  session_ended : Option SessionError → WaitCause
  context_done : WaitCause

-- Where the reader stands: before a read, with bytes announced, with bytes applied that are not
-- signalled yet, with events to handle, or at its end.
pub data ReaderAt : Type 0 where
  reading : ReaderAt
  announced : ℕ → Bytes → ReaderAt
  applied handling stopped : ReaderAt

-- Where `Resize` stands: `resized` is behind the terminal's resize and before the signal.
pub data ResizerAt : Type 0 where
  idle resized : ResizerAt

-- Where `WaitFor` stands: with the channel it loaded, whether the session was done, and its error;
-- or in the `select`, with the channel and the screen it looked at.
pub data WaiterAt : Type 0 where
  entering : WaiterAt
  loaded : ℕ → Bool → Option SessionError → WaiterAt
  blocked : ℕ → Screen → WaiterAt
  returned : Screen → Option WaitCause → WaiterAt

pub record World (P : Type 0) : Type 0 where
  pub session : Session P
  pub reader : ReaderAt
  pub resizer : ResizerAt
  pub waiter : WaiterAt

-- Whether the channel that was current as number `channel` is closed.
abbrev pub is_closed : {P : Type 0} → ℕ → Session P → Bool
is_closed channel s = s.done || ltb channel s.changed

-- The rest of a round of `WaitFor`: the snapshot, the match, and the test for the end.
unfoldable pub look : (Screen → Bool) → ℕ → Bool → Option SessionError → Screen → WaiterAt
look matcher channel finished err screen =
    if matcher screen
    then returned screen none
    else if finished
    then returned screen (some (session_ended err))
    else blocked channel screen

module _ {P : Type 0} where
  -- The terminal's `Write` under the recorder.
  unfoldable pub apply : (ℕ → ℤ) → (Bytes → P → List Event × P) → ℕ → Bytes → Session P → Session P
  apply string_width parse now bytes s =
      let (events, parser) = parse bytes s.parser in
      let terminal = write string_width events s.terminal in
      record s {
        parser = parser;
        terminal = terminal;
        recorder = Recorder.output now bytes terminal.revision s.recorder;
      }

  -- The terminal's `Resize` and the recorder's.
  unfoldable pub apply_size : ℕ → ℤ → ℤ → Terminal → Session P → Session P
  apply_size now width height t s = record s {
    terminal = t;
    recorder = Recorder.resize now (pos_part width) (pos_part height) s.recorder;
  }

  -- The drained events, handled.
  unfoldable pub handle_drained : Session P → Session P × Option SessionError
  handle_drained s =
      let (events, terminal) = drain_events s.terminal in
      handle_events events (record s { terminal = terminal })

module _ {P : Type 0} (string_width : ℕ → ℤ) (parse : Bytes → P → List Event × P)
    (matcher : Screen → Bool) where
  pub data Step (w : World P) : World P → Type 0 where
    announces :
        (now : ℕ) (bytes : Bytes)
        → w.reader ≡ reading
        → Step w (record w { session = signal_output (w.session); reader = announced now bytes })
    applies :
        (now : ℕ) (bytes : Bytes)
        → w.reader ≡ announced now bytes
        → Step w (record w {
          session = apply string_width parse now bytes (w.session);
          reader = applied;
        })
    signals :
        w.reader ≡ applied
        → Step w (record w { session = signal_change (w.session); reader = handling })
    handles :
        w.reader ≡ handling
        → (handle_drained w.session).1 ≡ none
        → Step w (record w { session = (handle_drained (w.session)).0; reader = reading })
    fails :
        (e : SessionError)
        → w.reader ≡ handling
        → (handle_drained w.session).1 ≡ some e
        → Step w (record w {
          session = end_reader (some e) (handle_drained (w.session)).0;
          reader = stopped;
        })
    ends :
        (e : Option SessionError)
        → w.reader ≡ reading
        → Step w (record w { session = end_reader e (w.session); reader = stopped })
    sizes :
        (now : ℕ) (width height : ℤ) (t : Terminal)
        → w.resizer ≡ idle
        → State.resize width height w.session.terminal ≡ some t
        → Step w
            (record w { session = apply_size now width height t (w.session); resizer = resized })
    signals_size :
        w.resizer ≡ resized
        → Step w (record w { session = signal_change (w.session); resizer = idle })
    sends : (bytes : Bytes) → Step w (record w { session = (send bytes (w.session)).0 })
    closes : Step w (record w { session = begin_close (w.session) })
    loads :
        w.waiter ≡ entering
        → Step w (record w { waiter = loaded (w.session.changed) (w.session.done) (w.session.err) })
    looks :
        (channel : ℕ) (finished : Bool) (err : Option SessionError)
        → w.waiter ≡ loaded channel finished err
        → Step w (record w {
          waiter = look matcher channel finished err (snapshot (w.session.terminal));
        })
    wakes :
        (channel : ℕ) (screen : Screen)
        → w.waiter ≡ blocked channel screen
        → is_closed channel w.session ≡ true
        → Step w (record w { waiter = entering })
    expires :
        (channel : ℕ) (screen : Screen)
        → w.waiter ≡ blocked channel screen
        → Step w (record w { waiter = returned screen (some context_done) })

  -- The worlds that a session with a new waiter comes to.
  pub data Reach (s : Session P) : World P → Type 0 where
    starts :
        (r : ReaderAt) (z : ResizerAt)
        → Reach s (record { session = s; reader = r; resizer = z; waiter = entering })
    continues : {v w : World P} → Reach s v → Step v w → Reach s w
