-- ===== src/Session.antt =====
-- session.go: a session couples one transport stream with one terminal. The terminal is that of
-- ansi/terminal.go, which both profiles use; `parse` is the byte parser that feeds it, and
-- `string_width` and `to_upper` are its parameters.
pub mod Reader
pub mod Integrity
pub mod Heard
pub mod Calls
pub mod Closing
pub mod Answerback
pub mod Waiting
mod Tests
use tuicast.Prelude.{
  ℕ, ◌+◌, ◌%◌, ◌^◌, Bool, true, false, ◌||◌, Option, none, some, List, [], ◌∷◌, ltb, if◌then◌else◌,
  length, Bytes,
}
use tuicast.Prelude.Int.{ℤ, pos_part}
use tuicast.Screen.{Screen}
use tuicast.Ansi.State.{Terminal, snapshot}
use tuicast.Ansi.State as State
use tuicast.Telnet.Stream.{Conn, StreamError, write_loop}
use tuicast.Keys.{Key, KeyModifier, KeyPress, new_key_press}
use tuicast.Keys.Encode.{encode_key_press}
use tuicast.Recorder.{FlightRecorder, new_flight_recorder}
use tuicast.Recorder
use tuicast.Events.{EventLog, new_event_log}

-- The errors, each wrapping `fmt.Errorf` a constructor over its cause.
pub data SessionError : Type 0 where
  session_closed unsupported_key bad_size : SessionError
  transport : StreamError → SessionError
  sending_input sending_answerback pressing_key : SessionError → SessionError
  resizing_remote resizing_local reading_output closing_stream closing_ended :
      SessionError → SessionError

-- A `SessionStream`: its reads, writes and close are those of a connection, and it may refuse a size.
pub record SessionStream : Type 0 where
  pub conn : Conn
  pub on_resize : ℤ → ℤ → Option StreamError

-- The channel `changed` is replaced whenever it is closed: `changed` counts those that were closed
-- before the current one. `close_once` says that `closeOnce` has run.
pub record Session (P : Type 0) : Type 0 where
  pub id : ℕ
  pub terminal : Terminal
  pub parser : P
  pub stream : SessionStream
  pub changed : ℕ
  pub done : Bool
  pub closing : Bool
  pub err : Option SessionError
  pub close_err : Option SessionError
  pub output : ℕ
  pub log : EventLog
  pub recorder : FlightRecorder
  pub close_once : Bool

-- What the outcome of a write to the stream is for `Send`.
abbrev pub send_failure : Option StreamError → Option SessionError
send_failure none = none
send_failure (some e) = some (sending_input (transport e))

abbrev pub close_failure : Option StreamError → Option SessionError → Option SessionError
close_failure none old = old
close_failure (some e) old = some (closing_stream (transport e))

module _ {P : Type 0} where
  unfoldable pub new_session : ℕ → ℕ → Terminal → P → SessionStream → Session P
  new_session id now terminal parser stream = record {
    id = id;
    terminal = terminal;
    parser = parser;
    stream = stream;
    changed = 0;
    done = false;
    closing = false;
    err = none;
    close_err = none;
    output = 0;
    log = new_event_log;
    recorder = new_flight_recorder now terminal.width terminal.height;
    close_once = false;
  }

  unfoldable pub signal_change : Session P → Session P
  signal_change s = if s.done then s else record s { changed = s.changed + 1 }

  unfoldable pub signal_output : Session P → Session P
  signal_output s =
      if s.done then s else record s { output = (s.output + 1) % 2 ^ 64; changed = s.changed + 1 }

  -- `finish`, but for the call of `onClose`.
  unfoldable pub finish : Option SessionError → Session P → Session P
  finish e s = record s {
    err = if s.closing then none else e;
    done = true;
    log = record (s.log) { event_subscribers = [] };
  }

  -- The loop of `Send` is that of `writeBytes`: it writes what is left until nothing is.
  unfoldable pub send : Bytes → Session P → Session P × Option SessionError
  send bytes s =
      if s.closing || s.done
      then (s, some (sending_input session_closed))
      else (let (c, e) = write_loop (length bytes) s.stream.conn bytes in
          (record s { stream = record (s.stream) { conn = c } }, send_failure e))

  abbrev pub wrapped :
      (SessionError → SessionError)
      → Session P × Option SessionError
      → Session P × Option SessionError
  wrapped f (s, none) = (s, none)
  wrapped f (s, some e) = (s, some (f e))

  -- The encoded key press is sent.
  abbrev pub send_encoded : Option Bytes → Session P → Session P × Option SessionError
  send_encoded none s = (s, some (pressing_key unsupported_key))
  send_encoded (some bytes) s = wrapped pressing_key (send bytes s)

  abbrev pub press_with : (ℕ → ℕ) → Option KeyPress → Session P → Session P × Option SessionError
  press_with to_upper none s = (s, some (pressing_key unsupported_key))
  press_with to_upper (some p) s =
      send_encoded (encode_key_press to_upper s.terminal.application_cursor p) s

  -- `Press`: the terminal encodes key presses with modifiers.
  unfoldable pub press :
      (ℕ → ℕ) → Key → List KeyModifier → Session P → Session P × Option SessionError
  press to_upper key modifiers s = press_with to_upper (new_key_press key modifiers) s

  -- `Resize` once the stream has accepted the size.
  abbrev pub resize_local :
      ℕ → ℤ → ℤ → Option Terminal → Session P → Session P × Option SessionError
  resize_local now width height none s = (s, some (resizing_local bad_size))
  resize_local now width height (some t) s = (
    signal_change (record s {
      terminal = t;
      recorder = Recorder.resize now (pos_part width) (pos_part height) s.recorder;
    }),
    none,
  )

  abbrev pub resize_with :
      ℕ → ℤ → ℤ → Option StreamError → Session P → Session P × Option SessionError
  resize_with now width height (some e) s = (s, some (resizing_remote (transport e)))
  resize_with now width height none s =
      resize_local now width height (State.resize width height s.terminal) s

  unfoldable pub resize : ℕ → ℤ → ℤ → Session P → Session P × Option SessionError
  resize now width height s =
      if s.closing || s.done
      then (s, some session_closed)
      else resize_with now width height (s.stream.on_resize width height) s

  -- What `Close` does before it waits for `done`.
  unfoldable pub begin_close : Session P → Session P
  begin_close s = if s.close_once then s else record s {
    close_once = true;
    closing = true;
    close_err = close_failure s.stream.conn.on_close s.close_err;
  }
