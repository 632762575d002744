-- ===== src/Controls/Tests.antt =====
-- Runs of the controls, over a server with one session.
use tuicast.Prelude.{
  Option, not, refl, true, false, ◌||◌, ℕ, ◌≡◌, Bool, none, some, List, [], ◌∷◌, ◌++◌, ◌==◌,
  if◌then◌else◌, Bytes,
}
use tuicast.Prelude.Int.{pos}
use tuicast.Ansi.State.{snapshot}
use tuicast.Ansi.Tests.{small}
use tuicast.Keys.{Key}
use tuicast.Workbench.{SessionInfo}
use tuicast.Workbench.Manager.{close_all}
use tuicast.Workbench.Leases.Calls.{ManagerCall, starts, enters, strikes, manage_all}
use tuicast.Controls.{
  SessionCalls, SessionControl, ControlError, control_released, Registry, same_control,
  with_control, active, acquire_control, in_registry, control_send, control_press, control_wait_for,
  open_session, close_session, close_connection, control_driver,
}
use tuicast.Controls.Steps.{
  ServerStep, sends, acquires, opens_session, closes_session, closes_connection, step, steps, ends,
  ended,
}
use tuicast.Controls.Until.{is_refused, control_held_until}
use tuicast.Controls.Exclusive.{recordings_release}

-- A session is a number, and what is sent to it is all that it keeps.
abbrev line_calls : SessionCalls ℕ Bytes ℕ
line_calls = record {
  session_send = λ s bytes v. (v ++ bytes, none);
  session_press = λ s key ms v. (v ++ ms, none);
  session_wait_for = λ s timeout wanted v. (v, some 1);
  session_screen = λ s v. snapshot small;
}

abbrev same_number : ℕ → ℕ → Bool
same_number a b = a == b

abbrev one_session : Registry ℕ Bytes
one_session = record {
  connections = λ key. key == 1;
  sessions = λ id. if id == 7 then some (record { connection_id = 1; session = 70 }) else none;
  controls = λ id. none;
  next_control = 1;
  next_connection = 1;
  next_session = 7;
  closed = false;
  outside = [];
}

abbrev info : SessionInfo
info = record { id = 7; terminal = b'x' ∷ []; width = pos 4; height = pos 3 }

-- The recording is left running.
abbrev manager_calls : List ManagerCall
manager_calls = starts info ∷ enters 7 (b'u' ∷ []) [] ∷ starts info ∷ strikes 7 Key.enter [] ∷ []

abbrev first_control : SessionControl ℕ
first_control = record { number = 1; id = 7; session = 70 }

recordings_release_example :
    let (m, v) = manage_all (control_driver same_number line_calls) manager_calls [] one_session in
    active same_number line_calls first_control
      (close_all (control_driver same_number line_calls) m v).1
    ≡ active same_number line_calls first_control one_session
recordings_release_example =
    recordings_release same_number line_calls manager_calls one_session first_control

abbrev served : List (ServerStep ℕ)
served =
    sends first_control (b'a' ∷ [])
    ∷ opens_session 1 71
    ∷ closes_session 8
    ∷ acquires 7
    ∷ closes_connection 1
    ∷ []

control_held_until_example :
    let v = (acquire_control same_number line_calls 7 one_session).0 in
    let u = steps same_number line_calls served v in
    let over = ended same_number line_calls first_control served v in
    let refused : Registry ℕ Bytes × Option (ControlError ℕ) = (u, some control_released) in
    (active same_number line_calls first_control u ≡ not over)
    × (over || is_refused (acquire_control same_number line_calls 7 u).1 ≡ true)
    × (control_send same_number line_calls first_control (b'b' ∷ []) u ≡ (
        if over
        then refused
        else in_registry same_number line_calls u
            (line_calls.session_send 70 (b'b' ∷ []) u.outside)))
    × (control_press same_number line_calls first_control Key.enter [] u ≡ (
        if over
        then refused
        else in_registry same_number line_calls u
            (line_calls.session_press 70 Key.enter [] u.outside)))
    × (control_wait_for same_number line_calls first_control 5 (b'b' ∷ []) u ≡ (
        if over
        then refused
        else in_registry same_number line_calls u
            (line_calls.session_wait_for 70 5 (b'b' ∷ []) u.outside)))
unfolding acquire_control
control_held_until_example =
    control_held_until same_number line_calls 7 one_session
      (acquire_control same_number line_calls 7 one_session).0 first_control refl served (b'b' ∷ [])
      Key.enter [] 5

-- The connection's closing ended the control.
served_ends :
    ended same_number line_calls first_control served
      (acquire_control same_number line_calls 7 one_session).0
    ≡ true
unfolding acquire_control ended ends step control_send active same_control with_control open_session
    close_session close_connection
served_ends = refl
