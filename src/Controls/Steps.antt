-- ===== src/Controls/Steps.antt =====
-- driver/control.go and driver/server.go: what happens to the server's controls, as a sequence of steps.
use tuicast.Prelude.{
  ℕ, Bool, true, false, ◌&&◌, ◌||◌, not, Option, none, some, List, [], ◌∷◌, ◌==◌, Bytes,
}
use tuicast.Keys.{Key, KeyModifier}
use tuicast.Controls.{
  SessionCalls, SessionControl, Registry, same_control, acquire_control, control_send,
  control_press, control_wait_for, release_control, opened_on, open_connection, open_session,
  close_session, close_connection, close_server,
}

-- What happens to the server's controls: a call of one of them, or a request of a client.
pub data ServerStep (S : Type 0) : Type 0 where
  acquires : ℕ → ServerStep S
  releases : SessionControl S → ServerStep S
  sends : SessionControl S → Bytes → ServerStep S
  strikes : SessionControl S → Key → List KeyModifier → ServerStep S
  waits : SessionControl S → ℕ → Bytes → ServerStep S
  opens_connection : ServerStep S
  opens_session : ℕ → S → ServerStep S
  closes_session closes_connection : ℕ → ServerStep S
  closes_server : ServerStep S

abbrev pub has : {A : Type 0} → Option A → Bool
has none = false
has (some x) = true

module _ {S V X : Type 0} (same_session : S → S → Bool) (calls : SessionCalls S V X) where
  unfoldable pub step : ServerStep S → Registry S V → Registry S V
  step (acquires id) w = (acquire_control same_session calls id w).0
  step (releases d) w = release_control same_session calls d w
  step (sends d bytes) w = (control_send same_session calls d bytes w).0
  step (strikes d key ms) w = (control_press same_session calls d key ms w).0
  step (waits d timeout wanted) w = (control_wait_for same_session calls d timeout wanted w).0
  step opens_connection w = open_connection w
  step (opens_session connection s) w = open_session connection s w
  step (closes_session id) w = close_session id w
  step (closes_connection connection) w = close_connection connection w
  step closes_server w = close_server w

  unfoldable pub steps : List (ServerStep S) → Registry S V → Registry S V
  steps [] w = w
  steps (s ∷ rest) w = steps rest (step s w)

  -- The steps that end a control: its own release, and the closing of its session, of the connection
  -- that the session was opened on, or of the server.
  unfoldable pub ends : SessionControl S → ServerStep S → Registry S V → Bool
  ends c (releases d) w = same_control d c
  ends c (closes_session id) w = c.id == id && has (w.sessions id)
  ends c (closes_connection connection) w =
      w.connections connection && opened_on connection (w.sessions c.id)
  ends c closes_server w = not w.closed
  ends c _ w = false

  unfoldable pub ended : SessionControl S → List (ServerStep S) → Registry S V → Bool
  ended c [] w = false
  ended c (s ∷ rest) w = ends c s w || ended c rest (step s w)
