-- ===== src/Controls.antt =====
-- driver/control.go: the exclusive control of a session that the driver server grants, and what
-- driver/server.go removes of the controls. A control is a pointer, which a number stands for; the
-- session's own calls are the interface `SessionCalls`. One call is one step.
pub mod Exclusive
pub mod Steps
pub mod Held
pub mod Until
mod Tests
use tuicast.Prelude.{
  ℕ, ◌+◌, Bool, true, false, ◌&&◌, ◌||◌, not, ◌%◌, ◌^◌, Option, none, some, List, ◌==◌,
  if◌then◌else◌, ◌⊎◌, inl, inr, Bytes,
}
use tuicast.Screen.{Screen}
use tuicast.Keys.{Key, KeyModifier}
use tuicast.Workbench.{Driver}

-- The calls of a session `S`, in a world `V` that they act on, with errors `X`.
pub record SessionCalls (S V X : Type 0) : Type 0 where
  pub session_send : S → Bytes → V → V × Option X
  pub session_press : S → Key → List KeyModifier → V → V × Option X
  pub session_wait_for : S → ℕ → Bytes → V → V × Option X
  pub session_screen : S → V → Screen

pub data ControlError (X : Type 0) : Type 0 where
  not_registered already_controlled : ℕ → ControlError X
  control_released : ControlError X
  in_session : X → ControlError X

pub record SessionControl (S : Type 0) : Type 0 where
  pub number : ℕ
  pub id : ℕ
  pub session : S

pub record SessionRecord (S : Type 0) : Type 0 where
  pub connection_id : ℕ
  pub session : S

-- What the server keeps of connections, sessions and their controls, with the number of the next
-- control. The map `connections` is the set of its keys.
pub record Registry (S V : Type 0) : Type 0 where
  pub connections : ℕ → Bool
  pub sessions : ℕ → Option (SessionRecord S)
  pub controls : ℕ → Option (SessionControl S)
  pub next_control : ℕ
  pub next_connection : ℕ
  pub next_session : ℕ
  pub closed : Bool
  pub outside : V

module _ {S : Type 0} where
  -- `==` of two controls; the id goes with the pointer.
  unfoldable pub same_control : SessionControl S → SessionControl S → Bool
  same_control c d = c.number == d.number && c.id == d.id

  abbrev pub is_current : Option (SessionControl S) → SessionControl S → Bool
  is_current none c = false
  is_current (some d) c = same_control d c

  -- The map with one entry replaced.
  unfoldable pub with_control :
      ℕ
      → Option (SessionControl S)
      → (ℕ → Option (SessionControl S))
      → ℕ
      → Option (SessionControl S)
  with_control id c controls key = if key == id then c else controls key

-- Whether a session was opened on the connection.
abbrev pub opened_on : {S : Type 0} → ℕ → Option (SessionRecord S) → Bool
opened_on connection none = false
opened_on connection (some r) = r.connection_id == connection

module _ {S V : Type 0} where
  -- `openConnection` once the connection is made: the server keeps it unless it has been closed.
  unfoldable pub open_connection : Registry S V → Registry S V
  open_connection w =
      let id = (w.next_connection + 1) % 2 ^ 64 in
      if w.closed then w else record w {
        next_connection = id;
        connections = λ key. if key == id then true else w.connections key;
      }

  -- `openSession` once the session is made: the server keeps it unless its connection is gone. (As a
  -- step, the connection that is still there is the one that the session was opened on.)
  unfoldable pub open_session : ℕ → S → Registry S V → Registry S V
  open_session connection s w =
      let id = (w.next_session + 1) % 2 ^ 64 in
      if w.closed || not (w.connections connection) then w else record w {
        next_session = id;
        sessions = λ key.
            if key == id
            then some (record { connection_id = connection; session = s })
            else w.sessions key;
      }

  abbrev pub remove_session : ℕ → Option (SessionRecord S) → Registry S V → Registry S V
  remove_session id none w = w
  remove_session id (some r) w = record w {
    sessions = λ key. if key == id then none else w.sessions key;
    controls = with_control id none w.controls;
  }

  -- What `closeSession` does to the maps, before it closes the session.
  unfoldable pub close_session : ℕ → Registry S V → Registry S V
  close_session id w = remove_session id (w.sessions id) w

  -- What `closeConnection` does to the maps, before it closes the connection.
  unfoldable pub close_connection : ℕ → Registry S V → Registry S V
  close_connection connection w =
      if w.connections connection
      then record w {
        connections = λ key. if key == connection then false else w.connections key;
        sessions = λ id. if opened_on connection (w.sessions id) then none else w.sessions id;
        controls = λ id. if opened_on connection (w.sessions id) then none else w.controls id;
      }
      else w

  -- What the server's `Close` does to the maps.
  unfoldable pub close_server : Registry S V → Registry S V
  close_server w = if w.closed then w else record w { closed = true; controls = λ _. none }

module _ {S V X : Type 0} (same_session : S → S → Bool) (calls : SessionCalls S V X) where
  abbrev pub is_registered : Option (SessionRecord S) → S → Bool
  is_registered none s = false
  is_registered (some r) s = same_session r.session s

  unfoldable pub active : SessionControl S → Registry S V → Bool
  active c w = is_current (w.controls c.id) c

  abbrev pub grant :
      ℕ
      → S
      → Option (SessionControl S)
      → Registry S V
      → Registry S V × (ControlError X ⊎ SessionControl S)
  grant id s (some c) w = (w, inl (already_controlled id))
  grant id s none w =
      let c : SessionControl S = record { number = w.next_control; id = id; session = s } in
      (
        record w {
          controls = with_control id (some c) w.controls;
          next_control = w.next_control + 1;
        },
        inr c,
      )

  -- `AcquireSessionControl` from the gate on, for the session that the first look at the map gave.
  abbrev pub acquire_seen :
      ℕ
      → Option (SessionRecord S)
      → Registry S V
      → Registry S V × (ControlError X ⊎ SessionControl S)
  acquire_seen id none w = (w, inl (not_registered id))
  acquire_seen id (some r) w =
      if is_registered (w.sessions id) r.session
      then grant id r.session (w.controls id) w
      else (w, inl (not_registered id))

  unfoldable pub acquire_control :
      ℕ → Registry S V → Registry S V × (ControlError X ⊎ SessionControl S)
  acquire_control id w = acquire_seen id (w.sessions id) w

  abbrev pub in_registry : Registry S V → V × Option X → Registry S V × Option (ControlError X)
  in_registry w (v, none) = (record w { outside = v }, none)
  in_registry w (v, some x) = (record w { outside = v }, some (in_session x))

  unfoldable pub control_send :
      SessionControl S → Bytes → Registry S V → Registry S V × Option (ControlError X)
  control_send c bytes w =
      if active c w
      then in_registry w (calls.session_send c.session bytes w.outside)
      else (w, some control_released)

  unfoldable pub control_press :
      SessionControl S
      → Key
      → List KeyModifier
      → Registry S V
      → Registry S V × Option (ControlError X)
  control_press c key ms w =
      if active c w
      then in_registry w (calls.session_press c.session key ms w.outside)
      else (w, some control_released)

  unfoldable pub control_wait_for :
      SessionControl S → ℕ → Bytes → Registry S V → Registry S V × Option (ControlError X)
  control_wait_for c timeout wanted w =
      if active c w
      then in_registry w (calls.session_wait_for c.session timeout wanted w.outside)
      else (w, some control_released)

  abbrev pub control_screen : SessionControl S → Registry S V → Screen
  control_screen c w = calls.session_screen c.session w.outside

  -- A second call, which `once` suppresses, would find that the control is not the current one.
  unfoldable pub release_control : SessionControl S → Registry S V → Registry S V
  release_control c w =
      if active c w then record w { controls = with_control c.id none w.controls } else w

  -- What the Workbench is given.
  abbrev pub control_driver : Driver (SessionControl S) (Registry S V) (ControlError X)
  control_driver = record {
    acquire = acquire_control;
    send = control_send;
    press = control_press;
    wait_for = control_wait_for;
    screen = control_screen;
    release = release_control;
  }
