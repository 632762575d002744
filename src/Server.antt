-- ===== src/Server.antt =====
-- server.go and connection.go: the server's connections and their sessions. An opener, and a session,
-- is a number; what closing it gives is a parameter. `Connect` and `NewSession` are two steps each,
-- with the transport's call between them; every other call is one. The result carries the openers
-- and the session streams that the step closed.
pub mod Openers
mod Tests
use tuicast.Prelude.{
  ℕ, suc, zero, ◌+◌, ◌%◌, ◌^◌, Bool, true, false, not, Option, none, some, List, [], ◌∷◌, ◌++◌,
  ◌==◌, if◌then◌else◌, ◌⊎◌, inl, inr,
}

pub data ServerError (E : Type 0) : Type 0 where
  server_closed connection_ended : ServerError E
  transport_failed late_close_failed : E → ServerError E

-- What `Connection.Close` joins, and what `Server.Close` does.
pub data CloseError (E : Type 0) : Type 0 where
  in_session : ℕ → E → CloseError E
  in_transport : E → CloseError E

pub data ConnectionFailure (E : Type 0) : Type 0 where
  in_connection : ℕ → List (CloseError E) → ConnectionFailure E

-- A connection is in the server's map until it is closed. `close_errs` is what `errors.Join` joins.
pub record ServerConnection (E : Type 0) : Type 0 where
  pub id : ℕ
  pub opener : ℕ
  pub sessions : List ℕ
  pub closed : Bool
  pub close_errs : List (CloseError E)

pub record Server (E : Type 0) : Type 0 where
  pub connections : List (ServerConnection E)
  pub next_connection : ℕ
  pub next_session : ℕ
  pub closed : Bool
  pub close_errs : List (ConnectionFailure E)

-- `delete` of the map's entry.
unfoldable pub without_session : ℕ → List ℕ → List ℕ
without_session id [] = []
without_session id (x ∷ sessions) =
    let rest = without_session id sessions in if x == id then rest else x ∷ rest

module _ {E : Type 0} where
  abbrev pub new_server : Server E
  new_server = record {
    connections = [];
    next_connection = 0;
    next_session = 0;
    closed = false;
    close_errs = [];
  }

  -- The error of a step that closes what it has just opened.
  abbrev pub late_error : ServerError E → Option E → ServerError E
  late_error ended none = ended
  late_error ended (some e) = late_close_failed e

  abbrev pub new_connection : ℕ → ℕ → ServerConnection E
  new_connection id opener = record {
    id = id;
    opener = opener;
    sessions = [];
    closed = false;
    close_errs = [];
  }

  -- What `Connect` does with what the connector gave.
  unfoldable pub finish_connect :
      (ℕ → Option E) → E ⊎ ℕ → Server E → (Server E × List ℕ) × (ServerError E ⊎ ℕ)
  finish_connect close_opener (inl e) s = ((s, []), inl (transport_failed e))
  finish_connect close_opener (inr opener) s =
      if s.closed
      then ((s, opener ∷ []), inl (late_error server_closed (close_opener opener)))
      else (let id = (s.next_connection + 1) % 2 ^ 64 in
          (
            (
              record s {
                connections = s.connections ++ new_connection id opener ∷ [];
                next_connection = id;
              },
              [],
            ),
            inr id,
          ))

  -- The errors of the loop over the sessions of `Connection.Close`.
  abbrev pub session_errors : (ℕ → Option E) → List ℕ → List (CloseError E)
  session_errors close_session [] = []
  session_errors close_session (id ∷ sessions) = elim (close_session id) [
    | none ↦ session_errors close_session sessions
    | some e ↦ in_session id e ∷ session_errors close_session sessions
  ]

  abbrev pub opener_errors : Option E → List (CloseError E)
  opener_errors none = []
  opener_errors (some e) = in_transport e ∷ []

  -- `Connection.Close`, with the openers that it closes. A second call returns the error of the first.
  unfoldable pub close_connection :
      (ℕ → Option E) → (ℕ → Option E) → ServerConnection E → ServerConnection E × List ℕ
  close_connection close_session close_opener c = if c.closed then (c, []) else (
    record c {
      closed = true;
      sessions = [];
      close_errs = session_errors close_session c.sessions ++ opener_errors (close_opener c.opener);
    },
    c.opener ∷ [],
  )

  -- A call of `Close` on the connection of that position.
  unfoldable pub close_at :
      (ℕ → Option E)
      → (ℕ → Option E)
      → ℕ
      → List (ServerConnection E)
      → List (ServerConnection E) × List ℕ
  close_at close_session close_opener index [] = ([], [])
  close_at close_session close_opener zero (c ∷ connections) =
      let (d, gone) = close_connection close_session close_opener c in (d ∷ connections, gone)
  close_at close_session close_opener (suc index) (c ∷ connections) =
      let (rest, gone) = close_at close_session close_opener index connections in (c ∷ rest, gone)

  abbrev pub connection_errors : ServerConnection E → Bool → List (ConnectionFailure E)
  connection_errors c true = []
  connection_errors c false = elim c.close_errs [
    | [] ↦ []
    | x ∷ xs ↦ in_connection c.id (x ∷ xs) ∷ []
  ]

  -- The loop of `Server.Close` over the connections in the map, with their errors.
  unfoldable pub close_each :
      (ℕ → Option E)
      → (ℕ → Option E)
      → List (ServerConnection E)
      → (List (ServerConnection E) × List ℕ) × List (ConnectionFailure E)
  close_each close_session close_opener [] = (([], []), [])
  close_each close_session close_opener (c ∷ connections) =
      let (d, gone) = close_connection close_session close_opener c in
      let ((rest, others), errs) = close_each close_session close_opener connections in
      ((d ∷ rest, gone ++ others), connection_errors d c.closed ++ errs)

  -- `Server.Close`. A second call returns the error of the first.
  unfoldable pub close_server :
      (ℕ → Option E) → (ℕ → Option E) → Server E → (Server E × List ℕ) × List (ConnectionFailure E)
  close_server close_session close_opener s =
      if s.closed
      then ((s, []), s.close_errs)
      else (let ((connections, gone), errs) = close_each close_session close_opener s.connections in
          ((record s { connections = connections; closed = true; close_errs = errs }, gone), errs))

  -- What `NewSession` does on a connection once its stream is open: whether the session is kept.
  abbrev pub add_session : ℕ → ServerConnection E → ServerConnection E × Bool
  add_session id c =
      if c.closed then (c, false) else (record c { sessions = c.sessions ++ id ∷ [] }, true)

  unfoldable pub add_session_at :
      ℕ → ℕ → List (ServerConnection E) → List (ServerConnection E) × Bool
  add_session_at id index [] = ([], false)
  add_session_at id zero (c ∷ connections) =
      let (d, kept) = add_session id c in (d ∷ connections, kept)
  add_session_at id (suc index) (c ∷ connections) =
      let (rest, kept) = add_session_at id index connections in (c ∷ rest, kept)

  abbrev pub remove_session : ℕ → ServerConnection E → ServerConnection E
  remove_session id c = record c { sessions = without_session id c.sessions }

  -- `removeSession`, which a session calls on its connection when it ends.
  unfoldable pub remove_session_at : ℕ → ℕ → List (ServerConnection E) → List (ServerConnection E)
  remove_session_at id index [] = []
  remove_session_at id zero (c ∷ connections) = remove_session id c ∷ connections
  remove_session_at id (suc index) (c ∷ connections) = c ∷ remove_session_at id index connections

  -- `NewSession` from the opened stream on: a stream of a closed connection is closed, with `late`.
  unfoldable pub finish_session : ℕ → Option E → Server E → Server E × (ServerError E ⊎ ℕ)
  finish_session index late s =
      let id = (s.next_session + 1) % 2 ^ 64 in
      let (connections, kept) = add_session_at id index s.connections in
      (
        record s { connections = connections; next_session = id },
        if kept then inr id else inl (late_error connection_ended late),
      )
