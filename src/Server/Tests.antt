-- ===== src/Server/Tests.antt =====
-- Runs of the server.
use tuicast.Prelude.{ℕ, ◌+◌, ◌≡◌, Option, none, List, [], ◌∷◌, ◌++◌, inr}
use tuicast.Server.{new_server}
use tuicast.Server.Openers.{
  ServerStep, connects, opens_session, closes_connection, closes_server, count, all_handed,
  open_count, run_step, run_steps, openers_closed_once,
}

-- Two connections, one of them closed, and one that comes after the server's `Close`.
abbrev server_steps : List (ServerStep ℕ)
server_steps =
    connects (inr 5)
    ∷ opens_session 0 none
    ∷ connects (inr 6)
    ∷ closes_connection 0
    ∷ closes_connection 0
    ∷ closes_server
    ∷ connects (inr 9)
    ∷ []

abbrev quiet_close : ℕ → Option ℕ
quiet_close n = none

openers_closed_once_example :
    let (s, gone) = run_steps quiet_close quiet_close server_steps new_server in
    let (t, last) = run_step quiet_close quiet_close closes_server s in
    (count 9 (all_handed server_steps) ≡ count 9 gone + open_count 9 s.connections)
    × (count 9 (all_handed server_steps) ≡ count 9 (gone ++ last))
openers_closed_once_example = openers_closed_once quiet_close quiet_close server_steps 9
