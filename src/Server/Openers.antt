-- ===== src/Server/Openers.antt =====
-- server.go and connection.go: any sequence of steps of a server, and the openers that it closes.
use tuicast.Prelude.{
  ℕ, suc, zero, ◌+◌, ◌%◌, ◌^◌, ◌≡◌, refl, sym, ap, ◌∙◌, Bool, true, false, Option, List, [], ◌∷◌,
  ◌++◌, ◌==◌, if◌then◌else◌, ◌⊎◌, inl, inr, arith,
}
use tuicast.Ansi.Valid.{if_both}
use tuicast.Workbench.Consistency.{if_true, if_false}
use tuicast.Server.{
  ServerError, ServerConnection, Server, ConnectionFailure, new_server, finish_connect,
  close_connection, close_at, close_each, close_server, new_connection, add_session, add_session_at,
  finish_session, remove_session_at,
}

pub data ServerStep (E : Type 0) : Type 0 where
  connects : E ⊎ ℕ → ServerStep E
  opens_session : ℕ → Option E → ServerStep E
  closes_connection : ℕ → ServerStep E
  ends_session : ℕ → ℕ → ServerStep E
  closes_server : ServerStep E

unfoldable pub count : ℕ → List ℕ → ℕ
count k [] = 0
count k (x ∷ xs) = (if x == k then 1 else 0) + count k xs

count-append : (k : ℕ) (xs ys : List ℕ) → count k (xs ++ ys) ≡ count k xs + count k ys
unfolding count
count-append k [] ys = omega arith
count-append k (x ∷ xs) ys = omega (arith, count-append k xs ys)

module _ {E : Type 0} where
  -- The openers that a step is handed by the transport.
  abbrev handed : ServerStep E → List ℕ
  handed (connects (inr opener)) = opener ∷ []
  handed (connects (inl e)) = []
  handed (opens_session index late) = []
  handed (closes_connection index) = []
  handed (ends_session id index) = []
  handed closes_server = []

  abbrev pub all_handed : List (ServerStep E) → List ℕ
  all_handed [] = []
  all_handed (step ∷ steps) = handed step ++ all_handed steps

  abbrev open_weight : ℕ → ServerConnection E → ℕ
  open_weight k c = if c.closed then 0 else (if c.opener == k then 1 else 0)

  -- How often the opener is that of a connection which is not closed.
  unfoldable pub open_count : ℕ → List (ServerConnection E) → ℕ
  open_count k [] = 0
  open_count k (c ∷ connections) = open_weight k c + open_count k connections

  open_count-append :
      (k : ℕ) (cs ds : List (ServerConnection E))
      → open_count k (cs ++ ds) ≡ open_count k cs + open_count k ds
  unfolding open_count
  open_count-append k [] ds = omega arith
  open_count-append k (c ∷ cs) ds = omega (arith, open_count-append k cs ds)

  module _ (close_session close_opener : ℕ → Option E) where
    -- A step, with the openers that it closes.
    unfoldable pub run_step : ServerStep E → Server E → Server E × List ℕ
    run_step (connects outcome) s = (finish_connect close_opener outcome s).0
    run_step (opens_session index late) s = ((finish_session index late s).0, [])
    run_step (closes_connection index) s =
        let (connections, gone) = close_at close_session close_opener index s.connections in
        (record s { connections = connections }, gone)
    run_step (ends_session id index) s =
        (record s { connections = remove_session_at id index s.connections }, [])
    run_step closes_server s = (close_server close_session close_opener s).0

    unfoldable pub run_steps : List (ServerStep E) → Server E → Server E × List ℕ
    run_steps [] s = (s, [])
    run_steps (step ∷ steps) s =
        let (t, gone) = run_step step s in
        let (u, others) = run_steps steps t in (u, gone ++ others)

    close_connection-weight :
        (k : ℕ) (c : ServerConnection E)
        → let (d, gone) = close_connection close_session close_opener c in
          (count k gone + open_weight k d ≡ open_weight k c) × (d.closed ≡ true)
    unfolding close_connection count
    close_connection-weight k c =
        if_both
          (λ (r : ServerConnection E × List ℕ).
            (count k r.1 + open_weight k r.0 ≡ open_weight k c) × (r.0.closed ≡ true))
          c.closed (λ e. (omega arith, e))
          (λ e.
            let q : open_weight k c ≡ (if c.opener == k then 1 else 0) =
              if_false 0 (if c.opener == k then 1 else 0) e in
            (omega (arith, q), refl))

    close_at-count :
        (k index : ℕ) (cs : List (ServerConnection E))
        → let (ds, gone) = close_at close_session close_opener index cs in
          count k gone + open_count k ds ≡ open_count k cs
    unfolding close_at open_count count
    close_at-count k index [] = omega arith
    close_at-count k zero (c ∷ cs) = let w = (close_connection-weight k c).0 in omega (arith, w)
    close_at-count k (suc index) (c ∷ cs) = let r = close_at-count k index cs in omega (arith, r)

    close_each-count :
        (k : ℕ) (cs : List (ServerConnection E))
        → let ((ds, gone), errs) = close_each close_session close_opener cs in
          (count k gone ≡ open_count k cs) × (open_count k ds ≡ 0)
    unfolding close_each open_count count
    close_each-count k [] = (refl, refl)
    close_each-count k (c ∷ cs) =
        let (w, d) = close_connection-weight k c in
        let (r, z) = close_each-count k cs in
        let (f, gone) = close_connection close_session close_opener c in
        let y : open_weight k f ≡ 0 = if_true 0 (if f.opener == k then 1 else 0) d in
        let others = (close_each close_session close_opener cs).0.1 in
        (omega (arith, w, r, y, count-append k gone others), omega (arith, y, z))

    add_session-weight :
        (k id : ℕ) (c : ServerConnection E) → open_weight k (add_session id c).0 ≡ open_weight k c
    add_session-weight k id c =
        if_both (λ (r : ServerConnection E × Bool). open_weight k r.0 ≡ open_weight k c) c.closed
          (λ _. refl) (λ _. refl)

    add_session_at-count :
        (k id index : ℕ) (cs : List (ServerConnection E))
        → open_count k (add_session_at id index cs).0 ≡ open_count k cs
    unfolding add_session_at open_count
    add_session_at-count k id index [] = refl
    add_session_at-count k id zero (c ∷ cs) =
        ap (λ n. n + open_count k cs) (add_session-weight k id c)
    add_session_at-count k id (suc index) (c ∷ cs) =
        ap (λ n. open_weight k c + n) (add_session_at-count k id index cs)

    remove_session_at-count :
        (k id index : ℕ) (cs : List (ServerConnection E))
        → open_count k (remove_session_at id index cs) ≡ open_count k cs
    unfolding remove_session_at open_count
    remove_session_at-count k id index [] = refl
    remove_session_at-count k id zero (c ∷ cs) = refl
    remove_session_at-count k id (suc index) (c ∷ cs) =
        ap (λ n. open_weight k c + n) (remove_session_at-count k id index cs)

    -- What a step keeps: each opener is that of an open connection or was closed, and a closed server
    -- has no open connection.
    record Settled (k : ℕ) (more : List ℕ) (s : Server E) (r : Server E × List ℕ) : Type 0 where
      balance :
          count k more + open_count k s.connections ≡ count k r.1 + open_count k r.0.connections
      shut : r.0.closed ≡ true → open_count k r.0.connections ≡ 0

    connect-Settled :
        (k : ℕ) (outcome : E ⊎ ℕ) (s : Server E)
        → (s.closed ≡ true → open_count k s.connections ≡ 0)
        → Settled k (handed (connects outcome)) s (finish_connect close_opener outcome s).0
    unfolding finish_connect count open_count
    connect-Settled k (inl e) s h = record { balance = refl; shut = h }
    connect-Settled k (inr opener) s h =
        if_both (λ (r : (Server E × List ℕ) × (ServerError E ⊎ ℕ)). Settled k (opener ∷ []) s r.0)
          s.closed (λ e. record { balance = refl; shut = h })
          (λ e. record {
            balance = omega (
              arith,
              open_count-append k s.connections
                  (new_connection ((s.next_connection + 1) % 2 ^ 64) opener ∷ []),
            );
            shut = λ f. let g : true ≡ false = sym f ∙ e in absurd cc;
          })

    close_server-Settled :
        (k : ℕ) (s : Server E)
        → (s.closed ≡ true → open_count k s.connections ≡ 0)
        → Settled k [] s (close_server close_session close_opener s).0
    unfolding close_server count
    close_server-Settled k s h =
        let (r, z) = close_each-count k s.connections in
        if_both (λ (r : (Server E × List ℕ) × List (ConnectionFailure E)). Settled k [] s r.0)
          s.closed (λ e. record { balance = refl; shut = h })
          (λ e. record { balance = omega (arith, r, z); shut = λ f. z })

    run_step-Settled :
        (k : ℕ) (step : ServerStep E) (s : Server E)
        → (s.closed ≡ true → open_count k s.connections ≡ 0)
        → Settled k (handed step) s (run_step step s)
    unfolding run_step finish_session count
    run_step-Settled k (connects outcome) s h = connect-Settled k outcome s h
    run_step-Settled k (opens_session index late) s h =
        let same = add_session_at-count k ((s.next_session + 1) % 2 ^ 64) index s.connections in
        record { balance = omega (arith, same); shut = λ f. same ∙ h f }
    run_step-Settled k (closes_connection index) s h =
        let r = close_at-count k index s.connections in
        record { balance = omega (arith, r); shut = λ f. let z = h f in omega (arith, r, z) }
    run_step-Settled k (ends_session id index) s h =
        let same = remove_session_at-count k id index s.connections in
        record { balance = omega (arith, same); shut = λ f. same ∙ h f }
    run_step-Settled k closes_server s h = close_server-Settled k s h

    run_steps-Settled :
        (k : ℕ) (steps : List (ServerStep E)) (s : Server E)
        → (s.closed ≡ true → open_count k s.connections ≡ 0)
        → Settled k (all_handed steps) s (run_steps steps s)
    unfolding run_steps count
    run_steps-Settled k [] s h = record { balance = refl; shut = h }
    run_steps-Settled k (step ∷ steps) s h =
        let a = run_step-Settled k step s h in
        let t = (run_step step s).0 in
        let gone = (run_step step s).1 in
        let b = run_steps-Settled k steps t a.shut in
        let others = (run_steps steps t).1 in
        record {
          balance = omega (
            arith,
            a.balance,
            b.balance,
            count-append k gone others,
            count-append k (handed step) (all_handed steps),
          );
          shut = b.shut;
        }

    closed_after : (s : Server E) → (run_step closes_server s).0.closed ≡ true
    unfolding run_step close_server
    closed_after s =
        if_both (λ (r : (Server E × List ℕ) × List (ConnectionFailure E)). r.0.0.closed ≡ true)
          s.closed (λ e. e) (λ e. refl)

    -- Whatever connections and sessions are opened and closed on a new server, also by calls whose
    -- transport answers only after `Close`: an opener was handed out as often as it was closed or is
    -- that of a connection which is still open; and after the server's `Close` it was closed just as
    -- often as it was handed out.
    pub openers_closed_once :
        (steps : List (ServerStep E)) (k : ℕ)
        → let (s, gone) = run_steps steps new_server in
          let (t, last) = run_step closes_server s in
          (count k (all_handed steps) ≡ count k gone + open_count k s.connections)
          × (count k (all_handed steps) ≡ count k (gone ++ last))
    unfolding open_count count
    openers_closed_once steps k =
        let a = run_steps-Settled k steps new_server (λ e. refl) in
        let s = (run_steps steps new_server).0 in
        let gone = (run_steps steps new_server).1 in
        let b = run_step-Settled k closes_server s a.shut in
        let last = (run_step closes_server s).1 in
        let z = b.shut (closed_after s) in
        (omega (arith, a.balance), omega (arith, a.balance, b.balance, z, count-append k gone last))
