-- ===== src/Controls/Held.antt =====
-- driver/control.go and driver/server.go: how long a control is the one of its session.
use tuicast.Prelude.{
  ℕ, ◌-◌, ◌≤◌, ◌<◌, ◌≡◌, refl, sym, ap, ◌∙◌, Bool, true, false, ◌&&◌, ◌||◌, not, Option, none, some,
  List, [], ◌∷◌, ◌==◌, if◌then◌else◌, inl, inr, arith, Bool-cases,
}
use tuicast.Controls.{
  SessionCalls, ControlError, SessionControl, SessionRecord, Registry, same_control, is_current,
  with_control, active, acquire_control, acquire_seen, grant, in_registry, control_send,
  control_press, control_wait_for, release_control, opened_on, close_session, remove_session,
  close_connection, close_server, control_released, open_connection, open_session, not_registered,
}
use tuicast.Controls.Steps.{
  ServerStep, acquires, releases, sends, strikes, waits, opens_connection, opens_session,
  closes_session, closes_connection, closes_server, has, step, steps, ends, ended,
}
use tuicast.Workbench.Consistency.{if_true, if_false}
use tuicast.Controls.Exclusive.{bit, bit-equal, release-leases, guarded-leases}

and_true : (a : Bool) → a ≡ a && true
and_true true = refl
and_true false = refl

taken_away : (a b m : Bool) → bit b ≡ bit a - bit m → b ≡ a && not m
taken_away a b m e = ground arith

module _ {S V X : Type 0} (same_session : S → S → Bool) (calls : SessionCalls S V X) where
  abbrev pub held : SessionControl S → Registry S V → Bool
  held c w = active same_session calls c w

  guarded-active :
      (b : Bool) (w : Registry S V) (r : V × Option X) (e : ControlError X) (c : SessionControl S)
      → held c (if b then in_registry same_session calls w r else (w, some e)).0 ≡ held c w && true
  guarded-active b w r e c =
      bit-equal _ _ (guarded-leases same_session calls b w r e c) ∙ and_true (held c w)

  release-active :
      (d c : SessionControl S) (w : Registry S V)
      → held c (release_control same_session calls d w) ≡ held c w && not (same_control d c)
  release-active d c w =
      taken_away (held c w) _ (same_control d c) (release-leases same_session calls d w c)

  acquire-active :
      (id : ℕ) (c : SessionControl S) (w : Registry S V)
      → c.number < w.next_control
      → held c (acquire_control same_session calls id w).0 ≡ held c w && true
  unfolding acquire_control active with_control same_control
  acquire-active id c w h = seen (w.sessions id)
    where
      given :
          (b : Bool) (r : SessionRecord S) (o : Option (SessionControl S))
          → w.controls id ≡ o
          → held c
              (if b
                then grant same_session calls id r.session o w
                else (w, inl (not_registered id))).0
            ≡ held c w && true
      given false r o e = and_true (held c w)
      given true r none e =
          let d : SessionControl S = record {
            number = w.next_control;
            id = id;
            session = r.session;
          } in
          elim (Bool-cases (c.id == id)) [
            | inl q ↦
                let p : c.id ≡ id = ground arith in
                let fresh : is_current (some d) c ≡ false = ground (arith, h) in
                ap (λ o. is_current o c) (if_true (some d) (w.controls c.id) q)
                ∙ fresh
                ∙ sym (ap (λ o. is_current o c && true) (ap w.controls p ∙ e))
            | inr q ↦
                ap (λ o. is_current o c) (if_false (some d) (w.controls c.id) q)
                ∙ and_true (held c w)
          ]
      given true r (some d) e = and_true (held c w)

      seen :
          (o : Option (SessionRecord S))
          → held c (acquire_seen same_session calls id o w).0 ≡ held c w && true
      seen none = and_true (held c w)
      seen (some r) = given _ r (w.controls id) refl

  session-active :
      (id : ℕ) (c : SessionControl S) (w : Registry S V)
      → held c (close_session id w) ≡ held c w && not (c.id == id && has (w.sessions id))
  unfolding close_session active with_control
  session-active id c w = removed (w.sessions id)
    where
      removed :
          (o : Option (SessionRecord S))
          → held c (remove_session id o w) ≡ held c w && not (c.id == id && has o)
      removed none = ground arith
      removed (some r) = ground arith

  connection-active :
      (connection : ℕ) (c : SessionControl S) (w : Registry S V)
      → held c (close_connection connection w)
        ≡ held c w && not (w.connections connection && opened_on connection (w.sessions c.id))
  unfolding close_connection active
  connection-active connection c w = ground arith

  server-active :
      (c : SessionControl S) (w : Registry S V)
      → held c (close_server w) ≡ held c w && not (not w.closed)
  unfolding close_server active
  server-active c w = ground arith

  acquire-next :
      (id : ℕ) (w : Registry S V)
      → w.next_control ≤ (acquire_control same_session calls id w).0.next_control
  unfolding acquire_control
  acquire-next id w = seen (w.sessions id)
    where
      granted :
          (s : S) (o : Option (SessionControl S))
          → w.next_control ≤ (grant same_session calls id s o w).0.next_control
      granted s none = omega arith
      granted s (some d) = omega arith

      seen :
          (o : Option (SessionRecord S))
          → w.next_control ≤ (acquire_seen same_session calls id o w).0.next_control
      seen none = omega arith
      seen (some r) = ground (arith, granted r.session (w.controls id))

  guarded-next :
      (b : Bool) (w : Registry S V) (r : V × Option X) (e : ControlError X)
      → w.next_control
        ≤ (if b then in_registry same_session calls w r else (w, some e)).0.next_control
  guarded-next true w (v, none) e = omega arith
  guarded-next true w (v, some x) e = omega arith
  guarded-next false w r e = omega arith

  session-next :
      (o : Option (SessionRecord S)) (id : ℕ) (w : Registry S V)
      → w.next_control ≤ (remove_session id o w).next_control
  session-next none id w = omega arith
  session-next (some r) id w = omega arith

  opened-active :
      (c : SessionControl S) (w : Registry S V) → held c (open_connection w) ≡ held c w && true
  unfolding open_connection active
  opened-active c w = ground arith

  entered-active :
      (connection : ℕ) (s : S) (c : SessionControl S) (w : Registry S V)
      → held c (open_session connection s w) ≡ held c w && true
  unfolding open_session active
  entered-active connection s c w = ground arith

  step-next :
      (s : ServerStep S) (w : Registry S V)
      → w.next_control ≤ (step same_session calls s w).next_control
  unfolding step control_send control_press control_wait_for release_control close_session
      close_connection close_server open_connection open_session
  step-next (acquires id) w = acquire-next id w
  step-next (releases d) w = ground arith
  step-next (sends d bytes) w =
      guarded-next (active same_session calls d w) w (calls.session_send d.session bytes w.outside)
        control_released
  step-next (strikes d key ms) w =
      guarded-next (active same_session calls d w) w
        (calls.session_press d.session key ms w.outside) control_released
  step-next (waits d timeout wanted) w =
      guarded-next (active same_session calls d w) w
        (calls.session_wait_for d.session timeout wanted w.outside) control_released
  step-next opens_connection w = ground arith
  step-next (opens_session connection s) w = ground arith
  step-next (closes_session id) w = session-next (w.sessions id) id w
  step-next (closes_connection connection) w = ground arith
  step-next closes_server w = ground arith

  step-active :
      (s : ServerStep S) (c : SessionControl S) (w : Registry S V)
      → c.number < w.next_control
      → held c (step same_session calls s w) ≡ held c w && not (ends same_session calls c s w)
  unfolding step ends control_send control_press control_wait_for
  step-active (acquires id) c w h = acquire-active id c w h
  step-active (releases d) c w h = release-active d c w
  step-active (sends d bytes) c w h =
      guarded-active (active same_session calls d w) w
        (calls.session_send d.session bytes w.outside) control_released c
  step-active (strikes d key ms) c w h =
      guarded-active (active same_session calls d w) w
        (calls.session_press d.session key ms w.outside) control_released c
  step-active (waits d timeout wanted) c w h =
      guarded-active (active same_session calls d w) w
        (calls.session_wait_for d.session timeout wanted w.outside) control_released c
  step-active opens_connection c w h = opened-active c w
  step-active (opens_session connection s) c w h = entered-active connection s c w
  step-active (closes_session id) c w h = session-active id c w
  step-active (closes_connection connection) c w h = connection-active connection c w
  step-active closes_server c w h = server-active c w

  and_not : (a e r : Bool) → (a && not e) && not r ≡ a && not (e || r)
  and_not a e r = ground arith

  pub steps-active :
      (run : List (ServerStep S)) (c : SessionControl S) (w : Registry S V)
      → c.number < w.next_control
      → held c (steps same_session calls run w) ≡ held c w && not (ended same_session calls c run w)
  unfolding steps ended
  steps-active [] c w h = and_true (held c w)
  steps-active (s ∷ rest) c w h =
      steps-active rest c (step same_session calls s w) (omega (arith, h, step-next s w))
      ∙ ap (λ b. b && not (ended same_session calls c rest (step same_session calls s w)))
          (step-active s c w h)
      ∙ and_not (held c w) (ends same_session calls c s w)
          (ended same_session calls c rest (step same_session calls s w))
