-- ===== src/Controls/Until.antt =====
-- driver/control.go and driver/server.go: until when a control that was granted is in force.
use tuicast.Prelude.{
  ℕ, ◌+◌, ◌≡◌, refl, sym, ap, ◌∙◌, Bool, true, false, ◌&&◌, ◌||◌, not, Option, none, some, List,
  ◌==◌, if◌then◌else◌, ◌⊎◌, inl, inr, arith, Bytes,
}
use tuicast.Keys.{Key, KeyModifier}
use tuicast.Controls.{
  SessionCalls, ControlError, SessionControl, SessionRecord, Registry, same_control, is_current,
  with_control, active, acquire_control, acquire_seen, grant, in_registry, control_send,
  control_press, control_wait_for, control_released, not_registered,
}
use tuicast.Controls.Steps.{ServerStep, steps, ended}
use tuicast.Workbench.Consistency.{if_true, if_false}
use tuicast.Controls.Held.{held, steps-active}

abbrev pub is_refused : {S X : Type 0} → ControlError X ⊎ SessionControl S → Bool
is_refused (inl e) = true
is_refused (inr c) = false

exclusive : {b r : Bool} (over : Bool) → (b ≡ true → r ≡ true) → b ≡ not over → over || r ≡ true
exclusive true f e = refl
exclusive false f e = f e

chosen :
    {A : Type 0} {b : Bool} (over : Bool) (x y : A)
    → b ≡ not over
    → (if b then x else y) ≡ (if over then y else x)
chosen true x y e = if_false x y e
chosen false x y e = if_true x y e

module _ {S V X : Type 0} (same_session : S → S → Bool) (calls : SessionCalls S V X) where
  -- What a call of `AcquireSessionControl` that grants a control leaves.
  record Granted (id : ℕ) (w v : Registry S V) (c : SessionControl S) : Type 0 where
    numbered : c.number ≡ w.next_control
    of_session : c.id ≡ id
    counted : v.next_control ≡ w.next_control + 1
    current : v.controls id ≡ some c

  acquire-Granted :
      (id : ℕ) (w v : Registry S V) (c : SessionControl S)
      → acquire_control same_session calls id w ≡ (v, inr c)
      → Granted id w v c
  unfolding acquire_control with_control
  acquire-Granted id w v c = seen (w.sessions id)
    where
      given :
          (b : Bool) (r : SessionRecord S) (o : Option (SessionControl S))
          → (if b then grant same_session calls id r.session o w else (w, inl (not_registered id)))
            ≡ (v, inr c)
          → Granted id w v c
      given false r o e = absurd cc
      given true r (some d) e = absurd cc
      given true r none e =
          let d : SessionControl S = record {
            number = w.next_control;
            id = id;
            session = r.session;
          } in
          let g : d ≡ c = cc in
          let n : v ≡ (grant same_session calls id r.session none w).0 = cc in
          let own : (id == id) ≡ true = ground arith in
          record {
            numbered = ap (λ (x : SessionControl S). x.number) (sym g);
            of_session = ap (λ (x : SessionControl S). x.id) (sym g);
            counted = ap (λ (x : Registry S V). x.next_control) n;
            current =
                ap (λ (x : Registry S V). x.controls id) n
                ∙ if_true (some d) (w.controls id) own
                ∙ ap some g;
          }

      seen :
          (o : Option (SessionRecord S))
          → acquire_seen same_session calls id o w ≡ (v, inr c)
          → Granted id w v c
      seen none e = absurd cc
      seen (some r) e = given _ r (w.controls id) e

  acquired-held :
      (id : ℕ) (w v : Registry S V) (c : SessionControl S)
      → Granted id w v c
      → held same_session calls c v ≡ true
  unfolding active same_control
  acquired-held id w v c g =
      let own : is_current (some c) c ≡ true = ground arith in
      ap (λ o. is_current o c) (ap v.controls g.of_session ∙ g.current) ∙ own

  -- No second control is granted of a session that has one.
  held-refused :
      (c : SessionControl S) (u : Registry S V)
      → held same_session calls c u ≡ true
      → is_refused (acquire_control same_session calls c.id u).1 ≡ true
  unfolding active acquire_control
  held-refused c u h = seen (u.sessions c.id)
    where
      given :
          (b : Bool) (r : SessionRecord S) (o : Option (SessionControl S))
          → is_current o c ≡ true
          → is_refused
              (if b
                then grant same_session calls c.id r.session o u
                else (u, inl (not_registered c.id))).1
            ≡ true
      given false r o e = refl
      given true r (some d) e = refl
      given true r none e = absurd cc

      seen :
          (o : Option (SessionRecord S))
          → is_refused (acquire_seen same_session calls c.id o u).1 ≡ true
      seen none = refl
      seen (some r) = given _ r (u.controls c.id) h

  -- Whatever the server and its clients do after a control is granted, it is the one of its session
  -- until its own release, the closing of the session, of the connection that the session was opened
  -- on, or of the server: until then its input and its waits go to the session and a second control
  -- is refused, and from then on they fail and change nothing, whoever has the session by then.
  pub control_held_until :
      (id : ℕ) (w v : Registry S V) (c : SessionControl S)
      → acquire_control same_session calls id w ≡ (v, inr c)
      → (run : List (ServerStep S)) (bytes : Bytes) (key : Key) (ms : List KeyModifier)
        (timeout : ℕ)
      → let u = steps same_session calls run v in
        let over = ended same_session calls c run v in
        let refused : Registry S V × Option (ControlError X) = (u, some control_released) in
        (active same_session calls c u ≡ not over)
        × (over || is_refused (acquire_control same_session calls id u).1 ≡ true)
        × (control_send same_session calls c bytes u ≡ (
            if over
            then refused
            else in_registry same_session calls u (calls.session_send c.session bytes u.outside)))
        × (control_press same_session calls c key ms u ≡ (
            if over
            then refused
            else in_registry same_session calls u (calls.session_press c.session key ms u.outside)))
        × (control_wait_for same_session calls c timeout bytes u ≡ (
            if over
            then refused
            else in_registry same_session calls u
                (calls.session_wait_for c.session timeout bytes u.outside)))
  unfolding control_send control_press control_wait_for
  control_held_until id w v c e run bytes key ms timeout =
      let g = acquire-Granted id w v c e in
      let u = steps same_session calls run v in
      let over = ended same_session calls c run v in
      let a : held same_session calls c u ≡ not over =
        steps-active same_session calls run c v (omega (arith, g.numbered, g.counted))
        ∙ ap (λ b. b && not over) (acquired-held id w v c g) in
      (
        a,
        exclusive over (rw (← g.of_session) (held-refused c u)) a,
        chosen over _ _ a,
        chosen over _ _ a,
        chosen over _ _ a,
      )
