-- ===== src/Controls/Exclusive.antt =====
-- driver/control.go: how the server accounts for its controls, as the Workbench relies on it.
use tuicast.Prelude.{
  ℕ, ◌+◌, ◌-◌, ◌≡◌, refl, sym, ap, ◌∙◌, Bool, true, false, Option, none, some, List, [], ◌==◌,
  if◌then◌else◌, inl, inr, arith, Bool-cases,
}
use tuicast.Controls.{
  SessionCalls, ControlError, SessionControl, SessionRecord, Registry, same_control, is_current,
  with_control, is_registered, active, grant, acquire_seen, acquire_control, in_registry,
  control_send, control_press, control_wait_for, release_control, control_driver, not_registered,
  control_released,
}
use tuicast.Workbench.Manager.{close_all}
use tuicast.Workbench.Leases.{Leases}
use tuicast.Workbench.Leases.Calls.{ManagerCall, manage_all, controls_given_back}
use tuicast.Workbench.Consistency.{if_true, if_false}

abbrev pub bit : Bool → ℕ
bit b = if b then 1 else 0

pub bit-equal : (a b : Bool) → bit a ≡ bit b → a ≡ b
bit-equal true true e = refl
bit-equal true false e = absurd cc
bit-equal false true e = absurd cc
bit-equal false false e = refl

module _ {S : Type 0} where
  -- Whether the control is the one that an entry of the map holds.
  abbrev cell : Option (SessionControl S) → SessionControl S → ℕ
  cell o k = if is_current o k then 1 else 0

  abbrev match_count : SessionControl S → SessionControl S → ℕ
  match_count h k = if same_control h k then 1 else 0

  cell-current :
      (o : Option (SessionControl S)) (h k : SessionControl S)
      → is_current o h ≡ true
      → cell o k ≡ match_count h k
  unfolding same_control
  cell-current none h k e = absurd cc
  cell-current (some d) h k e = ground arith

  cell-other :
      (o : Option (SessionControl S)) (h k : SessionControl S)
      → is_current o h ≡ false
      → cell o k ≡ cell o k - match_count h k
  unfolding same_control
  cell-other none h k e = ground arith
  cell-other (some d) h k e = ground arith

  same-id : (h k : SessionControl S) → (k.id == h.id) ≡ false → match_count h k ≡ 0
  unfolding same_control
  same-id h k e = ground arith

  id-equal : (h k : SessionControl S) → (k.id == h.id) ≡ true → k.id ≡ h.id
  id-equal h k e = ground arith

module _ {S V X : Type 0} (same_session : S → S → Bool) (calls : SessionCalls S V X) where
  abbrev pub leases : Registry S V → SessionControl S → ℕ
  leases w k = if active same_session calls k w then 1 else 0

  -- The registry's part of what a call returns is the one it was given.
  in_registry-leases :
      (w : Registry S V) (r : V × Option X) (k : SessionControl S)
      → leases (in_registry same_session calls w r).0 k ≡ leases w k
  unfolding active
  in_registry-leases w (v, none) k = refl
  in_registry-leases w (v, some x) k = refl

  pub guarded-leases :
      (b : Bool) (w : Registry S V) (r : V × Option X) (e : ControlError X) (k : SessionControl S)
      → leases (if b then in_registry same_session calls w r else (w, some e)).0 k ≡ leases w k
  guarded-leases true w r e k = in_registry-leases w r k
  guarded-leases false w r e k = refl

  -- The registry without the control of the session.
  abbrev taken : SessionControl S → Registry S V → Registry S V
  taken h w = record w { controls = with_control h.id none w.controls }

  pub release-leases :
      (h : SessionControl S) (w : Registry S V) (k : SessionControl S)
      → leases (release_control same_session calls h w) k
        ≡ leases w k - (if same_control h k then 1 else 0)
  unfolding release_control active with_control
  release-leases h w k = elim (Bool-cases (is_current (w.controls h.id) h)) [
    | inl e ↦ ap (λ v. leases v k) (if_true (taken h w) w e) ∙ elim (Bool-cases (k.id == h.id)) [
      | inl f ↦
          let p = id-equal h k f in
          let q = cell-current (w.controls h.id) h k e in
          let r : cell (w.controls k.id) k ≡ cell (w.controls h.id) k =
            ap (λ i. cell (w.controls i) k) p in
          let z : cell (w.controls k.id) k - match_count h k ≡ 0 = omega (arith, q, r) in
          ap (λ o. cell o k) (if_true none (w.controls k.id) f) ∙ sym z
      | inr f ↦
          let z : cell (w.controls k.id) k - match_count h k ≡ cell (w.controls k.id) k =
            omega (arith, same-id h k f) in
          ap (λ o. cell o k) (if_false none (w.controls k.id) f) ∙ sym z
    ]
    | inr e ↦ ap (λ v. leases v k) (if_false (taken h w) w e) ∙ elim (Bool-cases (k.id == h.id)) [
      | inl f ↦
          let p = id-equal h k f in
          let r : cell (w.controls k.id) k ≡ cell (w.controls h.id) k =
            ap (λ i. cell (w.controls i) k) p in
          omega (arith, cell-other (w.controls h.id) h k e, r)
      | inr f ↦ omega (arith, same-id h k f)
    ]
  ]

  grant-leases :
      (id : ℕ) (s : S) (o : Option (SessionControl S)) (w v : Registry S V) (h k : SessionControl S)
      → w.controls id ≡ o
      → grant same_session calls id s o w ≡ (v, inr h)
      → leases v k ≡ leases w k + (if same_control h k then 1 else 0)
  unfolding active with_control
  grant-leases id s none w v h k e f =
      let c : SessionControl S = record { number = w.next_control; id = id; session = s } in
      let u = (grant same_session calls id s none w).0 in
      let g : c ≡ h = cc in
      ap (λ x. leases x.0 k) (sym f) ∙ elim (Bool-cases (k.id == id)) [
        | inl q ↦
            let p : k.id ≡ id = id-equal c k q in
            let z : cell (w.controls k.id) k ≡ 0 =
              ap (λ i. cell (w.controls i) k) p ∙ ap (λ o. cell o k) e in
            let y : match_count h k ≡ cell (w.controls k.id) k + match_count h k =
              omega (arith, z) in
            ap (λ o. cell o k) (if_true (some c) (w.controls k.id) q)
            ∙ ap (λ d. match_count d k) g
            ∙ y
        | inr q ↦
            let z : match_count h k ≡ 0 = ap (λ d. match_count d k) (sym g) ∙ same-id c k q in
            let y : cell (w.controls k.id) k ≡ cell (w.controls k.id) k + match_count h k =
              omega (arith, z) in
            ap (λ o. cell o k) (if_false (some c) (w.controls k.id) q) ∙ y
      ]
  grant-leases id s (some c) w v h k e f = absurd cc

  pub seen-leases :
      (id : ℕ) (o : Option (SessionRecord S)) (w v : Registry S V) (h k : SessionControl S)
      → acquire_seen same_session calls id o w ≡ (v, inr h)
      → leases v k ≡ leases w k + (if same_control h k then 1 else 0)
  seen-leases id none w v h k e = absurd cc
  seen-leases id (some r) w v h k e =
      elim (Bool-cases (is_registered same_session calls (w.sessions id) r.session)) [
        | inl f ↦ grant-leases id r.session (w.controls id) w v h k refl (
            sym (
              if_true (grant same_session calls id r.session (w.controls id) w)
                (w, inl (not_registered id)) f)
            ∙ e)
        | inr f ↦
            let g =
              sym (
                if_false (grant same_session calls id r.session (w.controls id) w)
                  (w, inl (not_registered id)) f)
              ∙ e in
            absurd cc
      ]

  grant-refused :
      (id : ℕ) (s : S) (o : Option (SessionControl S)) (w v : Registry S V) (x : ControlError X)
      → grant same_session calls id s o w ≡ (v, inl x)
      → v ≡ w
  grant-refused id s none w v x e = absurd cc
  grant-refused id s (some c) w v x e = cc

  pub seen-refused :
      (id : ℕ) (o : Option (SessionRecord S)) (w v : Registry S V) (x : ControlError X)
      → acquire_seen same_session calls id o w ≡ (v, inl x)
      → v ≡ w
  seen-refused id none w v x e = cc
  seen-refused id (some r) w v x e =
      elim (Bool-cases (is_registered same_session calls (w.sessions id) r.session)) [
        | inl f ↦ grant-refused id r.session (w.controls id) w v x (
            sym (
              if_true (grant same_session calls id r.session (w.controls id) w)
                (w, inl (not_registered id)) f)
            ∙ e)
        | inr f ↦
            let g =
              sym (
                if_false (grant same_session calls id r.session (w.controls id) w)
                  (w, inl (not_registered id)) f)
              ∙ e in
            ap (λ r. r.0) (sym g)
      ]

  -- Under the calls that the Workbench makes, a control counts from the one that grants it to the
  -- first that releases it, whatever input is sent in between and whatever other controls do.
  pub control_driver-Leases : Leases (control_driver same_session calls) same_control leases
  unfolding acquire_control control_send control_press control_wait_for
  control_driver-Leases = record {
    acquired = λ id w v h k e. seen-leases id (w.sessions id) w v h k e;
    refused = λ id w v x k e. ap (λ u. leases u k) (seen-refused id (w.sessions id) w v x e);
    sent = λ h bytes w k.
        guarded-leases (active same_session calls h w) w
          (calls.session_send h.session bytes w.outside) control_released k;
    struck = λ h key ms w k.
        guarded-leases (active same_session calls h w) w
          (calls.session_press h.session key ms w.outside) control_released k;
    waited = λ h timeout wanted w k.
        guarded-leases (active same_session calls h w) w
          (calls.session_wait_for h.session timeout wanted w.outside) control_released k;
    given_back = release-leases;
  }

  -- A manager of recordings over the server's controls: after any calls of it and `Close`, the same
  -- controls are active as before.
  pub recordings_release :
      (manager_calls : List ManagerCall) (w : Registry S V)
      → let (m, v) = manage_all (control_driver same_session calls) manager_calls [] w in
        (k : SessionControl S)
        → active same_session calls k (close_all (control_driver same_session calls) m v).1
          ≡ active same_session calls k w
  recordings_release manager_calls w k =
      let (_, _, back, _) =
        controls_given_back (control_driver same_session calls) same_control leases
          control_driver-Leases manager_calls w in
      bit-equal _ _ (back k)
