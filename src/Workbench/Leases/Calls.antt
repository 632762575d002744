-- ===== src/Workbench/Leases/Calls.antt =====
-- workbench/recording.go: any sequence of the manager's calls, and the controls that it holds then.
use tuicast.Prelude.{
  ℕ, ◌+◌, ◌≡◌, ◌≢◌, refl, sym, ap, ◌∙◌, Bool, true, false, Option, none, some, List, [], ◌∷◌, Bytes,
  arith,
}
use tuicast.Prelude.Int.{ℤ}
use tuicast.Screen.{text}
use tuicast.Keys.{Key, KeyModifier}
use tuicast.Workbench.{Driver, Failure, SessionInfo, nil_control, type_step}
use tuicast.Workbench.Manager.{
  Manager, lookup, find_active, start, type_text, press_key, assert_text, stop, close_all, Result,
}
use tuicast.Workbench.Replay.{replay}
use tuicast.Workbench.Consistency.{AllConsistent, held, is_panic, find_active-Found}
use tuicast.Workbench.Leases.{
  Leases, Accounts, Fine, failure_of, same_count, type_with-Fine, press_on-Fine, assert_text-Fine,
  stop_on-Fine, start-Fine,
}
use tuicast.Workbench.Leases.Releases.{close_all-Accounts, replay_state-same, replay_state-quiet}

pub data ManagerCall : Type 0 where
  starts : SessionInfo → ManagerCall
  enters : ℕ → Bytes → Bytes → ManagerCall
  strikes : ℕ → Key → List KeyModifier → ManagerCall
  asserts : ℕ → Bytes → ℤ → ManagerCall
  stops : ℕ → ManagerCall
  replays : (Bytes → Option Bytes) → ℕ → ManagerCall
  closes : ManagerCall

-- A failure that is no panic.
panics : {E : Type 0} {o : Option (Failure E)} → is_panic o ≡ false → o ≡ some nil_control → ⊥
panics q e = let f : true ≡ false = ap is_panic (sym e) ∙ q in absurd cc

type_step-quiet :
    (E : Type 0) (words parameter : Bytes)
    → is_panic (failure_of (type_step {E = E} words parameter)) ≡ false
unfolding type_step
type_step-quiet E words parameter = ground arith

module _ {H W E : Type 0} (driver : Driver H W E) where
  unfoldable pub manage : ManagerCall → Manager H → W → (Manager H × W) × Option (Failure E)
  manage (starts info) m w = let (n, r) = start driver info m w in (n, failure_of r)
  manage (enters id text parameter) m w =
      let (n, r) = type_text driver id text parameter m w in (n, failure_of r)
  manage (strikes id key ms) m w = let (n, r) = press_key driver id key ms m w in (n, failure_of r)
  manage (asserts id wanted timeout) m w =
      let (n, r) = assert_text driver id wanted timeout m w in (n, failure_of r)
  manage (stops id) m w = let (n, r) = stop driver id m w in (n, failure_of r)
  manage (replays parameters id) m w = let (v, e) = replay driver parameters id m w in ((m, v), e)
  manage closes m w = (close_all driver m w, none)

  unfoldable pub manage_all : List ManagerCall → Manager H → W → Manager H × W
  manage_all [] m w = (m, w)
  manage_all (call ∷ calls) m w = let (n, v) = (manage call m w).0 in manage_all calls n v

  module _ (same : H → H → Bool) (leases : W → H → ℕ) (base : H → ℕ) where
    module _ (laws : Leases driver same leases) where
      -- What a call keeps, and how it fails.
      record Kept (r : (Manager H × W) × Option (Failure E)) : Type 0 where
        kept : Accounts driver same leases base r.0.0 r.0.1
        quiet : is_panic r.1 ≡ false

      Kept-Fine : (r : Result driver) → Fine driver same leases base r → Kept (r.0, failure_of r.1)
      Kept-Fine r f = record { kept = f.accounts; quiet = f.no_panic }

      manage-Kept :
          (call : ManagerCall) (m : Manager H) (w : W)
          → Accounts driver same leases base m w
          → Kept (manage call m w)
      unfolding manage type_text press_key stop replay
      manage-Kept (starts info) m w a =
          Kept-Fine (start driver info m w) (start-Fine driver same leases base laws info m w a)
      manage-Kept (enters id words parameter) m w a =
          Kept-Fine (type_text driver id words parameter m w) (
            type_with-Fine driver same leases base laws id words m w (type_step words parameter)
              (type_step-quiet E words parameter) a)
      manage-Kept (strikes id key ms) m w a = Kept-Fine (press_key driver id key ms m w) (
          press_on-Fine driver same leases base laws id key ms m w (find_active id m)
            (find_active-Found id m a.consistent) a)
      manage-Kept (asserts id wanted timeout) m w a =
          Kept-Fine (assert_text driver id wanted timeout m w)
            (assert_text-Fine driver same leases base laws id wanted timeout m w a)
      manage-Kept (stops id) m w a = Kept-Fine (stop driver id m w) (
          stop_on-Fine driver same leases base laws id m w (find_active id m)
            (find_active-Found id m a.consistent) a)
      manage-Kept (replays parameters id) m w a =
          let v = (replay driver parameters id m w).0 in
          record {
            kept =
                same_count driver same leases base laws m w v a
                  (λ k. replay_state-same driver same leases laws parameters id (lookup id m) w k);
            quiet = replay_state-quiet driver same leases laws parameters id (lookup id m) w;
          }
      manage-Kept closes m w a =
          let (c, l, z) =
            close_all-Accounts driver same leases laws m w base a.consistent a.balanced in
          record {
            kept = record { consistent = c; balanced = λ k. omega (arith, l k, z k) };
            quiet = refl;
          }

      manage_all-Accounts :
          (calls : List ManagerCall) (m : Manager H) (w : W)
          → Accounts driver same leases base m w
          → Accounts driver same leases base (manage_all calls m w).0 (manage_all calls m w).1
      unfolding manage_all
      manage_all-Accounts [] m w a = a
      manage_all-Accounts (call ∷ calls) m w a =
          let (n, v) = (manage call m w).0 in
          manage_all-Accounts calls n v (manage-Kept call m w a).kept

  module _ (same : H → H → Bool) (leases : W → H → ℕ) (laws : Leases driver same leases) where
    abbrev reached : List ManagerCall → W → Manager H × W
    reached calls w = manage_all calls [] w

    reached-Accounts :
        (calls : List ManagerCall) (w : W)
        → Accounts driver same leases (leases w) (reached calls w).0 (reached calls w).1
    unfolding held
    reached-Accounts calls w =
        manage_all-Accounts same leases (leases w) laws calls [] w
          (record { consistent = tt; balanced = λ k. omega arith })

    -- After any calls of a new manager, over a driver that accounts for its controls as `Leases` says:
    -- the driver has granted, beyond those of the start, just the controls that recordings hold, and a
    -- recording holds one while it is active and at no other time. `Close` then gives all of them
    -- back, and no call, whatever it does, runs into a control that is missing.
    pub controls_given_back :
        (calls : List ManagerCall) (w : W)
        → let (m, v) = manage_all calls [] w in
          AllConsistent m
          × ((k : H) → leases v k ≡ leases w k + held same k m)
          × ((k : H) → leases (close_all driver m v).1 k ≡ leases w k)
          × ((call : ManagerCall) → (manage call m v).1 ≢ some nil_control)
    controls_given_back calls w =
        let m = (reached calls w).0 in
        let v = (reached calls w).1 in
        let a = reached-Accounts calls w in
        (
          a.consistent,
          a.balanced,
          (close_all-Accounts driver same leases laws m v (leases w) a.consistent a.balanced).1,
          λ call e.
              let q = (manage-Kept same leases (leases w) laws call m v a).quiet in
              absurd (panics q e),
        )
