-- ===== src/Workbench/Tests.antt =====
-- Runs of the workbench, over a driver with one session.
use tuicast.Prelude.{
  ℕ, ◌+◌, ◌-◌, ◌≡◌, ◌≢◌, refl, Bool, true, false, Option, none, some, List, [], ◌∷◌, ◌⊎◌, inl, inr,
  Bytes, ◌++◌, if◌then◌else◌, arith, ap, sym,
}
use tuicast.Prelude.Int.{pos}
use tuicast.Ansi.State.{snapshot}
use tuicast.Ansi.Tests.{small}
use tuicast.Keys.{Key}
use tuicast.Workbench.{
  Driver, Failure, SessionInfo, Recording, Step, plain_step, types, presses, shift_name, alt_name,
  recording_version, nil_control, modifier_names,
}
use tuicast.Workbench.Manager.{Manager, start, stop, type_text, close_all}
use tuicast.Workbench.Modifiers.{parse_modifiers, parse-modifier_names, singles, distinct}
use tuicast.Workbench.Replay.{replay, released}
use tuicast.Workbench.Trace.{Input, entered, struck, shown, perform_all, record_all, AllReplayable}
use tuicast.Workbench.Roundtrip.{replay_repeats}
use tuicast.Workbench.Secrets.{secrets_hidden}
use tuicast.Workbench.Consistency.{AllConsistent, held}
use tuicast.Workbench.Leases.{Leases}
use tuicast.Workbench.Leases.Calls.{
  ManagerCall, starts, enters, manage, manage_all, controls_given_back,
}

-- The world is whether the session is controlled, and what was sent. The second control of a
-- session is refused.
abbrev Line : Type 0
Line = Bool × Bytes

abbrev grant : Line → Line × (ℕ ⊎ Bool)
grant (true, sent) = ((true, sent), inl 1)
grant (false, sent) = ((true, sent), inr true)

abbrev line_driver : Driver Bool Line ℕ
line_driver = record {
  acquire = λ id w. grant w;
  send = λ h bytes w. ((w.0, w.1 ++ bytes), none);
  press = λ h key ms w. ((w.0, w.1 ++ ms), none);
  wait_for = λ h timeout wanted w. (w, none);
  screen = λ h w. snapshot small;
  release = λ h w. ((if h then false else w.0), w.1);
}

abbrev same_handle : Bool → Bool → Bool
same_handle true true = true
same_handle false false = true
same_handle _ _ = false

abbrev granted : Line → Bool → ℕ
granted w true = if w.0 then 1 else 0
granted w false = 0

same_granted : (w v : Line) (k : Bool) → v.0 ≡ w.0 → granted v k ≡ granted w k
same_granted w v true e = ap (λ b. if b then 1 else 0) e
same_granted w v false e = refl

grant-granted :
    (w v : Line) (h k : Bool)
    → grant w ≡ (v, inr h)
    → granted v k ≡ granted w k + (if same_handle h k then 1 else 0)
grant-granted (true, sent) v h k e = absurd cc
grant-granted (false, sent) v true true e = ap (λ r. granted r.0 true) (sym e)
grant-granted (false, sent) v true false e = refl
grant-granted (false, sent) v false k e = absurd cc

refused-granted : (w v : Line) (e : ℕ) (k : Bool) → grant w ≡ (v, inl e) → granted v k ≡ granted w k
refused-granted (true, sent) v e k f = same_granted (true, sent) v k (ap (λ r. r.0.0) (sym f))
refused-granted (false, sent) v e k f = absurd cc

release-granted :
    (h : Bool) (w : Line) (k : Bool)
    → granted (line_driver.release h w) k ≡ granted w k - (if same_handle h k then 1 else 0)
release-granted true (b, sent) true = ground arith
release-granted true w false = refl
release-granted false w true = ground arith
release-granted false w false = refl

line_driver-Leases : Leases line_driver same_handle granted
line_driver-Leases = record {
  acquired = λ id w v h k e. grant-granted w v h k e;
  refused = λ id w v e k f. refused-granted w v e k f;
  sent = λ h bytes w k. same_granted w (line_driver.send h bytes w).0 k refl;
  struck = λ h key ms w k. same_granted w (line_driver.press h key ms w).0 k refl;
  waited = λ h timeout wanted w k. refl;
  given_back = release-granted;
}

abbrev info : SessionInfo
info = record { id = 7; terminal = b'x' ∷ []; width = pos 4; height = pos 3 }

abbrev idle_line : Line
idle_line = (false, [])

abbrev inputs : List Input
inputs =
    entered (b'u' ∷ []) []
    ∷ entered (b's' ∷ []) (b'p' ∷ [])
    ∷ struck Key.enter (1 ∷ 2 ∷ 1 ∷ [])
    ∷ []

abbrev values : Bytes → Option Bytes
values name = some (b's' ∷ [])

abbrev recorded_run : (Manager Bool × Line) × List Input
recorded_run =
    let (m, w) = (start line_driver info [] idle_line).0 in record_all line_driver 7 inputs m w

replay_repeats_example :
    replay line_driver values 7 (stop line_driver 7 recorded_run.0.0 recorded_run.0.1).0.0 idle_line
    ≡ released line_driver true (perform_all line_driver true 1 recorded_run.1 (true, []))
unfolding start record_all type_text tuicast.Workbench.Manager.press_key
    tuicast.Workbench.Trace.IsReplayable tuicast.Workbench.type_step
    tuicast.Workbench.valid_parameter tuicast.Workbench.Manager.find_active
    tuicast.Workbench.Manager.store
replay_repeats_example =
    replay_repeats line_driver info inputs [] idle_line
      (record { version = recording_version; session = info; steps = [] }) refl values
      (inl refl, (inr refl, (refl, tt))) idle_line (true, []) true refl

abbrev opened : Manager Bool × Line
opened = (start line_driver info [] idle_line).0

-- With one step, that has the parameter `p`.
abbrev with_secret : Recording
with_secret = record {
  version = recording_version;
  session = info;
  steps = record (plain_step types) { parameter = b'p' ∷ [] } ∷ [];
}

secrets_hidden_example : with_secret ≡ with_secret
unfolding start type_text tuicast.Workbench.type_step tuicast.Workbench.valid_parameter
    tuicast.Workbench.Manager.find_active tuicast.Workbench.Manager.store
secrets_hidden_example =
    secrets_hidden line_driver 7 opened.0 opened.1 (b's' ∷ []) (b't' ∷ []) (b'p' ∷ []) with_secret
      with_secret refl refl refl

abbrev calls : List ManagerCall
calls = starts info ∷ enters 7 (b'u' ∷ []) [] ∷ starts info ∷ []

controls_given_back_example :
    let (m, v) = manage_all line_driver calls [] idle_line in
    AllConsistent m
    × ((k : Bool) → granted v k ≡ granted idle_line k + held same_handle k m)
    × ((k : Bool) → granted (close_all line_driver m v).1 k ≡ granted idle_line k)
    × ((call : ManagerCall) → (manage line_driver call m v).1 ≢ some nil_control)
controls_given_back_example =
    controls_given_back line_driver same_handle granted line_driver-Leases calls idle_line

abbrev NoError : Type 0
NoError = Unit

-- Shift, and Shift with Alt.
parse-modifier_names_example :
    parse_modifiers {E = NoError} (modifier_names (1 ∷ 3 ∷ [])) ≡ singles (distinct (1 ∷ 3 ∷ []))
parse-modifier_names_example = parse-modifier_names (1 ∷ 3 ∷ [])
