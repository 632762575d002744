-- ===== src/Workbench.antt =====
-- workbench/recording.go: recordings of what is typed, pressed and asserted on a session, and the
-- manager that owns them. The control of a session that a driver grants is the interface `Driver`.
-- One operation is one step: each holds the lock of its recording throughout.
pub mod Manager
pub mod Modifiers
pub mod Replay
pub mod Trace
pub mod Roundtrip
pub mod Secrets
pub mod Consistency
pub mod Leases
mod Tests
use tuicast.Prelude.{
  ℕ, ◌/◌, Bool, true, false, ◌&&◌, ◌||◌, not, Option, none, some, List, [], ◌∷◌, ◌++◌, ◌==◌, ltb,
  leb, if◌then◌else◌, ◌⊎◌, inl, inr, Bytes,
}
use tuicast.Prelude.Int.{ℤ, pos, ltb_ℤ}
use tuicast.Screen.{Screen, text}
use tuicast.Matcher.{contains}
use tuicast.Keys.{Key, characters, KeyModifier, modifier_shift, modifier_alt, modifier_control}

-- What a driver grants for a session: handles `H`, in a world `W` that it acts on, with errors `E`.
-- `wait_for` is `WaitFor` with `ScreenContains`, under a timeout in milliseconds.
pub record Driver (H W E : Type 0) : Type 0 where
  pub acquire : ℕ → W → W × (E ⊎ H)
  pub send : H → Bytes → W → W × Option E
  pub press : H → Key → List KeyModifier → W → W × Option E
  pub wait_for : H → ℕ → Bytes → W → W × Option E
  pub screen : H → W → Screen
  pub release : H → W → W

-- The names of modifiers; `unknown_name m` is "Unknown(m)" and `other_name` any other string.
pub data ModifierName : Type 0 where
  shift_name alt_name meta_name control_name : ModifierName
  unknown_name : KeyModifier → ModifierName
  other_name : Bytes → ModifierName

pub data StepAction : Type 0 where
  waits_for_text types presses : StepAction
  other_action : Bytes → StepAction

-- The fields that Workbench sets.
pub record Step : Type 0 where
  pub action : StepAction
  pub text : Bytes
  pub parameter : Bytes
  pub key : Key
  pub modifiers : List ModifierName
  pub timeout_milliseconds : ℕ

pub record SessionInfo : Type 0 where
  pub id : ℕ
  pub terminal : Bytes
  pub width : ℤ
  pub height : ℤ

pub record Recording : Type 0 where
  pub version : Bytes
  pub session : SessionInfo
  pub steps : List Step

-- The errors; `nil_control` stands for the panic of a call on no control.
pub data Failure (E : Type 0) : Type 0 where
  text_required bad_parameter id_required session_required timeout_required not_shown nil_control :
      Failure E
  no_recording not_recording already_recording stop_first : ℕ → Failure E
  acquiring driving : E → Failure E
  parameter_required : Bytes → Failure E
  unknown_modifier : ModifierName → Failure E
  unsupported_action : Bytes → Failure E
  replaying : ℕ → Failure E → Failure E

-- `RecordingVersion`
abbrev pub recording_version : Bytes
recording_version = b'1' ∷ []

abbrev pub is_empty : {A : Type 0} → List A → Bool
is_empty [] = true
is_empty _ = false

abbrev pub is_parameter_character : ℕ → Bool
is_parameter_character c =
    (leb b'a' c && leb c b'z')
    || (leb b'A' c && leb c b'Z')
    || (leb b'0' c && leb c b'9')
    || c == b'_'
    || c == b'-'

abbrev pub all_parameter_characters : Bytes → Bool
all_parameter_characters [] = true
all_parameter_characters (c ∷ value) = is_parameter_character c && all_parameter_characters value

-- Over bytes: no byte of a longer character is in the ranges.
unfoldable pub valid_parameter : Bytes → Bool
valid_parameter value = all_parameter_characters value && not (is_empty value)

-- The zero value of `Step`, with an action.
abbrev pub plain_step : StepAction → Step
plain_step action = record {
  action = action;
  text = [];
  parameter = [];
  key = characters [];
  modifiers = [];
  timeout_milliseconds = 0;
}

unfoldable pub type_step : {E : Type 0} → Bytes → Bytes → Failure E ⊎ Step
type_step text parameter =
    if is_empty text
    then inl text_required
    else if is_empty parameter
    then inr (record (plain_step types) { text = text })
    else if not (valid_parameter parameter)
    then inl bad_parameter
    else inr (record (plain_step types) { parameter = parameter })

unfoldable pub name_of : KeyModifier → ModifierName
name_of m =
    if m == modifier_shift
    then shift_name
    else if m == modifier_alt
    then alt_name
    else if m == modifier_control
    then control_name
    else unknown_name m

-- Whether a name of `modifierNames` is that of a modifier.
abbrev pub is_seen : List KeyModifier → KeyModifier → Bool
is_seen [] m = false
is_seen (k ∷ seen) m = k == m || is_seen seen m

-- The loop of `modifierNames`. Its names are different for different modifiers, so that `seen` may
-- hold the modifiers.
unfoldable pub names_from : List KeyModifier → List KeyModifier → List ModifierName
names_from seen [] = []
names_from seen (m ∷ ms) =
    let skipped = names_from seen ms in
    let kept = names_from (m ∷ seen) ms in if is_seen seen m then skipped else name_of m ∷ kept

abbrev pub modifier_names : List KeyModifier → List ModifierName
modifier_names ms = names_from [] ms

unfoldable pub press_step : Key → List KeyModifier → Step
press_step key ms = record (plain_step presses) { key = key; modifiers = modifier_names ms }

-- `Duration.Milliseconds` of nanoseconds; a negative duration, which is refused as 0 is, gives 0.
abbrev pub milliseconds : ℤ → ℕ
milliseconds (pos n) = n / 1000000
milliseconds _ = 0

abbrev pub text_step : Bytes → ℕ → Step
text_step text timeout = record (plain_step waits_for_text) {
  text = text;
  timeout_milliseconds = timeout;
}
