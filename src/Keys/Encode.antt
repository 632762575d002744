-- ===== src/Keys/Encode.antt =====
-- ansi/terminal.go: `EncodeKey`, `EncodeKeyPress` and what they call. `to_upper` is
-- `unicode.ToUpper`, a table of the Unicode standard.
use Prim.Native.Nat.{bit_and}
use tuicast.Prelude.{
  ℕ, ◌+◌, ◌-◌, ◌/◌, ◌%◌, Bool, true, false, ◌&&◌, ◌||◌, not, Option, none, some, [], ◌∷◌, ◌++◌, ltb,
  leb, ◌==◌, if◌then◌else◌, Bytes,
}
use tuicast.Ansi.Describe.{codes, itoa}
use tuicast.Keys.{
  Key, enter, tab, backspace, escape, up, down, right, left, home, end, insert, delete, page_up,
  page_down, f1, f2, f3, f4, f5, f6, f7, f8, f9, f10, f11, f12, characters, KeyModifier,
  modifier_shift, modifier_alt, modifier_control, all_modifiers, and_not, KeyPress,
}

abbrev pub esc : ℕ
esc = 0x1b

-- `string(r)` of a code point: its UTF-8, or that of U+FFFD if it is none.
unfoldable pub utf8 : ℕ → Bytes
utf8 r =
    if ltb r 0x80
    then r ∷ []
    else if ltb r 0x800
    then (0xc0 + r / 0x40) ∷ (0x80 + r % 0x40) ∷ []
    else if leb 0xd800 r && leb r 0xdfff || ltb 0x10ffff r
    then 0xef ∷ 0xbf ∷ 0xbd ∷ []
    else if ltb r 0x10000
    then (0xe0 + r / 0x1000) ∷ (0x80 + r / 0x40 % 0x40) ∷ (0x80 + r % 0x40) ∷ []
    else (0xf0 + r / 0x40000)
      ∷ (0x80 + r / 0x1000 % 0x40)
      ∷ (0x80 + r / 0x40 % 0x40)
      ∷ (0x80 + r % 0x40)
      ∷ []

abbrev pub within : ℕ → ℕ → ℕ → Bool
within lo hi r = leb lo r && leb r hi

-- The `switch` of `controlCharacter`.
unfoldable pub control_of : ℕ → Option ℕ
control_of key =
    if key == b' ' || key == b'@'
    then some 0x00
    else if within b'A' b'Z' key
    then some (key - b'A' + 1)
    else if within b'[' b'_' key
    then some (key - b'[' + 0x1b)
    else if key == b'?'
    then some 0x7f
    else none

-- A modifier's bit is set.
abbrev pub has : KeyModifier → KeyModifier → Bool
has modifiers bit = not (bit_and modifiers bit == 0)

-- `applicationSequences`
unfoldable pub application_sequence : Key → Option Bytes
application_sequence up = some (esc ∷ codes "OA")
application_sequence down = some (esc ∷ codes "OB")
application_sequence right = some (esc ∷ codes "OC")
application_sequence left = some (esc ∷ codes "OD")
application_sequence _ = none

-- `sequences`
unfoldable pub sequence : Key → Option Bytes
sequence enter = some (0x0d ∷ [])
sequence tab = some (0x09 ∷ [])
sequence backspace = some (0x7f ∷ [])
sequence escape = some (esc ∷ [])
sequence up = some (esc ∷ codes "[A")
sequence down = some (esc ∷ codes "[B")
sequence right = some (esc ∷ codes "[C")
sequence left = some (esc ∷ codes "[D")
sequence home = some (esc ∷ codes "[H")
sequence end = some (esc ∷ codes "[F")
sequence insert = some (esc ∷ codes "[2~")
sequence delete = some (esc ∷ codes "[3~")
sequence page_up = some (esc ∷ codes "[5~")
sequence page_down = some (esc ∷ codes "[6~")
sequence f1 = some (esc ∷ codes "OP")
sequence f2 = some (esc ∷ codes "OQ")
sequence f3 = some (esc ∷ codes "OR")
sequence f4 = some (esc ∷ codes "OS")
sequence f5 = some (esc ∷ codes "[15~")
sequence f6 = some (esc ∷ codes "[17~")
sequence f7 = some (esc ∷ codes "[18~")
sequence f8 = some (esc ∷ codes "[19~")
sequence f9 = some (esc ∷ codes "[20~")
sequence f10 = some (esc ∷ codes "[21~")
sequence f11 = some (esc ∷ codes "[23~")
sequence f12 = some (esc ∷ codes "[24~")
sequence (characters _) = none

-- `finals`
unfoldable pub final_of : Key → Option ℕ
final_of up = some b'A'
final_of down = some b'B'
final_of right = some b'C'
final_of left = some b'D'
final_of home = some b'H'
final_of end = some b'F'
final_of f1 = some b'P'
final_of f2 = some b'Q'
final_of f3 = some b'R'
final_of f4 = some b'S'
final_of _ = none

-- `tildeCodes`
unfoldable pub tilde_code : Key → Option Bytes
tilde_code insert = some (codes "2")
tilde_code delete = some (codes "3")
tilde_code page_up = some (codes "5")
tilde_code page_down = some (codes "6")
tilde_code f5 = some (codes "15")
tilde_code f6 = some (codes "17")
tilde_code f7 = some (codes "18")
tilde_code f8 = some (codes "19")
tilde_code f9 = some (codes "20")
tilde_code f10 = some (codes "21")
tilde_code f11 = some (codes "23")
tilde_code f12 = some (codes "24")
tilde_code _ = none

-- The base of Enter, Backspace and Escape.
unfoldable pub base_of : Key → Option Bytes
base_of enter = some (0x0d ∷ [])
base_of backspace = some (0x7f ∷ [])
base_of escape = some (esc ∷ [])
base_of _ = none

unfoldable pub is_tab : Key → Bool
is_tab tab = true
is_tab _ = false

-- The end of `modifiedNamedKey`, for a key with a base.
unfoldable pub prefixed : KeyModifier → Option Bytes → Option Bytes
prefixed modifiers none = none
prefixed modifiers (some base) =
    if and_not modifiers 3 == 0
    then some (if has modifiers modifier_alt then esc ∷ base else base)
    else none

abbrev pub or_else : Option Bytes → Option Bytes → Option Bytes
or_else (some b) o = some b
or_else none o = o

abbrev with_final : ℕ → Option ℕ → Option Bytes
with_final modifier none = none
with_final modifier (some final) = some (esc ∷ (codes "[1;" ++ (itoa modifier ++ final ∷ [])))

abbrev with_tilde : ℕ → Option Bytes → Option Bytes
with_tilde modifier none = none
with_tilde modifier (some code) =
    some (esc ∷ b'[' ∷ (code ++ (b';' ∷ (itoa modifier ++ b'~' ∷ []))))

-- `modifiedNamedKey`; the modifier is `1 + int(press.Modifiers)`.
unfoldable pub modified_named_key : KeyPress → Option Bytes
modified_named_key press =
    let modifier = 1 + press.modifiers in
    or_else (with_final modifier (final_of press.key)) (
      or_else (with_tilde modifier (tilde_code press.key)) (
        if is_tab press.key && press.modifiers == modifier_shift
        then some (esc ∷ codes "[Z")
        else prefixed press.modifiers (base_of press.key)))

abbrev pub control_bytes : Option ℕ → Option Bytes
control_bytes none = none
control_bytes (some b) = some (b ∷ [])

abbrev pub alt_bytes : KeyModifier → Option Bytes → Option Bytes
alt_bytes modifiers none = none
alt_bytes modifiers (some b) = some (if has modifiers modifier_alt then esc ∷ b else b)

module _ (to_upper : ℕ → ℕ) where
  -- `controlCharacter`
  unfoldable pub control_character : ℕ → Option ℕ
  control_character key = control_of (if within b'a' b'z' key then to_upper key else key)

  -- `press.Modifiers&ModifierShift != 0`, on the key's code point
  abbrev pub shifted : KeyModifier → ℕ → ℕ
  shifted modifiers r = if has modifiers modifier_shift then to_upper r else r

  -- `encodePrintableKey`, for the key's code point.
  unfoldable pub encode_printable_key : ℕ → KeyModifier → Option Bytes
  encode_printable_key r modifiers =
      let key = shifted modifiers r in
      alt_bytes modifiers (
        if has modifiers modifier_control
        then control_bytes (control_character key)
        else some (utf8 key))

  -- `EncodeKeyPress` behind the test for a printable key.
  unfoldable pub encode_named_key : Bool → KeyPress → Option Bytes
  encode_named_key application press =
      if not (press.modifiers == 0)
      then modified_named_key press
      else or_else (if application then application_sequence press.key else none)
          (sequence press.key)

  -- The key's code point, if it is one character.
  abbrev pub dispatch : Bool → KeyPress → Key → Option Bytes
  dispatch application press (characters (r ∷ [])) = encode_printable_key r press.modifiers
  dispatch application press _ = encode_named_key application press

  -- `EncodeKeyPress`; the flag is `applicationCursor`, and `none` is an error.
  unfoldable pub encode_key_press : Bool → KeyPress → Option Bytes
  encode_key_press application press =
      if not (and_not press.modifiers all_modifiers == 0)
      then none
      else dispatch application press press.key

  -- `EncodeKey`
  unfoldable pub encode_key : Bool → Key → Option Bytes
  encode_key application key = encode_key_press application (record { key = key; modifiers = 0 })
