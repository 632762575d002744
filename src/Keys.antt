-- ===== src/Keys.antt =====
-- key.go, and the key encoding of ansi/terminal.go.
pub mod Encode
pub mod Laws
mod Tests
use Prim.Native.Nat.{bit_and, bit_or}
use tuicast.Prelude.{
  ℕ, ◌-◌, Bool, true, false, ◌||◌, not, Option, none, some, List, [], ◌∷◌, ◌==◌, if◌then◌else◌,
}

-- The named keys, and any other text. A `Key` is a string in the source; no name has the length of
-- one character, so `characters` stands for the strings that are no name.
pub data Key : Type 0 where
  enter tab backspace escape up down right left home end insert delete page_up page_down : Key
  f1 f2 f3 f4 f5 f6 f7 f8 f9 f10 f11 f12 : Key
  characters : List ℕ → Key

-- The bits of a `uint8`.
abbrev pub KeyModifier : Type 0
KeyModifier = ℕ

abbrev pub modifier_shift : KeyModifier
modifier_shift = 1

abbrev pub modifier_alt : KeyModifier
modifier_alt = 2

abbrev pub modifier_control : KeyModifier
modifier_control = 4

-- `ModifierShift|ModifierAlt|ModifierControl`
abbrev pub all_modifiers : KeyModifier
all_modifiers = 7

-- `a &^ b`
abbrev pub and_not : ℕ → ℕ → ℕ
and_not a b = a - bit_and a b

pub record KeyPress : Type 0 where
  pub key : Key
  pub modifiers : KeyModifier

-- The loop of `NewKeyPress`.
unfoldable pub combine : KeyModifier → List KeyModifier → Option KeyModifier
combine combined [] = some combined
combine combined (m ∷ ms) =
    let rest = combine (bit_or combined m) ms in
    if m == 0 || not (and_not m all_modifiers == 0) then none else rest

abbrev press_of : Key → Option KeyModifier → Option KeyPress
press_of key none = none
press_of key (some m) = some (record { key = key; modifiers = m })

-- `NewKeyPress`; `none` is the error.
unfoldable pub new_key_press : Key → List KeyModifier → Option KeyPress
new_key_press key modifiers = press_of key (combine 0 modifiers)
