-- ===== src/Parsing.antt =====
-- parsing/parser.go: the parser that protects UTF-8 text inside control strings. The parser under
-- it, that of charmbracelet/x/ansi, is a parameter: its state after each byte.
pub mod Strings
mod Tests
use tuicast.Prelude.{
  ℕ, ◌-◌, Bool, true, false, ◌&&◌, not, Option, none, some, List, [], ◌∷◌, ltb, leb, ◌==◌,
  if◌then◌else◌, Bytes,
}

-- The states of the parser under it that the code tells apart.
pub data State : Type 0 where
  osc_string dcs_string sos_string pm_string apc_string other : State

abbrev pub string_placeholder : ℕ
string_placeholder = 0xfe

unfoldable pub in_string : State → Bool
in_string other = false
in_string _ = true

abbrev pub within : ℕ → ℕ → ℕ → Bool
within lo hi b = leb lo b && leb b hi

-- The second `switch` of `protectString`: the continuation bytes then expected; `none` is its
-- `default`.
unfoldable pub expected_after : ℕ → ℕ → Option ℕ
expected_after continuation b =
    if ltb 0 continuation && within 0x80 0xbf b
    then some (continuation - 1)
    else if within 0xc2 0xdf b
    then some 1
    else if within 0xe0 0xef b
    then some 2
    else if within 0xf0 0xf4 b
    then some 3
    else none

-- The byte that stands for one that belongs to a UTF-8 sequence.
unfoldable pub stand_in : State → ℕ → ℕ
stand_in osc_string b = if b == 0x9c then string_placeholder else b
stand_in dcs_string b = if b == 0x9c then string_placeholder else b
stand_in _ b = b'?'

-- The end of `protectString`: the byte to hand on, and `continuation`.
abbrev pub with_expected : State → ℕ → Option ℕ → ℕ × ℕ
with_expected state b none = (b, 0)
with_expected state b (some continuation) = (stand_in state b, continuation)

unfoldable pub protect_string : State → ℕ → ℕ → ℕ × ℕ
protect_string state continuation b =
    if not (in_string state) then (b, 0) else with_expected state b (expected_after continuation b)

-- `restorePlaceholders`
unfoldable pub restore_placeholders : Bytes → Bytes
restore_placeholders [] = []
restore_placeholders (b ∷ bytes) =
    (if b == string_placeholder then 0x9c else b) ∷ restore_placeholders bytes

module _ {P : Type 0} (state_of : P → State) (advance : ℕ → P → P) where
  -- One round of the loop of `Write`, on the parser under it and `continuation`.
  abbrev pub write_byte : ℕ → P × ℕ → P × ℕ
  write_byte b (p, continuation) =
      let (sent, continuation') = protect_string (state_of p) continuation b in
      (advance sent p, continuation')

  unfoldable pub write : Bytes → P × ℕ → P × ℕ
  write [] w = w
  write (b ∷ bytes) w = write bytes (write_byte b w)
