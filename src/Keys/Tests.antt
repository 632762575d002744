-- ===== src/Keys/Tests.antt =====
-- Runs of the key encoding.
use tuicast.Prelude.{
  ℕ, ◌-◌, ◌<◌, ◌≡◌, ◌≢◌, ◌⊎◌, refl, Bool, true, false, none, some, List, [], ◌∷◌, length, arith,
  leb, ◌&&◌, if◌then◌else◌,
}
use tuicast.Keys.{characters, KeyPress}
use tuicast.Keys.Encode.{
  encode_key_press, encode_key, encode_named_key, sequence, encode_printable_key, control_character,
  control_of, application_sequence,
}
use tuicast.Keys.Laws.{
  modifiers_of, with_escape, encode_alt, encode_control, encode_control_letter, encode_key_fails,
}

-- `unicode.ToUpper` on ASCII, and the identity elsewhere.
abbrev ascii_upper : ℕ → ℕ
ascii_upper r = if leb b'a' r && leb r b'z' then r - 32 else r

abbrev text_press : ℕ → Bool → Bool → Bool → KeyPress
text_press r shift alt control = record {
  key = characters (r ∷ []);
  modifiers = modifiers_of shift alt control;
}

encode_alt_example :
    encode_key_press ascii_upper false (text_press b'q' true true false)
    ≡ with_escape (encode_key_press ascii_upper false (text_press b'q' true false false))
encode_alt_example = encode_alt ascii_upper false true false b'q'

control_c : encode_key_press ascii_upper false (text_press b'c' true false true) ≡ some (3 ∷ [])
unfolding encode_key_press encode_printable_key control_character control_of
control_c = refl

encode_control_example : (b : ℕ) × ((3 ∷ []) ≡ b ∷ []) × ((b < 0x20) ⊎ (b ≡ 0x7f))
encode_control_example = encode_control ascii_upper false true b'c' control_c

-- The upper-case letter, without Shift.
encode_control_letter_example :
    encode_key_press ascii_upper false (text_press b'C' false false true) ≡ some (3 ∷ [])
encode_control_letter_example =
    encode_control_letter ascii_upper (λ n h. (ground arith, ground arith)) false true false 2
      (omega arith)

two_characters_none : encode_key ascii_upper true (characters (b'a' ∷ b'b' ∷ [])) ≡ none
unfolding encode_key encode_key_press encode_named_key application_sequence sequence
two_characters_none = refl

encode_key_fails_example :
    (text : List ℕ) × (characters (b'a' ∷ b'b' ∷ []) ≡ characters text) × (length text ≢ 1)
encode_key_fails_example =
    encode_key_fails ascii_upper true (characters (b'a' ∷ b'b' ∷ [])) two_characters_none
