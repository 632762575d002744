-- ===== src/Keys/Laws.antt =====
-- What the key encoding promises.
use tuicast.Prelude.{
  ℕ, ◌+◌, ◌<◌, ◌≡◌, ◌≢◌, refl, Bool, true, false, Option, none, some, List, [], ◌∷◌, ◌⊎◌,
  if◌then◌else◌, length, Bytes, arith,
}
use tuicast.Keys.{
  Key, characters, KeyModifier, modifier_shift, modifier_alt, modifier_control, KeyPress,
}
use tuicast.Keys.Encode.{
  esc, control_of, control_character, encode_printable_key, encode_named_key, encode_key_press,
  encode_key, application_sequence, sequence, dispatch, has, alt_bytes, control_bytes,
}

abbrev pub modifiers_of : Bool → Bool → Bool → KeyModifier
modifiers_of shift alt control =
    (if shift then modifier_shift else 0)
    + ((if alt then modifier_alt else 0) + (if control then modifier_control else 0))

-- ESC in front of what a key sends, if it sends anything.
abbrev pub with_escape : Option Bytes → Option Bytes
with_escape none = none
with_escape (some bytes) = some (esc ∷ bytes)

abbrev ControlByte : ℕ → Type 0
ControlByte b = (b < 0x20) ⊎ (b ≡ 0x7f)

-- A byte that Control sends, behind the test for Alt.
control_bytes-range :
    (m : KeyModifier) (o : Option ℕ) {bytes : Bytes}
    → has m modifier_alt ≡ false
    → ((b : ℕ) → o ≡ some b → ControlByte b)
    → alt_bytes m (control_bytes o) ≡ some bytes
    → (b : ℕ) × (bytes ≡ b ∷ []) × ControlByte b
control_bytes-range m none off range e = cc
control_bytes-range m (some b) off range e = (b, ground arith, range b refl)

module _ (to_upper : ℕ → ℕ) where
  -- Alt, on a key of one character, puts an escape in front of what the key sends without it, and
  -- an error stays an error; whatever Shift and Control are.
  pub encode_alt :
      (application shift control : Bool) (r : ℕ)
      → encode_key_press to_upper application
          (record { key = characters (r ∷ []); modifiers = modifiers_of shift true control })
        ≡ with_escape (
            encode_key_press to_upper application
              (record { key = characters (r ∷ []); modifiers = modifiers_of shift false control }))
  unfolding encode_key_press encode_printable_key
  encode_alt application true true r = ground arith
  encode_alt application true false r = ground arith
  encode_alt application false true r = ground arith
  encode_alt application false false r = ground arith

  control_character_range :
      (r : ℕ) {b : ℕ} → control_character to_upper r ≡ some b → (b < 0x20) ⊎ (b ≡ 0x7f)
  unfolding control_character control_of
  control_character_range r e = ground arith

  -- Control, on a key of one character, sends a single byte, a C0 control or DEL, or is an error.
  pub encode_control :
      (application shift : Bool) (r : ℕ) {bytes : Bytes}
      → encode_key_press to_upper application
          (record { key = characters (r ∷ []); modifiers = modifiers_of shift false true })
        ≡ some bytes
      → (b : ℕ) × (bytes ≡ b ∷ []) × ((b < 0x20) ⊎ (b ≡ 0x7f))
  unfolding encode_key_press encode_printable_key
  encode_control application true r e =
      control_bytes-range 5 (control_character to_upper (to_upper r)) refl
        (λ b h. control_character_range (to_upper r) h) e
  encode_control application false r e =
      control_bytes-range 4 (control_character to_upper r) refl (λ b h. control_character_range r h)
        e

  -- Where `to_upper` is ASCII's on the letters of both cases, Control takes no notice of a letter's
  -- case or of Shift: it sends the letter's place in the alphabet, counted from 1.
  pub encode_control_letter :
      ((n : ℕ) → n < 26 → (to_upper (b'a' + n) ≡ b'A' + n) × (to_upper (b'A' + n) ≡ b'A' + n))
      → (application upper shift : Bool) (n : ℕ) → n < 26
      → encode_key_press to_upper application (record {
        key = characters ((if upper then b'A' + n else b'a' + n) ∷ []);
        modifiers = modifiers_of shift false true;
      })
        ≡ some ((n + 1) ∷ [])
  unfolding encode_key_press encode_printable_key control_character control_of
  encode_control_letter ascii application true true n h = ground (arith, ascii n h)
  encode_control_letter ascii application true false n h = ground (arith, ascii n h)
  encode_control_letter ascii application false true n h = ground (arith, ascii n h)
  encode_control_letter ascii application false false n h = ground (arith, ascii n h)

  -- Without modifiers each named key is encoded: only a text that is not one character is an
  -- error, and it is one in either cursor mode.
  pub encode_key_fails :
      (application : Bool) (key : Key)
      → encode_key to_upper application key ≡ none
      → (text : List ℕ) × (key ≡ characters text) × (length text ≢ 1)
  unfolding encode_key encode_key_press encode_named_key encode_printable_key application_sequence
      sequence
  encode_key_fails application (characters []) e = ([], refl, omega arith)
  encode_key_fails application (characters (r ∷ [])) e = absurd cc
  encode_key_fails application (characters (r ∷ x ∷ text)) e = (r ∷ x ∷ text, refl, omega arith)
  encode_key_fails application _ e = absurd (ground arith)

  encode_named_key_mode :
      (press : KeyPress)
      → (press.modifiers ≢ 0) ⊎ (application_sequence press.key ≡ none)
      → encode_named_key to_upper true press ≡ encode_named_key to_upper false press
  unfolding encode_named_key
  encode_named_key_mode press h = ground arith

  dispatch_mode :
      (press : KeyPress) (key : Key)
      → encode_named_key to_upper true press ≡ encode_named_key to_upper false press
      → dispatch to_upper true press key ≡ dispatch to_upper false press key
  dispatch_mode press (characters []) h = h
  dispatch_mode press (characters (r ∷ [])) h = refl
  dispatch_mode press (characters (r ∷ x ∷ text)) h = h
  dispatch_mode press _ h = h

  -- The cursor mode makes no difference to a key press that has modifiers or is no arrow key.
  encode_mode :
      (press : KeyPress)
      → (press.modifiers ≢ 0) ⊎ (application_sequence press.key ≡ none)
      → encode_key_press to_upper true press ≡ encode_key_press to_upper false press
  unfolding encode_key_press
  encode_mode press h = rw (dispatch_mode press press.key (encode_named_key_mode press h)) refl
