-- ===== src/Parsing/Tests.antt =====
-- Runs of the parser model, over a parser that knows nothing but whether an OSC string goes on.
use tuicast.Prelude.{ℕ, ◌≡◌, ◌||◌, refl, Bool, List, [], ◌∷◌, if◌then◌else◌, ltb, ◌==◌, inl, arith}
use tuicast.Parsing.{
  State, osc_string, other, write, protect_string, in_string, expected_after, stand_in,
}
use tuicast.Parsing.Strings.{StringsGoOn, Passes, utf8_text, write-utf8_text-Passes}

-- A control character ends a string, and so does the byte 0x9C.
abbrev ends : ℕ → Bool
ends b = ltb b 0x20 || b == 0x9c

abbrev next : ℕ → State → State
next b q = if ends b then other else q

abbrev same_state : State → State
same_state q = q

next-goes_on : StringsGoOn same_state next
next-goes_on p b d lo ne = ground arith

-- `a`, and U+071C, whose second byte is 0x9C.
abbrev title : List ℕ
title = b'a' ∷ 0x71c ∷ []

write-utf8_text-Passes_example : Passes same_state next (utf8_text title) 0 0 osc_string
write-utf8_text-Passes_example =
    write-utf8_text-Passes same_state next next-goes_on title osc_string (inl refl)
      (omega arith, (omega arith, tt))

-- Unprotected, the text ends the string.
unprotected : next 0x9c osc_string ≡ other
unprotected = refl

protected : (write same_state next (b'a' ∷ 0xdc ∷ 0x9c ∷ []) (osc_string, 0)).0 ≡ osc_string
unfolding write protect_string in_string expected_after stand_in
protected = refl
