-- ===== src/Ansi/Describe.antt =====
-- ansi/terminal.go: `describe` and `unsupported`, with what they use of Go's `strconv`, `fmt` and
-- `strings`; and the parser events of parsing/parser.go.
use Prim.Native.Char.{code}
use Prim.Native.String.{String}
use tuicast.Prelude.{
  ℕ, zero, suc, ◌+◌, ◌-◌, ◌/◌, ◌%◌, Bool, true, false, ◌&&◌, not, List, [], ◌∷◌, ◌++◌, ltb, leb,
  ◌==◌, if◌then◌else◌, Bytes,
}
use tuicast.Ansi.State.{Terminal, EventType}

-- The bytes of an ASCII literal.
abbrev pub codes : String → Bytes
codes String.[] = []
codes (String.◌∷◌ c s) = code c ∷ codes s

pub record Command : Type 0 where
  pub prefix : ℕ
  pub intermediate : ℕ
  pub final : ℕ

-- The parser library delivers values that are not negative.
pub record Parameter : Type 0 where
  pub value : ℕ
  pub present : Bool
  pub more : Bool

-- `strconv.Itoa`, which divides by ten until nothing is left; the value bounds the rounds.
unfoldable pub digits_of : ℕ → ℕ → Bytes → Bytes
digits_of zero n acc = acc
digits_of (suc fuel) n acc =
    let rest = digits_of fuel (n / 10) ((b'0' + n % 10) ∷ acc) in
    if n / 10 == 0 then (b'0' + n % 10) ∷ acc else rest

unfoldable pub itoa : ℕ → Bytes
itoa n = digits_of (suc n) n []

-- `%02X` of a byte
unfoldable pub hex_digit : ℕ → ℕ
hex_digit n = if ltb n 10 then b'0' + n else b'A' + (n - 10)

unfoldable pub hex_byte : ℕ → Bytes
hex_byte b = hex_digit (b / 16) ∷ hex_digit (b % 16) ∷ []

-- What follows a parameter: nothing behind the last.
abbrev pub separator : Parameter → List Parameter → Bytes
separator p [] = []
separator p (_ ∷ _) = (if p.more then b':' else b';') ∷ []

-- The loop of `describe` over the parameters.
unfoldable pub describe_parameters : List Parameter → Bytes
describe_parameters [] = []
describe_parameters (p ∷ ps) =
    (if p.present then itoa p.value else []) ++ (separator p ps ++ describe_parameters ps)

-- `description.WriteByte(' ')` and the byte
abbrev pub spaced : ℕ → Bytes
spaced b = b' ' ∷ b ∷ []

abbrev pub parameter_part : List Parameter → Bytes
parameter_part [] = []
parameter_part (p ∷ ps) = b' ' ∷ describe_parameters (p ∷ ps)

unfoldable pub describe : Bytes → Command → List Parameter → Bytes
describe introducer command parameters =
    introducer
    ++ ((if command.prefix == 0 then [] else spaced command.prefix)
        ++ (parameter_part parameters
            ++ ((if command.intermediate == 0 then [] else spaced command.intermediate)
                ++ spaced command.final)))

unfoldable pub emit : EventType → Bytes → Terminal → Terminal
emit kind text t = record t {
  events = t.events ++ record { sequence = 0; kind = kind; text = text } ∷ [];
}

abbrev pub unsupported : Bytes → Terminal → Terminal
unsupported sequence t = emit EventType.unsupported sequence t

abbrev within : ℕ → ℕ → ℕ → Bool
within lo hi b = leb lo b && leb b hi

-- Continuation bytes, as many as the number says, at the front of the text.
abbrev continues : ℕ → Bytes → Bool
continues zero bytes = true
continues (suc n) [] = false
continues (suc n) (b ∷ bytes) = within 0x80 0xbf b && continues n bytes

-- The second byte of a sequence, in the range that `first` allows, and `n` more.
abbrev second_in : ℕ → ℕ → ℕ → Bytes → Bool
second_in lo hi n [] = false
second_in lo hi n (b ∷ bytes) = within lo hi b && continues n bytes

-- How many bytes follow `first` in the UTF-8 sequence that it begins, if there is one, plus one;
-- 0 if there is none (`utf8.DecodeRune` reports width 1 and an error).
unfoldable pub sequence_size : ℕ → Bytes → ℕ
sequence_size first bytes =
    if ltb first 0x80
    then 1
    else if within 0xc2 0xdf first
    then (if continues 1 bytes then 2 else 0)
    else if first == 0xe0
    then (if second_in 0xa0 0xbf 1 bytes then 3 else 0)
    else if first == 0xed
    then (if second_in 0x80 0x9f 1 bytes then 3 else 0)
    else if within 0xe1 0xef first
    then (if continues 2 bytes then 3 else 0)
    else if first == 0xf0
    then (if second_in 0x90 0xbf 2 bytes then 4 else 0)
    else if within 0xf1 0xf3 first
    then (if continues 3 bytes then 4 else 0)
    else if first == 0xf4
    then (if second_in 0x80 0x8f 2 bytes then 4 else 0)
    else 0

-- U+FFFD in UTF-8
abbrev pub replacement : Bytes
replacement = 0xef ∷ 0xbf ∷ 0xbd ∷ []

-- `strings.ToValidUTF8`: each run of invalid bytes becomes one replacement. `copying` bytes belong
-- to the sequence begun; `bad` says that the byte before was invalid.
unfoldable pub to_valid : ℕ → Bool → Bytes → Bytes
to_valid copying bad [] = []
to_valid (suc copying) bad (b ∷ bytes) = b ∷ to_valid copying false bytes
to_valid zero bad (b ∷ bytes) =
    let size = sequence_size b bytes in
    let rest = to_valid (size - 1) (size == 0) bytes in
    if not (size == 0) then b ∷ rest else if bad then rest else replacement ++ rest

unfoldable pub to_valid_utf8 : Bytes → Bytes
to_valid_utf8 = to_valid 0 false
