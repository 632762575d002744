-- ===== src/Ansi/Rendition.antt =====
-- ansi/terminal.go: `setRendition` and `setExtendedColor`.
use Prim.Native.Nat.{bit_and, bit_or}
use tuicast.Prelude.{
  ℕ, zero, suc, ◌+◌, ◌-◌, min, Bool, true, false, ◌&&◌, ◌||◌, not, List, [], ◌∷◌, ◌++◌, ltb, leb,
  ◌==◌, if◌then◌else◌, length, get_or, Bytes,
}
use tuicast.Prelude.Int.{pos}
use tuicast.Screen.{Color, Attributes, default_color, bold, underline, blink, reverse, conceal}
use tuicast.Ansi.State.{Terminal, default_cell}
use tuicast.Ansi.Describe.{Parameter, codes, itoa, unsupported}

abbrev pub no_parameter : Parameter
no_parameter = record { value = 0; present = false; more = false }

-- `parameters[index]`, where the index is in range.
abbrev pub at : List Parameter → ℕ → Parameter
at parameters index = get_or parameters index no_parameter

-- `a &^ b`
abbrev pub and_not : ℕ → ℕ → ℕ
and_not a b = a - bit_and a b

abbrev pub add_attribute : Attributes → Terminal → Terminal
add_attribute bit t = record t {
  style = record (t.style) { attributes = bit_or t.style.attributes bit };
}

abbrev pub remove_attribute : Attributes → Terminal → Terminal
remove_attribute bit t = record t {
  style = record (t.style) { attributes = and_not t.style.attributes bit };
}

abbrev pub set_foreground : Color → Terminal → Terminal
set_foreground color t = record t { style = record (t.style) { foreground = color } }

abbrev pub set_background : Color → Terminal → Terminal
set_background color t = record t { style = record (t.style) { background = color } }

-- `CSI n m`, as an unsupported sequence.
abbrev pub sgr_name : ℕ → Bytes → Bytes
sgr_name value tail = codes "CSI " ++ (itoa value ++ tail)

-- The loop over the subparameters of the colon form; `left` bounds the rounds.
unfoldable pub group_end : List Parameter → ℕ → ℕ → ℕ
group_end parameters zero index = index
group_end parameters (suc left) index =
    let rest = group_end parameters left (index + 1) in
    if ltb index (length parameters - 1) && (at parameters index).more then rest else index

abbrev pub set_color : Bool → Color → Terminal → Terminal
set_color foreground color t = if foreground then set_foreground color t else set_background color t

-- `setExtendedColor`: the terminal and the index of the last parameter used.
unfoldable pub set_extended_color : List Parameter → ℕ → Bool → Terminal → Terminal × ℕ
set_extended_color parameters index foreground t =
    let selector = (at parameters index).value in
    if not t.xterm
    then (unsupported (sgr_name selector (codes " m")) t, index)
    else if ltb (index + 1) (length parameters) && (at parameters (index + 1)).value == 2
    then (
      unsupported (sgr_name selector (codes ";2 m")) t,
      (if (at parameters index).more
          then group_end parameters (length parameters) index
          else min (index + 4) (length parameters - 1)),
    )
    else if leb (length parameters) (index + 2)
        || not ((at parameters (index + 1)).value == 5)
        || not (at parameters (index + 2)).present
    then (t, index)
    else if ltb 255 (at parameters (index + 2)).value
    then (t, index + 2)
    else (set_color foreground (pos (at parameters (index + 2)).value) t, index + 2)

abbrev within : ℕ → ℕ → ℕ → Bool
within lo hi value = leb lo value && leb value hi

-- The cases of the `switch` of `setRendition` that use one parameter.
unfoldable pub apply_rendition : ℕ → Terminal → Terminal
apply_rendition value t =
    if value == 0
    then record t { style = default_cell }
    else if value == 1
    then add_attribute bold t
    else if value == 4
    then add_attribute underline t
    else if value == 5
    then add_attribute blink t
    else if value == 7
    then add_attribute reverse t
    else if value == 8
    then add_attribute conceal t
    else if value == 22
    then remove_attribute bold t
    else if value == 24
    then remove_attribute underline t
    else if value == 25
    then remove_attribute blink t
    else if value == 27
    then remove_attribute reverse t
    else if value == 28
    then remove_attribute conceal t
    else if within 30 37 value
    then set_foreground (pos (value - 30)) t
    else if value == 39
    then set_foreground default_color t
    else if within 40 47 value
    then set_background (pos (value - 40)) t
    else if value == 49
    then set_background default_color t
    else if t.xterm && within 90 97 value
    then set_foreground (pos (value - 90 + 8)) t
    else if t.xterm && within 100 107 value
    then set_background (pos (value - 100 + 8)) t
    else unsupported (sgr_name value (codes " m")) t

-- One round of the loop of `setRendition` at `index`: the terminal and the index it leaves.
unfoldable pub rendition_at : List Parameter → ℕ → Terminal → Terminal × ℕ
rendition_at parameters index t =
    let parameter = at parameters index in
    let value = if parameter.present then parameter.value else 0 in
    if value == 38
    then set_extended_color parameters index true t
    else if value == 48
    then set_extended_color parameters index false t
    else (apply_rendition value t, index)

-- The loop of `setRendition`. Each round leaves a larger index, so the number of parameters bounds
-- the rounds.
unfoldable pub rendition_loop : ℕ → List Parameter → ℕ → Terminal → Terminal
rendition_loop zero parameters index t = t
rendition_loop (suc fuel) parameters index t =
    let (t', index') = rendition_at parameters index t in
    let rest = rendition_loop fuel parameters (index' + 1) t' in
    if ltb index (length parameters) then rest else t

abbrev pub or_reset : List Parameter → List Parameter
or_reset [] = record { value = 0; present = true; more = false } ∷ []
or_reset (p ∷ ps) = p ∷ ps

unfoldable pub set_rendition : List Parameter → Terminal → Terminal
set_rendition parameters t = rendition_loop (length (or_reset parameters)) (or_reset parameters) 0 t
