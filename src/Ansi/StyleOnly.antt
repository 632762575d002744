-- ===== src/Ansi/StyleOnly.antt =====
-- `setRendition` changes the style and reports events, and nothing else; its loop ends.
use tuicast.Prelude.{
  ℕ, zero, suc, ◌+◌, ◌≤◌, ◌<◌, ◌≡◌, refl, ◌∙◌, ap, Bool, true, false, List, if◌then◌else◌, length,
  arith, ltb, ltb→lt, Bool-cases, inl, inr,
}
use tuicast.Ansi.State.{Terminal}
use tuicast.Ansi.Describe.{Parameter, emit}
use tuicast.Ansi.Rendition.{
  at, apply_rendition, group_end, set_extended_color, rendition_at, rendition_loop, set_rendition,
  or_reset,
}
use tuicast.Ansi.Valid.{if_both}

-- `t` is `s` but for the style and the events.
abbrev pub StyleOnly : Terminal → Terminal → Type 0
StyleOnly s t = t ≡ record s { style = t.style; events = t.events }

apply_rendition-StyleOnly : (value : ℕ) (t : Terminal) → StyleOnly t (apply_rendition value t)
unfolding apply_rendition emit
apply_rendition-StyleOnly value t = ground arith

set_extended_color-StyleOnly :
    (parameters : List Parameter) (index : ℕ) (foreground : Bool) (t : Terminal)
    → StyleOnly t (set_extended_color parameters index foreground t).0
unfolding set_extended_color emit
set_extended_color-StyleOnly parameters index foreground t = ground arith

rendition_at-StyleOnly :
    (parameters : List Parameter) (index : ℕ) (t : Terminal)
    → StyleOnly t (rendition_at parameters index t).0
unfolding rendition_at
rendition_at-StyleOnly parameters index t = ground (
  arith,
  set_extended_color-StyleOnly parameters index true t,
  set_extended_color-StyleOnly parameters index false t,
  apply_rendition-StyleOnly
      (if (at parameters index).present then (at parameters index).value else 0) t,
)

StyleOnly-trans : (s t u : Terminal) → StyleOnly s t → StyleOnly t u → StyleOnly s u
StyleOnly-trans s t u p q =
    q ∙ ap (λ (x : Terminal). record x { style = u.style; events = u.events }) p

rendition_loop-StyleOnly :
    (fuel : ℕ) (parameters : List Parameter) (index : ℕ) (t : Terminal)
    → StyleOnly t (rendition_loop fuel parameters index t)
unfolding rendition_loop
rendition_loop-StyleOnly zero parameters index t = refl
rendition_loop-StyleOnly (suc fuel) parameters index t =
    if_both (StyleOnly t) (ltb index (length parameters))
      (λ _.
        StyleOnly-trans t (rendition_at parameters index t).0 _
          (rendition_at-StyleOnly parameters index t)
          (rendition_loop-StyleOnly fuel parameters _ _))
      (λ _. refl)

-- SGR never moves the cursor, edits a cell, or counts as a change of the screen: it changes the
-- style of what is printed next, and reports what it does not support.
pub set_rendition-StyleOnly :
    (parameters : List Parameter) (t : Terminal)
    → set_rendition parameters t ≡ record t {
      style = (set_rendition parameters t).style;
      events = (set_rendition parameters t).events;
    }
unfolding set_rendition
set_rendition-StyleOnly parameters t =
    rendition_loop-StyleOnly (length (or_reset parameters)) (or_reset parameters) 0 t

le-group_end :
    (parameters : List Parameter) (left index : ℕ) → index ≤ group_end parameters left index
unfolding group_end
le-group_end parameters zero index = omega arith
le-group_end parameters (suc left) index = ground (arith, le-group_end parameters left (index + 1))

le-set_extended_color :
    (parameters : List Parameter) (index : ℕ) (foreground : Bool) (t : Terminal)
    → index < length parameters
    → index ≤ (set_extended_color parameters index foreground t).1
unfolding set_extended_color
le-set_extended_color parameters index foreground t h =
    ground (arith, le-group_end parameters (length parameters) index)

le-rendition_at :
    (parameters : List Parameter) (index : ℕ) (t : Terminal)
    → index < length parameters
    → index ≤ (rendition_at parameters index t).1
unfolding rendition_at
le-rendition_at parameters index t h = ground (
  arith,
  le-set_extended_color parameters index true t h,
  le-set_extended_color parameters index false t h,
)

-- The loop of SGR, from an index and a terminal, comes to its end with the terminal `u`, by rounds
-- that each go on from the index which the one before left.
pub data Ends (parameters : List Parameter) : ℕ → Terminal → Terminal → Type 0 where
  stops : (index : ℕ) (t : Terminal) → length parameters ≤ index → Ends parameters index t t
  goes_on :
      (index : ℕ) (t u : Terminal)
      → index < length parameters
      → Ends parameters
          ((rendition_at parameters index t).1 + 1)
          (rendition_at parameters index t).0
          u
      → Ends parameters index t u

-- The loop of SGR ends by its own test, after finitely many rounds, with what the rounds made of the
-- terminal; as many rounds as there are parameters still to read are enough.
pub rendition_loop-Ends :
    (fuel : ℕ) (parameters : List Parameter) (index : ℕ) (t : Terminal)
    → length parameters ≤ index + fuel
    → Ends parameters index t (rendition_loop fuel parameters index t)
unfolding rendition_loop
rendition_loop-Ends zero parameters index t h = stops index t (omega (arith, h))
rendition_loop-Ends (suc fuel) parameters index t h =
    elim (Bool-cases (ltb index (length parameters))) [
      | inr e ↦ rw (e) (stops index t (ground arith))
      | inl e ↦ rw (e) (
          goes_on index t _ (ltb→lt _ _ e) (
            rendition_loop-Ends fuel parameters _ _
              (omega (arith, le-rendition_at parameters index t (ltb→lt _ _ e)))))
    ]
