-- ===== src/Ansi/Valid/Resizing.antt =====
-- ansi/terminal.go: `New`, `Resize` and a caller's calls, under the invariant.
use tuicast.Prelude.{
  ℕ, zero, suc, ◌+◌, ◌*◌, ◌<◌, ◌≡◌, refl, ◌∙◌, Bool, true, false, ◌||◌, ◌&&◌, inl, inr, List, [],
  ◌∷◌, Option, some, none, if◌then◌else◌, length, arith, ◌==◌, ltb, not, length-replicate,
  length-copy_to, Bytes,
}
use mathlib.Core.Path.{subst}
use tuicast.Prelude.Int.{ℤ, pos, pos_part, leb_ℤ}
use tuicast.Screen.{Cell}
use tuicast.Ansi.State.{
  Profile, Terminal, ScreenBuffer, Active, on_main, on_alternate, is_nil, blank_cell, default_cell,
  new_terminal, copy_rows, resize_buffer, resize_to, resize, changed,
}
use tuicast.Ansi.Control.{Event, write, drain_events, set_answerback, all_printable}
use tuicast.Ansi.Valid.{IsValid, BufferOk, AlternateOk, if_both}
use tuicast.Ansi.Valid.Edits.{length-normalize}
use tuicast.Ansi.Valid.Controls.{write-IsValid}

-- A result behind a guard.
guarded :
    {A : Type 0} (b : Bool) {x y : A}
    → (if b then none else some x) ≡ some y
    → (b ≡ false) × (x ≡ y)
guarded true e = cc
guarded false e = (refl, cc)

positive :
    (w h : ℤ) → (leb_ℤ w (pos 0) || leb_ℤ h (pos 0)) ≡ false → (0 < pos_part w) × (0 < pos_part h)
positive w h e = ground arith

-- `New` makes a valid terminal.
pub new_terminal-IsValid :
    (width height : ℤ) (profile : Profile) {t : Terminal}
    → new_terminal width height profile ≡ some t
    → IsValid t
unfolding new_terminal
new_terminal-IsValid width height profile e =
    let (g, same) = guarded (leb_ℤ width (pos 0) || leb_ℤ height (pos 0)) e in
    let (w, h) = positive width height g in
    subst IsValid same (record {
      shape = record {
        wide = w;
        high = h;
        main_ok = record {
          sized = length-replicate (pos_part width * pos_part height) default_cell;
          column_in = w;
          row_in = h;
          saved_column_in = w;
          saved_row_in = h;
        };
        alternate_ok = inl refl;
        region = omega arith;
        region_in = omega arith;
        charset_in = omega arith;
      };
    })

length-copy_rows :
    (t : Terminal) (old : List Cell) (width row left : ℕ) (cells : List Cell)
    → length (copy_rows t old width row left cells) ≡ length cells
unfolding copy_rows
length-copy_rows t old width row zero cells = refl
length-copy_rows t old width row (suc left) cells =
    length-copy_rows t old width (row + 1) left _
    ∙ length-normalize _ _ _ width
    ∙ length-copy_to cells _ _

resize_buffer-Ok :
    (t : Terminal) (b : ScreenBuffer) (width height : ℕ)
    → 0 < width
    → 0 < height
    → BufferOk width height (resize_buffer t b width height)
unfolding resize_buffer
resize_buffer-Ok t b width height w h = record {
  sized = length-copy_rows t b.cells width 0 _ _ ∙ length-replicate (width * height) (blank_cell t);
  column_in = omega arith;
  row_in = omega arith;
  saved_column_in = omega arith;
  saved_row_in = omega arith;
}

nil_of : (cells : List Cell) → is_nil cells ≡ true → cells ≡ []
nil_of [] e = refl
nil_of (c ∷ cells) e = cc

length-nil : (cells : List Cell) → is_nil cells ≡ true → length cells ≡ 0
length-nil cells e = rw (nil_of cells e)

resize_alternate-Ok :
    (a : Active) (t : Terminal) (b : ScreenBuffer) (width height : ℕ)
    → 0 < width
    → 0 < height
    → 0 < t.width * t.height
    → AlternateOk a t.width t.height b
    → AlternateOk a width height (if is_nil b.cells then b else resize_buffer t b width height)
resize_alternate-Ok on_main t b width height w h n ok =
    if_both (AlternateOk on_main width height) (is_nil b.cells) (λ e. inl (nil_of b.cells e))
      (λ _. inr (resize_buffer-Ok t b width height w h))
resize_alternate-Ok on_alternate t b width height w h n ok =
    if_both (BufferOk width height) (is_nil b.cells)
      (λ e. absurd (omega (arith, ok.sized, length-nil b.cells e)))
      (λ _. resize_buffer-Ok t b width height w h)

resize_to-IsValid :
    (width height : ℕ) (t : Terminal)
    → 0 < width
    → 0 < height
    → IsValid t
    → IsValid (resize_to width height t)
unfolding resize_to changed
resize_to-IsValid width height t w h v = record {
  shape = record {
    wide = w;
    high = h;
    main_ok = resize_buffer-Ok t t.main width height w h;
    alternate_ok =
        resize_alternate-Ok t.active t t.alternate width height w h (grind (arith, v.wide, v.high))
          v.alternate_ok;
    region = omega arith;
    region_in = omega arith;
    charset_in = v.charset_in;
  };
}

pub resize-IsValid :
    (width height : ℤ) (t : Terminal) {t' : Terminal}
    → IsValid t
    → resize width height t ≡ some t'
    → IsValid t'
unfolding resize
resize-IsValid width height t v e =
    let (g, same) = guarded (leb_ℤ width (pos 0) || leb_ℤ height (pos 0)) e in
    let (w, h) = positive width height g in
    subst IsValid same (
      if_both IsValid (pos_part width == t.width && pos_part height == t.height) (λ _. v)
        (λ _. resize_to-IsValid (pos_part width) (pos_part height) t w h v))

abbrev or_else {ℓ} : {A : Type ℓ} → Option A → A → A
or_else none d = d
or_else (some a) d = a

or_else_both :
    {A : Type 0} (P : A → Type 0) (o : Option A) (d : A)
    → P d
    → ((a : A) → o ≡ some a → P a)
    → P (or_else o d)
or_else_both P none d h k = h
or_else_both P (some a) d h k = k a refl

-- What a caller can do to a terminal.
pub data Call : Type 0 where
  writes : List Event → Call
  resizes : ℤ → ℤ → Call
  drains : Call
  answers : Bytes → Call

module _ (string_width : ℕ → ℤ) where
  -- A call that returns an error leaves the terminal as it was.
  unfoldable pub call : Call → Terminal → Terminal
  call (writes es) t = write string_width es t
  call (resizes width height) t = or_else (resize width height t) t
  call drains t = (drain_events t).1
  call (answers text) t = or_else (set_answerback text t) t

  unfoldable pub calls : List Call → Terminal → Terminal
  calls [] t = t
  calls (c ∷ cs) t = calls cs (call c t)

  call-IsValid : (c : Call) (t : Terminal) → IsValid t → IsValid (call c t)
  unfolding call drain_events set_answerback
  call-IsValid (writes es) t v = write-IsValid string_width es t v
  call-IsValid (resizes width height) t v =
      or_else_both IsValid (resize width height t) t v (λ t' e. resize-IsValid width height t v e)
  call-IsValid drains t v = record { shape = v.shape }
  call-IsValid (answers text) t v = or_else_both IsValid (set_answerback text t) t v (λ t' e.
      subst IsValid (guarded (ltb 20 (length text) || not (all_printable text)) e).1
        (record { shape = v.shape }))

  pub calls-IsValid : (cs : List Call) (t : Terminal) → IsValid t → IsValid (calls cs t)
  unfolding calls
  calls-IsValid [] t v = v
  calls-IsValid (c ∷ cs) t v = calls-IsValid cs (call c t) (call-IsValid c t v)
