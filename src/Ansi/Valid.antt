-- ===== src/Ansi/Valid.antt =====
-- The terminal's invariant, and the rules by which an operation keeps it.
pub mod Edits
pub mod Prints
pub mod Modes
pub mod Controls
pub mod Resizing
pub mod Snapshots
use tuicast.Prelude.{
  ℕ, ◌*◌, ◌≤◌, ◌<◌, ◌-◌, ◌≡◌, refl, ◌⊎◌, inl, inr, Bool, true, false, List, [], if◌then◌else◌,
  length, arith, length-replicate, ◌∙◌,
}
use tuicast.Screen.{Cell, Cursor}
use tuicast.Ansi.State.{
  Terminal, ScreenBuffer, Active, on_main, on_alternate, changed, pick, active_buffer, put_active,
  put_cells, put_cursor, set_column, set_row, cells_of, cursor_of, cursor_changed,
}

-- A buffer that is in use: a full grid, and both cursors on it.
pub record BufferOk (width height : ℕ) (b : ScreenBuffer) : Type 0 where
  pub sized : length b.cells ≡ width * height
  pub column_in : b.cursor.column < width
  pub row_in : b.cursor.row < height
  pub saved_column_in : b.saved_cursor.column < width
  pub saved_row_in : b.saved_cursor.row < height

-- The alternate buffer is full where it is active, and else full or nil.
abbrev pub AlternateOk : Active → ℕ → ℕ → ScreenBuffer → Type 0
AlternateOk on_alternate width height b = BufferOk width height b
AlternateOk on_main width height b = (b.cells ≡ []) ⊎ BufferOk width height b

pub record Valid (width height : ℕ) (main alternate : ScreenBuffer) (active : Active)
    (top bottom charset : ℕ) : Type 0 where
  pub wide : 0 < width
  pub high : 0 < height
  pub main_ok : BufferOk width height main
  pub alternate_ok : AlternateOk active width height alternate
  pub region : top ≤ bottom
  pub region_in : bottom < height
  pub charset_in : charset ≤ 1

-- Full buffers, cursors on the screen, a scroll region on the screen, a charset that exists.
pub record IsValid (t : Terminal) : Type 0 where
  pub shape :
      Valid t.width t.height t.main t.alternate t.active t.scroll_top t.scroll_bottom t.charset
  pub open shape use *

-- To prove something of a conditional, prove it of both branches.
pub if_both {ℓ κ} :
    {A : Type ℓ} (P : A → Type κ) (b : Bool) {x y : A}
    → (b ≡ true → P x)
    → (b ≡ false → P y)
    → P (if b then x else y)
if_both P true h k = h refl
if_both P false h k = k refl

-- The same for what the pointer `active` decides.
pub pick_both {ℓ κ} :
    {A : Type ℓ} (P : A → Type κ) (a : Active) {x y : A}
    → (a ≡ on_main → P x)
    → (a ≡ on_alternate → P y)
    → P (pick a x y)
pick_both P on_main h k = h refl
pick_both P on_alternate h k = k refl

pick-Ok :
    (a : Active) {w h : ℕ} {m : ScreenBuffer} (b : ScreenBuffer)
    → BufferOk w h m
    → AlternateOk a w h b
    → BufferOk w h (pick a m b)
pick-Ok on_main b ok _ = ok
pick-Ok on_alternate b _ ok = ok

pub active-Ok : {t : Terminal} → IsValid t → BufferOk t.width t.height (active_buffer t)
active-Ok {t} v = pick-Ok t.active t.alternate v.main_ok v.alternate_ok

pick_main-Ok :
    (a : Active) {w h : ℕ} {m b : ScreenBuffer}
    → BufferOk w h b
    → BufferOk w h m
    → BufferOk w h (pick a b m)
pick_main-Ok on_main ok _ = ok
pick_main-Ok on_alternate _ ok = ok

pick_alternate-Ok :
    (a : Active) {w h : ℕ} (m : ScreenBuffer) {b : ScreenBuffer}
    → BufferOk w h b
    → AlternateOk a w h m
    → AlternateOk a w h (pick a m b)
pick_alternate-Ok on_main m _ ok = ok
pick_alternate-Ok on_alternate m ok _ = ok

pub put_active-IsValid :
    (b : ScreenBuffer) (t : Terminal)
    → IsValid t
    → BufferOk t.width t.height b
    → IsValid (put_active b t)
put_active-IsValid b t v ok = record {
  shape = record {
    wide = v.wide;
    high = v.high;
    main_ok = pick_main-Ok t.active ok v.main_ok;
    alternate_ok = pick_alternate-Ok t.active t.alternate ok v.alternate_ok;
    region = v.region;
    region_in = v.region_in;
    charset_in = v.charset_in;
  };
}

pub put_cells-IsValid :
    (cells : List Cell) (t : Terminal)
    → IsValid t
    → length cells ≡ length (cells_of t)
    → IsValid (put_cells cells t)
put_cells-IsValid cells t v e =
    let ok = active-Ok v in
    put_active-IsValid _ t v (record {
      sized = e ∙ ok.sized;
      column_in = ok.column_in;
      row_in = ok.row_in;
      saved_column_in = ok.saved_column_in;
      saved_row_in = ok.saved_row_in;
    })

pub put_cursor-IsValid :
    (c : Cursor) (t : Terminal)
    → IsValid t
    → c.column < t.width
    → c.row < t.height
    → IsValid (put_cursor c t)
put_cursor-IsValid c t v x y =
    let ok = active-Ok v in
    put_active-IsValid _ t v (record {
      sized = ok.sized;
      column_in = x;
      row_in = y;
      saved_column_in = ok.saved_column_in;
      saved_row_in = ok.saved_row_in;
    })

pub set_column-IsValid :
    (column : ℕ) (t : Terminal) → IsValid t → column < t.width → IsValid (set_column column t)
set_column-IsValid column t v h = put_cursor-IsValid _ t v h (active-Ok v).row_in

pub set_row-IsValid :
    (row : ℕ) (t : Terminal) → IsValid t → row < t.height → IsValid (set_row row t)
set_row-IsValid row t v h = put_cursor-IsValid _ t v (active-Ok v).column_in h

pub changed-IsValid : (t : Terminal) → IsValid t → IsValid (changed t)
unfolding changed
changed-IsValid t v = record { shape = v.shape }

pub cursor_changed-IsValid : (t : Terminal) → IsValid t → IsValid (cursor_changed t)
cursor_changed-IsValid t v =
    changed-IsValid (record t { wrap_pending = false }) (record { shape = v.shape })
