-- ===== src/Ansi/State.antt =====
-- ansi/terminal.go: the terminal's state, `New`, `Resize`, `Snapshot`, and the helpers that every
-- handler uses.
use tuicast.Prelude.{
  ℕ, zero, suc, ◌+◌, ◌-◌, ◌*◌, ◌%◌, ◌^◌, min, Bool, true, false, ◌&&◌, ◌||◌, Option, none, some,
  List, [], ◌∷◌, leb, ◌==◌, if◌then◌else◌, get_or, set, replicate, copy_to, slice, Bytes,
}
use tuicast.Prelude.Int.{ℤ, pos, pos_part, leb_ℤ}
use tuicast.Screen.{Cell, Cursor, Screen, default_color, zero_cell}

pub data Profile : Type 0 where
  vt220 xterm : Profile

pub data EventType : Type 0 where
  bell enquiry unsupported : EventType

-- `sequence` is assigned by the session; the terminal leaves it 0.
pub record TerminalEvent : Type 0 where
  pub sequence : ℕ
  pub kind : EventType
  pub text : Bytes

-- A nil `cells` slice is the empty list; a slice that was made holds `width * height` cells, and
-- both are positive.
pub record ScreenBuffer : Type 0 where
  pub cells : List Cell
  pub cursor : Cursor
  pub saved_cursor : Cursor

-- Which buffer the pointer `active` points to.
pub data Active : Type 0 where
  on_main on_alternate : Active

-- The parser is not here: it is the caller of the handlers. `charset_0` and `charset_1` are the
-- array `charsets`.
pub record Terminal : Type 0 where
  pub profile : Profile
  pub xterm : Bool
  pub width : ℕ
  pub height : ℕ
  pub main : ScreenBuffer
  pub alternate : ScreenBuffer
  pub active : Active
  pub style : Cell
  pub revision : ℕ
  pub wrap_pending : Bool
  pub auto_wrap : Bool
  pub application_cursor : Bool
  pub insert_mode : Bool
  pub scroll_top : ℕ
  pub scroll_bottom : ℕ
  pub charset_0 : Bool
  pub charset_1 : Bool
  pub charset : ℕ
  pub answerback : Bytes
  pub events : List TerminalEvent
  pub title : Bytes

abbrev pub zero_cursor : Cursor
zero_cursor = record { column = 0; row = 0; visible = false }

abbrev pub home : Bool → Cursor
home visible = record { column = 0; row = 0; visible = visible }

abbrev pub nil_buffer : ScreenBuffer
nil_buffer = record { cells = []; cursor = zero_cursor; saved_cursor = zero_cursor }

abbrev pub is_nil {ℓ} : {A : Type ℓ} → List A → Bool
is_nil [] = true
is_nil (_ ∷ _) = false

abbrev pub default_cell : Cell
default_cell = record {
  text = b' ' ∷ [];
  width = 1;
  foreground = default_color;
  background = default_color;
  attributes = 0;
}

abbrev pub blank_cell : Terminal → Cell
blank_cell t = record (t.style) { text = b' ' ∷ []; width = 1 }

abbrev pub blank_cells : Terminal → ℕ → List Cell
blank_cells t count = replicate count (blank_cell t)

-- `t.revision++` on a `uint64`
abbrev pub bump : ℕ → ℕ
bump revision = (revision + 1) % 2 ^ 64

unfoldable pub changed : Terminal → Terminal
changed t = record t { revision = bump t.revision }

abbrev pub pick {ℓ} : {A : Type ℓ} → Active → A → A → A
pick on_main a b = a
pick on_alternate a b = b

-- `*t.active`
abbrev pub active_buffer : Terminal → ScreenBuffer
active_buffer t = pick t.active t.main t.alternate

-- A write through the pointer `active`.
abbrev pub put_active : ScreenBuffer → Terminal → Terminal
put_active b t = record t { main = pick t.active b t.main; alternate = pick t.active t.alternate b }

abbrev pub put_cells : List Cell → Terminal → Terminal
put_cells cells t = put_active (record (active_buffer t) { cells = cells }) t

abbrev pub put_cursor : Cursor → Terminal → Terminal
put_cursor c t = put_active (record (active_buffer t) { cursor = c }) t

abbrev pub cells_of : Terminal → List Cell
cells_of t = (active_buffer t).cells

abbrev pub cursor_of : Terminal → Cursor
cursor_of t = (active_buffer t).cursor

abbrev pub set_column : ℕ → Terminal → Terminal
set_column column t = put_cursor (record (cursor_of t) { column = column }) t

abbrev pub set_row : ℕ → Terminal → Terminal
set_row row t = put_cursor (record (cursor_of t) { row = row }) t

abbrev pub cursor_changed : Terminal → Terminal
cursor_changed t = changed (record t { wrap_pending = false })

-- `profileSettings`; every value of `Profile` is known.
unfoldable pub is_xterm : Profile → Bool
is_xterm vt220 = false
is_xterm xterm = true

-- `New`; `none` is the error for dimensions that are not positive.
unfoldable pub new_terminal : ℤ → ℤ → Profile → Option Terminal
new_terminal width height profile =
    if leb_ℤ width (pos 0) || leb_ℤ height (pos 0)
    then none
    else some (record {
      profile = profile;
      xterm = is_xterm profile;
      width = pos_part width;
      height = pos_part height;
      main = record {
        cells = replicate (pos_part width * pos_part height) default_cell;
        cursor = home true;
        saved_cursor = zero_cursor;
      };
      alternate = nil_buffer;
      active = on_main;
      style = default_cell;
      revision = 0;
      wrap_pending = false;
      auto_wrap = true;
      application_cursor = false;
      insert_mode = false;
      scroll_top = 0;
      scroll_bottom = pos_part height - 1;
      charset_0 = false;
      charset_1 = false;
      charset = 0;
      answerback = [];
      events = [];
      title = [];
    })

-- What `normalizeCells` puts at `cells[column]` of a slice of `size` cells that starts at `base`.
unfoldable pub normal_cell : Cell → List Cell → ℕ → ℕ → ℕ → Cell
normal_cell blank cells base size column =
    let cell = get_or cells (base + column) zero_cell in
    if cell.width == 0
    then (if column == 0
        then blank
        else if (get_or cells (base + (column - 1)) zero_cell).width == 2
        then cell
        else blank)
    else if cell.width == 2
    then (if leb size (column + 1)
        then blank
        else if (get_or cells (base + (column + 1)) zero_cell).width == 0
        then cell
        else blank)
    else cell

-- The loop of `normalizeCells` from `column` on, for the columns that are left.
unfoldable pub normalize_from : Cell → List Cell → ℕ → ℕ → ℕ → ℕ → List Cell
normalize_from blank cells base size column zero = cells
normalize_from blank cells base size column (suc left) =
    normalize_from blank (set cells (base + column) (normal_cell blank cells base size column)) base
      size (column + 1) left

-- `normalizeCells(cells[base : base+size])`
unfoldable pub normalize : Cell → List Cell → ℕ → ℕ → List Cell
normalize blank cells base size = normalize_from blank cells base size 0 size

-- The loop of `resizeBuffer` over the rows that are kept, from `row` on.
unfoldable pub copy_rows : Terminal → List Cell → ℕ → ℕ → ℕ → List Cell → List Cell
copy_rows t old width row zero cells = cells
copy_rows t old width row (suc left) cells = copy_rows t old width (row + 1) left (
    normalize (blank_cell t)
      (copy_to cells (row * width) (slice old (row * t.width) (min width t.width))) (row * width)
      width)

abbrev pub clamp_cursor : ℕ → ℕ → Cursor → Cursor
clamp_cursor width height c = record c {
  column = min c.column (width - 1);
  row = min c.row (height - 1);
}

unfoldable pub resize_buffer : Terminal → ScreenBuffer → ℕ → ℕ → ScreenBuffer
resize_buffer t b width height = record {
  cells = copy_rows t b.cells width 0 (min height t.height) (blank_cells t (width * height));
  cursor = clamp_cursor width height b.cursor;
  saved_cursor = clamp_cursor width height b.saved_cursor;
}

-- `Resize`, once the dimensions are known to be positive and new.
unfoldable pub resize_to : ℕ → ℕ → Terminal → Terminal
resize_to width height t = changed (record t {
  main = resize_buffer t t.main width height;
  alternate =
      if is_nil t.alternate.cells then t.alternate else resize_buffer t t.alternate width height;
  width = width;
  height = height;
  scroll_top = 0;
  scroll_bottom = height - 1;
  wrap_pending = false;
})

-- `Resize`; `none` is the error for dimensions that are not positive.
unfoldable pub resize : ℤ → ℤ → Terminal → Option Terminal
resize width height t =
    if leb_ℤ width (pos 0) || leb_ℤ height (pos 0)
    then none
    else some (
        if pos_part width == t.width && pos_part height == t.height
        then t
        else resize_to (pos_part width) (pos_part height) t)

unfoldable pub snapshot : Terminal → Screen
snapshot t = record {
  width = t.width;
  height = t.height;
  cells = cells_of t;
  cursor = cursor_of t;
  revision = t.revision;
  title = t.title;
}
