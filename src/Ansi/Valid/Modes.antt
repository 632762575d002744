-- ===== src/Ansi/Valid/Modes.antt =====
-- Reset, the modes and the alternate screen keep the invariant.
use tuicast.Prelude.{
  ℕ, ◌*◌, ◌≡◌, refl, Bool, true, ◌||◌, not, ◌⊎◌, inl, inr, List, [], ◌∷◌, arith, ◌==◌,
  length-replicate, Bytes,
}
use tuicast.Ansi.State.{
  Terminal, ScreenBuffer, Active, on_main, on_alternate, changed, is_nil, blank_cell, blank_cells,
  home, zero_cursor, default_cell, EventType,
}
use tuicast.Ansi.Describe.{Command, Parameter, emit}
use tuicast.Ansi.Modes.{
  reset, switch_to_alternate, clear_alternate, enter_alternate, exit_alternate, save_and_enter,
  exit_and_restore, set_xterm_private_mode, set_visible, set_private_mode, set_private_modes,
  set_mode, set_modes, ignored_private_mode, xterm_mode,
}
use tuicast.Ansi.Valid.{IsValid, Valid, BufferOk, AlternateOk, if_both, pick_both, changed-IsValid}

pub emit-IsValid :
    (kind : EventType) (text : Bytes) (t : Terminal) → IsValid t → IsValid (emit kind text t)
unfolding emit
emit-IsValid kind text t v = record { shape = v.shape }

-- A fresh buffer: `n` cells, the cursor at home.
fresh-Ok :
    (t : Terminal) (visible : Bool)
    → IsValid t
    → BufferOk t.width t.height (record {
      cells = blank_cells t (t.width * t.height);
      cursor = home visible;
      saved_cursor = zero_cursor;
    })
fresh-Ok t visible v = record {
  sized = length-replicate (t.width * t.height) (blank_cell t);
  column_in = v.wide;
  row_in = v.high;
  saved_column_in = v.wide;
  saved_row_in = v.high;
}

pub reset-IsValid : (t : Terminal) → IsValid t → IsValid (reset t)
unfolding reset changed
reset-IsValid t v = record {
  shape = record {
    wide = v.wide;
    high = v.high;
    main_ok = record {
      sized = length-replicate (t.width * t.height) default_cell;
      column_in = v.wide;
      row_in = v.high;
      saved_column_in = v.wide;
      saved_row_in = v.high;
    };
    alternate_ok = inl refl;
    region = omega arith;
    region_in = omega (arith, v.high);
    charset_in = omega arith;
  };
}

-- A terminal with other buffers.
with_buffers :
    (t : Terminal) (main alternate : ScreenBuffer) (active : Active)
    → IsValid t
    → BufferOk t.width t.height main
    → AlternateOk active t.width t.height alternate
    → Valid t.width t.height main alternate active t.scroll_top t.scroll_bottom t.charset
with_buffers t main alternate active v m a = record {
  wide = v.wide;
  high = v.high;
  main_ok = m;
  alternate_ok = a;
  region = v.region;
  region_in = v.region_in;
  charset_in = v.charset_in;
}

-- The alternate buffer, seen from either side.
Alternate-use :
    (a : Active) {w h : ℕ} (b : ScreenBuffer)
    → AlternateOk a w h b
    → (is_nil b.cells ≡ true) ⊎ BufferOk w h b
Alternate-use on_main b (inl e) = inl (rw e)
Alternate-use on_main b (inr ok) = inr ok
Alternate-use on_alternate b ok = inr ok

Alternate-main :
    (a : Active) {w h : ℕ} (b : ScreenBuffer) → AlternateOk a w h b → AlternateOk on_main w h b
Alternate-main on_main b ok = ok
Alternate-main on_alternate b ok = inr ok

switch_to_alternate-IsValid :
    (clear : Bool) (t : Terminal) → IsValid t → IsValid (switch_to_alternate clear t)
unfolding switch_to_alternate changed
switch_to_alternate-IsValid clear t v = record {
  shape = with_buffers t t.main _ on_alternate v v.main_ok (
      if_both (BufferOk t.width t.height) (is_nil t.alternate.cells || clear)
        (λ _. fresh-Ok t t.main.cursor.visible v)
        (λ e. elim (Alternate-use t.active t.alternate v.alternate_ok) [
          | inl nil ↦ absurd (ground arith)
          | inr ok ↦ ok
        ]));
}

clear_alternate-IsValid :
    (clear : Bool) (t : Terminal)
    → t.active ≡ on_alternate
    → IsValid t
    → IsValid (clear_alternate clear t)
unfolding clear_alternate
clear_alternate-IsValid clear t e v =
    if_both IsValid clear
      (λ _. record {
        shape =
            with_buffers t t.main (cleared t.alternate) t.active v v.main_ok
              (rw e (fresh_in (rw e at v.alternate_ok)));
      })
      (λ _. v)
  where
    cleared : ScreenBuffer → ScreenBuffer
    cleared b = record b { cells = blank_cells t (t.width * t.height); cursor = home true }

    fresh_in :
        {b : ScreenBuffer} → BufferOk t.width t.height b → BufferOk t.width t.height (cleared b)
    fresh_in ok = record {
      sized = length-replicate (t.width * t.height) (blank_cell t);
      column_in = v.wide;
      row_in = v.high;
      saved_column_in = ok.saved_column_in;
      saved_row_in = ok.saved_row_in;
    }

enter_alternate-IsValid :
    (clear : Bool) (t : Terminal) → IsValid t → IsValid (enter_alternate clear t)
unfolding enter_alternate
enter_alternate-IsValid clear t v =
    pick_both IsValid t.active (λ _. switch_to_alternate-IsValid clear t v)
      (λ e. clear_alternate-IsValid clear t e v)

exit_alternate-IsValid : (t : Terminal) → IsValid t → IsValid (exit_alternate t)
unfolding exit_alternate
exit_alternate-IsValid t v =
    pick_both IsValid t.active (λ _. v)
      (λ _. changed-IsValid _ (record {
        shape =
            with_buffers t t.main t.alternate on_main v v.main_ok
              (Alternate-main t.active t.alternate v.alternate_ok);
      }))

-- Another main buffer.
with_main :
    (t : Terminal) (main : ScreenBuffer)
    → IsValid t
    → BufferOk t.width t.height main
    → IsValid (record t { main = main })
with_main t main v ok = record {
  shape = with_buffers t main t.alternate t.active v ok v.alternate_ok;
}

save_and_enter-IsValid : (t : Terminal) → IsValid t → IsValid (save_and_enter t)
unfolding save_and_enter
save_and_enter-IsValid t v =
    let ok = v.main_ok in
    enter_alternate-IsValid true _ (
      with_main t _ v (record {
        sized = ok.sized;
        column_in = ok.column_in;
        row_in = ok.row_in;
        saved_column_in = ok.column_in;
        saved_row_in = ok.row_in;
      }))

exit_and_restore-IsValid : (t : Terminal) → IsValid t → IsValid (exit_and_restore t)
unfolding exit_and_restore
exit_and_restore-IsValid t v =
    let v' = exit_alternate-IsValid t v in
    let ok = v'.main_ok in
    with_main (exit_alternate t) _ v' (record {
      sized = ok.sized;
      column_in = ok.saved_column_in;
      row_in = ok.saved_row_in;
      saved_column_in = ok.saved_column_in;
      saved_row_in = ok.saved_row_in;
    })

set_xterm_private_mode-IsValid :
    (mode : ℕ) (enabled : Bool) (t : Terminal)
    → IsValid t
    → IsValid (set_xterm_private_mode mode enabled t)
unfolding set_xterm_private_mode
set_xterm_private_mode-IsValid mode enabled t v =
    if_both IsValid (mode == 47 || mode == 1047)
      (λ _.
        if_both IsValid enabled (λ _. enter_alternate-IsValid _ t v)
          (λ _. exit_alternate-IsValid t v))
      (λ _.
        if_both IsValid (mode == 1049)
          (λ _.
            if_both IsValid enabled (λ _. save_and_enter-IsValid t v)
              (λ _. exit_and_restore-IsValid t v))
          (λ _. v))

-- A change of the cursor's visibility alone.
visible-Ok :
    {w h : ℕ} (b : ScreenBuffer) (visible : Bool)
    → BufferOk w h b
    → BufferOk w h (record b { cursor = record (b.cursor) { visible = visible } })
visible-Ok b visible ok = record {
  sized = ok.sized;
  column_in = ok.column_in;
  row_in = ok.row_in;
  saved_column_in = ok.saved_column_in;
  saved_row_in = ok.saved_row_in;
}

visible-AlternateOk :
    (a : Active) (w h : ℕ) (b : ScreenBuffer) (visible : Bool)
    → AlternateOk a w h b
    → AlternateOk a w h (record b { cursor = record (b.cursor) { visible = visible } })
visible-AlternateOk on_main w h b visible (inl e) = inl e
visible-AlternateOk on_main w h b visible (inr ok) = inr (visible-Ok b visible ok)
visible-AlternateOk on_alternate w h b visible ok = visible-Ok b visible ok

set_visible-IsValid : (enabled : Bool) (t : Terminal) → IsValid t → IsValid (set_visible enabled t)
unfolding set_visible changed
set_visible-IsValid enabled t v = record {
  shape = with_buffers t _ _ t.active v (visible-Ok t.main enabled v.main_ok) (
      if_both (AlternateOk t.active t.width t.height) (is_nil t.alternate.cells)
        (λ _. v.alternate_ok)
        (λ _. visible-AlternateOk t.active t.width t.height t.alternate enabled v.alternate_ok));
}

set_private_mode-IsValid :
    (command : Command) (p : Parameter) (t : Terminal)
    → IsValid t
    → IsValid (set_private_mode command p t)
unfolding set_private_mode
set_private_mode-IsValid command p t v =
    if_both IsValid (not p.present) (λ _. v)
      (λ _.
        if_both IsValid (p.value == 1) (λ _. record { shape = v.shape })
          (λ _.
            if_both IsValid (p.value == 7) (λ _. record { shape = v.shape })
              (λ _.
                if_both IsValid (p.value == 25) (λ _. set_visible-IsValid _ t v)
                  (λ _.
                    if_both IsValid (ignored_private_mode p.value) (λ _. v)
                      (λ _.
                        if_both IsValid (not t.xterm || not (xterm_mode p.value))
                          (λ _. emit-IsValid _ _ t v)
                          (λ _. set_xterm_private_mode-IsValid p.value _ t v))))))

pub set_private_modes-IsValid :
    (command : Command) (ps : List Parameter) (t : Terminal)
    → IsValid t
    → IsValid (set_private_modes command ps t)
unfolding set_private_modes
set_private_modes-IsValid command [] t v = v
set_private_modes-IsValid command (p ∷ ps) t v =
    set_private_modes-IsValid command ps (set_private_mode command p t)
      (set_private_mode-IsValid command p t v)

set_mode-IsValid :
    (command : Command) (p : Parameter) (t : Terminal) → IsValid t → IsValid (set_mode command p t)
unfolding set_mode
set_mode-IsValid command p t v =
    if_both IsValid (not p.present) (λ _. v)
      (λ _.
        if_both IsValid (p.value == 4) (λ _. record { shape = v.shape })
          (λ _. emit-IsValid _ _ t v))

pub set_modes-IsValid :
    (command : Command) (ps : List Parameter) (t : Terminal)
    → IsValid t
    → IsValid (set_modes command ps t)
unfolding set_modes
set_modes-IsValid command [] t v = v
set_modes-IsValid command (p ∷ ps) t v =
    set_modes-IsValid command ps (set_mode command p t) (set_mode-IsValid command p t v)
