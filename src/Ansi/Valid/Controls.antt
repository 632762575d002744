-- ===== src/Ansi/Valid/Controls.antt =====
-- Every event of the parser keeps the invariant.
use tuicast.Prelude.{ℕ, ◌-◌, ◌≤◌, ◌<◌, ◌||◌, ◌&&◌, not, List, [], ◌∷◌, arith, leb, ◌==◌, Bytes}
use tuicast.Prelude.Int.{ℤ, pos, ltb_ℤ}
use tuicast.Ansi.State.{Terminal, set_column, cursor_changed}
use tuicast.Ansi.Describe.{Command, Parameter}
use tuicast.Ansi.Rendition.{set_rendition}
use tuicast.Ansi.StyleOnly.{set_rendition-StyleOnly}
use tuicast.Ansi.Control.{
  Event, printed, executed, csi, escape, osc, dcs, control_string, execute, selects, save_cursor,
  restore_cursor, handle_escape, same_bytes, set_title, is_command, handle_osc, param,
  set_scroll_region, move_cursor, is_move, plain_csi, handle_csi, handle, handle_all, write,
}
use tuicast.Ansi.Valid.{
  IsValid, if_both, active-Ok, put_active-IsValid, put_cursor-IsValid, set_column-IsValid,
  set_row-IsValid, changed-IsValid, cursor_changed-IsValid,
}
use tuicast.Ansi.Valid.Edits.{
  line_feed-IsValid, reverse_index-IsValid, erase_display-IsValid, erase_line-IsValid,
  erase_characters-IsValid, insert_characters-IsValid, delete_characters-IsValid,
  insert_lines-IsValid, delete_lines-IsValid,
}
use tuicast.Ansi.Valid.Prints.{print-IsValid}
use tuicast.Ansi.Valid.Modes.{
  emit-IsValid, reset-IsValid, set_private_modes-IsValid, set_modes-IsValid,
}

-- A move of the cursor to a column on the screen.
to_column :
    (column : ℕ) (t : Terminal)
    → IsValid t
    → column < t.width
    → IsValid (cursor_changed (set_column column t))
to_column column t v h = cursor_changed-IsValid _ (set_column-IsValid column t v h)

execute-IsValid : (control : ℕ) (t : Terminal) → IsValid t → IsValid (execute control t)
unfolding execute
execute-IsValid control t v =
    let ok = active-Ok v in
    if_both IsValid (control == 0x05) (λ _. emit-IsValid _ _ t v)
      (λ _.
        if_both IsValid (control == 0x07) (λ _. emit-IsValid _ _ t v)
          (λ _.
            if_both IsValid (control == 0x08) (λ _. to_column _ t v (omega (arith, ok.column_in)))
              (λ _.
                if_both IsValid (control == 0x09) (λ _. to_column _ t v (omega (arith, v.wide)))
                  (λ _.
                    if_both IsValid (control == 0x0a || control == 0x0b || control == 0x0c)
                      (λ _. record { shape = (line_feed-IsValid t v).shape })
                      (λ _.
                        if_both IsValid (control == 0x0d) (λ _. to_column 0 t v v.wide)
                          (λ _.
                            if_both IsValid (control == 0x0e) (λ _. with_charset 1 (omega arith))
                              (λ _.
                                if_both IsValid (control == 0x0f)
                                  (λ _. with_charset 0 (omega arith))
                                  (λ _.
                                    if_both IsValid (leb 0x80 control) (λ _. emit-IsValid _ _ t v)
                                      (λ _. v)))))))))
  where
    with_charset : (c : ℕ) → c ≤ 1 → IsValid (record t { charset = c })
    with_charset c h = record {
      shape = record {
        wide = v.wide;
        high = v.high;
        main_ok = v.main_ok;
        alternate_ok = v.alternate_ok;
        region = v.region;
        region_in = v.region_in;
        charset_in = h;
      };
    }

save_cursor-IsValid : (t : Terminal) → IsValid t → IsValid (save_cursor t)
unfolding save_cursor
save_cursor-IsValid t v =
    let ok = active-Ok v in
    put_active-IsValid _ t v (record {
      sized = ok.sized;
      column_in = ok.column_in;
      row_in = ok.row_in;
      saved_column_in = ok.column_in;
      saved_row_in = ok.row_in;
    })

restore_cursor-IsValid : (t : Terminal) → IsValid t → IsValid (restore_cursor t)
unfolding restore_cursor
restore_cursor-IsValid t v =
    let ok = active-Ok v in
    cursor_changed-IsValid _ (put_cursor-IsValid _ t v ok.saved_column_in ok.saved_row_in)

handle_escape-IsValid :
    (command : Command) (t : Terminal) → IsValid t → IsValid (handle_escape command t)
unfolding handle_escape
handle_escape-IsValid command t v =
    let final = command.final in
    if_both IsValid (selects b'(' command) (λ _. record { shape = v.shape })
      (λ _.
        if_both IsValid (selects b')' command) (λ _. record { shape = v.shape })
          (λ _.
            if_both IsValid (not (command.intermediate == 0)) (λ _. emit-IsValid _ _ t v)
              (λ _.
                if_both IsValid (final == b'7') (λ _. save_cursor-IsValid t v)
                  (λ _.
                    if_both IsValid (final == b'8') (λ _. restore_cursor-IsValid t v)
                      (λ _.
                        if_both IsValid (final == b'D') (λ _. line_feed-IsValid t v)
                          (λ _.
                            if_both IsValid (final == b'E')
                              (λ _. line_feed-IsValid _ (set_column-IsValid 0 t v v.wide))
                              (λ _.
                                if_both IsValid (final == b'M') (λ _. reverse_index-IsValid t v)
                                  (λ _.
                                    if_both IsValid (final == b'c') (λ _. reset-IsValid t v)
                                      (λ _.
                                        if_both IsValid (final == b'=' || final == b'>') (λ _. v)
                                          (λ _.
                                            if_both IsValid (final == b'\\') (λ _. v)
                                              (λ _. emit-IsValid _ _ t v)))))))))))

set_title-IsValid : (title : Bytes) (t : Terminal) → IsValid t → IsValid (set_title title t)
unfolding set_title
set_title-IsValid title t v =
    if_both IsValid (same_bytes title t.title) (λ _. v)
      (λ _. changed-IsValid _ (record { shape = v.shape }))

handle_osc-IsValid :
    (command : ℤ) (text : Bytes) (t : Terminal) → IsValid t → IsValid (handle_osc command text t)
unfolding handle_osc
handle_osc-IsValid command text t v =
    if_both IsValid (t.xterm && (is_command command 0 || is_command command 2))
      (λ _. set_title-IsValid _ t v)
      (λ _.
        if_both IsValid (t.xterm && is_command command 1) (λ _. v)
          (λ _.
            if_both IsValid (ltb_ℤ command (pos 0)) (λ _. emit-IsValid _ _ t v)
              (λ _. emit-IsValid _ _ t v)))

set_scroll_region-IsValid :
    (ps : List Parameter) (t : Terminal) → IsValid t → IsValid (set_scroll_region ps t)
unfolding set_scroll_region
set_scroll_region-IsValid ps t v =
    let top = param ps 0 1 - 1 in
    let bottom = param ps 1 t.height - 1 in
    if_both IsValid (leb t.height bottom || leb bottom top) (λ _. v)
      (λ e.
        let v1 : IsValid (record t { scroll_top = top; scroll_bottom = bottom }) = record {
          shape = record {
            wide = v.wide;
            high = v.high;
            main_ok = v.main_ok;
            alternate_ok = v.alternate_ok;
            region = ground arith;
            region_in = ground arith;
            charset_in = v.charset_in;
          };
        } in
        cursor_changed-IsValid _ (set_row-IsValid 0 _ (set_column-IsValid 0 _ v1 v.wide) v.high))

move_cursor-IsValid :
    (final : ℕ) (ps : List Parameter) (t : Terminal) → IsValid t → IsValid (move_cursor final ps t)
unfolding move_cursor
move_cursor-IsValid final ps t v =
    let ok = active-Ok v in
    cursor_changed-IsValid _ (
      if_both IsValid (final == b'A') (λ _. set_row-IsValid _ t v (omega (arith, ok.row_in)))
        (λ _.
          if_both IsValid (final == b'B') (λ _. set_row-IsValid _ t v (omega (arith, v.high)))
            (λ _.
              if_both IsValid (final == b'C')
                (λ _. set_column-IsValid _ t v (omega (arith, v.wide)))
                (λ _.
                  if_both IsValid (final == b'D')
                    (λ _. set_column-IsValid _ t v (omega (arith, ok.column_in)))
                    (λ _.
                      if_both IsValid (final == b'G')
                        (λ _. set_column-IsValid _ t v (omega (arith, v.wide)))
                        (λ _.
                          set_column-IsValid _ _ (set_row-IsValid _ t v (omega (arith, v.high)))
                            (omega (arith, v.wide))))))))

set_rendition-IsValid :
    (ps : List Parameter) (t : Terminal) → IsValid t → IsValid (set_rendition ps t)
set_rendition-IsValid ps t v = rw (set_rendition-StyleOnly ps t) (record { shape = v.shape })

plain_csi-IsValid :
    (command : Command) (ps : List Parameter) (t : Terminal)
    → IsValid t
    → IsValid (plain_csi command ps t)
unfolding plain_csi
plain_csi-IsValid command ps t v =
    let final = command.final in
    if_both IsValid (is_move final) (λ _. move_cursor-IsValid final ps t v)
      (λ _.
        if_both IsValid (final == b'@') (λ _. insert_characters-IsValid _ t v)
          (λ _.
            if_both IsValid (final == b'J') (λ _. erase_display-IsValid _ t v)
              (λ _.
                if_both IsValid (final == b'K') (λ _. erase_line-IsValid _ t v)
                  (λ _.
                    if_both IsValid (final == b'L') (λ _. insert_lines-IsValid _ t v)
                      (λ _.
                        if_both IsValid (final == b'M') (λ _. delete_lines-IsValid _ t v)
                          (λ _.
                            if_both IsValid (final == b'P') (λ _. delete_characters-IsValid _ t v)
                              (λ _.
                                if_both IsValid (final == b'X')
                                  (λ _. erase_characters-IsValid _ t v)
                                  (λ _.
                                    if_both IsValid (final == b'h' || final == b'l')
                                      (λ _. set_modes-IsValid command ps t v)
                                      (λ _.
                                        if_both IsValid (final == b'm')
                                          (λ _. set_rendition-IsValid ps t v)
                                          (λ _.
                                            if_both IsValid (final == b'r')
                                              (λ _. set_scroll_region-IsValid ps t v)
                                              (λ _. emit-IsValid _ _ t v)))))))))))

handle_csi-IsValid :
    (command : Command) (ps : List Parameter) (t : Terminal)
    → IsValid t
    → IsValid (handle_csi command ps t)
unfolding handle_csi
handle_csi-IsValid command ps t v =
    if_both IsValid
      (command.prefix == b'?'
        && (command.intermediate == 0 && (command.final == b'h' || command.final == b'l')))
      (λ _. set_private_modes-IsValid command ps t v)
      (λ _.
        if_both IsValid (not (command.prefix == 0) || not (command.intermediate == 0))
          (λ _. emit-IsValid _ _ t v) (λ _. plain_csi-IsValid command ps t v))

module _ (string_width : ℕ → ℤ) where
  pub handle-IsValid : (e : Event) (t : Terminal) → IsValid t → IsValid (handle string_width e t)
  unfolding handle
  handle-IsValid (printed r) t v = print-IsValid string_width r t v
  handle-IsValid (executed control) t v = execute-IsValid control t v
  handle-IsValid (csi command ps) t v = handle_csi-IsValid command ps t v
  handle-IsValid (escape command) t v = handle_escape-IsValid command t v
  handle-IsValid (osc command text) t v = handle_osc-IsValid command text t v
  handle-IsValid (dcs command ps text) t v = emit-IsValid _ _ t v
  handle-IsValid (control_string kind) t v = emit-IsValid _ _ t v

  handle_all-IsValid :
      (es : List Event) (t : Terminal) → IsValid t → IsValid (handle_all string_width es t)
  unfolding handle_all
  handle_all-IsValid [] t v = v
  handle_all-IsValid (e ∷ es) t v =
      handle_all-IsValid es (handle string_width e t) (handle-IsValid e t v)

  -- Whatever the host sends, a valid terminal stays valid: each buffer in use is a full grid of
  -- cells, the cursors and the scroll region lie on the screen, and the selected charset exists.
  pub write-IsValid :
      (es : List Event) (t : Terminal) → IsValid t → IsValid (write string_width es t)
  unfolding write
  write-IsValid es t v =
      let v' = handle_all-IsValid es t v in
      if_both IsValid ((handle_all string_width es t).revision == t.revision) (λ _. v')
        (λ _. record { shape = v'.shape })
