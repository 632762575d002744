-- ===== src/Ansi/Revision/Events.antt =====
-- ansi/terminal.go: the revision under the handlers of controls, escapes, titles and modes.
use tuicast.Prelude.{
  ℕ, ◌-◌, ◌≡◌, refl, ap, Bool, true, false, ◌||◌, ◌&&◌, not, List, [], ◌∷◌, length, arith, leb,
  ◌==◌, Bytes,
}
use tuicast.Prelude.Int.{ℤ, pos, ltb_ℤ}
use tuicast.Ansi.State.{Terminal, EventType, snapshot}
use tuicast.Ansi.Describe.{Command, Parameter, emit}
use tuicast.Ansi.Edit.{line_feed}
use tuicast.Ansi.Modes.{
  reset, switch_to_alternate, clear_alternate, enter_alternate, exit_alternate,
  set_xterm_private_mode, set_visible, set_private_mode, set_private_modes, set_mode, set_modes,
  ignored_private_mode, xterm_mode,
}
use tuicast.Ansi.Rendition.{set_rendition}
use tuicast.Ansi.StyleOnly.{set_rendition-StyleOnly}
use tuicast.Ansi.Control.{
  execute, selects, save_cursor, restore_cursor, handle_escape, same_bytes, set_title, is_command,
  handle_osc, param, set_scroll_region, move_cursor, is_move, plain_csi,
}
use tuicast.Ansi.Valid.{if_both, pick_both}
use tuicast.Ansi.Revision.{Tracked, Tracked-trans, unseen, announced, weaken, same, also, view}
use tuicast.Ansi.Revision.Steps.{
  if_revision, line_feed-Tracked, reverse_index-Tracked, erase_display-Tracked, erase_line-Tracked,
  erase_characters-Tracked, insert_characters-Tracked, delete_characters-Tracked,
  insert_lines-Tracked, delete_lines-Tracked, wrap_feed-Tracked,
}

pub emit-Tracked :
    (n : ℕ) (kind : EventType) (text : Bytes) (t : Terminal) → Tracked n t (emit kind text t)
unfolding emit snapshot
emit-Tracked n kind text t = weaken n (omega arith) (unseen _ refl refl)

-- A change of a flag that a snapshot does not show.
flag :
    (n : ℕ) {t : Terminal} (t' : Terminal)
    → t'.revision ≡ t.revision
    → view t' ≡ view t
    → Tracked n t t'
flag n t' r v = weaken n (omega arith) (unseen t' r v)

pub execute-Tracked : (control : ℕ) (t : Terminal) → Tracked 1 t (execute control t)
unfolding execute snapshot
execute-Tracked control t =
    let P = Tracked 1 t in
    if_both P (control == 0x05) (λ _. emit-Tracked 1 _ _ t)
      (λ _.
        if_both P (control == 0x07) (λ _. emit-Tracked 1 _ _ t)
          (λ _.
            if_both P (control == 0x08) (λ _. announced _ refl)
              (λ _.
                if_both P (control == 0x09) (λ _. announced _ refl)
                  (λ _.
                    if_both P (control == 0x0a || control == 0x0b || control == 0x0c)
                      (λ _.
                        also (record (line_feed t) { wrap_pending = false }) (line_feed-Tracked t)
                          refl refl)
                      (λ _.
                        if_both P (control == 0x0d) (λ _. announced _ refl)
                          (λ _.
                            if_both P (control == 0x0e)
                              (λ _. flag 1 (record t { charset = 1 }) refl refl)
                              (λ _.
                                if_both P (control == 0x0f)
                                  (λ _. flag 1 (record t { charset = 0 }) refl refl)
                                  (λ _.
                                    if_both P (leb 0x80 control) (λ _. emit-Tracked 1 _ _ t)
                                      (λ _. same 1 t)))))))))

-- `save_cursor` writes through the pointer, and leaves what it points to showing the same.
view-save_cursor : (t : Terminal) → view (save_cursor t) ≡ view t
unfolding save_cursor snapshot
view-save_cursor t = ground arith

pub handle_escape-Tracked :
    (command : Command) (t : Terminal) → Tracked 1 t (handle_escape command t)
unfolding handle_escape snapshot
handle_escape-Tracked command t =
    let P = Tracked 1 t in
    let final = command.final in
    if_both P (selects b'(' command)
      (λ _. flag 1 (record t { charset_0 = final == b'0' }) refl refl)
      (λ _.
        if_both P (selects b')' command)
          (λ _. flag 1 (record t { charset_1 = final == b'0' }) refl refl)
          (λ _.
            if_both P (not (command.intermediate == 0)) (λ _. emit-Tracked 1 _ _ t)
              (λ _.
                if_both P (final == b'7')
                  (λ _. flag 1 (save_cursor t) (unfold save_cursor in refl) (view-save_cursor t))
                  (λ _.
                    if_both P (final == b'8') (λ _. unfold restore_cursor in announced _ refl)
                      (λ _.
                        if_both P (final == b'D') (λ _. line_feed-Tracked t)
                          (λ _.
                            if_both P (final == b'E') (λ _. wrap_feed-Tracked t)
                              (λ _.
                                if_both P (final == b'M') (λ _. reverse_index-Tracked t)
                                  (λ _.
                                    if_both P (final == b'c')
                                      (λ _. unfold reset in announced _ refl)
                                      (λ _.
                                        if_both P (final == b'=' || final == b'>') (λ _. same 1 t)
                                          (λ _.
                                            if_both P (final == b'\\') (λ _. same 1 t)
                                              (λ _. emit-Tracked 1 _ _ t)))))))))))

pub handle_osc-Tracked :
    (command : ℤ) (text : Bytes) (t : Terminal) → Tracked 1 t (handle_osc command text t)
unfolding handle_osc set_title
handle_osc-Tracked command text t =
    let P = Tracked 1 t in
    if_both P (t.xterm && (is_command command 0 || is_command command 2))
      (λ _. if_both P (same_bytes _ t.title) (λ _. same 1 t) (λ _. announced _ refl))
      (λ _.
        if_both P (t.xterm && is_command command 1) (λ _. same 1 t)
          (λ _.
            if_both P (ltb_ℤ command (pos 0)) (λ _. emit-Tracked 1 _ _ t)
              (λ _. emit-Tracked 1 _ _ t)))

move_cursor-Tracked :
    (final : ℕ) (ps : List Parameter) (t : Terminal) → Tracked 1 t (move_cursor final ps t)
unfolding move_cursor
move_cursor-Tracked final ps t = announced _ (
    if_revision (final == b'A') _ _ t.revision refl (
      if_revision (final == b'B') _ _ t.revision refl (
        if_revision (final == b'C') _ _ t.revision refl (
          if_revision (final == b'D') _ _ t.revision refl
            (if_revision (final == b'G') _ _ t.revision refl refl)))))

set_rendition-Tracked : (ps : List Parameter) (t : Terminal) → Tracked 1 t (set_rendition ps t)
unfolding snapshot
set_rendition-Tracked ps t =
    flag 1 (set_rendition ps t) (ap (λ (u : Terminal). u.revision) (set_rendition-StyleOnly ps t))
      (ap view (set_rendition-StyleOnly ps t))

set_mode-Tracked :
    (command : Command) (p : Parameter) (t : Terminal) → Tracked 0 t (set_mode command p t)
unfolding set_mode snapshot
set_mode-Tracked command p t =
    if_both (Tracked 0 t) (not p.present) (λ _. same 0 t)
      (λ _.
        if_both (Tracked 0 t) (p.value == 4) (λ _. unseen _ refl refl) (λ _. emit-Tracked 0 _ _ t))

set_modes-Tracked :
    (command : Command) (ps : List Parameter) (t : Terminal) → Tracked 0 t (set_modes command ps t)
unfolding set_modes
set_modes-Tracked command [] t = same 0 t
set_modes-Tracked command (p ∷ ps) t =
    weaken 0 (omega arith)
      (Tracked-trans (set_mode-Tracked command p t) (set_modes-Tracked command ps _))

set_scroll_region-Tracked :
    (ps : List Parameter) (t : Terminal) → Tracked 1 t (set_scroll_region ps t)
unfolding set_scroll_region
set_scroll_region-Tracked ps t =
    if_both (Tracked 1 t)
      (leb t.height (param ps 1 t.height - 1) || leb (param ps 1 t.height - 1) (param ps 0 1 - 1))
      (λ _. same 1 t) (λ _. announced _ refl)

-- The modes 1047 and 1049, which can change the screen and not announce it.
abbrev pub announces : Parameter → Bool
announces p = not (p.value == 1047 || p.value == 1049)

set_visible-Tracked : (enabled : Bool) (t : Terminal) → Tracked 1 t (set_visible enabled t)
unfolding set_visible
set_visible-Tracked enabled t = announced _ refl

-- Mode 47, set: the other buffer is shown, or nothing happens.
enter_kept-Tracked : (t : Terminal) → Tracked 1 t (enter_alternate false t)
unfolding enter_alternate switch_to_alternate clear_alternate
enter_kept-Tracked t = pick_both (Tracked 1 t) t.active (λ _. announced _ refl) (λ _. same 1 t)

exit_alternate-Tracked : (t : Terminal) → Tracked 1 t (exit_alternate t)
unfolding exit_alternate
exit_alternate-Tracked t = pick_both (Tracked 1 t) t.active (λ _. same 1 t) (λ _. announced _ refl)

set_xterm_private_mode-Tracked :
    (p : Parameter) (enabled : Bool) (t : Terminal)
    → announces p ≡ true
    → Tracked 1 t (set_xterm_private_mode p.value enabled t)
unfolding set_xterm_private_mode
set_xterm_private_mode-Tracked p enabled t h =
    if_both (Tracked 1 t) (p.value == 47 || p.value == 1047)
      (λ _.
        if_both (Tracked 1 t) enabled
          (λ _. let off : (p.value == 1047) ≡ false = ground arith in rw off (enter_kept-Tracked t))
          (λ _. exit_alternate-Tracked t))
      (λ _. if_both (Tracked 1 t) (p.value == 1049) (λ e. absurd (ground arith)) (λ _. same 1 t))

set_private_mode-Tracked :
    (command : Command) (p : Parameter) (t : Terminal)
    → announces p ≡ true
    → Tracked 1 t (set_private_mode command p t)
unfolding set_private_mode snapshot
set_private_mode-Tracked command p t h =
    let P = Tracked 1 t in
    if_both P (not p.present) (λ _. same 1 t)
      (λ _.
        if_both P (p.value == 1)
          (λ _. flag 1 (record t { application_cursor = command.final == b'h' }) refl refl)
          (λ _.
            if_both P (p.value == 7)
              (λ _.
                flag 1 (record t { auto_wrap = command.final == b'h'; wrap_pending = false }) refl
                  refl)
              (λ _.
                if_both P (p.value == 25) (λ _. set_visible-Tracked _ t)
                  (λ _.
                    if_both P (ignored_private_mode p.value) (λ _. same 1 t)
                      (λ _.
                        if_both P (not t.xterm || not (xterm_mode p.value))
                          (λ _. emit-Tracked 1 _ _ t)
                          (λ _. set_xterm_private_mode-Tracked p _ t h))))))

abbrev pub all_announce : List Parameter → Bool
all_announce [] = true
all_announce (p ∷ ps) = announces p && all_announce ps

pub set_private_modes-Tracked :
    (command : Command) (ps : List Parameter) (t : Terminal)
    → all_announce ps ≡ true
    → Tracked (length ps) t (set_private_modes command ps t)
unfolding set_private_modes
set_private_modes-Tracked command [] t h = same 0 t
set_private_modes-Tracked command (p ∷ ps) t h = weaken _ (omega arith) (
    Tracked-trans (set_private_mode-Tracked command p t (ground arith))
      (set_private_modes-Tracked command ps _ (ground arith)))

pub plain_csi-Tracked :
    (command : Command) (ps : List Parameter) (t : Terminal) → Tracked 1 t (plain_csi command ps t)
unfolding plain_csi
plain_csi-Tracked command ps t =
    let P = Tracked 1 t in
    let final = command.final in
    if_both P (is_move final) (λ _. move_cursor-Tracked final ps t)
      (λ _.
        if_both P (final == b'@') (λ _. insert_characters-Tracked _ t)
          (λ _.
            if_both P (final == b'J') (λ _. erase_display-Tracked _ t)
              (λ _.
                if_both P (final == b'K') (λ _. erase_line-Tracked _ t)
                  (λ _.
                    if_both P (final == b'L') (λ _. insert_lines-Tracked _ t)
                      (λ _.
                        if_both P (final == b'M') (λ _. delete_lines-Tracked _ t)
                          (λ _.
                            if_both P (final == b'P') (λ _. delete_characters-Tracked _ t)
                              (λ _.
                                if_both P (final == b'X') (λ _. erase_characters-Tracked _ t)
                                  (λ _.
                                    if_both P (final == b'h' || final == b'l')
                                      (λ _. weaken 1 (omega arith) (set_modes-Tracked command ps t))
                                      (λ _.
                                        if_both P (final == b'm') (λ _. set_rendition-Tracked ps t)
                                          (λ _.
                                            if_both P (final == b'r')
                                              (λ _. set_scroll_region-Tracked ps t)
                                              (λ _. emit-Tracked 1 _ _ t)))))))))))
