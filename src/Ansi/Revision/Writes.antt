-- ===== src/Ansi/Revision/Writes.antt =====
-- ansi/terminal.go: the revision under `Write`.
use tuicast.Prelude.{
  ℕ, zero, suc, ◌+◌, ◌%◌, ◌^◌, ◌<◌, ◌≡◌, refl, ap, ◌∙◌, Bool, true, ◌||◌, ◌&&◌, not, ◌⊎◌, inl, inr,
  List, [], ◌∷◌, if◌then◌else◌, length, arith, ◌==◌, Bool-cases, ==_iff,
}
use tuicast.Screen.{Screen}
use tuicast.Prelude.Int.{ℤ}
use tuicast.Ansi.State.{Terminal, snapshot}
use tuicast.Ansi.Describe.{Command, Parameter}
use tuicast.Ansi.Control.{
  Event, printed, executed, csi, escape, osc, dcs, control_string, handle_csi, handle, handle_all,
  write,
}
use tuicast.Ansi.Valid.{if_both}
use tuicast.Ansi.Revision.{Tracked, Tracked-trans, weaken, same, view, bumps}
use tuicast.Ansi.Revision.Events.{
  emit-Tracked, execute-Tracked, handle_escape-Tracked, handle_osc-Tracked, plain_csi-Tracked,
  set_private_modes-Tracked, all_announce,
}
use tuicast.Ansi.Revision.Steps.{print-Tracked}

-- An event that announces what it changes: any but a command that sets or resets private modes and
-- has 1047 or 1049 among its parameters.
abbrev pub is_private : Command → Bool
is_private command =
    command.prefix == b'?'
    && (command.intermediate == 0 && (command.final == b'h' || command.final == b'l'))

abbrev pub event_announces : Event → Bool
event_announces (csi command ps) = if is_private command then all_announce ps else true
event_announces _ = true

abbrev pub events_announce : List Event → Bool
events_announce [] = true
events_announce (e ∷ es) = event_announces e && events_announce es

-- At most how often an event, and a list of events, raises the revision.
abbrev pub cost : Event → ℕ
cost (csi command ps) = 1 + length ps
cost _ = 3

abbrev pub total_cost : List Event → ℕ
total_cost [] = 0
total_cost (e ∷ es) = cost e + total_cost es

handle_csi-Tracked :
    (command : Command) (ps : List Parameter) (t : Terminal)
    → event_announces (csi command ps) ≡ true
    → Tracked (1 + length ps) t (handle_csi command ps t)
unfolding handle_csi
handle_csi-Tracked command ps t h =
    let P = Tracked (1 + length ps) t in
    if_both P (is_private command)
      (λ e. weaken _ (omega arith) (set_private_modes-Tracked command ps t (ground arith)))
      (λ _.
        if_both P (not (command.prefix == 0) || not (command.intermediate == 0))
          (λ _. emit-Tracked _ _ _ t)
          (λ _. weaken _ (omega arith) (plain_csi-Tracked command ps t)))

module _ (string_width : ℕ → ℤ) where
  handle-Tracked :
      (e : Event) (t : Terminal)
      → event_announces e ≡ true
      → Tracked (cost e) t (handle string_width e t)
  unfolding handle
  handle-Tracked (printed r) t h = print-Tracked string_width r t
  handle-Tracked (executed control) t h = weaken _ (omega arith) (execute-Tracked control t)
  handle-Tracked (csi command ps) t h = handle_csi-Tracked command ps t h
  handle-Tracked (escape command) t h = weaken _ (omega arith) (handle_escape-Tracked command t)
  handle-Tracked (osc command text) t h = weaken _ (omega arith) (handle_osc-Tracked command text t)
  handle-Tracked (dcs command ps text) t h = emit-Tracked _ _ _ t
  handle-Tracked (control_string kind) t h = emit-Tracked _ _ _ t

  handle_all-Tracked :
      (es : List Event) (t : Terminal)
      → events_announce es ≡ true
      → Tracked (total_cost es) t (handle_all string_width es t)
  unfolding handle_all
  handle_all-Tracked [] t h = same 0 t
  handle_all-Tracked (e ∷ es) t h =
      Tracked-trans (handle-Tracked e t (ground arith)) (handle_all-Tracked es _ (ground arith))

bumps-mod : (n r : ℕ) → r < 2 ^ 64 → bumps n r ≡ (r + n) % 2 ^ 64
bumps-mod zero r h = omega arith
bumps-mod (suc n) r h = omega (arith, bumps-mod n r h)

snapshot_of_view :
    (t u : Terminal) → view u ≡ view t → u.revision ≡ t.revision → snapshot u ≡ snapshot t
unfolding snapshot
snapshot_of_view t u v r =
    ap (λ (s : Screen). record s { revision = u.revision }) v
    ∙ ap (λ k. record (view t) { revision = k }) r

module _ (string_width : ℕ → ℤ) where
  -- One `Write` raises the revision by one (mod 2^64) or leaves it; where it leaves it, every
  -- snapshot taken after shows what one taken before did. The events must be too few to bring the
  -- counter round, and none of them the private modes 1047 and 1049.
  pub write_revision :
      (es : List Event) (t : Terminal)
      → t.revision < 2 ^ 64
      → events_announce es ≡ true
      → total_cost es < 2 ^ 64
      → let t' = write string_width es t in
        ((t'.revision ≡ (t.revision + 1) % 2 ^ 64)
          ⊎ ((t'.revision ≡ t.revision) × (snapshot t' ≡ snapshot t)))
  unfolding write
  write_revision es t r h c =
      let after = handle_all string_width es t in
      let k = handle_all-Tracked string_width es t h in
      elim (Bool-cases (after.revision == t.revision)) [
        | inr e ↦ inl (rw e refl)
        | inl e ↦ rw e (
            let kept : after.revision ≡ t.revision = (==_iff _ _).0 e in
            let none_called : k.count ≡ 0 =
              omega (arith, k.count_le, k.revision_is, bumps-mod k.count t.revision r) in
            inr (kept, snapshot_of_view t after (k.quiet none_called) kept))
      ]
