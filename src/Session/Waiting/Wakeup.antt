-- ===== src/Session/Waiting/Wakeup.antt =====
-- session.go: what a goroutine blocked in `WaitFor` can rely on.
use mathlib.Core.Path.{subst}
use tuicast.Prelude.{
  ℕ, ◌≤◌, ◌≡◌, refl, sym, ap, ◌∙◌, Bool, true, false, ◌⊎◌, inl, inr, Option, some, List, [], Bytes,
  arith, Bool-cases,
}
use tuicast.Prelude.Int.{ℤ}
use tuicast.Screen.{Screen}
use tuicast.Ansi.State.{snapshot}
use tuicast.Ansi.Control.{Event, drain_events}
use tuicast.Session.{Session, SessionError, signal_change}
use tuicast.Session.Waiting.{
  ReaderAt, ResizerAt, WaiterAt, World, Step, Reach, reading, announced, applied, handling, stopped,
  idle, resized, entering, loaded, blocked, returned, starts, continues, announces, applies,
  signals, handles, fails, ends, sizes, signals_size, sends, closes, loads, looks, wakes, expires,
  is_closed, look,
}
use tuicast.Session.Waiting
use tuicast.Session.Waiting.Signals.{
  handle_events-Unmoved, send-Unmoved, begin_close-Unmoved, Closes, signal_change-Closes,
  signal_output-Closes, end_reader-Closes,
}

-- Why a blocked waiter cannot miss the screen: its channel is closed, the screen is the one it looked
-- at, or a signal is still to come.
data Pending {P : Type 0} (channel : ℕ) (screen : Screen) (s : Session P) (r : ReaderAt)
    (z : ResizerAt) : Type 0 where
  woken : Waiting.is_closed channel s ≡ true → Pending channel screen s r z
  current : screen ≡ snapshot s.terminal → Pending channel screen s r z
  to_signal : r ≡ applied → Pending channel screen s r z
  to_signal_size : z ≡ resized → Pending channel screen s r z

module _ {P : Type 0} where
  same_closed :
      (c : ℕ) (s t : Session P)
      → t.changed ≡ s.changed
      → t.done ≡ s.done
      → Waiting.is_closed c s ≡ true
      → Waiting.is_closed c t ≡ true
  same_closed c s t e f h = rw (e, f) h

  Pending-unmoved :
      (c : ℕ) (screen : Screen) (s t : Session P) (r r' : ReaderAt) (z : ResizerAt)
      → t.changed ≡ s.changed
      → t.done ≡ s.done
      → snapshot t.terminal ≡ snapshot s.terminal
      → (r ≡ applied → r' ≡ applied)
      → Pending c screen s r z
      → Pending c screen t r' z
  Pending-unmoved c screen s t r r' z e f g k (woken h) = woken (same_closed c s t e f h)
  Pending-unmoved c screen s t r r' z e f g k (current h) = current (h ∙ sym g)
  Pending-unmoved c screen s t r r' z e f g k (to_signal h) = to_signal (k h)
  Pending-unmoved c screen s t r r' z e f g k (to_signal_size h) = to_signal_size h

  Watched : (Screen → Bool) → WaiterAt → Session P → ReaderAt → ResizerAt → Type 0
  Watched matcher entering s r z = Unit
  Watched matcher (loaded c finished err) s r z = c ≤ s.changed
  Watched matcher (blocked c screen) s r z =
      (c ≤ s.changed) × (matcher screen ≡ false) × Pending c screen s r z
  Watched matcher (returned screen cause) s r z = Unit

  Watched-unmoved :
      (m : Screen → Bool) (wt : WaiterAt) (s t : Session P) (r r' : ReaderAt) (z : ResizerAt)
      → t.changed ≡ s.changed
      → t.done ≡ s.done
      → snapshot t.terminal ≡ snapshot s.terminal
      → (r ≡ applied → r' ≡ applied)
      → Watched m wt s r z
      → Watched m wt t r' z
  unfolding Watched
  Watched-unmoved m entering s t r r' z e f g k h = h
  Watched-unmoved m (loaded c finished err) s t r r' z e f g k h = rw e h
  Watched-unmoved m (blocked c screen) s t r r' z e f g k (h, n, p) =
      (rw e h, n, Pending-unmoved c screen s t r r' z e f g k p)
  Watched-unmoved m (returned screen cause) s t r r' z e f g k h = h

  Watched-Closes :
      (m : Screen → Bool) (wt : WaiterAt) (s t : Session P) (r r' : ReaderAt) (z z' : ResizerAt)
      → Closes s t
      → Watched m wt s r z
      → Watched m wt t r' z'
  unfolding Watched
  Watched-Closes m entering s t r r' z z' k h = h
  Watched-Closes m (loaded c finished err) s t r r' z z' k h = let l = k.0 in omega arith
  Watched-Closes m (blocked c screen) s t r r' z z' k (h, n, p) =
      let l = k.0 in (omega arith, n, woken (k.1 c h))
  Watched-Closes m (returned screen cause) s t r r' z z' k h = h

  Watched-moves :
      (m : Screen → Bool) (wt : WaiterAt) (s t : Session P) (r r' : ReaderAt) (z z' : ResizerAt)
      → t.changed ≡ s.changed
      → ((r' ≡ applied) ⊎ (z' ≡ resized))
      → Watched m wt s r z
      → Watched m wt t r' z'
  unfolding Watched
  Watched-moves m entering s t r r' z z' e k h = h
  Watched-moves m (loaded c finished err) s t r r' z z' e k h = rw e h
  Watched-moves m (blocked c screen) s t r r' z z' e (inl k) (h, n, p) = (rw e h, n, to_signal k)
  Watched-moves m (blocked c screen) s t r r' z z' e (inr k) (h, n, p) =
      (rw e h, n, to_signal_size k)
  Watched-moves m (returned screen cause) s t r r' z z' e k h = h

  abbrev IsWatched : (Screen → Bool) → World P → Type 0
  IsWatched m w = Watched m w.waiter w.session w.reader w.resizer

  handle_drained-same :
      (s : Session P)
      → ((Waiting.handle_drained s).0.changed ≡ s.changed)
        × ((Waiting.handle_drained s).0.done ≡ s.done)
        × (snapshot (Waiting.handle_drained s).0.terminal ≡ snapshot s.terminal)
  unfolding Waiting.handle_drained drain_events snapshot
  handle_drained-same s =
      let u =
        handle_events-Unmoved s.terminal.events
          (record s { terminal = record (s.terminal) { events = [] } }) in
      (u.same_changed, u.same_done, ap snapshot u.same_terminal)

  Closes-same : (s t u : Session P) → t.changed ≡ s.changed → Closes t u → Closes s u
  Closes-same s t u e k = let l = k.0 in (omega (arith, e), λ c h. k.1 c (omega (arith, e, h)))

module _ {P : Type 0} (string_width : ℕ → ℤ) (parse : Bytes → P → List Event × P)
    (matcher : Screen → Bool) where
  look-Watched :
      (c : ℕ) (finished : Bool) (err : Option SessionError) (s : Session P) (r : ReaderAt)
      (z : ResizerAt)
      → c ≤ s.changed
      → Watched matcher (look matcher c finished err (snapshot s.terminal)) s r z
  unfolding look Watched
  look-Watched c finished err s r z h = elim (Bool-cases (matcher (snapshot s.terminal))) [
    | inl e ↦ rw e tt
    | inr e ↦ elim (Bool-cases finished) [
      | inl f ↦ rw (e, f) tt
      | inr f ↦ rw (e, f) (h, e, current refl)
    ]
  ]

  Step-IsWatched :
      (v w : World P)
      → Step string_width parse matcher v w
      → IsWatched matcher v
      → IsWatched matcher w
  unfolding Waiting.apply Waiting.apply_size Watched
  Step-IsWatched v w (announces now bytes e) k =
      Watched-Closes matcher v.waiter v.session w.session v.reader w.reader v.resizer w.resizer
        (signal_output-Closes v.session) k
  Step-IsWatched v w (applies now bytes e) k =
      Watched-moves matcher v.waiter v.session w.session v.reader w.reader v.resizer w.resizer refl
        (inl refl) k
  Step-IsWatched v w (signals e) k =
      Watched-Closes matcher v.waiter v.session w.session v.reader w.reader v.resizer w.resizer
        (signal_change-Closes v.session) k
  Step-IsWatched v w (handles e f) k =
      let (a, b, c) = handle_drained-same v.session in
      Watched-unmoved matcher v.waiter v.session w.session v.reader w.reader v.resizer a b c
        (λ q. absurd (cc)) k
  Step-IsWatched v w (fails x e f) k =
      let (a, b, c) = handle_drained-same v.session in
      Watched-Closes matcher v.waiter v.session w.session v.reader w.reader v.resizer w.resizer
        (Closes-same v.session (Waiting.handle_drained v.session).0 w.session a
          (end_reader-Closes (some x) (Waiting.handle_drained v.session).0))
        k
  Step-IsWatched v w (ends x e) k =
      Watched-Closes matcher v.waiter v.session w.session v.reader w.reader v.resizer w.resizer
        (end_reader-Closes x v.session) k
  Step-IsWatched v w (sizes now width height t e f) k =
      Watched-moves matcher v.waiter v.session w.session v.reader w.reader v.resizer w.resizer refl
        (inr refl) k
  Step-IsWatched v w (signals_size e) k =
      Watched-Closes matcher v.waiter v.session w.session v.reader w.reader v.resizer w.resizer
        (signal_change-Closes v.session) k
  Step-IsWatched v w (sends bytes) k =
      let u = send-Unmoved bytes v.session in
      Watched-unmoved matcher v.waiter v.session w.session v.reader w.reader v.resizer
        u.same_changed u.same_done (ap snapshot u.same_terminal) (λ q. q) k
  Step-IsWatched v w closes k =
      let u = begin_close-Unmoved v.session in
      Watched-unmoved matcher v.waiter v.session w.session v.reader w.reader v.resizer
        u.same_changed u.same_done (ap snapshot u.same_terminal) (λ q. q) k
  Step-IsWatched v w (loads e) k = omega arith
  Step-IsWatched v w (looks c finished err e) k =
      look-Watched c finished err v.session v.reader v.resizer
        (subst (λ x. Watched matcher x v.session v.reader v.resizer) e k)
  Step-IsWatched v w (wakes c screen e f) k = tt
  Step-IsWatched v w (expires c screen e) k = tt

  Reach-IsWatched :
      (s : Session P) (w : World P) → Reach string_width parse matcher s w → IsWatched matcher w
  unfolding Watched
  Reach-IsWatched s w (starts r z) = tt
  Reach-IsWatched s w (continues h k) = Step-IsWatched _ w k (Reach-IsWatched s _ h)

  promised :
      (c : ℕ) (screen : Screen) (s : Session P) (r : ReaderAt) (z : ResizerAt)
      → matcher (snapshot s.terminal) ≡ true
      → Watched matcher (blocked c screen) s r z
      → (is_closed c s ≡ true)
        ⊎ (((r ≡ applied) ⊎ (z ≡ resized)) × (is_closed c (signal_change s) ≡ true))
  unfolding Watched
  promised c screen s r z m (h, n, woken k) = inl k
  promised c screen s r z m (h, n, current k) =
      let f : matcher (snapshot s.terminal) ≡ false = ap matcher (sym k) ∙ n in absurd cc
  promised c screen s r z m (h, n, to_signal k) = inr (inl k, (signal_change-Closes s).1 c h)
  promised c screen s r z m (h, n, to_signal_size k) = inr (inr k, (signal_change-Closes s).1 c h)

  -- In every order of the steps of the reader, `Send`, `Resize`, `Close` and a `WaitFor`: while the
  -- waiter is blocked and the current screen matches, its channel is closed already, or the reader or
  -- `Resize` has changed the terminal and still has to signal, which closes it.
  pub no_lost_wakeup :
      (s : Session P) (w : World P) (c : ℕ) (screen : Screen)
      → Reach string_width parse matcher s w
      → w.waiter ≡ blocked c screen
      → matcher (snapshot w.session.terminal) ≡ true
      → (is_closed c w.session ≡ true)
        ⊎ (((w.reader ≡ applied) ⊎ (w.resizer ≡ resized))
            × (is_closed c (signal_change w.session) ≡ true))
  no_lost_wakeup s w c screen h e m =
      promised c screen w.session w.reader w.resizer m
        (subst (λ x. Watched matcher x w.session w.reader w.resizer) e (Reach-IsWatched s w h))
