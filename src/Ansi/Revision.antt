-- ===== src/Ansi/Revision.antt =====
-- ansi/terminal.go: the revision against what a snapshot shows.
pub mod Steps
pub mod Events
pub mod Writes
use tuicast.Prelude.{
  ℕ, zero, suc, ◌+◌, ◌%◌, ◌^◌, ◌≤◌, ◌<◌, ◌≡◌, refl, sym, ap, ◌∙◌, Bool, true, false, List,
  if◌then◌else◌, arith,
}
use tuicast.Screen.{Screen}
use tuicast.Ansi.State.{
  Terminal, TerminalEvent, changed, bump, snapshot, Active, pick, on_main, on_alternate,
}

-- What a snapshot shows, its revision aside.
abbrev pub view : Terminal → Screen
view t = record (snapshot t) { revision = 0 }

-- `n` calls of `changed`.
abbrev pub bumps : ℕ → ℕ → ℕ
bumps zero revision = revision
bumps (suc n) revision = bump (bumps n revision)

-- From `s` to `t` the revision went up at most `bound` times, and if it never did, the screen is
-- the same.
pub record Tracked (bound : ℕ) (s t : Terminal) : Type 0 where
  pub count : ℕ
  pub count_le : count ≤ bound
  pub revision_is : t.revision ≡ bumps count s.revision
  pub quiet : count ≡ 0 → view t ≡ view s

bumps-add : (n m r : ℕ) → bumps m (bumps n r) ≡ bumps (m + n) r
bumps-add n zero r = ap (λ k. bumps k r) (omega arith)
bumps-add n (suc m) r = ap bump (bumps-add n m r) ∙ ap (λ k. bumps k r) (suc_add m n)
  where
    suc_add : (m n : ℕ) → suc (m + n) ≡ suc m + n
    suc_add m n = omega arith

pub Tracked-trans :
    {n m : ℕ} {s t u : Terminal} → Tracked n s t → Tracked m t u → Tracked (n + m) s u
Tracked-trans {s = s} a b = record {
  count = b.count + a.count;
  count_le = omega (arith, a.count_le, b.count_le);
  revision_is =
      b.revision_is ∙ ap (bumps b.count) a.revision_is ∙ bumps-add a.count b.count s.revision;
  quiet = λ e. b.quiet (omega arith) ∙ a.quiet (omega arith);
}

-- A step that shows nothing and calls `changed` nowhere.
pub unseen :
    {s : Terminal} (t : Terminal) → t.revision ≡ s.revision → view t ≡ view s → Tracked 0 s t
unseen t r v = record { count = 0; count_le = omega arith; revision_is = r; quiet = λ _. v }

-- A step that ends in `changed`, from a state with the same revision.
pub announced : {s : Terminal} (t : Terminal) → t.revision ≡ s.revision → Tracked 1 s (changed t)
unfolding changed
announced t r = record {
  count = 1;
  count_le = omega arith;
  revision_is = ap bump r;
  quiet = λ e. absurd (omega arith);
}

pub weaken : {n : ℕ} {s t : Terminal} (m : ℕ) → n ≤ m → Tracked n s t → Tracked m s t
weaken m h a = record {
  count = a.count;
  count_le = omega (arith, a.count_le);
  revision_is = a.revision_is;
  quiet = a.quiet;
}

pub same : (n : ℕ) (t : Terminal) → Tracked n t t
same n t = weaken n (omega arith) (unseen t refl refl)

-- A further step that shows nothing.
pub also :
    {n : ℕ} {s t : Terminal} (t' : Terminal)
    → Tracked n s t
    → t'.revision ≡ t.revision
    → view t' ≡ view t
    → Tracked n s t'
also t' a r v = record {
  count = a.count;
  count_le = a.count_le;
  revision_is = r ∙ a.revision_is;
  quiet = λ e. v ∙ a.quiet e;
}
