-- ===== src/Ansi/Valid/Snapshots.antt =====
-- ansi/terminal.go: the snapshots that `Snapshot` hands to a caller.
use tuicast.Prelude.{ℕ, ◌<◌, ◌≡◌, some, List}
use tuicast.Prelude.Int.{ℤ, pos}
use tuicast.Screen.{Cell, cell_at}
use tuicast.Screen.Text.{cell_at_on_screen}
use tuicast.Ansi.State.{Profile, Terminal, new_terminal, snapshot}
use tuicast.Ansi.Valid.{IsValid, active-Ok}
use tuicast.Ansi.Valid.Resizing.{Call, calls, calls-IsValid, new_terminal-IsValid}

-- A snapshot of a valid terminal is readable at every position, and its cursor is on it.
abbrev pub Readable : Terminal → Type 0
Readable t =
    let s = snapshot t in
    ((column row : ℕ)
      → column < s.width
      → row < s.height
      → (cell : Cell) × (cell_at s (pos column) (pos row) ≡ some cell))
    × (s.cursor.column < s.width)
    × (s.cursor.row < s.height)

snapshot-Readable : (t : Terminal) → IsValid t → Readable t
unfolding snapshot
snapshot-Readable t v =
    let ok = active-Ok v in
    (
      (λ column row c r. (_, cell_at_on_screen (snapshot t) column row ok.sized c r)),
      ok.column_in,
      ok.row_in,
    )

-- However a terminal that `New` made is used - host output, resizes that succeed or fail, drained
-- events, answerback texts - its snapshot has a cell at every position of the screen, and the
-- cursor lies on the screen.
pub calls-Readable :
    (string_width : ℕ → ℤ) (width height : ℤ) (profile : Profile) (cs : List Call) {t : Terminal}
    → new_terminal width height profile ≡ some t
    → Readable (calls string_width cs t)
calls-Readable string_width width height profile cs {t} e =
    snapshot-Readable (calls string_width cs t)
      (calls-IsValid string_width cs t (new_terminal-IsValid width height profile e))
