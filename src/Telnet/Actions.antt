-- ===== src/Telnet/Actions.antt =====
-- Rules for a chain of actions that may each return an error.
use tuicast.Prelude.{◌≡◌, none, some, inl, inr, Option-cases}
use tuicast.Telnet.Stream.{Stream, StreamError, Action, ◌>>◌}

pub >>-none : (m k : Action) (s : Stream) → (m s).1 ≡ none → (m >> k) s ≡ k (m s).0
>>-none m k s h = rw (h, ◌>>◌)

pub >>-some :
    (m k : Action) (s : Stream) (x : StreamError)
    → (m s).1 ≡ some x
    → (m >> k) s ≡ ((m s).0, some x)
>>-some m k s x h = rw (h, ◌>>◌)

-- What holds after the first action, and which the second keeps, holds after both.
pub >>-keeps {ℓ} :
    (P : Stream → Type ℓ) (m k : Action) (s : Stream)
    → P (m s).0
    → (P (m s).0 → P (k (m s).0).0)
    → P ((m >> k) s).0
>>-keeps P m k s h keep = elim (Option-cases (m s).1) [
  | inl e ↦ rw (>>-none m k s e) (keep h)
  | inr (x, e) ↦ rw (>>-some m k s x e) h
]
