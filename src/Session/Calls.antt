-- ===== src/Session/Calls.antt =====
-- session.go: a session as its callers and its reader use it, one operation at a time.
pub mod Runs
pub mod Explained
use tuicast.Prelude.{
  Bool-cases, inl, inr, append_assoc, append-nil, ℕ, ◌≡◌, refl, sym, ap, ◌∙◌, true, false, ◌||◌,
  Option, none, some, List, [], ◌∷◌, ◌++◌, if◌then◌else◌, Bytes, arith,
}
use tuicast.Prelude.Int.{ℤ, pos_part}
use tuicast.Ansi.State.{Terminal, TerminalEvent, Profile, new_terminal}
use tuicast.Ansi.State as State
use tuicast.Ansi.Control.{Event}
use tuicast.Ansi.Valid.{if_both}
use tuicast.Ansi.Valid.Resizing.{new_terminal-IsValid}
use tuicast.Telnet.Stream.{StreamError}
use tuicast.Keys.{Key, KeyModifier, KeyPress, new_key_press}
use tuicast.Keys.Encode.{encode_key_press}
use tuicast.Recorder.Bounds.{new_flight_recorder-Keeps, resized, record_entry-Keeps}
use tuicast.Session.{
  Session, SessionError, pressing_key, wrapped, send_encoded, press_with, resize_with, resize_local,
  SessionStream, new_session, send, press, resize, begin_close, signal_change,
}
use tuicast.Session.Reader.{read_loop}
use tuicast.Session.Heard.{
  Item, hears, asks, leaves, heard, View, view, view_all, view_all-append, asked, fitted, Publishes,
  Shows, Explains,
}
use tuicast.Session.Heard.Steps.{Told, send-Told, press_with-Told, signal_change-Told}
use tuicast.Session.Heard.Reads.{read_loop-Explains}
use tuicast.Session.Integrity.{
  IsSound, send-IsSound, press_with-IsSound, resize-IsSound, begin_close-IsSound, read_loop-IsSound,
}

-- What happens to a session: the reader takes the outcomes of some reads, or a caller calls.
pub data Action : Type 0 where
  reads : List (ℕ × Bytes × Option StreamError) → Action
  sends : Bytes → Action
  presses : Key → List KeyModifier → Action
  resizes : ℕ → ℤ → ℤ → Action
  closes : Action

module _ {P : Type 0} (string_width : ℕ → ℤ) (parse : Bytes → P → List Event × P)
    (to_upper : ℕ → ℕ) where
  -- The reader has stopped once the session is done.
  unfoldable pub act : Action → Session P → Session P
  act (reads outcomes) s = if s.done then s else read_loop string_width parse outcomes s
  act (sends bytes) s = (send bytes s).0
  act (presses key modifiers) s = (press to_upper key modifiers s).0
  act (resizes now width height) s = (resize now width height s).0
  act closes s = begin_close s

  unfoldable pub act_all : List Action → Session P → Session P
  act_all [] s = s
  act_all (a ∷ actions) s = act_all actions (act a s)

  -- What the action is to somebody who sees the session.
  abbrev pub items_of : Action → List Item
  items_of (reads outcomes) = heard outcomes
  items_of (sends bytes) = []
  items_of (presses key modifiers) = []
  items_of (resizes now width height) = asks now width height ∷ []
  items_of closes = leaves ∷ []

  unfoldable pub all_items : List Action → List Item
  all_items [] = []
  all_items (a ∷ actions) = items_of a ++ all_items actions

  module _ (start w h : ℕ) where
    act-IsSound : (a : Action) (s : Session P) → IsSound start w h s → IsSound start w h (act a s)
    unfolding act press
    act-IsSound (reads outcomes) s k =
        if_both (λ (t : Session P). IsSound start w h t) s.done (λ _. k)
          (λ _. read_loop-IsSound start w h string_width parse outcomes s k)
    act-IsSound (sends bytes) s k = send-IsSound start w h bytes s k
    act-IsSound (presses key modifiers) s k =
        press_with-IsSound start w h to_upper (new_key_press key modifiers) s k
    act-IsSound (resizes now width height) s k = resize-IsSound start w h now width height s k
    act-IsSound closes s k = begin_close-IsSound start w h s k

    pub act_all-IsSound :
        (actions : List Action) (s : Session P)
        → IsSound start w h s
        → IsSound start w h (act_all actions s)
    unfolding act_all
    act_all-IsSound [] s k = k
    act_all-IsSound (a ∷ actions) s k = act_all-IsSound actions (act a s) (act-IsSound a s k)
