-- ===== src/Session/Heard.antt =====
-- session.go: what a session makes of the host's output and of the sizes that callers ask for,
-- described without the session's locks, errors and channels.
pub mod Steps
pub mod Reads
use tuicast.Prelude.{
  ℕ, ◌≡◌, refl, sym, ap, ◌∙◌, Bool, true, false, ◌||◌, Option, none, some, List, [], ◌∷◌, ◌++◌,
  if◌then◌else◌, Bytes, append_assoc, append-nil,
}
use tuicast.Prelude.Int.{ℤ, pos_part}
use tuicast.Ansi.State.{Terminal, TerminalEvent}
use tuicast.Ansi.State as State
use tuicast.Ansi.Control.{Event, write}
use tuicast.Telnet.Stream.{StreamError}
use tuicast.Recorder.{FlightRecord}
use tuicast.Recorder.Bounds.{Keeps, wrote, resized, entry_record}
use tuicast.Events.{EventLog, record_unsupported, publish_event, new_event_log}
use tuicast.Session.{Session}
use tuicast.Session.Reader.{is_unsupported}

-- One read of the stream, one call of `Resize`, or one of `Close`.
pub data Item : Type 0 where
  hears : ℕ → Bytes → Item
  asks : ℕ → ℤ → ℤ → Item
  leaves : Item

abbrev pub heard : List (ℕ × Bytes × Option StreamError) → List Item
heard [] = []
heard ((now, bytes, read_err) ∷ reads) = hears now bytes ∷ heard reads

-- What there is to see of a session that has heard some items: `told` are the terminal's events.
pub record View (P : Type 0) : Type 0 where
  pub terminal : Terminal
  pub parser : P
  pub leaving : Bool
  pub history : List FlightRecord
  pub told : List TerminalEvent

-- An event is published, but for an unsupported sequence that was seen or cannot be tracked.
abbrev pub tell : TerminalEvent → EventLog → EventLog
tell event log =
    if is_unsupported event.kind
    then (let (fresh, counted) = record_unsupported event.text log in
        if fresh then publish_event event counted else counted)
    else publish_event event log

unfoldable pub tell_all : List TerminalEvent → EventLog → EventLog
tell_all [] log = log
tell_all (event ∷ events) log = tell_all events (tell event log)

module _ {P : Type 0} (string_width : ℕ → ℤ) (parse : Bytes → P → List Event × P)
    (on_resize : ℤ → ℤ → Option StreamError) (start : ℕ) where
  -- Output is parsed and written, its record holds the revision that the write left, and the events
  -- are drained.
  abbrev pub written : ℕ → Bytes → View P → View P
  written now [] v = v
  written now (b ∷ bytes) v =
      let (events, parser) = parse (b ∷ bytes) v.parser in
      let t = write string_width events v.terminal in
      record {
        terminal = record t { events = [] };
        parser = parser;
        leaving = v.leaving;
        history = v.history ++ entry_record start (wrote now (b ∷ bytes) t.revision) ∷ [];
        told = v.told ++ t.events;
      }

  abbrev pub fitted : ℕ → ℤ → ℤ → Option Terminal → View P → View P
  fitted now width height none v = v
  fitted now width height (some t) v = record v {
    terminal = t;
    history = v.history ++ entry_record start (resized now (pos_part width) (pos_part height)) ∷ [];
  }

  -- The far end may refuse a size.
  abbrev pub asked : ℕ → ℤ → ℤ → Option StreamError → View P → View P
  asked now width height (some e) v = v
  asked now width height none v = fitted now width height (State.resize width height v.terminal) v

  unfoldable pub view : Item → View P → View P
  view (hears now bytes) v = written now bytes v
  view (asks now width height) v =
      if v.leaving then v else asked now width height (on_resize width height) v
  view leaves v = record v { leaving = true }

  unfoldable pub view_all : List Item → View P → View P
  view_all [] v = v
  view_all (i ∷ items) v = view_all items (view i v)

  pub view_all-append :
      (xs ys : List Item) (v : View P) → view_all (xs ++ ys) v ≡ view_all ys (view_all xs v)
  unfolding view_all
  view_all-append [] ys v = refl
  view_all-append (x ∷ xs) ys v = view_all-append xs ys (view x v)

  -- The session shows what there is to see, and its log is what comes of publishing some events.
  pub record Publishes (w h : ℕ) (v : View P) (published : List TerminalEvent) (s : Session P)
      : Type 0 where
    pub terminal_is : s.terminal ≡ v.terminal
    pub parser_is : s.parser ≡ v.parser
    pub leaving_is : s.done ≡ false → s.closing ≡ v.leaving
    pub once_is : s.close_once ≡ s.closing
    pub far_end_is : s.stream.on_resize ≡ on_resize
    pub keeps : Keeps start w h v.history s.recorder
    pub log_is : s.log ≡ tell_all published new_event_log
    pub unwatched : s.log.event_subscribers ≡ []

  -- The events are published, in their order; a session that is done may miss the last ones.
  pub record Shows (w h : ℕ) (v : View P) (s : Session P) : Type 0 where
    pub published : List TerminalEvent
    pub unpublished : List TerminalEvent
    pub publishes : Publishes w h v published s
    pub told_is : v.told ≡ published ++ unpublished
    pub all_told : s.done ≡ false → unpublished ≡ []

  -- Of the items, in their order, the session has taken all, or is done and has taken the first ones.
  pub record Explains (w h : ℕ) (items : List Item) (v : View P) (s : Session P) : Type 0 where
    pub taken : List Item
    pub missed : List Item
    pub items_are : items ≡ taken ++ missed
    pub none_missed : s.done ≡ false → missed ≡ []
    pub shows : Shows w h (view_all taken v) s
