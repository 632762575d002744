-- ===== src/Events.antt =====
-- session.go: what `eventMu` guards: the numbered events of a session, their subscribers, and the
-- counts of unsupported sequences.
pub mod History
pub mod Subscribers
mod Tests
use tuicast.Prelude.{
  ℕ, ◌+◌, ◌%◌, ◌^◌, Bool, true, false, Option, none, some, List, [], ◌∷◌, ◌++◌, ltb, ◌==◌,
  if◌then◌else◌, length, get_or, set, drop, Bytes,
}
use tuicast.Ansi.State.{TerminalEvent}
use tuicast.Ansi.Control.{same_bytes}

abbrev pub retained_events : ℕ
retained_events = 256

abbrev pub tracked_unsupported_sequences : ℕ
tracked_unsupported_sequences = 256

-- The capacity of a subscriber's channel.
abbrev pub event_capacity : ℕ
event_capacity = 64

pub record UnsupportedSequence : Type 0 where
  pub sequence : Bytes
  pub count : ℕ

-- A registered subscriber: what its channel holds.
pub record Subscriber : Type 0 where
  pub id : ℕ
  pub queue : List TerminalEvent

-- The maps are a list of subscribers, whose order the code does not use, and a function.
pub record EventLog : Type 0 where
  pub event_sequence : ℕ
  pub next_event_subscriber : ℕ
  pub event_subscribers : List Subscriber
  pub event_history : List TerminalEvent
  pub unsupported : List UnsupportedSequence
  pub unsupported_index : Bytes → Option ℕ

abbrev pub new_event_log : EventLog
new_event_log = record {
  event_sequence = 0;
  next_event_subscriber = 0;
  event_subscribers = [];
  event_history = [];
  unsupported = [];
  unsupported_index = λ _. none;
}

-- The loop of `publishEvent` over the subscribers: one whose channel is full is closed.
unfoldable pub offer : TerminalEvent → List Subscriber → List Subscriber
offer event [] = []
offer event (s ∷ subscribers) =
    let rest = offer event subscribers in
    if ltb (length s.queue) event_capacity
    then record s { queue = s.queue ++ event ∷ [] } ∷ rest
    else rest

unfoldable pub retain : TerminalEvent → List TerminalEvent → List TerminalEvent
retain event history =
    (if length history == retained_events then drop 1 history else history) ++ event ∷ []

abbrev pub numbered : EventLog → TerminalEvent → TerminalEvent
numbered log event = record event { sequence = (log.event_sequence + 1) % 2 ^ 64 }

unfoldable pub publish_event : TerminalEvent → EventLog → EventLog
publish_event event log = record log {
  event_sequence = (log.event_sequence + 1) % 2 ^ 64;
  event_history = retain (numbered log event) log.event_history;
  event_subscribers = offer (numbered log event) log.event_subscribers;
}

-- The loop of `EventsAfter`.
unfoldable pub later_than : ℕ → List TerminalEvent → List TerminalEvent
later_than sequence [] = []
later_than sequence (event ∷ events) =
    let rest = later_than sequence events in
    if ltb sequence event.sequence then event ∷ rest else rest

unfoldable pub events_after : ℕ → EventLog → List TerminalEvent
events_after sequence log = later_than sequence log.event_history

-- `Events`, for a session that is not done; the identifier is the result.
unfoldable pub subscribe : EventLog → ℕ × EventLog
subscribe log =
    let id = (log.next_event_subscriber + 1) % 2 ^ 64 in
    (
      id,
      record log {
        next_event_subscriber = id;
        event_subscribers = record { id = id; queue = [] } ∷ log.event_subscribers;
      },
    )

unfoldable pub without : ℕ → List Subscriber → List Subscriber
without id [] = []
without id (s ∷ subscribers) =
    let rest = without id subscribers in if s.id == id then rest else s ∷ rest

-- The end of the goroutine of `Events`, when the context or the session ends.
unfoldable pub unsubscribe : ℕ → EventLog → EventLog
unsubscribe id log = record log { event_subscribers = without id log.event_subscribers }

-- A receive from the subscriber's channel.
unfoldable pub receive_from : ℕ → List Subscriber → List Subscriber
receive_from id [] = []
receive_from id (s ∷ subscribers) =
    (if s.id == id then record s { queue = drop 1 s.queue } else s) ∷ receive_from id subscribers

abbrev pub receive : ℕ → EventLog → EventLog
receive id log = record log { event_subscribers = receive_from id log.event_subscribers }

abbrev no_sequence : UnsupportedSequence
no_sequence = record { sequence = []; count = 0 }

-- `s.unsupported[index].Count++`
abbrev pub count_up : ℕ → List UnsupportedSequence → List UnsupportedSequence
count_up index counted = set counted index (record (get_or counted index no_sequence) {
  count = ((get_or counted index no_sequence).count + 1) % 2 ^ 64;
})

-- `recordUnsupported` for what the map gives.
unfoldable pub record_at : Option ℕ → Bytes → EventLog → Bool × EventLog
record_at (some index) sequence log =
    (false, record log { unsupported = count_up index log.unsupported })
record_at none sequence log =
    if length log.unsupported == tracked_unsupported_sequences then (false, log) else (
      true,
      record log {
        unsupported = log.unsupported ++ record { sequence = sequence; count = 1 } ∷ [];
        unsupported_index = λ key.
            if same_bytes key sequence
            then some (length log.unsupported)
            else log.unsupported_index key;
      },
    )

unfoldable pub record_unsupported : Bytes → EventLog → Bool × EventLog
record_unsupported sequence log = record_at (log.unsupported_index sequence) sequence log
