-- ===== src/Events/Tests.antt =====
-- Runs of the events of a session.
use tuicast.Prelude.{◌≡◌, ◌-◌, List, [], ◌∷◌, max, length, drop, arith}
use tuicast.Ansi.State.{TerminalEvent, EventType}
use tuicast.Events.{new_event_log, events_after}
use tuicast.Events.History.{publish_all, number, events_after_lem}
use tuicast.Events.Subscribers.{
  Operation, IsCurrent, operate_all, subscribes, publishes, receives, unsubscribes, counts,
  session-IsCurrent,
}

abbrev bell_event : TerminalEvent
bell_event = record { sequence = 0; kind = EventType.bell; text = [] }

abbrev unknown_event : TerminalEvent
unknown_event = record { sequence = 0; kind = EventType.unsupported; text = b'x' ∷ [] }

abbrev two_events : List TerminalEvent
two_events = bell_event ∷ unknown_event ∷ []

events_after_lem_example :
    events_after 1 (publish_all two_events new_event_log)
    ≡ drop (max 1 (length two_events - 256)) (number 1 two_events)
events_after_lem_example = events_after_lem two_events 1 (omega arith)

-- A channel is read between two events, and another one is closed.
abbrev operations : List Operation
operations =
    subscribes
    ∷ publishes bell_event
    ∷ subscribes
    ∷ receives 1
    ∷ publishes unknown_event
    ∷ counts (b'x' ∷ [])
    ∷ unsubscribes 2
    ∷ []

session-IsCurrent_example : IsCurrent (operate_all operations new_event_log)
session-IsCurrent_example = session-IsCurrent operations
