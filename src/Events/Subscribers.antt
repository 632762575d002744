-- ===== src/Events/Subscribers.antt =====
-- session.go: what a subscriber's channel holds, in any order of the operations on a session's events.
use tuicast.Prelude.{
  ℕ, ◌≤◌, ◌<◌, ◌≡◌, refl, sym, ap, ◌∙◌, List, [], ◌∷◌, ◌++◌, length, drop, arith, ltb, ◌==◌,
  append_assoc, append-nil, Option, none, some, length-append, length-drop, Bool-cases, inl, inr,
  Bytes,
}
use tuicast.Ansi.State.{TerminalEvent}
use tuicast.Events.{
  Subscriber, EventLog, new_event_log, offer, retain, publish_event, subscribe, without,
  unsubscribe, receive_from, receive, record_unsupported, record_at,
}
use tuicast.Events.History.{drop-append}

-- `queue` fits the channel, and is an end of `history`.
pub record IsRecent (history : List TerminalEvent) (s : Subscriber) : Type 0 where
  pub older : List TerminalEvent
  pub splits : history ≡ older ++ s.queue
  pub fits : length s.queue ≤ 64

abbrev pub AllRecent : List TerminalEvent → List Subscriber → Type 0
AllRecent history [] = Unit
AllRecent history (s ∷ subscribers) = IsRecent history s × AllRecent history subscribers

-- Every subscriber's channel holds the most recent of the retained events, without a gap.
pub record IsCurrent (log : EventLog) : Type 0 where
  pub bounded : length log.event_history ≤ 256
  pub recent : AllRecent log.event_history log.event_subscribers

length-retain :
    (event : TerminalEvent) (history : List TerminalEvent)
    → length history ≤ 256
    → length (retain event history) ≤ 256
unfolding retain
length-retain event history h = ground (
  arith,
  length-append history (event ∷ []),
  length-append (drop 1 history) (event ∷ []),
  length-drop 1 history,
)

-- What is dropped from the history was not in a channel with room left.
retain-IsRecent :
    (event : TerminalEvent) (history : List TerminalEvent) (s : Subscriber)
    → length s.queue < 64
    → IsRecent history s
    → IsRecent (retain event history) (record s { queue = s.queue ++ event ∷ [] })
unfolding retain
retain-IsRecent event history s room r = elim (Bool-cases (length history == 256)) [
  | inl e ↦ rw e (record {
    older = drop 1 r.older;
    splits =
        ap (λ h. drop 1 h ++ event ∷ []) r.splits
        ∙ ap (λ h. h ++ event ∷ [])
            (drop-append 1 r.older s.queue
              (ground (arith, ap length r.splits, length-append r.older s.queue)))
        ∙ append_assoc (drop 1 r.older) s.queue (event ∷ []);
    fits = omega (arith, room, length-append s.queue (event ∷ []));
  })
  | inr e ↦ rw e (record {
    older = r.older;
    splits = ap (λ h. h ++ event ∷ []) r.splits ∙ append_assoc r.older s.queue (event ∷ []);
    fits = omega (arith, room, length-append s.queue (event ∷ []));
  })
]

offer-AllRecent :
    (event : TerminalEvent) (history : List TerminalEvent) (subscribers : List Subscriber)
    → AllRecent history subscribers
    → AllRecent (retain event history) (offer event subscribers)
unfolding offer
offer-AllRecent event history [] r = tt
offer-AllRecent event history (s ∷ subscribers) r =
    let rest = offer-AllRecent event history subscribers r.1 in
    elim (Bool-cases (ltb (length s.queue) 64)) [
      | inl e ↦ rw e (retain-IsRecent event history s (ground arith) r.0, rest)
      | inr e ↦ rw e rest
    ]

without-AllRecent :
    (id : ℕ) (history : List TerminalEvent) (subscribers : List Subscriber)
    → AllRecent history subscribers
    → AllRecent history (without id subscribers)
unfolding without
without-AllRecent id history [] r = tt
without-AllRecent id history (s ∷ subscribers) r =
    let rest = without-AllRecent id history subscribers r.1 in
    elim (Bool-cases (s.id == id)) [ inl e ↦ rw e rest | inr e ↦ rw e (r.0, rest) ]

drop-IsRecent :
    (history : List TerminalEvent) (s : Subscriber) (queue : List TerminalEvent)
    → s.queue ≡ queue
    → IsRecent history s
    → IsRecent history (record s { queue = drop 1 queue })
drop-IsRecent history s [] e r = record {
  older = history;
  splits = sym (append-nil history);
  fits = omega arith;
}
drop-IsRecent history s (x ∷ queue) e r = record {
  older = r.older ++ x ∷ [];
  splits = r.splits ∙ ap (◌++◌ r.older) e ∙ sym (append_assoc r.older (x ∷ []) queue);
  fits = omega (arith, r.fits, ap length e);
}

receive-AllRecent :
    (id : ℕ) (history : List TerminalEvent) (subscribers : List Subscriber)
    → AllRecent history subscribers
    → AllRecent history (receive_from id subscribers)
unfolding receive_from
receive-AllRecent id history [] r = tt
receive-AllRecent id history (s ∷ subscribers) r =
    let rest = receive-AllRecent id history subscribers r.1 in
    elim (Bool-cases (s.id == id)) [
      | inl e ↦ rw e (drop-IsRecent history s s.queue refl r.0, rest)
      | inr e ↦ rw e (r.0, rest)
    ]

-- The operations on the events of a session.
pub data Operation : Type 0 where
  publishes : TerminalEvent → Operation
  subscribes : Operation
  unsubscribes receives : ℕ → Operation
  counts : Bytes → Operation

unfoldable pub operate : Operation → EventLog → EventLog
operate (publishes event) log = publish_event event log
operate subscribes log = (subscribe log).1
operate (unsubscribes id) log = unsubscribe id log
operate (receives id) log = receive id log
operate (counts sequence) log = (record_unsupported sequence log).1

unfoldable pub operate_all : List Operation → EventLog → EventLog
operate_all [] log = log
operate_all (o ∷ os) log = operate_all os (operate o log)

record_at-IsCurrent :
    (o : Option ℕ) (sequence : Bytes) (log : EventLog)
    → IsCurrent log
    → IsCurrent (record_at o sequence log).1
unfolding record_at
record_at-IsCurrent (some index) sequence log c = record { bounded = c.bounded; recent = c.recent }
record_at-IsCurrent none sequence log c = elim (Bool-cases (length log.unsupported == 256)) [
  | inl e ↦ rw e c
  | inr e ↦ rw e (record { bounded = c.bounded; recent = c.recent })
]

pub operate-IsCurrent : (o : Operation) (log : EventLog) → IsCurrent log → IsCurrent (operate o log)
unfolding operate publish_event subscribe unsubscribe record_unsupported
operate-IsCurrent (publishes event) log c = record {
  bounded = length-retain _ log.event_history c.bounded;
  recent = offer-AllRecent _ log.event_history log.event_subscribers c.recent;
}
operate-IsCurrent subscribes log c = record {
  bounded = c.bounded;
  recent = (
    record {
      older = log.event_history;
      splits = sym (append-nil log.event_history);
      fits = omega arith;
    },
    c.recent,
  );
}
operate-IsCurrent (unsubscribes id) log c = record {
  bounded = c.bounded;
  recent = without-AllRecent id _ _ c.recent;
}
operate-IsCurrent (receives id) log c = record {
  bounded = c.bounded;
  recent = receive-AllRecent id _ _ c.recent;
}
operate-IsCurrent (counts sequence) log c =
    record_at-IsCurrent (log.unsupported_index sequence) sequence log c

operate_all-IsCurrent :
    (os : List Operation) (log : EventLog) → IsCurrent log → IsCurrent (operate_all os log)
unfolding operate_all
operate_all-IsCurrent [] log c = c
operate_all-IsCurrent (o ∷ os) log c =
    operate_all-IsCurrent os (operate o log) (operate-IsCurrent o log c)

-- In whatever order events are published, subscribers come and go, and channels are read, a
-- registered subscriber's channel holds at most 64 events, and these are the most recent of the
-- retained ones, in order and without a gap; at most 256 are retained.
pub session-IsCurrent : (os : List Operation) → IsCurrent (operate_all os new_event_log)
session-IsCurrent os =
    operate_all-IsCurrent os new_event_log (record { bounded = omega arith; recent = tt })
