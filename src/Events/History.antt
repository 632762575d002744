-- ===== src/Events/History.antt =====
-- session.go: the retained events, against all that were published.
use tuicast.Prelude.{
  ℕ, zero, suc, ◌+◌, ◌-◌, ◌%◌, ◌^◌, ◌≤◌, ◌<◌, ◌≡◌, refl, sym, ap, ◌∙◌, max, List, [], ◌∷◌, ◌++◌,
  length, drop, arith, ltb, ◌==◌, append_assoc, append-nil, length-append, length-drop, Bool-cases,
  inl, inr,
}
use tuicast.Ansi.State.{TerminalEvent}
use tuicast.Events.{EventLog, new_event_log, publish_event, retain, later_than, events_after}

module _ {A : Type 0} where
  pub drop-append : (k : ℕ) (xs ys : List A) → k ≤ length xs → drop k (xs ++ ys) ≡ drop k xs ++ ys
  drop-append zero xs ys h = refl
  drop-append (suc k) [] ys h = absurd (omega (arith, h))
  drop-append (suc k) (x ∷ xs) ys h = drop-append k xs ys (omega (arith, h))

  pub drop-nil : (k : ℕ) → drop {A = A} k [] ≡ []
  drop-nil zero = refl
  drop-nil (suc k) = refl

  pub drop_add : (j k : ℕ) (xs : List A) → drop j (drop k xs) ≡ drop (k + j) xs
  drop_add j zero xs = let e : j ≡ 0 + j = omega arith in ap (λ i. drop i xs) e
  drop_add j (suc k) [] = drop-nil j ∙ sym (drop-nil (suc k + j))
  drop_add j (suc k) (x ∷ xs) =
      let e : suc (k + j) ≡ suc k + j = omega arith in drop_add j k xs ∙ ap (λ i. drop i (x ∷ xs)) e

  pub drop-drop : (k : ℕ) (xs : List A) → drop 1 (drop k xs) ≡ drop (suc k) xs
  drop-drop zero xs = refl
  drop-drop (suc k) [] = refl
  drop-drop (suc k) (x ∷ xs) = drop-drop k xs

-- The events with the numbers from `from` on.
abbrev pub number : ℕ → List TerminalEvent → List TerminalEvent
number from [] = []
number from (event ∷ events) = record event { sequence = from } ∷ number (from + 1) events

abbrev pub publish_all : List TerminalEvent → EventLog → EventLog
publish_all [] log = log
publish_all (event ∷ events) log = publish_all events (publish_event event log)

-- `log` holds the end of `published`.
record Holds (published : List TerminalEvent) (log : EventLog) : Type 0 where
  sequence_is : log.event_sequence ≡ length published
  history_is : log.event_history ≡ drop (length published - 256) published

retain-drop :
    (event : TerminalEvent) (published : List TerminalEvent)
    → retain event (drop (length published - 256) published)
      ≡ drop (length (published ++ event ∷ []) - 256) (published ++ event ∷ [])
unfolding retain
retain-drop event published =
    let sized = length-append published (event ∷ []) in
    let k = length published - 256 in
    let more = published ++ event ∷ [] in
    elim (Bool-cases (length (drop k published) == 256)) [
      | inl e ↦ rw e (
          let full : 256 ≤ length published = ground (arith, length-drop k published) in
          let next : suc k ≡ length more - 256 = omega (arith, full, sized) in
          ap (λ l. l ++ event ∷ []) (drop-drop k published)
          ∙ sym (drop-append (suc k) published (event ∷ []) (omega (arith, full)))
          ∙ ap (λ j. drop j more) next)
      | inr e ↦ rw e (
          let short : length published < 256 = ground (arith, length-drop k published) in
          let none_gone : k ≡ length more - 256 = omega (arith, short, sized) in
          sym (drop-append k published (event ∷ []) (omega arith))
          ∙ ap (λ j. drop j more) none_gone)
    ]

publish_event-Holds :
    (event : TerminalEvent) (published : List TerminalEvent) (log : EventLog) (n : ℕ)
    → n ≡ length published
    → n + 1 < 2 ^ 64
    → Holds published log
    → Holds (published ++ record event { sequence = n + 1 } ∷ []) (publish_event event log)
unfolding publish_event
publish_event-Holds event published log n e h k =
    let next : (log.event_sequence + 1) % 2 ^ 64 ≡ n + 1 = omega (arith, h, e, k.sequence_is) in
    let sized = length-append published (record event { sequence = n + 1 } ∷ []) in
    record {
      sequence_is = omega (arith, next, sized, e);
      history_is =
          ap (λ m. retain (record event { sequence = m }) log.event_history) next
          ∙ ap (retain (record event { sequence = n + 1 })) k.history_is
          ∙ retain-drop (record event { sequence = n + 1 }) published;
    }

length-number :
    (from : ℕ) (events : List TerminalEvent) → length (number from events) ≡ length events
length-number from [] = refl
length-number from (event ∷ events) = ap suc (length-number (from + 1) events)

publish_all-Holds :
    (events published : List TerminalEvent) (log : EventLog) (n : ℕ)
    → n ≡ length published
    → n + length events < 2 ^ 64
    → Holds published log
    → Holds (published ++ number (n + 1) events) (publish_all events log)
publish_all-Holds [] published log n e h k = rw append-nil k
publish_all-Holds (event ∷ events) published log n e h k =
    let first = record event { sequence = n + 1 } in
    let sized : n + 1 ≡ length (published ++ first ∷ []) =
      omega (arith, e, length-append published (first ∷ [])) in
    rw (← append_assoc published (first ∷ []) (number (n + 1 + 1) events)) (
      publish_all-Holds events (published ++ first ∷ []) (publish_event event log) (n + 1) sized
        (omega (arith, h)) (publish_event-Holds event published log n e (omega (arith, h)) k))

drop-number :
    (k from : ℕ) (events : List TerminalEvent)
    → drop k (number from events) ≡ number (from + k) (drop k events)
drop-number zero from events = ap (λ j. number j events) (omega arith)
drop-number (suc k) from [] = refl
drop-number (suc k) from (event ∷ events) =
    drop-number k (from + 1) events ∙ ap (λ j. number j (drop k events)) (omega arith)

-- Of events with contiguous numbers, those above a number are an end of them.
later_than-number :
    (n from : ℕ) (events : List TerminalEvent)
    → later_than n (number from events) ≡ drop (n + 1 - from) (number from events)
unfolding later_than
later_than-number n from [] = sym (drop-nil (n + 1 - from))
later_than-number n from (event ∷ events) =
    let all = number from (event ∷ events) in
    elim (Bool-cases (ltb n from)) [
      | inl e ↦ rw e (
          let none_gone : 0 ≡ n + 1 - from = ground arith in
          let others : n + 1 - (from + 1) ≡ 0 = ground arith in
          ap (◌∷◌ (record event { sequence = from })) (
            later_than-number n (from + 1) events
            ∙ ap (λ j. drop j (number (from + 1) events)) others)
          ∙ ap (λ j. drop j all) none_gone)
      | inr e ↦ rw e (
          let one_gone : suc (n + 1 - (from + 1)) ≡ n + 1 - from = ground arith in
          later_than-number n (from + 1) events ∙ ap (λ j. drop j all) one_gone)
    ]

-- Of the events of a session, numbered from 1, `EventsAfter` gives those above the number, but for
-- those that are older than the last 256; for fewer than 2^64 events.
pub events_after_lem :
    (events : List TerminalEvent) (n : ℕ)
    → length events < 2 ^ 64
    → events_after n (publish_all events new_event_log)
      ≡ drop (max n (length events - 256)) (number 1 events)
unfolding events_after
events_after_lem events n h =
    let k =
      publish_all-Holds events [] new_event_log 0 refl (omega (arith, h))
        (record { sequence_is = refl; history_is = refl }) in
    let gone = length (number 1 events) - 256 in
    let all = number 1 events in
    let left : gone + (n + 1 - (1 + gone)) ≡ max n (length events - 256) =
      omega (arith, length-number 1 events) in
    ap (later_than n) (k.history_is ∙ drop-number gone 1 events)
    ∙ later_than-number n (1 + gone) (drop gone events)
    ∙ ap (drop (n + 1 - (1 + gone))) (sym (drop-number gone 1 events))
    ∙ drop_add (n + 1 - (1 + gone)) gone all
    ∙ ap (λ i. drop i all) left
