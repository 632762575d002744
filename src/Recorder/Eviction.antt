-- ===== src/Recorder/Eviction.antt =====
-- What `evict` drops, and what it keeps.
use tuicast.Prelude.{
  ℕ, ◌+◌, ◌%◌, ◌^◌, ◌≤◌, ◌<◌, ◌≡◌, refl, ap, ◌∙◌, Option, none, some, List, [], ◌∷◌, ◌++◌, length,
  arith, Bool-cases, ◌⊎◌, inl, inr,
}
use tuicast.Recorder.{
  FlightRecordType, flight_output, flight_resize, FlightRecord, FlightRecorder,
  flight_recorder_bytes, flight_recorder_records, drop_record, too_large, evict_from, evict,
}

-- The host output that a list of records holds.
abbrev pub size_of : FlightRecordType → FlightRecord → ℕ
size_of flight_output x = length x.bytes
size_of flight_resize x = 0

abbrev pub total : List FlightRecord → ℕ
total [] = 0
total (x ∷ xs) = size_of x.kind x + total xs

-- The dimensions after the records, from those before them.
abbrev pub width_at : FlightRecordType → FlightRecord → ℕ → ℕ
width_at flight_output x w = w
width_at flight_resize x w = x.width

abbrev pub height_at : FlightRecordType → FlightRecord → ℕ → ℕ
height_at flight_output x h = h
height_at flight_resize x h = x.height

abbrev pub width_after : List FlightRecord → ℕ → ℕ
width_after [] w = w
width_after (x ∷ xs) w = width_after xs (width_at x.kind x w)

abbrev pub height_after : List FlightRecord → ℕ → ℕ
height_after [] h = h
height_after (x ∷ xs) h = height_after xs (height_at x.kind x h)

abbrev pub last_of : List FlightRecord → Option FlightRecord
last_of [] = none
last_of (x ∷ []) = some x
last_of (x ∷ y ∷ xs) = last_of (y ∷ xs)

-- Records that do not fit both bounds.
abbrev pub Overfull : List FlightRecord → Type 0
Overfull xs = (flight_recorder_bytes < total xs) ⊎ (flight_recorder_records < length xs)

-- `r'` is `r` after the oldest of `xs` were dropped as the bounds ask.
pub record Evicted (xs : List FlightRecord) (r r' : FlightRecorder) : Type 0 where
  pub dropped : List FlightRecord
  pub splits : xs ≡ dropped ++ r'.records
  pub width_is : r'.width ≡ width_after dropped r.width
  pub height_is : r'.height ≡ height_after dropped r.height
  pub bytes_is : r'.bytes + total dropped ≡ r.bytes
  pub dropped_is : r'.dropped_bytes % 2 ^ 64 ≡ (r.dropped_bytes + total dropped) % 2 ^ 64
  pub bytes_fit : r'.bytes ≤ flight_recorder_bytes
  pub records_fit : length r'.records ≤ flight_recorder_records
  pub start_is : r'.start ≡ r.start
  pub needed : (x : FlightRecord) → last_of dropped ≡ some x → Overfull (x ∷ r'.records)

drop_record-fields :
    (k : FlightRecordType) (x : FlightRecord) (r : FlightRecorder)
    → size_of k x ≤ r.bytes
    → let r' = drop_record k x r in
      (r'.width ≡ width_at k x r.width)
      × (r'.height ≡ height_at k x r.height)
      × (r'.bytes + size_of k x ≡ r.bytes)
      × (r'.dropped_bytes % 2 ^ 64 ≡ (r.dropped_bytes + size_of k x) % 2 ^ 64)
      × (r'.start ≡ r.start)
unfolding drop_record
drop_record-fields flight_output x r h = (refl, refl, omega arith, omega arith, refl)
drop_record-fields flight_resize x r h = (refl, refl, omega arith, omega arith, refl)

-- One more record in front of those that were dropped.
needed-cons :
    (dropped kept : List FlightRecord) (x : FlightRecord) {xs : List FlightRecord}
    → xs ≡ dropped ++ kept
    → Overfull (x ∷ xs)
    → ((y : FlightRecord) → last_of dropped ≡ some y → Overfull (y ∷ kept))
    → (y : FlightRecord) → last_of (x ∷ dropped) ≡ some y
    → Overfull (y ∷ kept)
needed-cons [] kept x split over old y e = let same : x ≡ y = cc in rw (← same) (rw (← split) over)
needed-cons (d ∷ dropped) kept x split over old y e = old y e

Evicted-cons :
    (x : FlightRecord) (xs : List FlightRecord) (r : FlightRecorder) {r' : FlightRecorder}
    → size_of x.kind x ≤ r.bytes
    → Overfull (x ∷ xs)
    → Evicted xs (drop_record x.kind x r) r'
    → Evicted (x ∷ xs) r r'
Evicted-cons x xs r {r'} h over e =
    let (w, h', b, d, s) = drop_record-fields x.kind x r h in
    record {
      dropped = x ∷ e.dropped;
      splits = ap (◌∷◌ x) e.splits;
      width_is = e.width_is ∙ ap (width_after e.dropped) w;
      height_is = e.height_is ∙ ap (height_after e.dropped) h';
      bytes_is = omega (arith, e.bytes_is);
      dropped_is = omega (arith, e.dropped_is);
      bytes_fit = e.bytes_fit;
      records_fit = e.records_fit;
      start_is = e.start_is ∙ s;
      needed = needed-cons e.dropped r'.records x e.splits over e.needed;
    }

evict_from-Evicted :
    (xs : List FlightRecord) (r : FlightRecorder)
    → r.bytes ≡ total xs
    → Evicted xs r (evict_from xs r)
unfolding evict_from
evict_from-Evicted [] r h = record {
  dropped = [];
  splits = refl;
  width_is = refl;
  height_is = refl;
  bytes_is = omega arith;
  dropped_is = omega arith;
  bytes_fit = omega arith;
  records_fit = omega arith;
  start_is = refl;
  needed = λ x e. cc;
}
evict_from-Evicted (x ∷ xs) r h = elim (Bool-cases (too_large r (x ∷ xs))) [
  | inl e ↦
      rw (e, evict_from)
        (Evicted-cons x xs r (omega arith) (ground arith) (
          evict_from-Evicted xs (drop_record x.kind x r)
            (omega (arith, (drop_record-fields x.kind x r (omega arith)).2))))
  | inr e ↦
      rw (e, evict_from)
        (record {
          dropped = [];
          splits = refl;
          width_is = refl;
          height_is = refl;
          bytes_is = omega arith;
          dropped_is = omega arith;
          bytes_fit = ground arith;
          records_fit = ground arith;
          start_is = refl;
          needed = λ y f. cc;
        })
]

-- Eviction drops the oldest records and no others, carries the resizes among them into the
-- starting dimensions and their bytes into the count of dropped bytes (mod 2^64), and what is left
-- fits both bounds, but would not with the last of the dropped records. The recorder's byte count must be that of its records.
pub evict-Evicted : (r : FlightRecorder) → r.bytes ≡ total r.records → Evicted r.records r (evict r)
unfolding evict
evict-Evicted r h = evict_from-Evicted r.records r h
