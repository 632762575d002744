-- ===== src/Recorder/Bounds.antt =====
-- The recorder against the whole history of what was recorded.
use tuicast.Prelude.{
  ℕ, ◌+◌, ◌-◌, ◌%◌, ◌^◌, ◌≤◌, ◌≡◌, refl, sym, ap, ◌∙◌, List, [], ◌∷◌, ◌++◌, length, Bytes, arith,
  append-nil, append_assoc, length-append, some, inl, inr,
}
use tuicast.Recorder.{
  flight_output, flight_resize, FlightRecord, FlightRecorder, flight_recorder_bytes,
  flight_recorder_records, new_flight_recorder, evict, output, resize,
}
use tuicast.Recorder.Eviction.{
  size_of, total, width_at, height_at, width_after, height_after, evict-Evicted, last_of, Overfull,
}

pub total-append : (xs ys : List FlightRecord) → total (xs ++ ys) ≡ total xs + total ys
total-append [] ys = omega arith
total-append (x ∷ xs) ys = omega (arith, total-append xs ys)

pub width_after-append :
    (xs ys : List FlightRecord) (w : ℕ)
    → width_after (xs ++ ys) w ≡ width_after ys (width_after xs w)
width_after-append [] ys w = refl
width_after-append (x ∷ xs) ys w = width_after-append xs ys (width_at x.kind x w)

pub height_after-append :
    (xs ys : List FlightRecord) (h : ℕ)
    → height_after (xs ++ ys) h ≡ height_after ys (height_after xs h)
height_after-append [] ys h = refl
height_after-append (x ∷ xs) ys h = height_after-append xs ys (height_at x.kind x h)

-- `r` keeps the end of `history`, a session that began with the dimensions `w` and `h`: its
-- dimensions are those in effect before the first record kept, its count of dropped bytes is that
-- of the records before it (mod 2^64), and it fits the bounds, but would not with one record more.
pub record Keeps (start w h : ℕ) (history : List FlightRecord) (r : FlightRecorder) : Type 0 where
  pub gone : List FlightRecord
  pub start_is : r.start ≡ start
  pub history_is : history ≡ gone ++ r.records
  pub width_is : r.width ≡ width_after gone w
  pub height_is : r.height ≡ height_after gone h
  pub dropped_is : r.dropped_bytes % 2 ^ 64 ≡ total gone % 2 ^ 64
  pub bytes_is : r.bytes ≡ total r.records
  pub bytes_fit : r.bytes ≤ flight_recorder_bytes
  pub records_fit : length r.records ≤ flight_recorder_records
  pub needed : (x : FlightRecord) → last_of gone ≡ some x → Overfull (x ∷ r.records)

pub new_flight_recorder-Keeps :
    (start width height : ℕ) → Keeps start width height [] (new_flight_recorder start width height)
unfolding new_flight_recorder
new_flight_recorder-Keeps start width height = record {
  gone = [];
  start_is = refl;
  history_is = refl;
  width_is = refl;
  height_is = refl;
  dropped_is = refl;
  bytes_is = refl;
  bytes_fit = omega arith;
  records_fit = omega arith;
  needed = λ x e. cc;
}

last_of-append :
    (gone : List FlightRecord) (d : FlightRecord) (dropped : List FlightRecord)
    → last_of (gone ++ d ∷ dropped) ≡ last_of (d ∷ dropped)
last_of-append [] d dropped = refl
last_of-append (g ∷ []) d dropped = refl
last_of-append (g ∷ g' ∷ gone) d dropped = last_of-append (g' ∷ gone) d dropped

-- What was too large is too large with a record more.
Overfull-append : (xs ys : List FlightRecord) → Overfull xs → Overfull (xs ++ ys)
Overfull-append xs ys (inl h) = inl (omega (arith, h, total-append xs ys))
Overfull-append xs ys (inr h) = inr (omega (arith, h, length-append xs ys))

needed-append :
    (gone dropped old new kept : List FlightRecord)
    → old ++ new ≡ dropped ++ kept
    → ((x : FlightRecord) → last_of gone ≡ some x → Overfull (x ∷ old))
    → ((x : FlightRecord) → last_of dropped ≡ some x → Overfull (x ∷ kept))
    → (x : FlightRecord) → last_of (gone ++ dropped) ≡ some x
    → Overfull (x ∷ kept)
needed-append gone [] old new kept split before after x e =
    rw (← split) (Overfull-append (x ∷ old) new (before x (rw append-nil at e)))
needed-append gone (d ∷ dropped) old new kept split before after x e =
    after x (rw last_of-append at e)

-- A record that is added, and the eviction that follows.
added : FlightRecorder → FlightRecord → FlightRecorder
added r x = record r { records = r.records ++ x ∷ []; bytes = r.bytes + size_of x.kind x }

evict-Keeps :
    (start w h : ℕ) (history : List FlightRecord) (r : FlightRecorder) (x : FlightRecord)
    → Keeps start w h history r
    → Keeps start w h (history ++ x ∷ []) (evict (added r x))
unfolding added
evict-Keeps start w h history r x k =
    let b : r.bytes + size_of x.kind x ≡ total (r.records ++ x ∷ []) =
      omega (arith, k.bytes_is, total-append r.records (x ∷ [])) in
    let e = evict-Evicted (added r x) b in
    let cut = ap total e.splits ∙ total-append e.dropped (evict (added r x)).records in
    record {
      gone = k.gone ++ e.dropped;
      start_is = e.start_is ∙ k.start_is;
      history_is =
          ap (λ l. l ++ x ∷ []) k.history_is
          ∙ append_assoc k.gone r.records (x ∷ [])
          ∙ ap (◌++◌ k.gone) e.splits
          ∙ sym (append_assoc k.gone e.dropped (evict (added r x)).records);
      width_is =
          e.width_is
          ∙ ap (width_after e.dropped) k.width_is
          ∙ sym (width_after-append k.gone e.dropped w);
      height_is =
          e.height_is
          ∙ ap (height_after e.dropped) k.height_is
          ∙ sym (height_after-append k.gone e.dropped h);
      dropped_is = omega (arith, e.dropped_is, k.dropped_is, total-append k.gone e.dropped);
      bytes_is = omega (arith, e.bytes_is, b, cut);
      bytes_fit = e.bytes_fit;
      records_fit = e.records_fit;
      needed =
          needed-append k.gone e.dropped r.records (x ∷ []) (evict (added r x)).records e.splits
            k.needed e.needed;
    }

-- What a session does to its recorder.
pub data Entry : Type 0 where
  wrote : ℕ → Bytes → ℕ → Entry
  resized : ℕ → ℕ → ℕ → Entry

abbrev pub record_entry : Entry → FlightRecorder → FlightRecorder
record_entry (wrote at bytes revision) r = output at bytes revision r
record_entry (resized at width height) r = resize at width height r

-- The record of an entry, in a session that began at `start`.
abbrev pub entry_record : ℕ → Entry → FlightRecord
entry_record start (wrote at bytes revision) = record {
  kind = flight_output;
  offset = at - start;
  bytes = bytes;
  revision = revision;
  width = 0;
  height = 0;
}
entry_record start (resized at width height) = record {
  kind = flight_resize;
  offset = at - start;
  bytes = [];
  revision = 0;
  width = width;
  height = height;
}

abbrev pub record_all : List Entry → FlightRecorder → FlightRecorder
record_all [] r = r
record_all (e ∷ es) r = record_all es (record_entry e r)

abbrev pub history_of : ℕ → List Entry → List FlightRecord
history_of start [] = []
history_of start (e ∷ es) = entry_record start e ∷ history_of start es

record_entry-added :
    (e : Entry) (r : FlightRecorder) → record_entry e r ≡ evict (added r (entry_record r.start e))
unfolding output resize added
record_entry-added (wrote at bytes revision) r = refl
record_entry-added (resized at width height) r =
    ap
      (λ b. evict (record r {
        records = r.records ++ entry_record r.start (resized at width height) ∷ [];
        bytes = b;
      }))
      (omega arith)

pub record_entry-Keeps :
    (e : Entry) (start w h : ℕ) (history : List FlightRecord) (r : FlightRecorder)
    → Keeps start w h history r
    → Keeps start w h (history ++ entry_record start e ∷ []) (record_entry e r)
record_entry-Keeps e start w h history r k = rw record_entry-added (
    rw (← k.start_is)
      (evict-Keeps r.start w h history r (entry_record r.start e) (rw (← k.start_is) at k)))

record_all-Keeps :
    (es : List Entry) (start w h : ℕ) (history : List FlightRecord) (r : FlightRecorder)
    → Keeps start w h history r
    → Keeps start w h (history ++ history_of start es) (record_all es r)
record_all-Keeps [] start w h history r k = rw append-nil k
record_all-Keeps (e ∷ es) start w h history r k =
    rw (← append_assoc history (entry_record start e ∷ []) (history_of start es)) (
      record_all-Keeps es start w h (history ++ entry_record start e ∷ []) (record_entry e r)
        (record_entry-Keeps e start w h history r k))

-- However much a session records, the recording is the longest end of its history within both bounds,
-- starts with the dimensions in effect there, and counts (mod 2^64) the output it no longer holds.
pub recording-Keeps :
    (es : List Entry) (start width height : ℕ)
    → Keeps start width height
        (history_of start es)
        (record_all es (new_flight_recorder start width height))
recording-Keeps es start width height =
    record_all-Keeps es start width height [] _ (new_flight_recorder-Keeps start width height)
