-- ===== src/Recorder.antt =====
-- flightrecorder.go: the bounded recording of a session's most recent host output.
pub mod Bounds
pub mod Eviction
mod Tests
use tuicast.Prelude.{
  ℕ, ◌+◌, ◌-◌, ◌*◌, ◌%◌, ◌^◌, Bool, ◌||◌, List, [], ◌∷◌, ◌++◌, ltb, if◌then◌else◌, length, Bytes,
}

abbrev pub flight_recorder_bytes : ℕ
flight_recorder_bytes = 64 * 1024

abbrev pub flight_recorder_records : ℕ
flight_recorder_records = 4096

pub data FlightRecordType : Type 0 where
  flight_output flight_resize : FlightRecordType

-- Instants are nanoseconds on the monotonic clock, none of them before the session's start.
pub record FlightRecord : Type 0 where
  pub kind : FlightRecordType
  pub offset : ℕ
  pub bytes : Bytes
  pub revision : ℕ
  pub width : ℕ
  pub height : ℕ

pub record FlightRecorder : Type 0 where
  pub start : ℕ
  pub width : ℕ
  pub height : ℕ
  pub dropped_bytes : ℕ
  pub bytes : ℕ
  pub records : List FlightRecord

unfoldable pub new_flight_recorder : ℕ → ℕ → ℕ → FlightRecorder
new_flight_recorder start width height = record {
  start = start;
  width = width;
  height = height;
  dropped_bytes = 0;
  bytes = 0;
  records = [];
}

-- What one round of the loop of `evict` does with the oldest record.
unfoldable pub drop_record : FlightRecordType → FlightRecord → FlightRecorder → FlightRecorder
drop_record flight_resize x r = record r { width = x.width; height = x.height }
drop_record flight_output x r = record r {
  bytes = r.bytes - length x.bytes;
  dropped_bytes = (r.dropped_bytes + length x.bytes) % 2 ^ 64;
}

-- The loop's test, for the records that are left.
abbrev pub too_large : FlightRecorder → List FlightRecord → Bool
too_large r xs = ltb flight_recorder_bytes r.bytes || ltb flight_recorder_records (length xs)

-- The loop of `evict`, over the records that are left.
unfoldable pub evict_from : List FlightRecord → FlightRecorder → FlightRecorder
evict_from [] r = record r { records = [] }
evict_from (x ∷ xs) r =
    let rest = evict_from xs (drop_record x.kind x r) in
    if too_large r (x ∷ xs) then rest else record r { records = x ∷ xs }

unfoldable pub evict : FlightRecorder → FlightRecorder
evict r = evict_from r.records r

-- `output`; `revision` is what `apply` returns.
unfoldable pub output : ℕ → Bytes → ℕ → FlightRecorder → FlightRecorder
output at bytes revision r = evict (record r {
  records =
      r.records
      ++ record {
        kind = flight_output;
        offset = at - r.start;
        bytes = bytes;
        revision = revision;
        width = 0;
        height = 0;
      }
        ∷ [];
  bytes = r.bytes + length bytes;
})

unfoldable pub resize : ℕ → ℕ → ℕ → FlightRecorder → FlightRecorder
resize at width height r = evict (record r {
  records =
      r.records
      ++ record {
        kind = flight_resize;
        offset = at - r.start;
        bytes = [];
        revision = 0;
        width = width;
        height = height;
      }
        ∷ [];
})

-- `recording`, without the profile and the unsupported sequences, which it passes on.
pub record FlightRecording : Type 0 where
  pub start : ℕ
  pub captured : ℕ
  pub width : ℕ
  pub height : ℕ
  pub dropped_bytes : ℕ
  pub records : List FlightRecord

unfoldable pub recording : ℕ → FlightRecorder → FlightRecording
recording at r = record {
  start = r.start;
  captured = at - r.start;
  width = r.width;
  height = r.height;
  dropped_bytes = r.dropped_bytes;
  records = r.records;
}
