-- ===== src/Recorder/Tests.antt =====
-- Runs of the recorder model.
use tuicast.Prelude.{ℕ, ◌≡◌, List, [], ◌∷◌, Bytes, replicate, length, length-replicate, arith}
use tuicast.Recorder.{FlightRecorder, flight_output, new_flight_recorder, evict}
use tuicast.Recorder.Eviction.{Evicted, evict-Evicted}
use tuicast.Recorder.Bounds.{Entry, wrote, resized, record_all, history_of, Keeps, recording-Keeps}

abbrev entries : List Entry
entries = wrote 5 (b'a' ∷ b'b' ∷ []) 1 ∷ resized 6 100 30 ∷ wrote 9 (b'c' ∷ []) 2 ∷ []

recording-Keeps_example :
    Keeps 3 80 24 (history_of 3 entries) (record_all entries (new_flight_recorder 3 80 24))
recording-Keeps_example = recording-Keeps entries 3 80 24

flood : Bytes
flood = replicate 65537 b'x'

length-flood : length flood ≡ 65537
unfolding flood
length-flood = length-replicate {A = ℕ} 65537 b'x'

-- A recorder over its bound: its oldest record alone holds too much.
abbrev over : FlightRecorder
over = record {
  start = 0;
  width = 80;
  height = 24;
  dropped_bytes = 0;
  bytes = 65539;
  records =
      record {
        kind = flight_output;
        offset = 0;
        bytes = flood;
        revision = 1;
        width = 0;
        height = 0;
      }
      ∷ record {
        kind = flight_output;
        offset = 4;
        bytes = b'a' ∷ b'b' ∷ [];
        revision = 2;
        width = 0;
        height = 0;
      }
      ∷ [];
}

evict-Evicted_example : Evicted over.records over (evict over)
evict-Evicted_example = evict-Evicted over (omega (arith, length-flood))
