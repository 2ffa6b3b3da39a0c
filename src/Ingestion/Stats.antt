-- ===== src/Ingestion/Stats.antt =====
-- `IngestionStats`: counters, sequence tracking and the latency histogram. The clock's reading is an
-- argument; the deltas that serve the printed lines stand in Stats/Periodic.antt.
pub mod Gaps
pub mod Latency
pub mod Periodic
mod Tests
use mdfh_distrib.Common.{
  ℕ, zero, suc, ◌+◌, ◌-◌, ◌/◌, Bool, true, false, List, [], ◌∷◌, ltb, leb, ◌==◌, if◌then◌else◌,
  get_or, set, replicate,
}
use mdfh_distrib.Common.Word.{u64, sub64}
use mdfh_distrib.Ring.{Slot}

-- Counters are `uint64_t`. `latency_buckets` counts microseconds 0 to 999, then the overflow.
pub record IngestionStats : Type 0 where
  pub messages_received : ℕ
  pub messages_processed : ℕ
  pub messages_dropped : ℕ
  pub bytes_received : ℕ
  pub first_message_seen : Bool
  pub expected_seq : ℕ
  pub gap_count : ℕ
  pub latency_buckets : List ℕ

abbrev pub initial : IngestionStats
initial = record {
  messages_received = 0;
  messages_processed = 0;
  messages_dropped = 0;
  bytes_received = 0;
  first_message_seen = false;
  expected_seq = 0;
  gap_count = 0;
  latency_buckets = replicate 1001 0;
}

unfoldable pub record_bytes_received : ℕ → IngestionStats → IngestionStats
record_bytes_received bytes s = record s { bytes_received = u64 (s.bytes_received + bytes) }

unfoldable pub record_message_received : IngestionStats → IngestionStats
record_message_received s = record s { messages_received = u64 (s.messages_received + 1) }

unfoldable pub record_message_dropped : IngestionStats → IngestionStats
record_message_dropped s = record s { messages_dropped = u64 (s.messages_dropped + 1) }

-- The first message sets the expectation to its own number; each later one is compared with the
-- expectation, and sets it to its own number plus one.
abbrev pub track_sequence : ℕ → IngestionStats → IngestionStats
track_sequence seq s =
    if s.first_message_seen
    then record s {
      gap_count = if seq == s.expected_seq then s.gap_count else u64 (s.gap_count + 1);
      expected_seq = u64 (seq + 1);
    }
    else record s { expected_seq = seq; first_message_seen = true }

-- the bucket of a latency
abbrev pub bucket : ℕ → ℕ → ℕ
bucket now_ns rx_ts =
    let latency_us = sub64 now_ns rx_ts / 1000 in if ltb latency_us 1000 then latency_us else 1000

abbrev pub count_latency : ℕ → IngestionStats → IngestionStats
count_latency i s = record s {
  latency_buckets = set s.latency_buckets i (u64 (get_or s.latency_buckets i 0 + 1));
}

unfoldable pub record_message_processed : ℕ → Slot → IngestionStats → IngestionStats
record_message_processed now_ns slot s =
    count_latency (bucket now_ns slot.rx_ts) (
      track_sequence slot.raw.seq
        (record s { messages_processed = u64 (s.messages_processed + 1) }))

-- The loop of `calculate_percentile` from bucket `i` on; `target` is the truncated product of the
-- number of samples and the percentile, which is computed in floating point.
pub scan_buckets : ℕ → ℕ → ℕ → List ℕ → ℕ
scan_buckets target count i [] = 0
scan_buckets target count i (b ∷ bs) =
    let count' = u64 (count + b) in
    let rest = scan_buckets target count' (i + 1) bs in
    if leb target count' then if leb 1000 i then 1000 else i else rest

unfoldable pub calculate_percentile : ℕ → IngestionStats → ℕ
calculate_percentile target s = scan_buckets target 0 0 s.latency_buckets

-- A slot with the clock's reading when it is processed, and a run of such calls.
abbrev pub Sample : Type 0
Sample = ℕ × Slot

unfoldable pub process_all : List Sample → IngestionStats → IngestionStats
process_all [] s = s
process_all ((now, slot) ∷ rest) s = process_all rest (record_message_processed now slot s)
