-- ===== src/Performance.antt =====
-- `PerformanceTracker`: the circular buffer of latency samples and the percentile. The hardware
-- counters are system calls and left out.
pub mod Capacity
pub mod Samples
pub mod Percentile
pub mod Counters
pub mod Stats
mod Tests
use mdfh_distrib.Common.{
  ℕ, zero, suc, ◌+◌, ◌-◌, ◌*◌, ◌%◌, Bool, true, false, not, ◌&&◌, ◌||◌, Option, none, some, List,
  [], ◌∷◌, ltb, leb, ◌==◌, if◌then◌else◌, bit_and, min, length, get_or, set, replicate,
}
use mdfh_distrib.Common.Word.{u64, u32, sub64}
use mdfh_distrib.Core.{is_power_of_two}

-- `struct StageTimestamps`, less its padding
pub record StageTimestamps : Type 0 where
  pub packet_rx : ℕ
  pub parse_start : ℕ
  pub parse_end : ℕ
  pub ring_push : ℕ
  pub ring_pop : ℕ
  pub process_end : ℕ

abbrev pub no_stamps : StageTimestamps
no_stamps = record {
  packet_rx = 0;
  parse_start = 0;
  parse_end = 0;
  ring_push = 0;
  ring_pop = 0;
  process_end = 0;
}

-- The fields of `PerformanceConfig` that the sampling reads.
pub record PerformanceConfig : Type 0 where
  pub enable_detailed_latency : Bool
  pub sampling_rate : ℕ
  pub max_samples : ℕ

pub record PerformanceTracker : Type 0 where
  pub config : PerformanceConfig
  pub timestamp_samples : List StageTimestamps
  pub sample_write_pos : ℕ
  pub sample_count : ℕ
  pub sample_mask : ℕ

-- `while (capacity < config_.max_samples) capacity <<= 1;` in 32 bits, on fuel: `none` while it runs.
unfoldable pub round_up : ℕ → ℕ → ℕ → Option ℕ
round_up zero max_samples capacity = none
round_up (suc fuel) max_samples capacity =
    let next = round_up fuel max_samples (u32 (capacity * 2)) in
    if ltb capacity max_samples then next else some capacity

-- The number of samples that the constructor allocates.
unfoldable pub sample_capacity : ℕ → ℕ → Option ℕ
sample_capacity fuel max_samples =
    if is_power_of_two max_samples then some max_samples else round_up fuel max_samples 1

-- The constructor, with the mask as it is left where nothing is allocated.
unfoldable pub create : ℕ → ℕ → PerformanceConfig → Option PerformanceTracker
create fuel unset config =
    let empty_tracker : PerformanceTracker = record {
      config = config;
      timestamp_samples = [];
      sample_write_pos = 0;
      sample_count = 0;
      sample_mask = unset;
    } in
    if config.enable_detailed_latency && ltb 0 config.max_samples
    then elim (sample_capacity fuel config.max_samples) [
      | none ↦ none
      | some capacity ↦ some (record empty_tracker {
        timestamp_samples = replicate capacity no_stamps;
        sample_mask = sub64 capacity 1;
      })
    ]
    else some empty_tracker

-- `record_timestamp`; `none` is the division by a sampling rate of 0.
unfoldable pub record_timestamp : StageTimestamps → PerformanceTracker → Option PerformanceTracker
record_timestamp timestamps t =
    if not t.config.enable_detailed_latency || (length t.timestamp_samples == 0)
    then some t
    else if t.config.sampling_rate == 0
    then none
    else if not (t.sample_count % t.config.sampling_rate == 0)
    then some (record t { sample_count = u64 (t.sample_count + 1) })
    else some (record t {
      sample_count = u64 (t.sample_count + 1);
      sample_write_pos = u64 (t.sample_write_pos + 1);
      timestamp_samples =
          set t.timestamp_samples (bit_and t.sample_write_pos t.sample_mask) timestamps;
    })

-- The loop of `get_current_samples`, by the rounds left.
unfoldable pub read_samples : List StageTimestamps → ℕ → ℕ → ℕ → ℕ → List StageTimestamps
read_samples samples start mask i zero = []
read_samples samples start mask i (suc rounds) =
    get_or samples (bit_and (u64 (start + i)) mask) no_stamps
    ∷ read_samples samples start mask (i + 1) rounds

unfoldable pub get_current_samples : PerformanceTracker → List StageTimestamps
get_current_samples t =
    let samples_to_read = min t.sample_write_pos (length t.timestamp_samples) in
    if length t.timestamp_samples == 0
    then []
    else read_samples t.timestamp_samples (sub64 t.sample_write_pos samples_to_read) t.sample_mask 0
        samples_to_read

-- `calculate_percentile` on sorted values, from the truncated product of their number and the
-- percentile; `d` is the 0.0 of no value.
unfoldable pub calculate_percentile {ℓ} : {A : Type ℓ} → A → List A → ℕ → A
calculate_percentile d latencies product =
    if length latencies == 0
    then d
    else if leb (length latencies) product
    then get_or latencies (length latencies - 1) d
    else get_or latencies product d
