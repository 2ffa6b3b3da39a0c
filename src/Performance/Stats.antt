-- ===== src/Performance/Stats.antt =====
-- `PerformanceTracker::get_latency_stats`. Latencies are nanoseconds here: the division by 1000.0
-- and the mean, sums of doubles, are left to an argument, and so are the truncated products of the
-- number of samples and a percentile.
use mdfh_distrib.Common.{
  ℕ, zero, suc, ◌+◌, ◌≤◌, ◌≡◌, ◌≢◌, refl, ap, List, [], ◌∷◌, arith, length, map, min, ◌==◌,
  if◌then◌else◌, Bool-cases, inl, inr,
}
use mdfh_distrib.Common.Word.{sub64}
use mdfh_distrib.Performance.{
  StageTimestamps, PerformanceTracker, get_current_samples, read_samples, calculate_percentile,
}
use mdfh_distrib.Performance.Percentile.{Sorted, calculate_percentile_lem}

pub record LatencyStats : Type 0 where
  pub p50 : ℕ
  pub p90 : ℕ
  pub p95 : ℕ
  pub p99 : ℕ
  pub p99_9 : ℕ
  pub mean : ℕ
  pub samples : ℕ

abbrev pub no_stats : LatencyStats
no_stats = record { p50 = 0; p90 = 0; p95 = 0; p99 = 0; p99_9 = 0; mean = 0; samples = 0 }

-- From the reception of the packet to the end of its processing, in 64 bits.
abbrev pub latency : StageTimestamps → ℕ
latency ts = sub64 ts.process_end ts.packet_rx

length-latencies : (samples : List StageTimestamps) → length (map latency samples) ≡ length samples
length-latencies [] = refl
length-latencies (ts ∷ samples) = ap suc (length-latencies samples)

-- `sort` is `std::sort`; `product n permille` is the truncated product of `n` and the percentile.
module _ (sort : List ℕ → List ℕ) (mean_of : List ℕ → ℕ) (product : ℕ → ℕ → ℕ) where
  unfoldable pub stats_of : List StageTimestamps → LatencyStats
  stats_of samples =
      let latencies = sort (map latency samples) in
      let at =
        λ (permille : ℕ). calculate_percentile 0 latencies (product (length latencies) permille) in
      if length samples == 0 then no_stats else record {
        p50 = at 500;
        p90 = at 900;
        p95 = at 950;
        p99 = at 990;
        p99_9 = at 999;
        mean = mean_of latencies;
        samples = length samples;
      }

  unfoldable pub get_latency_stats : PerformanceTracker → LatencyStats
  get_latency_stats t = stats_of (get_current_samples t)

  length-read_samples :
      (samples : List StageTimestamps) (begin mask i rounds : ℕ)
      → length (read_samples samples begin mask i rounds) ≡ rounds
  unfolding read_samples
  length-read_samples samples begin mask i zero = refl
  length-read_samples samples begin mask i (suc rounds) =
      ap suc (length-read_samples samples begin mask (i + 1) rounds)

  length-get_current_samples :
      (t : PerformanceTracker)
      → length (get_current_samples t) ≡ min t.sample_write_pos (length t.timestamp_samples)
  unfolding get_current_samples
  length-get_current_samples t =
      let n = min t.sample_write_pos (length t.timestamp_samples) in
      let all =
        length-read_samples t.timestamp_samples (sub64 t.sample_write_pos n) t.sample_mask 0 n in
      ground (arith, all)

  -- With a sort that keeps the number of values and puts them in order, and products that grow with
  -- the percentile: the statistics count the samples that the buffer holds, and each percentile is at
  -- least the one before it.
  pub get_latency_stats_lem :
      (t : PerformanceTracker)
      → ((xs : List ℕ) → Sorted 0 (sort xs) × (length (sort xs) ≡ length xs))
      → ((n p q : ℕ) → p ≤ q → product n p ≤ product n q)
      → let s = get_latency_stats t in
        (s.samples ≡ min t.sample_write_pos (length t.timestamp_samples))
        × (s.p50 ≤ s.p90)
        × (s.p90 ≤ s.p95)
        × (s.p95 ≤ s.p99)
        × (s.p99 ≤ s.p99_9)
  unfolding get_latency_stats stats_of
  get_latency_stats_lem t sorts grows =
      let samples = get_current_samples t in
      let latencies = sort (map latency samples) in
      let n = length latencies in
      let count = length-get_current_samples t in
      elim (Bool-cases (length samples == 0)) [
        | inl empty ↦
            rw empty
              (ground (arith, empty, count), omega arith, omega arith, omega arith, omega arith)
        | inr some_sample ↦
            let sorted_length = (sorts (map latency samples)).1 in
            let some_latency : latencies ≢ [] = λ e.
              ground (arith, ap length e, sorted_length, length-latencies samples, some_sample) in
            let rises : (p q : ℕ)
                → p ≤ q
                → calculate_percentile 0 latencies (product n p)
                  ≤ calculate_percentile 0 latencies (product n q) =
              λ p q le.
                (calculate_percentile_lem 0 0 (product n p) (product n q) latencies
                  (sorts (map latency samples)).0 some_latency (grows n p q le)).1 in
            rw some_sample (
              count,
              rises 500 900 (omega arith),
              rises 900 950 (omega arith),
              rises 950 990 (omega arith),
              rises 990 999 (omega arith),
            )
      ]
