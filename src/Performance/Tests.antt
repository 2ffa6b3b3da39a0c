-- ===== src/Performance/Tests.antt =====
-- Runs of the tracker, and its theorems at concrete configurations.
use mdfh_distrib.Performance.Percentile.{Sorted}
use mdfh_distrib.Performance.Stats.{get_latency_stats, get_latency_stats_lem}
use mdfh_distrib.Performance.Counters.{
  update, no_metrics, get_cache_metrics, start, operate_all, get_cache_metrics_zero,
}
use mdfh_distrib.Common.{
  suc, ◌/◌, ◌∙◌, ap, none, leb, leb→le, Bool-cases, inl, inr, if◌then◌else◌, min, ℕ, ◌*◌, ◌≤◌, ◌≡◌,
  refl, true, some, List, [], ◌∷◌, arith, length,
}
use mdfh_distrib.Performance.{
  StageTimestamps, no_stamps, PerformanceConfig, PerformanceTracker, create, get_current_samples,
}
use mdfh_distrib.Performance.Samples.{last, sampled, record_all}
use mdfh_distrib.Performance.Samples.History.{get_current_samples_lem}

abbrev stamp : ℕ → StageTimestamps
stamp n = record no_stamps { packet_rx = n }

-- Every other call is kept, three samples asked for, four allocated.
abbrev config : PerformanceConfig
config = record { enable_detailed_latency = true; sampling_rate = 2; max_samples = 3 }

abbrev calls : List StageTimestamps
calls = stamp 1 ∷ stamp 2 ∷ stamp 3 ∷ stamp 4 ∷ stamp 5 ∷ []

kept : sampled 2 0 calls ≡ stamp 1 ∷ stamp 3 ∷ stamp 5 ∷ []
kept = refl

get_current_samples_lem_example :
    (t : PerformanceTracker) × (t' : PerformanceTracker) × (create 33 0 config ≡ some t)
    × (3 ≤ length t.timestamp_samples)
    × (record_all calls t ≡ some t')
    × (get_current_samples t' ≡ last (length t.timestamp_samples) (sampled 2 0 calls))
get_current_samples_lem_example =
    get_current_samples_lem config 0 calls refl (omega arith) (omega arith) (omega arith)
      (omega arith)

-- A sort by insertion.
abbrev insert : ℕ → List ℕ → List ℕ
insert x [] = x ∷ []
insert x (y ∷ ys) = if leb x y then x ∷ y ∷ ys else y ∷ insert x ys

abbrev sort : List ℕ → List ℕ
sort [] = []
sort (x ∷ xs) = insert x (sort xs)

insert-Sorted : (low x : ℕ) (xs : List ℕ) → low ≤ x → Sorted low xs → Sorted low (insert x xs)
insert-Sorted low x [] le s = (le, tt)
insert-Sorted low x (y ∷ ys) le (lo, s) = elim (Bool-cases (leb x y)) [
  | inl small ↦ rw small (le, (leb→le x y small, s))
  | inr large ↦ rw large (lo, insert-Sorted y x ys (ground (arith, large)) s)
]

length-insert : (x : ℕ) (xs : List ℕ) → length (insert x xs) ≡ suc (length xs)
length-insert x [] = refl
length-insert x (y ∷ ys) = ground (arith, length-insert x ys)

sort-Sorted : (xs : List ℕ) → Sorted 0 (sort xs) × (length (sort xs) ≡ length xs)
sort-Sorted [] = (tt, refl)
sort-Sorted (x ∷ xs) =
    let (s, e) = sort-Sorted xs in
    (insert-Sorted 0 x (sort xs) (omega arith) s, length-insert x (sort xs) ∙ ap suc e)

abbrev product : ℕ → ℕ → ℕ
product n permille = n * permille / 1000

product-le : (n p q : ℕ) → p ≤ q → product n p ≤ product n q
product-le n p q le = grind arith

-- A buffer of four with three samples.
abbrev tracker : PerformanceTracker
tracker = record {
  config = config;
  timestamp_samples =
      record no_stamps { packet_rx = 10; process_end = 90 }
      ∷ record no_stamps { packet_rx = 20; process_end = 50 }
      ∷ record no_stamps { packet_rx = 30; process_end = 99 }
      ∷ no_stamps
      ∷ [];
  sample_write_pos = 3;
  sample_count = 6;
  sample_mask = 3;
}

get_latency_stats_lem_example :
    let s = get_latency_stats sort (λ xs. 0) product tracker in
    (s.samples ≡ min 3 4) × (s.p50 ≤ s.p90) × (s.p90 ≤ s.p95) × (s.p95 ≤ s.p99) × (s.p99 ≤ s.p99_9)
get_latency_stats_lem_example =
    get_latency_stats_lem sort (λ xs. 0) product tracker sort-Sorted product-le

get_cache_metrics_zero_example :
    get_cache_metrics true
      (λ n d. n)
      (operate_all true
        (λ n d. n)
        (update (some 12) ∷ update none ∷ [])
        (start true (λ n d. n) true 7))
    ≡ no_metrics
get_cache_metrics_zero_example =
    get_cache_metrics_zero true (λ n d. n) true 7 (update (some 12) ∷ update none ∷ [])
