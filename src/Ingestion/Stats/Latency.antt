-- ===== src/Ingestion/Stats/Latency.antt =====
-- The latency histogram over a run of messages, and the percentiles that are read from it.
use mdfh_distrib.Common.{
  ℕ, zero, suc, ◌+◌, ◌^◌, ◌≤◌, ◌<◌, ◌≡◌, refl, ◌∙◌, ◌⊎◌, inl, inr, Bool, List, [], ◌∷◌, arith, ltb,
  leb, Bool-cases, if◌then◌else◌, length, take, set, get_or, replicate, length-set,
}
use mdfh_distrib.Common.Word.{u64}
use mdfh_distrib.Ring.{Slot}
use native.Mathlib.Nat.{zero-add}
use mdfh_distrib.Ingestion.Stats.{
  IngestionStats, initial, bucket, record_message_processed, scan_buckets, calculate_percentile,
  Sample, process_all,
}

abbrev pub sum : List ℕ → ℕ
sum [] = 0
sum (x ∷ xs) = x + sum xs

-- How many samples fall into a bucket below `k`.
pub count_below : ℕ → List Sample → ℕ
count_below k [] = 0
count_below k ((now, slot) ∷ xs) =
    (if ltb (bucket now slot.rx_ts) k then 1 else 0) + count_below k xs

count_below_all : (xs : List Sample) → count_below 1001 xs ≡ length xs
unfolding count_below
count_below_all [] = refl
count_below_all ((now, slot) ∷ xs) = ground (arith, count_below_all xs)

sum-take-set :
    (k i v : ℕ) (bs : List ℕ)
    → i < length bs
    → sum (take k (set bs i v)) + (if ltb i k then get_or bs i 0 else 0)
      ≡ sum (take k bs) + (if ltb i k then v else 0)
sum-take-set k i v [] h = absurd (omega arith)
sum-take-set zero i v (b ∷ bs) h = ground arith
sum-take-set (suc k) zero v (b ∷ bs) h = ground arith
sum-take-set (suc k) (suc i) v (b ∷ bs) h = ground (arith, sum-take-set k i v bs)

get-le-sum : (i : ℕ) (bs : List ℕ) → get_or bs i 0 ≤ sum bs
get-le-sum i [] = omega arith
get-le-sum zero (b ∷ bs) = omega arith
get-le-sum (suc i) (b ∷ bs) = omega (arith, get-le-sum i bs)

sum_all : (bs : List ℕ) (n : ℕ) → length bs ≤ n → sum (take n bs) ≡ sum bs
sum_all [] zero h = refl
sum_all [] (suc n) h = refl
sum_all (b ∷ bs) zero h = absurd (omega arith)
sum_all (b ∷ bs) (suc n) h = omega (arith, sum_all bs n (omega arith))

record_bucket :
    (now k : ℕ) (slot : Slot) (s : IngestionStats)
    → length s.latency_buckets ≡ 1001
    → sum s.latency_buckets + 1 < 2 ^ 64
    → (length (record_message_processed now slot s).latency_buckets ≡ 1001)
      × (sum (take k (record_message_processed now slot s).latency_buckets)
          ≡ sum (take k s.latency_buckets) + (if ltb (bucket now slot.rx_ts) k then 1 else 0))
unfolding record_message_processed
record_bucket now k slot s long small =
    let i = bucket now slot.rx_ts in
    let v = u64 (get_or s.latency_buckets i 0 + 1) in
    (
      ground (arith, length-set s.latency_buckets i v),
      ground (arith, sum-take-set k i v s.latency_buckets, get-le-sum i s.latency_buckets),
    )

at_most_one : (b : Bool) → (if b then 1 else 0) ≤ 1
at_most_one b = ground arith

record_sum :
    (now : ℕ) (slot : Slot) (s : IngestionStats)
    → length s.latency_buckets ≡ 1001
    → sum s.latency_buckets + 1 < 2 ^ 64
    → sum (record_message_processed now slot s).latency_buckets ≤ sum s.latency_buckets + 1
record_sum now slot s long small =
    let s' = record_message_processed now slot s in
    let (long', whole) = record_bucket now 1001 slot s long small in
    let total = sum_all s.latency_buckets 1001 (omega arith) in
    let total' = sum_all s'.latency_buckets 1001 (omega arith) in
    omega (arith, at_most_one (ltb (bucket now slot.rx_ts) 1001))

run_buckets :
    (xs : List Sample) (k : ℕ) (s : IngestionStats)
    → length s.latency_buckets ≡ 1001
    → sum s.latency_buckets + length xs < 2 ^ 64
    → (length (process_all xs s).latency_buckets ≡ 1001)
      × (sum (take k (process_all xs s).latency_buckets)
          ≡ sum (take k s.latency_buckets) + count_below k xs)
unfolding process_all count_below
run_buckets [] k s long small = (long, omega arith)
run_buckets ((now, slot) ∷ xs) k s long small =
    let s' = record_message_processed now slot s in
    let (long', part) = record_bucket now k slot s long (omega arith) in
    let (done, rest) =
      run_buckets xs k s' long' (omega (arith, record_sum now slot s long (omega arith), small)) in
    (done, omega arith)

-- The scan returns the first index at which the running count reaches the target.
scan_first :
    (bs : List ℕ) (target count i : ℕ)
    → i + length bs ≤ 1001
    → count + sum bs < 2 ^ 64
    → target ≤ count + sum bs
    → (0 < length bs)
    → (k : ℕ) × (scan_buckets target count i bs ≡ i + k)
      × (k < length bs)
      × (target ≤ count + sum (take (suc k) bs))
      × ((k ≡ 0) ⊎ (count + sum (take k bs) < target))
unfolding scan_buckets
scan_first [] target count i top small reach some_left = absurd (omega arith)
scan_first (b ∷ []) target count i top small reach some_left =
    (0, ground arith, omega arith, omega arith, inl refl)
scan_first (b ∷ c ∷ bs) target count i top small reach some_left =
    elim (Bool-cases (leb target (count + b))) [
      | inl here ↦ (0, ground arith, omega arith, ground arith, inl refl)
      | inr beyond ↦
          let (k, e, within, hit, first) =
            scan_first (c ∷ bs) target (count + b) (i + 1) (omega arith) (omega arith) (omega arith)
              (omega arith) in
          (suc k, ground arith, omega arith, omega arith, inr (ground arith))
    ]

buckets_zero : (k n : ℕ) → sum (take k (replicate n 0)) ≡ 0
buckets_zero zero n = refl
buckets_zero (suc k) zero = refl
buckets_zero (suc k) (suc n) = omega (arith, buckets_zero k n)

percentile_scan :
    (target : ℕ) (s : IngestionStats)
    → calculate_percentile target s ≡ scan_buckets target 0 0 s.latency_buckets
unfolding calculate_percentile
percentile_scan target s = refl

-- After a run of fewer than 2^64 messages, the percentile that is computed for a target of at most
-- their number is the first bucket up to which at least that many of the messages fall: fewer than
-- the target fall below it, unless it is the bucket 0.
pub percentile_lem :
    (xs : List Sample) (target : ℕ)
    → length xs < 2 ^ 64
    → target ≤ length xs
    → let k = calculate_percentile target (process_all xs initial) in
      (k ≤ 1000) × (target ≤ count_below (k + 1) xs) × ((k ≡ 0) ⊎ (count_below k xs < target))
percentile_lem xs target small reach =
    let s = process_all xs initial in
    let below : (k : ℕ) → sum (take k s.latency_buckets) ≡ count_below k xs = λ k.
      omega
        (arith, (run_buckets xs k initial refl (omega (arith, zeros))).1, buckets_zero k 1001) in
    let long = (run_buckets xs 0 initial refl (omega (arith, zeros))).0 in
    let total = sum_all s.latency_buckets 1001 (omega arith) in
    let (k, e, within, hit, first) =
      scan_first s.latency_buckets target 0 0 (omega arith)
        (omega (arith, below 1001, count_below_all xs))
        (omega (arith, below 1001, count_below_all xs)) (omega arith) in
    let e' : calculate_percentile target s ≡ k = percentile_scan target s ∙ e ∙ zero-add k in
    let e'' : suc k ≡ k + 1 = omega arith in
    rw e' (
      omega arith,
      rw (← e'') (omega (arith, below (suc k))),
      elim first [ inl z ↦ inl z | inr f ↦ inr (omega (arith, below k)) ],
    )
  where
    zeros : sum (replicate 1001 0) ≡ 0
    zeros = omega (arith, buckets_zero 1001 1001, sum_all (replicate 1001 0) 1001)
