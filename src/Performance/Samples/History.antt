-- ===== src/Performance/Samples/History.antt =====
-- The samples are the last ones of the history of calls.
use mdfh_distrib.Common.{
  if◌then◌else◌, ℕ, suc, ◌+◌, ◌-◌, ◌%◌, ◌^◌, ◌≤◌, ◌<◌, ◌≡◌, ◌≢◌, refl, ap, ap₂, subst, ◌∙◌, true,
  some, List, [], ◌∷◌, ◌++◌, arith, length, set, bit_and, min, replicate, length-replicate,
  length-set, length-append, ◌==◌, Bool-cases, inl, inr, append_assoc, append-nil,
}
use mdfh_distrib.Common.Word.{u64, sub64}
use mdfh_distrib.Circular.Window.{window}
use mdfh_distrib.Performance.{
  StageTimestamps, no_stamps, PerformanceConfig, PerformanceTracker, record_timestamp,
  get_current_samples, create,
}
use mdfh_distrib.Performance.Capacity.{sample_capacity_lem, exponent_below}
use mdfh_distrib.Performance.Samples.{
  last, sampled, record_all, Holds, write_sample, read_samples_lem,
}
use native.Mathlib.Nat.{one-le-pow}

-- A history in progress.
record Recording (h : List StageTimestamps) (left : ℕ) (t : PerformanceTracker) : Type 0 where
  holds : Holds h t
  enabled : t.config.enable_detailed_latency ≡ true
  rate : 0 < t.config.sampling_rate
  count : t.sample_count + left < 2 ^ 64
  word : length h + left < 2 ^ 64

-- Recording one call.
record_one :
    (h : List StageTimestamps) (left : ℕ) (x : StageTimestamps) (t : PerformanceTracker)
    → Recording h (suc left) t
    → (t' : PerformanceTracker) × (record_timestamp x t ≡ some t')
      × Recording
          (h ++ (if t.sample_count % t.config.sampling_rate == 0 then x ∷ [] else []))
          left
          t'
      × (t'.sample_count ≡ t.sample_count + 1)
      × (t'.config ≡ t.config)
      × (length t'.timestamp_samples ≡ length t.timestamp_samples)
unfolding record_timestamp
record_one h left x t r =
    let v = r.holds in
    let samples = t.timestamp_samples in
    let some_room : length samples ≢ 0 =
      omega (arith, v.capacity_eq, one-le-pow v.exponent 2 (omega arith)) in
    let next : u64 (t.sample_count + 1) ≡ t.sample_count + 1 = omega (arith, r.count) in
    elim (Bool-cases (t.sample_count % t.config.sampling_rate == 0)) [
      | inl take_it ↦
          let same = length-set samples (bit_and t.sample_write_pos t.sample_mask) x in
          (
            record t {
              sample_count = u64 (t.sample_count + 1);
              sample_write_pos = u64 (t.sample_write_pos + 1);
              timestamp_samples = set samples (bit_and t.sample_write_pos t.sample_mask) x;
            },
            ground (arith, r.enabled, r.rate, some_room, take_it),
            rw take_it (record {
              holds = record {
                exponent = v.exponent;
                small = v.small;
                capacity_eq = same ∙ v.capacity_eq;
                mask_eq = v.mask_eq;
                written = omega (arith, v.written, r.word, length-append h (x ∷ []));
                kept =
                    rw (same, v.written)
                      (write_sample samples v.small v.capacity_eq v.mask_eq h x
                        (omega (arith, r.word)) v.kept);
              };
              enabled = r.enabled;
              rate = r.rate;
              count = omega (arith, next, r.count);
              word = omega (arith, r.word, length-append h (x ∷ []));
            }),
            next,
            refl,
            same,
          )
      | inr leave_it ↦ (
        record t { sample_count = u64 (t.sample_count + 1) },
        ground (arith, r.enabled, r.rate, some_room, leave_it),
        rw (leave_it, append-nil h)
            (record {
              holds = record {
                exponent = v.exponent;
                small = v.small;
                capacity_eq = v.capacity_eq;
                mask_eq = v.mask_eq;
                written = v.written;
                kept = v.kept;
              };
              enabled = r.enabled;
              rate = r.rate;
              count = omega (arith, next, r.count);
              word = omega (arith, r.word);
            }),
        next,
        refl,
        refl,
      )
    ]

record_all_lem :
    (xs h : List StageTimestamps) (t : PerformanceTracker)
    → Recording h (length xs) t
    → (t' : PerformanceTracker) × (record_all xs t ≡ some t')
      × Holds (h ++ sampled t.config.sampling_rate t.sample_count xs) t'
      × (length t'.timestamp_samples ≡ length t.timestamp_samples)
unfolding record_all
record_all_lem [] h t r = (t, refl, rw (append-nil h) r.holds, refl)
record_all_lem (x ∷ xs) h t r =
    let (t1, e, r1, n, c, same) = record_one h (length xs) x t r in
    let kept = if t.sample_count % t.config.sampling_rate == 0 then x ∷ [] else [] in
    let (t', e', holds, same') = record_all_lem xs (h ++ kept) t1 r1 in
    (t', rw e e', subst (λ l. Holds l t') (joined t t1 n c) holds, same' ∙ same)
  where
    joined :
        (t t1 : PerformanceTracker)
        → t1.sample_count ≡ t.sample_count + 1
        → t1.config ≡ t.config
        → (h ++ (if t.sample_count % t.config.sampling_rate == 0 then x ∷ [] else []))
            ++ sampled t1.config.sampling_rate t1.sample_count xs
          ≡ h ++ sampled t.config.sampling_rate t.sample_count (x ∷ xs)
    joined t t1 n c =
        let kept = if t.sample_count % t.config.sampling_rate == 0 then x ∷ [] else [] in
        let rest = sampled t.config.sampling_rate (t.sample_count + 1) xs in
        ap₂ (λ f k. (h ++ kept) ++ sampled f.sampling_rate k xs) c n
        ∙ append_assoc h kept rest
        ∙ ap (◌++◌ h) (elim (Bool-cases (t.sample_count % t.config.sampling_rate == 0)) [
          | inl e ↦ rw e refl
          | inr e ↦ rw e refl
        ])

current-Holds :
    (h : List StageTimestamps) (t : PerformanceTracker)
    → Holds h t
    → length h < 2 ^ 64
    → get_current_samples t ≡ last (length t.timestamp_samples) h
unfolding get_current_samples
current-Holds h t v word =
    let samples = t.timestamp_samples in
    let some_room : length samples ≢ 0 =
      omega (arith, v.capacity_eq, one-le-pow v.exponent 2 (omega arith)) in
    let m = min (length h) (length samples) in
    let start : sub64 (length h) m ≡ length h - length samples = omega arith in
    let at : sub64 (length h) m + 0 ≡ length h - length samples = omega (arith, start) in
    let e =
      read_samples_lem samples (sub64 (length h) m) t.sample_mask 0 m
        (v.exponent, v.small, v.capacity_eq, v.mask_eq) (omega (arith, start)) in
    ground (
      arith,
      some_room,
      v.written,
      e ∙ ap (λ k. window no_stamps (length samples) samples k m) at ∙ v.kept,
    )

length-sampled :
    (rate count : ℕ) (xs : List StageTimestamps) → length (sampled rate count xs) ≤ length xs
length-sampled rate count [] = omega arith
length-sampled rate count (x ∷ xs) = ground (arith, length-sampled rate (count + 1) xs)

-- A tracker with detailed latencies, a positive sampling rate and room for 1 to 2^31 samples can be
-- constructed, 33 rounds of the loop being enough; after any fewer than 2^64 calls of
-- `record_timestamp`, the current samples are the last ones of every rate-th call, in order, as many
-- as were allocated, which is at least the maximum asked for.
pub get_current_samples_lem :
    (config : PerformanceConfig) (unset : ℕ) (xs : List StageTimestamps)
    → config.enable_detailed_latency ≡ true
    → 0 < config.sampling_rate
    → 0 < config.max_samples
    → config.max_samples ≤ 2 ^ 31
    → length xs < 2 ^ 64
    → (t : PerformanceTracker) × (t' : PerformanceTracker) × (create 33 unset config ≡ some t)
      × (config.max_samples ≤ length t.timestamp_samples)
      × (record_all xs t ≡ some t')
      × (get_current_samples t'
          ≡ last (length t.timestamp_samples) (sampled config.sampling_rate 0 xs))
unfolding create
get_current_samples_lem config unset xs on rate pos small word =
    let (c, j, e, p, lo, hi) = sample_capacity_lem config.max_samples pos small in
    let size = length-replicate c no_stamps in
    let t : PerformanceTracker = record {
      config = config;
      timestamp_samples = replicate c no_stamps;
      sample_write_pos = 0;
      sample_count = 0;
      sample_mask = sub64 c 1;
    } in
    let bound = exponent_below j 32 (omega (arith, p, hi, small)) in
    let one = one-le-pow j 2 (omega arith) in
    let below : 2 ^ j < 2 ^ 32 = omega (arith, p, hi, small) in
    let none_held : min 0 (length t.timestamp_samples) ≡ 0 = omega arith in
    let none_over : 0 - length t.timestamp_samples ≡ 0 = omega arith in
    let r : Recording [] (length xs) t = record {
      holds = record {
        exponent = j;
        small = omega (arith, bound);
        capacity_eq = size ∙ p;
        mask_eq = omega (arith, p, one, below);
        written = refl;
        kept = rw (none_held, none_over) refl;
      };
      enabled = on;
      rate = rate;
      count = omega arith;
      word = omega arith;
    } in
    let (t', f, holds, same) = record_all_lem xs [] t r in
    let few = length-sampled config.sampling_rate 0 xs in
    (
      t,
      t',
      rw (on, e) (ground (arith, pos)),
      omega (arith, size, lo),
      f,
      current-Holds (sampled config.sampling_rate 0 xs) t' holds (omega (arith, few))
          ∙ ap (λ n. last n (sampled config.sampling_rate 0 xs)) same,
    )
