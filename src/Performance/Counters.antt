-- ===== src/Performance/Counters.antt =====
-- The hardware counters of `PerformanceTracker` and the metrics made of them. The system calls are
-- not modelled: what they answer is an argument.
use mdfh_distrib.Common.{
  ℕ, ◌≡◌, refl, ◌∙◌, Bool, true, false, not, ◌||◌, Option, none, some, List, [], ◌∷◌, arith, ◌==◌,
  if◌then◌else◌,
}

-- `CacheStats`
pub record CacheStats : Type 0 where
  pub l1_misses : ℕ
  pub l2_misses : ℕ
  pub l3_misses : ℕ
  pub cache_references : ℕ

-- `perf_fd_` is a pointer, 0 the null pointer.
pub record CacheTracker : Type 0 where
  pub enable_cache_analysis : Bool
  pub perf_fd : ℕ
  pub cache_stats : CacheStats

abbrev pub no_stats : CacheStats
no_stats = record { l1_misses = 0; l2_misses = 0; l3_misses = 0; cache_references = 0 }

-- `opened` is what the system call answers, as a pointer: -1 is the pointer 2 ^ 64 - 1.
unfoldable pub setup_perf_counters : ℕ → CacheTracker → CacheTracker × Bool
setup_perf_counters opened t =
    let opened_tracker = record t { perf_fd = opened } in
    if opened == 0 then (opened_tracker, false) else (opened_tracker, true)

-- `supported`: the code was built with the header of the counters.
unfoldable pub initialize : (supported : Bool) → ℕ → CacheTracker → CacheTracker × Bool
initialize supported opened t =
    if supported
    then setup_perf_counters opened t
    else if t.enable_cache_analysis
    then (record t { enable_cache_analysis = false }, false)
    else (t, false)

-- `count` is the number that was read, if the read succeeds.
unfoldable pub read_perf_counters : Option ℕ → CacheTracker → CacheTracker
read_perf_counters none t = t
read_perf_counters (some count) t =
    let stored = record t.cache_stats { l1_misses = count } in
    if t.perf_fd == 0 then t else record t { cache_stats = stored }

unfoldable pub update_cache_stats : Option ℕ → CacheTracker → CacheTracker
update_cache_stats count t =
    if not t.enable_cache_analysis || t.perf_fd == 0 then t else read_perf_counters count t

unfoldable pub close_perf_counters : CacheTracker → CacheTracker
close_perf_counters t = if t.perf_fd == 0 then t else record t { perf_fd = 0 }

-- Rates are doubles; the pattern of 0.0 is 0.
pub record CacheMetrics : Type 0 where
  pub l1_miss_rate : ℕ
  pub l2_miss_rate : ℕ
  pub l3_miss_rate : ℕ
  pub total_references : ℕ

abbrev pub no_metrics : CacheMetrics
no_metrics = record { l1_miss_rate = 0; l2_miss_rate = 0; l3_miss_rate = 0; total_references = 0 }

-- What the tracker's user does after it was made.
pub data Operation : Type 0 where
  update : Option ℕ → Operation
  initialize_again : ℕ → Operation

module _ (supported : Bool) (quotient : ℕ → ℕ → ℕ) where
  unfoldable pub get_cache_metrics : CacheTracker → CacheMetrics
  get_cache_metrics t =
      let refs = t.cache_stats.cache_references in
      let rates : CacheMetrics = record {
        l1_miss_rate = quotient t.cache_stats.l1_misses refs;
        l2_miss_rate = quotient t.cache_stats.l2_misses refs;
        l3_miss_rate = quotient t.cache_stats.l3_misses refs;
        total_references = refs;
      } in
      if not t.enable_cache_analysis then no_metrics else if refs == 0 then no_metrics else rates

  -- The part of the constructor that sets the counters up.
  unfoldable pub start : Bool → ℕ → CacheTracker
  start enabled opened =
      let made : CacheTracker = record {
        enable_cache_analysis = enabled;
        perf_fd = 0;
        cache_stats = no_stats;
      } in
      if enabled then (initialize supported opened made).0 else made

  unfoldable pub operate : Operation → CacheTracker → CacheTracker
  operate (update count) t = update_cache_stats count t
  operate (initialize_again opened) t = (initialize supported opened t).0

  unfoldable pub operate_all : List Operation → CacheTracker → CacheTracker
  operate_all [] t = t
  operate_all (op ∷ ops) t = operate_all ops (operate op t)

  operate-references :
      (op : Operation) (t : CacheTracker)
      → (operate op t).cache_stats.cache_references ≡ t.cache_stats.cache_references
  unfolding operate initialize setup_perf_counters update_cache_stats read_perf_counters
  operate-references (update none) t = ground arith
  operate-references (update (some count)) t = ground arith
  operate-references (initialize_again opened) t = ground arith

  operate_all-references :
      (ops : List Operation) (t : CacheTracker)
      → (operate_all ops t).cache_stats.cache_references ≡ t.cache_stats.cache_references
  unfolding operate_all
  operate_all-references [] t = refl
  operate_all-references (op ∷ ops) t =
      operate_all-references ops (operate op t) ∙ operate-references op t

  -- Whatever the counters answer and however often they are read, the cache metrics are those of no
  -- references, all 0: nothing ever counts a cache reference.
  pub get_cache_metrics_zero :
      (enabled : Bool) (opened : ℕ) (ops : List Operation)
      → get_cache_metrics (operate_all ops (start enabled opened)) ≡ no_metrics
  unfolding get_cache_metrics start initialize setup_perf_counters
  get_cache_metrics_zero enabled opened ops =
      let refs = operate_all-references ops (start enabled opened) in
      let none_first : (start enabled opened).cache_stats.cache_references ≡ 0 = ground arith in
      ground (arith, refs, none_first)
