-- ===== src/Ingestion/Stats/Tests.antt =====
-- Runs of the statistics, and the theorems at such runs.
use mdfh_distrib.Ingestion.Stats.Periodic.{
  Line, start, print_periodic_stats, check_periodic_flush, check_all, total_recv, total_proc,
  total_bytes, Spaced, latest, check_all_lem,
}
use mdfh_distrib.Common.Word.{u64}
use mdfh_distrib.Common.{ℕ, ◌+◌, ◌*◌, ◌≤◌, ◌<◌, ◌≡◌, ◌⊎◌, refl, map, List, [], ◌∷◌, arith}
use mdfh_distrib.Ingestion.Stats.{
  IngestionStats, Sample, initial, process_all, calculate_percentile, record_message_processed,
  scan_buckets,
}
use mdfh_distrib.Ingestion.Stats.Gaps.{breaks, gapless_reports_gap}
use mdfh_distrib.Ingestion.Stats.Latency.{count_below, percentile_lem}

-- sequence number `n`, received at 1000 and processed after `us` microseconds
abbrev sample : ℕ → ℕ → Sample
sample n us = (1000 + us * 1000, record { raw = record { seq = n; px = 1; qty = 1 }; rx_ts = 1000 })

-- 7, 8, 9 are consecutive, and one gap is reported.
gapless_reports_gap_example :
    (process_all (sample 7 1 ∷ sample 8 2 ∷ sample 9 3 ∷ []) initial).gap_count ≡ 1
unfolding breaks
gapless_reports_gap_example =
    gapless_reports_gap (sample 7 1) (sample 8 2) (sample 9 3 ∷ []) (omega arith) refl

abbrev three : List Sample
three = sample 1 5 ∷ sample 2 40 ∷ sample 3 9000 ∷ []

percentile_lem_example :
    let k = calculate_percentile 2 (process_all three initial) in
    (k ≤ 1000) × (2 ≤ count_below (k + 1) three) × ((k ≡ 0) ⊎ (count_below k three < 2))
percentile_lem_example = percentile_lem three 2 (omega arith) (omega arith)

median_of_three : calculate_percentile 2 (process_all three initial) ≡ 40
unfolding calculate_percentile process_all record_message_processed scan_buckets
median_of_three = refl

-- Four calls, of which the second and the last are a second after the line before.
abbrev calls : List (ℕ × IngestionStats)
calls =
    (500000000, record initial { messages_received = 4 })
    ∷ (1200000000, record initial { messages_received = 10; messages_processed = 9 })
    ∷ (1900000000, record initial { messages_received = 12; messages_processed = 12 })
    ∷ (2300000000, record initial { messages_received = 15; messages_processed = 12 })
    ∷ []

calls_run : map (λ (l : Line). l.recv_delta) (check_all calls (start 0)).printed ≡ 5 ∷ 10 ∷ []
unfolding check_all check_periodic_flush print_periodic_stats
calls_run = refl

check_all_lem_example :
    let after = check_all calls (start 0) in
    let stats = latest 0 initial calls in
    (u64 (total_recv after.printed) ≡ stats.messages_received)
    × (u64 (total_proc after.printed) ≡ stats.messages_processed)
    × (u64 (total_bytes after.printed) ≡ stats.bytes_received)
    × Spaced 0 after.last_flush after.printed
check_all_lem_example = check_all_lem 0 calls (omega arith)
