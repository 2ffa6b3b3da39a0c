-- ===== src/Ingestion/Stats/Gaps.antt =====
-- Sequence tracking over a run of messages.
use mdfh_distrib.Common.{
  ℕ, ◌+◌, ◌^◌, ◌≤◌, ◌<◌, ◌≡◌, true, List, [], ◌∷◌, arith, ◌==◌, if◌then◌else◌, length,
}
use mdfh_distrib.Common.Word.{u64}
use mdfh_distrib.Ingestion.Stats.{
  IngestionStats, initial, record_message_processed, Sample, process_all,
}

abbrev pub seq_of : Sample → ℕ
seq_of (now, slot) = slot.raw.seq

-- How many samples do not carry the number after the one before them, `prev` before the first.
unfoldable pub breaks : ℕ → List Sample → ℕ
breaks prev [] = 0
breaks prev (x ∷ xs) = (if seq_of x == u64 (prev + 1) then 0 else 1) + breaks (seq_of x) xs

breaks-le : (prev : ℕ) (xs : List Sample) → breaks prev xs ≤ length xs
unfolding breaks
breaks-le prev [] = omega arith
breaks-le prev (x ∷ xs) = ground (arith, breaks-le (seq_of x) xs)

-- Once the expectation is the number after `prev`, each break is counted.
gaps_after :
    (xs : List Sample) (prev : ℕ) (s : IngestionStats)
    → s.first_message_seen ≡ true
    → s.expected_seq ≡ u64 (prev + 1)
    → s.gap_count + length xs < 2 ^ 64
    → (process_all xs s).gap_count ≡ s.gap_count + breaks prev xs
unfolding process_all breaks record_message_processed
gaps_after [] prev s seen e small = omega arith
gaps_after ((now, slot) ∷ xs) prev s seen e small =
    ground (arith, gaps_after xs slot.raw.seq (record_message_processed now slot s))

-- The gap count of a fresh collector, over two messages or more: the second message is compared with
-- the number of the first, not with the one after it, and every later one with its predecessor's.
pub gap_count_lem :
    (x y : Sample) (rest : List Sample)
    → length rest + 1 < 2 ^ 64
    → (process_all (x ∷ y ∷ rest) initial).gap_count
      ≡ (if seq_of y == seq_of x then 0 else 1) + breaks (seq_of y) rest
unfolding process_all record_message_processed
gap_count_lem (t, x) (u, y) rest small = ground (
  arith,
  gaps_after rest y.raw.seq (record_message_processed u y (record_message_processed t x initial)),
)

-- So a stream of two messages or more with no break in its numbers is reported to have one gap.
pub gapless_reports_gap :
    (x y : Sample) (rest : List Sample)
    → length rest + 1 < 2 ^ 64
    → breaks (seq_of x) (y ∷ rest) ≡ 0
    → (process_all (x ∷ y ∷ rest) initial).gap_count ≡ 1
unfolding breaks
gapless_reports_gap x y rest small whole = ground (arith, gap_count_lem x y rest small)
