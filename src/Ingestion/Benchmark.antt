-- ===== src/Ingestion/Benchmark.antt =====
-- `IngestionBenchmark`: the consumer's loop, its end, and the drain of `run`.
mod Tests
use mdfh_distrib.Common.{
  ℕ, zero, suc, ◌+◌, ◌-◌, ◌^◌, ◌≤◌, ◌<◌, ◌≡◌, refl, ap, sym, ◌∙◌, Bool, true, false, ◌&&◌, Option,
  none, some, List, [], ◌∷◌, ◌++◌, arith, length, ltb, leb, if◌then◌else◌, inl, inr,
}
use mdfh_distrib.Common.Word.{sub64}
use mdfh_distrib.Ring.{Slot, RingBuffer, try_pop, size}
use mdfh_distrib.Ring.Invariant.{IsValid, try_pop-IsValid}
use mdfh_distrib.Ring.Refine.{items, length-items, try_pop_cases}
use mdfh_distrib.Ingestion.Stats.{IngestionStats, record_message_processed, Sample, process_all}

-- `should_continue`; `late` is the comparison of the elapsed seconds, a double, with `max_seconds`.
unfoldable pub should_continue :
    (max_seconds max_messages processed : ℕ) (late connected : Bool) → Bool
should_continue max_seconds max_messages processed late connected =
    if ltb 0 max_seconds && late
    then false
    else if ltb 0 max_messages && leb max_messages processed
    then false
    else connected

-- `clock n` is the reading of the clock for the message number `n` that is processed.
module _ (clock : ℕ → ℕ) where
  -- The ring buffer, the statistics, and the number of readings of the clock.
  abbrev pub Consumer : Type 0
  Consumer = RingBuffer × IngestionStats × ℕ

  -- One `try_pop`, and what is done with a slot that it takes out.
  abbrev pub take_one : Consumer → Consumer
  take_one (ring, stats, n) = elim (try_pop ring).1 [
    | none ↦ (ring, stats, n)
    | some slot ↦ ((try_pop ring).0, record_message_processed (clock n) slot stats, n + 1)
  ]

  -- A round: the test's inputs, and what the input thread does to the buffer before the pop.
  module _ (max_seconds max_messages : ℕ) where
    unfoldable pub consumer_loop :
        List (Bool × Bool × (RingBuffer → RingBuffer)) → Consumer → Consumer
    consumer_loop [] s = s
    consumer_loop ((late, connected, others) ∷ later) (ring, stats, n) =
        let next = consumer_loop later (take_one (others ring, stats, n)) in
        if should_continue max_seconds max_messages stats.messages_processed late connected
        then next
        else (ring, stats, n)

  -- `while (ring_.try_pop(slot)) stats_.record_message_processed(slot);` on fuel
  unfoldable pub drain_loop : ℕ → Consumer → Consumer
  drain_loop zero s = s
  drain_loop (suc fuel) (ring, stats, n) = elim (try_pop ring).1 [
    | none ↦ (ring, stats, n)
    | some slot ↦
        drain_loop fuel ((try_pop ring).0, record_message_processed (clock n) slot stats, n + 1)
  ]

  -- Each round takes a slot out.
  unfoldable pub drain : Consumer → Consumer
  drain s = drain_loop (suc (size s.0)) s

  -- The slots with the readings of the clock at their turns.
  unfoldable pub timed : ℕ → List Slot → List Sample
  timed n [] = []
  timed n (x ∷ xs) = (clock n, x) ∷ timed (n + 1) xs

  drain_loop_lem :
      (fuel : ℕ) (ring : RingBuffer) (stats : IngestionStats) (n : ℕ)
      → IsValid ring
      → length (items ring) < fuel
      → let (ring', stats', n') = drain_loop fuel (ring, stats, n) in
        (items ring' ≡ [])
        × (stats' ≡ process_all (timed n (items ring)) stats)
        × (n' ≡ n + length (items ring))
  unfolding drain_loop timed process_all
  drain_loop_lem zero ring stats n v h = ground (arith, h)
  drain_loop_lem (suc fuel) ring stats n v h = elim (try_pop_cases v) [
    | inl (e, nil) ↦ rw (drain_loop, e, nil) (refl, refl, omega arith)
    | inr (x, e, split) ↦
        let less : length (items ring) ≡ length (items (try_pop ring).0) + 1 =
          ap length split ∙ omega arith in
        let (emptied, stats_eq, count) =
          drain_loop_lem fuel (try_pop ring).0 (record_message_processed (clock n) x stats) (n + 1)
            (try_pop-IsValid v) (omega (arith, less)) in
        rw (drain_loop, e)
          (
            emptied,
            stats_eq ∙ ap (λ xs. process_all (timed n xs) stats) (sym split),
            omega (arith, count, less),
          )
  ]

  -- The drain of a valid buffer that nobody fills any more ends with the buffer empty, every slot
  -- that it held having been processed, once and in order.
  pub drain_lem :
      (ring : RingBuffer) (stats : IngestionStats) (n : ℕ)
      → IsValid ring
      → let (ring', stats', n') = drain (ring, stats, n) in
        (items ring' ≡ [])
        × (stats' ≡ process_all (timed n (items ring)) stats)
        × (n' ≡ n + length (items ring))
  unfolding drain size
  drain_lem ring stats n v =
      drain_loop_lem (suc (sub64 ring.write_pos ring.read_pos)) ring stats n v
        (omega (arith, length-items ring))
