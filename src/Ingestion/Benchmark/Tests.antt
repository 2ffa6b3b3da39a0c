-- ===== src/Ingestion/Benchmark/Tests.antt =====
-- A drain of a buffer of four that holds nothing yet.
use mdfh_distrib.Common.{ℕ, ◌+◌, ◌≡◌, refl, arith, [], length}
use mdfh_distrib.Ring.{RingBuffer, fresh}
use mdfh_distrib.Ring.{try_push, empty_slot}
use mdfh_distrib.Ring.Invariant.{IsValid, try_push-IsValid}
use mdfh_distrib.Ring.Refine.{items}
use mdfh_distrib.Ingestion.Stats.{initial, process_all}
use mdfh_distrib.Ingestion.Benchmark.{drain, timed, drain_lem}

abbrev clock : ℕ → ℕ
clock n = 2000 + n

fresh-IsValid : IsValid (fresh 4)
fresh-IsValid = record {
  laid = record {
    exponent = 2;
    small = omega arith;
    capacity_eq = refl;
    mask_eq = refl;
    storage = refl;
    write_word = omega arith;
    read_word = omega arith;
    within = omega arith;
  };
  peak = omega arith;
  mark = omega arith;
}

-- One slot held.
abbrev ring : RingBuffer
ring = (try_push (record empty_slot { rx_ts = 7 }) (fresh 4)).0

drain_lem_example :
    let (ring', stats', n') = drain clock (ring, initial, 3) in
    (items ring' ≡ [])
    × (stats' ≡ process_all (timed clock 3 (items ring)) initial)
    × (n' ≡ 3 + length (items ring))
drain_lem_example =
    drain_lem clock ring initial 3
      (try_push-IsValid (record empty_slot { rx_ts = 7 }) fresh-IsValid)
