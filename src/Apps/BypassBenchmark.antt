-- ===== src/Apps/BypassBenchmark.antt =====
-- apps/bypass_ingestion_benchmark.cpp: the configuration, the test of `main`, and `BypassBenchmark`.
-- The command line is parsed by CLI11, and the comparison of the elapsed seconds, a double, with the
-- limit is an argument. The tracker's settings and the output flags are left out.
pub mod Consumer
mod Tests
use Prim.Native.String.{String}
use text.Mathlib.Text.{◌==◌ as str_eq}
use mdfh_distrib.Common.{
  ℕ, zero, suc, ◌+◌, ◌-◌, Bool, true, false, not, ◌&&◌, ◌||◌, Option, none, some, List, [], ◌∷◌,
  bit_and, ltb, leb, ◌==◌, if◌then◌else◌,
}
use mdfh_distrib.Common.Word.{u64}
use mdfh_distrib.Ring.{Slot, RingBuffer, try_pop}
use mdfh_distrib.Ingestion.Stats.{IngestionStats, record_message_processed}
use mdfh_distrib.Bypass.Config.{BypassBackend, boost_asio, dpdk, solarflare_vi, BypassConfig}
use mdfh_distrib.Bypass.Ingestion
use mdfh_distrib.Bypass.Ingestion.{Build, World}

pub record BenchmarkConfig : Type 0 where
  pub host : List ℕ
  pub port : ℕ
  pub interface : List ℕ
  pub backend : String
  pub rx_ring_size : ℕ
  pub batch_size : ℕ
  pub cpu_core : ℕ
  pub enable_zero_copy : Bool
  pub buffer_capacity : ℕ
  pub poll_timeout_us : ℕ
  pub zero_copy_threshold : ℕ
  pub max_seconds : ℕ
  pub max_messages : ℕ

unfoldable pub parse_backend : String → BypassBackend
parse_backend name =
    if str_eq name "asio" || str_eq name "boost"
    then boost_asio
    else if str_eq name "dpdk"
    then dpdk
    else if str_eq name "solarflare" || str_eq name "ef_vi"
    then solarflare_vi
    else boost_asio

unfoldable pub create_bypass_config : BenchmarkConfig → BypassConfig
create_bypass_config c = record {
  backend = parse_backend c.backend;
  interface_name = c.interface;
  host = c.host;
  port = c.port;
  rx_ring_size = c.rx_ring_size;
  batch_size = c.batch_size;
  cpu_core = c.cpu_core;
  enable_zero_copy = c.enable_zero_copy;
  zero_copy_threshold = c.zero_copy_threshold;
  poll_timeout_us = c.poll_timeout_us;
}

-- The tests of `main` before the benchmark is made.
unfoldable pub check_config : BenchmarkConfig → Bool
check_config c =
    if (c.rx_ring_size == 0) || not (bit_and c.rx_ring_size (c.rx_ring_size - 1) == 0)
    then false
    else if (c.batch_size == 0) || ltb c.rx_ring_size c.batch_size
    then false
    else true

-- The consumer: the buffer, the statistics, how often the clock was read for a message, how many
-- tests of `should_continue` were made, and the local counter.
pub record Consumption : Type 0 where
  pub ring : RingBuffer
  pub stats : IngestionStats
  pub readings : ℕ
  pub tests : ℕ
  pub messages_processed : ℕ

abbrev pub tested : Consumption → Consumption
tested s = record s { tests = s.tests + 1 }

-- What is done with a slot that was popped, at time `now`.
unfoldable pub process : ℕ → Slot → Consumption → Consumption
process now slot s = record s {
  ring = (try_pop s.ring).0;
  stats = record_message_processed now slot s.stats;
  readings = s.readings + 1;
  messages_processed = u64 (s.messages_processed + 1);
}

-- `clock n` is the time at the n-th message, and `late n` says whether the time is up at the n-th
-- test. `connected` is what the client answers while it is receiving.
module _ (clock : ℕ → ℕ) (late : ℕ → Bool) (config : BenchmarkConfig) (connected : Bool) where
  unfoldable pub should_continue : Consumption → Bool
  should_continue s =
      if ltb 0 config.max_seconds && late s.tests
      then false
      else if ltb 0 config.max_messages && leb config.max_messages s.stats.messages_processed
      then false
      else connected

  -- The inner loop, with the rounds that are left.
  unfoldable pub consume_batch : ℕ → Consumption → Consumption
  consume_batch zero s = s
  consume_batch (suc rounds) s =
      let next : Consumption = elim (try_pop s.ring).1 [
        | none ↦ tested s
        | some slot ↦ consume_batch rounds (tested (process (clock s.readings) slot s))
      ] in
      if should_continue s then next else tested s

  -- The outer loop; each round begins with what the receiving thread did to the buffer.
  unfoldable pub consumer_loop : List (RingBuffer → RingBuffer) → Consumption → Consumption
  consumer_loop [] s = s
  consumer_loop (others ∷ later) s =
      let filled = record s { ring = others s.ring; tests = s.tests + 1 } in
      let next = consumer_loop later (consume_batch 100 filled) in
      if should_continue s then next else tested s

-- How `run` ends.
pub data Outcome : Type 0 where
  not_initialized not_connected : Outcome
  finished : Consumption → Outcome

-- `run`, up to the end of the consumer's loop.
unfoldable pub run :
    (clock : ℕ → ℕ) (late : ℕ → Bool)
    → BenchmarkConfig
    → Build
    → World
    → List (RingBuffer → RingBuffer)
    → Consumption
    → Outcome
run clock late config build w rounds s =
    let (initialized, init_done) =
      Ingestion.initialize build w (Ingestion.create (create_bypass_config config)) in
    let (connected, connect_done) = Ingestion.connect w initialized in
    let receiving = Ingestion.start_ingestion connected in
    let after = consumer_loop clock late config (Ingestion.is_connected receiving) rounds s in
    if not init_done
    then not_initialized
    else if not connect_done
    then not_connected
    else finished after
