-- ===== src/Apps/BypassBenchmark/Tests.antt =====
-- The benchmark in a build with DPDK, where every call succeeds.
use mdfh_distrib.Bypass.Boost.{reached}
use mdfh_distrib.Common.{ℕ, ◌≤◌, ◌≡◌, refl, true, false, [], ◌∷◌, arith}
use mdfh_distrib.Ring.{RingBuffer, fresh, empty_slot, try_push}
use mdfh_distrib.Ingestion.Stats.{initial}
use mdfh_distrib.Bypass.Config.{dpdk, boost_asio, solarflare_vi, create_bypass_client}
use mdfh_distrib.Bypass.Ingestion.{Build, World}
use mdfh_distrib.Apps.BypassBenchmark.{
  BenchmarkConfig, parse_backend, check_config, Consumption, run,
}
use mdfh_distrib.Apps.BypassBenchmark.Consumer.{Leaves, run-limit, run-dpdk}

abbrev config : BenchmarkConfig
config = record {
  host = 49 ∷ [];
  port = 9001;
  interface = 101 ∷ [];
  backend = "dpdk";
  rx_ring_size = 2048;
  batch_size = 32;
  cpu_core = 0;
  enable_zero_copy = true;
  buffer_capacity = 4;
  poll_timeout_us = 100;
  zero_copy_threshold = 64;
  max_seconds = 60;
  max_messages = 10;
}

config_runs :
    (check_config config ≡ true)
    × (parse_backend "dpdk" ≡ dpdk)
    × (parse_backend "ef_vi" ≡ solarflare_vi)
    × (parse_backend "udp" ≡ boost_asio)
unfolding check_config parse_backend
config_runs = (refl, refl, refl, refl)

abbrev build : Build
build = record { enable_dpdk = true; enable_solarflare = false }

abbrev world : World
world = record {
  attempt = reached;
  dpdk_initialized = false;
  dpdk_answers = record {
    eal_ok = true;
    pool_ok = true;
    port_ok = true;
    configure_ok = true;
    rx_ok = true;
    tx_ok = true;
    start_ok = true;
    promiscuous_ok = true;
  };
  solarflare_answers = record {
    domain_ok = true;
    interface_ok = true;
    memory_ok = true;
    registration_ok = true;
  };
}

abbrev start : Consumption
start = record { ring = fresh 4; stats = initial; readings = 0; tests = 0; messages_processed = 0 }

abbrev clock : ℕ → ℕ
clock n = n

-- A message arrives before each of two rounds.
abbrev arrives : RingBuffer → RingBuffer
arrives ring = (try_push empty_slot ring).0

run-limit_example :
    Leaves
      (λ after. after.stats.messages_processed ≤ 10)
      (run clock (λ n. false) config build world (arrives ∷ arrives ∷ []) start)
run-limit_example =
    run-limit clock (λ n. false) config build world (arrives ∷ arrives ∷ []) start (omega arith)
      (omega arith) (omega arith)

chosen : create_bypass_client true false (parse_backend "dpdk") ≡ dpdk
unfolding create_bypass_client parse_backend
chosen = refl

run-dpdk_example :
    Leaves
      (λ after.
        (after.ring ≡ start.ring) × (after.stats ≡ start.stats) × (after.messages_processed ≡ 0))
      (run clock (λ n. false) config build world (arrives ∷ arrives ∷ []) start)
run-dpdk_example =
    run-dpdk clock (λ n. false) config build world (arrives ∷ arrives ∷ []) start chosen
