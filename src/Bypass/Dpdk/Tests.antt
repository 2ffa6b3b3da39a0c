-- ===== src/Bypass/Dpdk/Tests.antt =====
-- The DPDK client at concrete answers and bursts.
use mdfh_distrib.Common.{
  ℕ, ◌+◌, ◌≡◌, ◌≢◌, refl, true, false, ◌&&◌, ◌||◌, List, [], ◌∷◌, arith, length, zero, suc, take,
}
use mdfh_distrib.Common.Word.{u64}
use mdfh_distrib.Core.{is_power_of_two}
use mdfh_distrib.Core.Validation.{is_valid_port}
use mdfh_distrib.Ring.{fresh}
use mdfh_distrib.Ingestion.Stats.{initial}
use mdfh_distrib.Bypass.{no_pending}
use mdfh_distrib.Bypass.Config
use mdfh_distrib.Bypass.Config.{BypassConfig, is_valid}
use mdfh_distrib.Bypass.Held.{items, no_pending-IsValid}
use mdfh_distrib.Bypass.Backend.{Reception, stop_ingestion}
use mdfh_distrib.Bypass.Backend.Returned.{count, handed_over}
use mdfh_distrib.Bypass.Dpdk.{Answers, DpdkBypassClient, Mbuf, dpdk, initialize, reception_loop}
use mdfh_distrib.Bypass.Dpdk.Startup.{
  fresh as new_backend, times_eal, initialize_all, attempts, port_done, initialize_once,
}
use mdfh_distrib.Bypass.Dpdk.Bursts.{
  packets, total_bytes, bursts, reception_loop_lem, AtMost, reception_loop_idle,
}

-- The largest batch that a valid configuration can have, and more.
abbrev config : BypassConfig
config = record {
  backend = Config.dpdk;
  interface_name = 101 ∷ [];
  host = 49 ∷ [];
  port = 9001;
  rx_ring_size = 65536;
  batch_size = 65536;
  cpu_core = 0;
  enable_zero_copy = true;
  zero_copy_threshold = 64;
  poll_timeout_us = 100;
}

config_valid : Config.is_valid config ≡ true
unfolding is_valid is_valid_port is_power_of_two
config_valid = refl

abbrev all_ok : Answers
all_ok = record {
  eal_ok = true;
  pool_ok = true;
  port_ok = true;
  configure_ok = true;
  rx_ok = true;
  tx_ok = true;
  start_ok = true;
  promiscuous_ok = true;
}

abbrev runs : List (BypassConfig × Answers)
runs = (config, record all_ok { eal_ok = false }) ∷ (config, all_ok) ∷ (config, all_ok) ∷ []

initialize_once_example :
    (times_eal (initialize_all runs false) ≡ attempts runs)
    × (times_eal (initialize_all runs true) ≡ 0)
    × ((initialize config all_ok false (new_backend config)).2
        ≡ Config.is_valid config && (false || true) && true && port_done all_ok)
initialize_once_example = initialize_once runs config all_ok false

abbrev connected : BypassConfig → Reception DpdkBypassClient
connected used = record {
  backend = record (new_backend used) { initialized = true; running = true; mbuf_pool = true };
  client = record {
    config = used;
    parser = record { partial = [] };
    sink = record { ring = fresh 4; stats = initial; ticks = 0 };
    pending = no_pending;
    released = [];
  };
}

abbrev clock : ℕ → ℕ
clock n = n

abbrev mbufs : List Mbuf
mbufs =
    record { address = 4096; data_bytes = 1 ∷ 2 ∷ [] }
    ∷ record { address = 8192; data_bytes = 3 ∷ [] }
    ∷ []

-- Every burst finds two packets.
abbrev rx_burst : ℕ → ℕ → List Mbuf
rx_burst n size = take size mbufs

reception_loop_lem_example :
    let delivered = bursts clock rx_burst 32 2 0 in
    let start = connected (record config { batch_size = 32 }) in
    let loop = reception_loop clock rx_burst 2 0 start in
    (u64 loop.backend.packets_received ≡ u64 (0 + length delivered))
    × (u64 loop.backend.bytes_received ≡ u64 (0 + total_bytes delivered))
    × ((k : ℕ)
        → k ≢ 0
        → count k (stop_ingestion dpdk loop).backend.freed
          ≡ count k [] + count k (items no_pending) + count k (handed_over (packets delivered)))
reception_loop_lem_example =
    reception_loop_lem clock rx_burst 2 0 (connected (record config { batch_size = 32 }))
      no_pending-IsValid tt

few : AtMost clock rx_burst
few n zero = omega arith
few n (suc zero) = omega arith
few n (suc (suc zero)) = omega arith
few n (suc (suc (suc size))) = omega arith

reception_loop_idle_example :
    reception_loop clock rx_burst 1000 0 (connected config) ≡ connected config
reception_loop_idle_example = reception_loop_idle clock rx_burst 1000 0 (connected config) few refl
