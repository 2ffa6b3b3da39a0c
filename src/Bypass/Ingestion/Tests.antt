-- ===== src/Bypass/Ingestion/Tests.antt =====
-- A build with DPDK, where every call succeeds.
use mdfh_distrib.Bypass.Boost.{reached}
use mdfh_distrib.Common.{◌≡◌, refl, true, false, [], ◌∷◌}
use mdfh_distrib.Core.{is_power_of_two}
use mdfh_distrib.Core.Validation.{is_valid_port}
use mdfh_distrib.Bypass.Config.{BypassConfig, dpdk, is_valid, create_bypass_client}
use mdfh_distrib.Bypass.Dpdk
use mdfh_distrib.Bypass.Ingestion.{
  Build, World, create, make, backend_initialize, backend_connect, initialize, connect,
}

abbrev config : BypassConfig
config = record {
  backend = dpdk;
  interface_name = 101 ∷ [];
  host = 49 ∷ [];
  port = 9001;
  rx_ring_size = 2048;
  batch_size = 32;
  cpu_core = 0;
  enable_zero_copy = true;
  zero_copy_threshold = 64;
  poll_timeout_us = 100;
}

abbrev build : Build
build = record { enable_dpdk = true; enable_solarflare = false }

abbrev world : World
world = record {
  attempt = reached;
  dpdk_initialized = false;
  dpdk_answers = record {
    eal_ok = true;
    pool_ok = true;
    port_ok = true;
    configure_ok = true;
    rx_ok = true;
    tx_ok = true;
    start_ok = true;
    promiscuous_ok = true;
  };
  solarflare_answers = record {
    domain_ok = true;
    interface_ok = true;
    memory_ok = true;
    registration_ok = true;
  };
}

initialize_done : (initialize build world (create config)).1 ≡ true
unfolding initialize backend_initialize make create_bypass_client Dpdk.initialize is_valid
    is_valid_port is_power_of_two
initialize_done = refl

connect_done : (connect world (initialize build world (create config)).0).1 ≡ true
unfolding initialize connect backend_connect backend_initialize make create_bypass_client
    Dpdk.initialize Dpdk.connect is_valid is_valid_port is_power_of_two
connect_done = refl
