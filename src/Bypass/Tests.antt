-- ===== src/Bypass/Tests.antt =====
-- The bypass client at a concrete configuration and packets.
use mdfh_distrib.Common.{
  ℕ, ◌^◌, ◌≤◌, ◌<◌, ◌≡◌, ◌≢◌, ◌↔◌, refl, true, false, List, [], ◌∷◌, ◌++◌, take, drop, replicate,
}
use mdfh_distrib.Core.{is_power_of_two}
use mdfh_distrib.Core.Validation.{is_valid_port}
use mdfh_distrib.Ring.{fresh}
use mdfh_distrib.Ingestion.Stats.{initial}
use mdfh_distrib.Bypass.{PacketDesc, Client, no_pending, ingest}
use mdfh_distrib.Bypass.Config.{BypassConfig, boost_asio, is_valid, is_valid_iff}
use mdfh_distrib.Bypass.Held.{items, contexts, no_pending-IsValid}
use mdfh_distrib.Bypass.Release.{room, ingest_releases}

abbrev config : BypassConfig
config = record {
  backend = boost_asio;
  interface_name = 101 ∷ [];
  host = 49 ∷ [];
  port = 9001;
  rx_ring_size = 2048;
  batch_size = 32;
  cpu_core = 0;
  enable_zero_copy = true;
  zero_copy_threshold = 64;
  poll_timeout_us = 100;
}

config_runs : (is_valid config ≡ true) × (is_valid (record config { rx_ring_size = 2000 }) ≡ false)
unfolding is_valid is_valid_port is_power_of_two
config_runs = (refl, refl)

is_valid_iff_example : (is_valid config ≡ true) ↔ (
    (config.host ≢ [])
    × (config.interface_name ≢ [])
    × (0 < 9001)
    × (9001 ≤ 65535)
    × ((k : ℕ) × (2048 ≡ 2 ^ k))
    × (64 ≤ 2048)
    × (2048 ≤ 2 ^ 20)
    × (0 < 32)
    × (32 ≤ 2048)
    × (64 ≤ 65536)
    × (100 ≤ 1000000)
    × (0 ≤ 256))
is_valid_iff_example = is_valid_iff config

abbrev client : Client
client = record {
  config = config;
  parser = record { partial = [] };
  sink = record { ring = fresh 4; stats = initial; ticks = 0 };
  pending = no_pending;
  released = [];
}

abbrev clock : ℕ → ℕ
clock n = n

-- The second packet has no context.
abbrev packets : List PacketDesc
packets =
    record { data_bytes = replicate 25 1; context = 7000 }
    ∷ record { data_bytes = 2 ∷ []; context = 0 }
    ∷ record { data_bytes = replicate 70 3; context = 7064 }
    ∷ []

ingest_releases_example :
    let after = ingest clock packets client in
    (items after.pending ≡ [])
    × (after.released
        ≡ []
          ++ (drop (room client) (contexts packets)
              ++ (items no_pending ++ take (room client) (contexts packets))))
ingest_releases_example = ingest_releases clock packets client no_pending-IsValid tt
