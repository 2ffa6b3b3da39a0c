-- ===== src/Bypass/Solarflare/Tests.antt =====
-- The Solarflare client at concrete answers and events.
use mdfh_distrib.Common.{
  ℕ, ◌+◌, ◌≤◌, ◌≡◌, ◌≢◌, refl, true, false, ◌&&◌, List, [], ◌∷◌, arith, length, if◌then◌else◌,
}
use mdfh_distrib.Ring.{fresh}
use mdfh_distrib.Ingestion.Stats.{initial}
use mdfh_distrib.Bypass.{
  no_pending, handle_packet, parse_packet, keep_or_release, try_add_pending_packet,
}
use mdfh_distrib.Bypass.Config
use mdfh_distrib.Bypass.Config.{BypassConfig, solarflare_vi}
use mdfh_distrib.Bypass.Held.{items, no_pending-IsValid}
use mdfh_distrib.Bypass.Solarflare.{
  Answers, interface, SolarflareBypassClient, Event, rx, other, initialize, disconnect,
  reception_loop, ids_from, solarflare,
}
use mdfh_distrib.Bypass.Solarflare.{process_event, release_packet, count_packet}
use mdfh_distrib.Bypass.Solarflare.Lifecycle.{
  fresh as new_backend, times_acquired, times_freed, fails_at_buffers, set_up_first,
  initialize-disconnect,
}
use mdfh_distrib.Bypass.Solarflare.Buffers.{taken, all_events, buffers_returned}
use mdfh_distrib.Bypass.Backend.Returned.{count}
use mdfh_distrib.Bypass.Backend.{Reception, deliver, stop_ingestion, released_by, release_all}
use mdfh_distrib.Bypass.Solarflare.Starvation.{Delivers, zero_copy_starves}

abbrev config : BypassConfig
config = record {
  backend = solarflare_vi;
  interface_name = 101 ∷ [];
  host = 49 ∷ [];
  port = 9001;
  rx_ring_size = 64;
  batch_size = 32;
  cpu_core = 0;
  enable_zero_copy = true;
  zero_copy_threshold = 64;
  poll_timeout_us = 100;
}

-- The registration of the memory fails.
abbrev no_registration : Answers
no_registration = record {
  domain_ok = true;
  interface_ok = true;
  memory_ok = true;
  registration_ok = false;
}

initialize-disconnect_example :
    let (c, done) = initialize config no_registration (new_backend config) in
    let after = disconnect c in
    (done ≡ Config.is_valid config && (true && true && true && false))
    × (after.initialized ≡ false)
    × (times_acquired interface after.calls
        ≡ times_freed interface after.calls
          + (if Config.is_valid config && fails_at_buffers no_registration && set_up_first interface
              then 1
              else 0))
initialize-disconnect_example = initialize-disconnect config config no_registration interface

-- A client that is connected, with four buffers.
abbrev connected : Reception SolarflareBypassClient
connected = record {
  backend = record (new_backend config) {
    pd = true;
    vi = true;
    packet_buffer = true;
    memreg = true;
    initialized = true;
    running = true;
    posts = ids_from 4 0;
  };
  client = record {
    config = config;
    parser = record { partial = [] };
    sink = record { ring = fresh 4; stats = initial; ticks = 0 };
    pending = no_pending;
    released = [];
  };
}

abbrev clock : ℕ → ℕ
clock n = n

abbrev polls : List (List Event)
polls = (rx 0 (1 ∷ 2 ∷ []) ∷ other ∷ rx 2 (3 ∷ []) ∷ []) ∷ [] ∷ (rx 1 [] ∷ []) ∷ []

buffers_returned_example :
    let after = stop_ingestion solarflare (reception_loop clock polls connected) in
    ((k : ℕ)
      → k ≢ 0
      → count k after.backend.posts
        ≡ count k (ids_from 4 0) + count k (items no_pending) + count k (taken polls))
    × (count 0 after.backend.posts ≡ count 0 (ids_from 4 0))
buffers_returned_example = buffers_returned clock polls connected no_pending-IsValid tt refl

polls-Delivers : Delivers clock 0 (all_events polls) connected
unfolding process_event deliver released_by release_all release_packet count_packet handle_packet
    parse_packet keep_or_release try_add_pending_packet
polls-Delivers = omega arith

zero_copy_starves_example :
    (length (taken polls) ≤ 4)
    × ((reception_loop clock polls connected).backend.posts ≡ ids_from 4 0)
zero_copy_starves_example =
    zero_copy_starves clock polls connected no_pending-IsValid refl refl refl (omega arith)
      polls-Delivers
