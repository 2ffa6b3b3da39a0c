-- ===== src/MultiFeed/Tests.antt =====
-- The theorems on feeds at concrete configurations, buffers and monitors.
use mdfh_distrib.Common.{
  ℕ, ◌+◌, ◌≡◌, ◌⊎◌, ◌&&◌, refl, Bool, true, false, some, none, List, [], ◌∷◌, ◌++◌, arith, length,
  ltb, map, take,
}
use mdfh_distrib.Core.{is_power_of_two}
use mdfh_distrib.Ring
use mdfh_distrib.Ring.{RingBuffer, Slot, empty_slot}
use mdfh_distrib.Ring.Invariant
use mdfh_distrib.Ring.Refine
use mdfh_distrib.MultiFeed.Config.{default_feed, MultiFeedConfig, is_valid}
use mdfh_distrib.MultiFeed.FromYaml.{FeedNode, Yaml, from_yaml}
use mdfh_distrib.MultiFeed.Origins.{Ordered, is_valid-from_yaml}
use mdfh_distrib.MultiFeed.Mpsc.{MultiFeedSlot, empty_multi_slot, fresh}
use mdfh_distrib.MultiFeed.Mpsc.Refine.{IsValid, items}
use mdfh_distrib.MultiFeed.Mpsc.Race.{System, Reach, claimed, pops_unwritten_slot}
use mdfh_distrib.MultiFeed.Monitor.{
  FeedMonitor, healthy, dead, create, is_healthy, Event, message, check, check_health,
}
use mdfh_distrib.MultiFeed.Worker.{Feed, tag, worker_loop}
use mdfh_distrib.MultiFeed.Worker.LocalQueue.{push_all, queue_rounds}
use mdfh_distrib.MultiFeed.Worker.Rounds.{worker_loop_lem}
use mdfh_distrib.MultiFeed.Dispatcher.{health_round, NoPrimary, NoBackup, health_round_lem}

-- A specification is what the expression captures; "x" names every feed.
abbrev specs : List (List ℕ × ℕ)
specs = (97 ∷ [], 9001) ∷ (98 ∷ [], 65536) ∷ (99 ∷ [], 9002) ∷ []

abbrev name_of : ℕ → List ℕ
name_of n = 120 ∷ []

abbrev node : FeedNode
node = record {
  name = none;
  host = none;
  port = some 9005;
  is_primary = some false;
  heartbeat_interval_ms = none;
  timeout_multiplier = none;
  buffer_capacity = some 1024;
}

abbrev yaml : Yaml
yaml = record { global = none; feeds = node ∷ (record node { port = some 0 }) ∷ node ∷ [] }

is_valid-from_yaml_example :
    (c : MultiFeedConfig) × (from_yaml name_of (some yaml) ≡ some c)
    × Ordered 0 c.feeds
    × (is_valid c ≡ (
        ltb 0 (length c.feeds)
        && is_power_of_two c.global_buffer_capacity
        && ltb 0 c.dispatcher_threads
        && ltb 0 c.health_check_interval_ms))
is_valid-from_yaml_example = is_valid-from_yaml name_of yaml (omega arith)

abbrev fresh-IsValid : IsValid (fresh 4)
fresh-IsValid = record {
  laid = record {
    exponent = 2;
    small = omega arith;
    capacity_eq = refl;
    mask_eq = refl;
    storage = refl;
    write_word = omega arith;
    read_word = omega arith;
    within = omega arith;
  };
  ordered = omega arith;
}

abbrev x : MultiFeedSlot
x = record empty_multi_slot { origin_id = 3 }

pops_unwritten_slot_example :
    (s : System) × Reach (fresh 8) s
    × (s.producer ≡ claimed x 0)
    × (s.pushed ≡ [])
    × (s.popped ≡ empty_multi_slot ∷ [])
pops_unwritten_slot_example = pops_unwritten_slot 8 x (omega arith)

abbrev monitor : FeedMonitor
monitor = record (create 100 default_feed) { status = healthy }

-- A message, a silence over twice the interval, a message again.
abbrev late_beats : List Event
late_beats =
    message 1000 empty_slot.raw 20
    ∷ check 1500
    ∷ check 3500
    ∷ message 3600 empty_slot.raw 20
    ∷ check 4000
    ∷ []

-- Two slots in the feed's own buffer.
abbrev local : RingBuffer
local = record (Ring.fresh 4) {
  slots = empty_slot ∷ record empty_slot { rx_ts = 5 } ∷ empty_slot ∷ empty_slot ∷ [];
  write_pos = 2;
  high_water_mark = 2;
}

abbrev local-IsValid : Invariant.IsValid local
local-IsValid = record {
  laid = record {
    exponent = 2;
    small = omega arith;
    capacity_eq = refl;
    mask_eq = refl;
    storage = refl;
    write_word = omega arith;
    read_word = omega arith;
    within = omega arith;
  };
  peak = omega arith;
  mark = omega arith;
}

abbrev feed : Feed
feed = record { local = local; monitor = monitor; global = fresh 4; dropped = 0 }

abbrev clock : ℕ → ℕ
clock n = 100 + n

abbrev always : ℕ → Bool
always n = true

abbrev empty_feed : Feed
empty_feed = record { local = Ring.fresh 4; monitor = monitor; global = fresh 4; dropped = 0 }

abbrev empty_local-IsValid : Invariant.IsValid (Ring.fresh 4)
empty_local-IsValid = record {
  laid = record {
    exponent = 2;
    small = omega arith;
    capacity_eq = refl;
    mask_eq = refl;
    storage = refl;
    write_word = omega arith;
    read_word = omega arith;
    within = omega arith;
  };
  peak = omega arith;
  mark = omega arith;
}

-- In one round five messages, of which the feed's own buffer takes four, and one more during the
-- drain; one in the next; and one after the last drain.
abbrev pieces : List (List (List Slot))
pieces =
    ((empty_slot ∷ empty_slot ∷ empty_slot ∷ empty_slot ∷ empty_slot ∷ []) ∷ (empty_slot ∷ []) ∷ [])
    ∷ ((empty_slot ∷ []) ∷ [])
    ∷ []

worker_loop_lem_example :
    let after =
      worker_loop
        (λ r. clock)
        (λ r. always)
        7
        true
        (map (map push_all) pieces)
        (push_all (empty_slot ∷ []))
        empty_feed in
    let taken = (queue_rounds 4 pieces []).0 in
    (Refine.items after.local ≡ empty_slot ∷ [])
    × (items after.global ≡ items (fresh 4) ++ take 4 (map (tag clock always 7) taken))
    × (after.monitor.messages_received ≡ 0 + 6)
worker_loop_lem_example =
    worker_loop_lem (λ r. clock) (λ r. always) 7 (λ i j. refl) pieces (empty_slot ∷ []) empty_feed
      empty_local-IsValid fresh-IsValid refl (omega arith) (omega arith)

abbrev monitors : List FeedMonitor
monitors =
    record monitor { status = dead }
    ∷ record monitor { config = record default_feed { is_primary = false } }
    ∷ []

health_round_lem_example :
    let checked = map (check_health 200) monitors in
    (map (λ (m : FeedMonitor). m.config) (health_round 200 monitors).0
      ≡ map (λ (m : FeedMonitor). m.config) monitors)
    × ((((health_round 200 monitors).1 ≡ none)
          × (((before : List FeedMonitor) × (m : FeedMonitor) × (after : List FeedMonitor)
                × (checked ≡ before ++ (m ∷ after))
                × (m.config.is_primary ≡ true)
                × (is_healthy m ≡ true))
              ⊎ (NoPrimary checked × NoBackup checked)))
        ⊎ ((before : List FeedMonitor) × (m : FeedMonitor) × (after : List FeedMonitor)
            × ((health_round 200 monitors).1 ≡ some m.config.name)
            × NoPrimary checked
            × (checked ≡ before ++ (m ∷ after))
            × NoBackup before
            × (m.config.is_primary ≡ false)
            × (is_healthy m ≡ true)))
health_round_lem_example = health_round_lem 200 monitors
