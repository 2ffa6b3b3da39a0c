-- ===== src/MultiFeed/Monitor.antt =====
-- `FeedMonitor`: the counters, the gap detection and the status of one feed. Times are milliseconds
-- on the steady clock.
pub mod Health
use mdfh_distrib.Common.{
  ℕ, ◌+◌, ◌-◌, ◌*◌, ◌^◌, ◌≤◌, ◌<◌, ◌≡◌, ◌≢◌, ◌⊎◌, inl, inr, refl, Bool, true, false, ◌||◌, List, [],
  ◌∷◌, arith, ltb, ◌==◌, if◌then◌else◌, Bool-cases, length,
}
use mdfh_distrib.Common.Word.{u64, u32}
use mdfh_distrib.Core.{Msg}
use mdfh_distrib.MultiFeed.Config.{FeedConfig}

pub data FeedStatus : Type 0 where
  connecting healthy degraded dead failed : FeedStatus

pub record FeedMonitor : Type 0 where
  pub config : FeedConfig
  pub status : FeedStatus
  pub messages_received : ℕ
  pub bytes_received : ℕ
  pub sequence_gaps : ℕ
  pub last_sequence : ℕ
  pub last_message_time : ℕ
  pub expected_sequence : ℕ
  pub first_message_seen : Bool

-- The constructor, at time `now`.
abbrev pub create : ℕ → FeedConfig → FeedMonitor
create now config = record {
  config = config;
  status = connecting;
  messages_received = 0;
  bytes_received = 0;
  sequence_gaps = 0;
  last_sequence = 0;
  last_message_time = now;
  expected_sequence = 0;
  first_message_seen = false;
}

-- The last statement of `record_message`: only a feed that is connecting becomes healthy.
abbrev pub raise_status : FeedStatus → FeedStatus
raise_status connecting = healthy
raise_status healthy = healthy
raise_status degraded = degraded
raise_status dead = dead
raise_status failed = failed

-- The part under the mutex.
abbrev pub track_gap : ℕ → FeedMonitor → FeedMonitor
track_gap seq m =
    if m.first_message_seen
    then record m {
      sequence_gaps =
          if seq == m.expected_sequence then m.sequence_gaps else u64 (m.sequence_gaps + 1);
      expected_sequence = u64 (seq + 1);
    }
    else record m { expected_sequence = seq; first_message_seen = true }

unfoldable pub record_message : ℕ → Msg → ℕ → FeedMonitor → FeedMonitor
record_message now msg bytes m =
    let counted = track_gap msg.seq (record m {
      messages_received = u64 (m.messages_received + 1);
      bytes_received = u64 (m.bytes_received + bytes);
      last_message_time = now;
    }) in
    record counted { last_sequence = msg.seq; status = raise_status counted.status }

unfoldable pub record_connection_established : FeedMonitor → FeedMonitor
record_connection_established m = record m { status = healthy }

unfoldable pub record_connection_failed : FeedMonitor → FeedMonitor
record_connection_failed m = record m { status = failed }

-- `timeout_ms` and twice the interval are computed in 32 bits.
abbrev pub timeout_ms : FeedConfig → ℕ
timeout_ms c = u32 (c.heartbeat_interval_ms * c.timeout_multiplier)

-- The status that a check gives a feed that is healthy or degraded.
abbrev pub checked : ℕ → FeedConfig → FeedStatus → FeedStatus
checked elapsed c current =
    if ltb (timeout_ms c) elapsed
    then dead
    else if ltb (u32 (c.heartbeat_interval_ms * 2)) elapsed
    then degraded
    else current

unfoldable pub check_status : ℕ → FeedConfig → FeedStatus → FeedStatus
check_status elapsed c connecting = connecting
check_status elapsed c healthy = checked elapsed c healthy
check_status elapsed c degraded = checked elapsed c degraded
check_status elapsed c dead = dead
check_status elapsed c failed = failed

-- `check_health` at time `now`, no earlier than the last message.
unfoldable pub check_health : ℕ → FeedMonitor → FeedMonitor
check_health now m = record m {
  status = check_status (now - m.last_message_time) m.config m.status;
}

abbrev pub healthy_status : FeedStatus → Bool
healthy_status connecting = false
healthy_status healthy = true
healthy_status degraded = true
healthy_status dead = false
healthy_status failed = false

unfoldable pub is_healthy : FeedMonitor → Bool
is_healthy m = healthy_status m.status

abbrev pub dead_status : FeedStatus → Bool
dead_status connecting = false
dead_status healthy = false
dead_status degraded = false
dead_status dead = true
dead_status failed = true

unfoldable pub is_dead : FeedMonitor → Bool
is_dead m = dead_status m.status

-- What happens to a monitor while its connection stands: messages and health checks.
pub data Event : Type 0 where
  message : (now : ℕ) → Msg → (bytes : ℕ) → Event
  check : (now : ℕ) → Event

unfoldable pub observe : List Event → FeedMonitor → FeedMonitor
observe [] m = m
observe (message now msg bytes ∷ es) m = observe es (record_message now msg bytes m)
observe (check now ∷ es) m = observe es (check_health now m)

status-record_message :
    (now : ℕ) (msg : Msg) (bytes : ℕ) (m : FeedMonitor)
    → (record_message now msg bytes m).status ≡ raise_status m.status
unfolding record_message
status-record_message now msg bytes m = ground arith

stays_dead : (e : Event) (m : FeedMonitor) → is_dead m ≡ true → is_dead (observe (e ∷ []) m) ≡ true
unfolding observe is_dead check_health check_status
stays_dead (message now msg bytes) m h = ground (arith, status-record_message now msg bytes m)
stays_dead (check now) m h = ground arith

-- No run of messages and health checks brings a feed back that is dead or failed.
pub observe_dead :
    (es : List Event) (m : FeedMonitor) → is_dead m ≡ true → is_dead (observe es m) ≡ true
unfolding observe
observe_dead [] m h = h
observe_dead (message now msg bytes ∷ es) m h =
    observe_dead es _ (stays_dead (message now msg bytes) m h)
observe_dead (check now ∷ es) m h = observe_dead es _ (stays_dead (check now) m h)

pub received-record_message :
    (now : ℕ) (msg : Msg) (bytes : ℕ) (m : FeedMonitor)
    → m.messages_received + 1 < 2 ^ 64
    → (record_message now msg bytes m).messages_received ≡ m.messages_received + 1
unfolding record_message
received-record_message now msg bytes m h = ground arith
