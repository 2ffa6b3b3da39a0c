-- ===== src/MultiFeed/Monitor/Health.antt =====
-- What health checks decide.
use mdfh_distrib.Common.{ℕ, ◌-◌, ◌≤◌, ◌<◌, ◌≡◌, ◌⊎◌, arith, List, [], ◌∷◌}
use mdfh_distrib.MultiFeed.Monitor.{
  FeedMonitor, healthy, dead, check_health, check_status, Event, message, check,
}

-- A product that reaches 2^32 wraps: with an interval of 65536 ms and a multiplier of 65536, one
-- millisecond of silence is enough for the check to declare a healthy feed dead.
pub check_health_wraps :
    (now : ℕ) (m : FeedMonitor)
    → m.status ≡ healthy
    → m.config.heartbeat_interval_ms ≡ 65536
    → m.config.timeout_multiplier ≡ 65536
    → m.last_message_time < now
    → (check_health now m).status ≡ dead
unfolding check_health check_status
check_health_wraps now m h a b late = rw (h, a, b) (ground arith)

-- Some check comes more than `limit` after the last message before it, which was at `last`; and none.
abbrev pub Silent : (limit last : ℕ) → List Event → Type 0
Silent limit last [] = ⊥
Silent limit last (message now msg bytes ∷ es) = Silent limit now es
Silent limit last (check now ∷ es) = (limit < now - last) ⊎ Silent limit last es

abbrev pub Heard : (limit last : ℕ) → List Event → Type 0
Heard limit last [] = Unit
Heard limit last (message now msg bytes ∷ es) = Heard limit now es
Heard limit last (check now ∷ es) = (now - last ≤ limit) × Heard limit last es
