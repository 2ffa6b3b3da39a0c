-- ===== src/Simulator/Run/Tests.antt =====
-- The simulator at three messages and a limit of three, the limiter's wait before them.
use mdfh_distrib.Common.{
  ℕ, ◌+◌, ◌*◌, ◌%◌, ◌^◌, ◌≡◌, refl, inr, Bool, true, false, some, List, [], ◌∷◌, arith, length, ltb,
}
use mdfh_distrib.Core.{Msg}
use mdfh_distrib.Encoding.Binary.{encode}
use mdfh_distrib.Ingestion.Stats.{initial}
use mdfh_distrib.Ingestion.Parser.{Sink}
use mdfh_distrib.Ingestion.Parser.Delivery.{deliver}
use mdfh_distrib.Ingestion.Parser.Reassembly.{feed}
use mdfh_distrib.Ring.{fresh}
use mdfh_distrib.Simulator.{cent, reset, AllQuotes}
use mdfh_distrib.Simulator.RateLimiter.{RateLimiter}
use mdfh_distrib.Simulator.Run.{MarketDataSimulator, Turn, send_loop}
use mdfh_distrib.Simulator.Run.Parsed.{send_loop_lem}

-- 100.0 as a double, moved up by one unit in the last place each time.
abbrev moved : ℕ → ℕ → ℕ
moved n price = (price + 1) % 2 ^ 64

abbrev below_cent : ℕ → Bool
below_cent price = ltb price cent

abbrev quantity : ℕ → ℕ
quantity n = 7

abbrev sells : ℕ → Bool
sells n = ltb n 2

abbrev limiter : RateLimiter
limiter = record { next_tick = 1000; interval = 300 }

abbrev turns : List Turn
turns =
    record { late = false; connected = true; clock = λ k. 1700 + 50 * k }
    ∷ record { late = false; connected = true; clock = λ k. 1950 + 50 * k }
    ∷ []

abbrev start : MarketDataSimulator
start = record {
  generator = reset 0x4059_0000_0000_0000;
  rate_limiter = limiter;
  messages_sent = 0;
  sent = [];
}

abbrev parse_clock : ℕ → ℕ
parse_clock n = 5000 + n

abbrev sink : Sink
sink = record { ring = fresh 8; stats = initial; ticks = 0 }

send_loop_lem_example :
    (s' : MarketDataSimulator) × (ms : List Msg) × (send_loop moved below_cent quantity sells encode
        3000 3 0 3 turns start
      ≡ some (s', true))
    × (length ms ≡ s'.messages_sent)
    × AllQuotes moved below_cent quantity sells 1 ms
    × (feed parse_clock s'.sent (record { partial = [] }, sink)
        ≡ (record { partial = [] }, deliver parse_clock ms sink))
send_loop_lem_example =
    send_loop_lem moved below_cent quantity sells refl (λ k p. omega arith) (λ k. omega arith)
      (λ k. omega arith) 3000 3 (omega arith) 2500 21 0 3 (omega arith) (omega arith) turns
      0x4059_0000_0000_0000 limiter (omega arith) (omega arith)
      (omega arith, omega arith, (omega arith, omega arith, tt)) (omega arith)
      (inr (omega arith, omega arith)) parse_clock sink
