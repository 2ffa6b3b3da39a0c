-- ===== src/Simulator/Tests.antt =====
-- The limiter at a concrete clock.
use mdfh_distrib.Common.{ℕ, suc, ◌+◌, ◌*◌, ◌≤◌, ◌<◌, ◌≡◌, ◌⊎◌, some, arith}
use mdfh_distrib.Simulator.RateLimiter.{RateLimiter, wait_for_next_tick, wait_for_next_tick_lem}

abbrev limiter : RateLimiter
limiter = record { next_tick = 1000; interval = 300 }

abbrev every_50 : ℕ → ℕ
every_50 k = 1700 + 50 * k

wait_for_next_tick_lem_example :
    (l' : RateLimiter) × (k m : ℕ) × (wait_for_next_tick 900 every_50 limiter
      ≡ some (l', every_50 (suc m)))
    × (l'.next_tick ≡ 1000 + k * 300)
    × (1700 < l'.next_tick)
    × ((l'.next_tick ≡ 1000) ⊎ (l'.next_tick ≤ 1700 + 300))
    × (l'.interval ≡ 300)
    × (l'.next_tick ≤ every_50 (suc m))
    × ((j : ℕ) → j < m → every_50 (suc j) < l'.next_tick)
wait_for_next_tick_lem_example =
    wait_for_next_tick_lem 900 5 every_50 limiter (omega arith) (omega arith) (omega arith)
      (omega arith) (omega arith)
