-- ===== src/Simulator/RateLimiter.antt =====
-- `RateLimiter::wait_for_next_tick`, times in nanoseconds of the steady clock.
use mdfh_distrib.Common.{
  ◌⊎◌, ℕ, zero, suc, ◌+◌, ◌*◌, ◌≤◌, ◌<◌, ◌≡◌, refl, Option, none, some, arith, leb, ltb,
  if◌then◌else◌, ◌>>=◌, Bool-cases, inl, inr,
}

pub record RateLimiter : Type 0 where
  pub next_tick : ℕ
  pub interval : ℕ

-- `while (next_tick_ <= now) next_tick_ += interval_;` on fuel: `none` while it runs
unfoldable pub catch_up : ℕ → ℕ → RateLimiter → Option RateLimiter
catch_up zero now l = none
catch_up (suc fuel) now l =
    let next = catch_up fuel now (record l { next_tick = l.next_tick + l.interval }) in
    if leb l.next_tick now then next else some l

-- `while (now() < next_tick_) {}` on fuel: the reading of the clock that ends it, `none` while it runs
unfoldable pub spin : ℕ → (ℕ → ℕ) → ℕ → Option ℕ
spin zero clock tick = none
spin (suc fuel) clock tick =
    let rest = spin fuel (λ k. clock (suc k)) tick in
    if ltb (clock 0) tick then rest else some (clock 0)

-- `clock k` is the reading `k` of the clock: the first for the catching up, the others for the spin.
-- The result is the limiter and the time of the return.
unfoldable pub wait_for_next_tick : ℕ → (ℕ → ℕ) → RateLimiter → Option (RateLimiter × ℕ)
wait_for_next_tick fuel clock l = do
  l' ← catch_up fuel (clock 0) l
  time ← spin fuel (λ k. clock (suc k)) l'.next_tick
  some (l', time)

catch_up_lem :
    (fuel now : ℕ) (l : RateLimiter)
    → 0 < fuel
    → 0 < l.interval
    → now + 1 < fuel + l.next_tick
    → (l' : RateLimiter) × (k : ℕ) × (catch_up fuel now l ≡ some l')
      × (l'.next_tick ≡ l.next_tick + k * l.interval)
      × (now < l'.next_tick)
      × ((l'.next_tick ≡ l.next_tick) ⊎ (l'.next_tick ≤ now + l.interval))
      × (l'.interval ≡ l.interval)
unfolding catch_up
catch_up_lem zero now l some_fuel pos enough = ground (arith, some_fuel)
catch_up_lem (suc fuel) now l some_fuel pos enough = elim (Bool-cases (leb l.next_tick now)) [
  | inl behind ↦
      let next : RateLimiter = record l { next_tick = l.next_tick + l.interval } in
      let (l', k, e, at, after, near, same) =
        catch_up_lem fuel now next (ground (arith, behind, enough)) pos (omega arith) in
      (
        l',
        suc k,
        ground (arith, behind, e),
        omega (arith, at),
        after,
        inr (ground (arith, behind, near)),
        same,
      )
  | inr ahead ↦ (l, 0, ground (arith, ahead), omega arith, ground (arith, ahead), inl refl, refl)
]

earlier :
    (clock : ℕ → ℕ) (tick m : ℕ)
    → clock 0 < tick
    → ((j : ℕ) → j < m → clock (suc j) < tick)
    → (j : ℕ) → j < suc m
    → clock j < tick
earlier clock tick m before rest zero below = before
earlier clock tick m before rest (suc j) below = rest j (omega (arith, below))

-- The spin ends at the first reading that is not before the tick.
spin_lem :
    (fuel n : ℕ) (clock : ℕ → ℕ) (tick : ℕ)
    → n < fuel
    → tick ≤ clock n
    → (m : ℕ) × (m ≤ n)
      × (spin fuel clock tick ≡ some (clock m))
      × (tick ≤ clock m)
      × ((j : ℕ) → j < m → clock j < tick)
unfolding spin
spin_lem zero n clock tick enough late = absurd (omega arith)
spin_lem (suc fuel) zero clock tick enough late =
    (0, omega arith, ground (arith, late), late, λ j below. absurd (omega (arith, below)))
spin_lem (suc fuel) (suc n) clock tick enough late =
    let (m, most, e, at, rest) = spin_lem fuel n (λ k. clock (suc k)) tick (omega arith) late in
    elim (Bool-cases (ltb (clock 0) tick)) [
      | inl before ↦ (
        suc m,
        omega (arith, most),
        ground (arith, before, e),
        at,
        earlier clock tick m (ground (arith, before)) rest,
      )
      | inr done ↦ (
        0,
        omega arith,
        ground (arith, done),
        ground (arith, done),
        λ j below. absurd (omega (arith, below)),
      )
    ]

-- With a positive interval the wait returns, as many rounds being enough as the tick is behind and as
-- readings of the clock are before one, `n + 1`, that has come to the tick and to one interval after
-- the first reading. The tick moves by whole intervals to the first one after the first reading, and
-- not at all if it lies ahead, and the wait returns at the first further reading that has come to it.
pub wait_for_next_tick_lem :
    (fuel n : ℕ) (clock : ℕ → ℕ) (l : RateLimiter)
    → n < fuel
    → 0 < l.interval
    → clock 0 + 1 < fuel + l.next_tick
    → l.next_tick ≤ clock (suc n)
    → clock 0 + l.interval ≤ clock (suc n)
    → (l' : RateLimiter) × (k m : ℕ) × (wait_for_next_tick fuel clock l ≡ some (l', clock (suc m)))
      × (l'.next_tick ≡ l.next_tick + k * l.interval)
      × (clock 0 < l'.next_tick)
      × ((l'.next_tick ≡ l.next_tick) ⊎ (l'.next_tick ≤ clock 0 + l.interval))
      × (l'.interval ≡ l.interval)
      × (l'.next_tick ≤ clock (suc m))
      × ((j : ℕ) → j < m → clock (suc j) < l'.next_tick)
unfolding wait_for_next_tick
wait_for_next_tick_lem fuel n clock l enough pos behind one two =
    let (l', k, e, at, after, near, same) =
      catch_up_lem fuel (clock 0) l (omega (arith, enough)) pos behind in
    let come : l'.next_tick ≤ clock (suc n) = ground (arith, near, one, two) in
    let (m, most, e', reached, first) =
      spin_lem fuel n (λ i. clock (suc i)) l'.next_tick enough come in
    (l', k, m, rw (e, e') refl, at, after, near, same, reached, first)

catch_up_hangs :
    (fuel now : ℕ) (l : RateLimiter)
    → l.interval ≡ 0
    → l.next_tick ≤ now
    → catch_up fuel now l ≡ none
unfolding catch_up
catch_up_hangs zero now l zero_interval behind = refl
catch_up_hangs (suc fuel) now l zero_interval behind =
    let next : RateLimiter = record l { next_tick = l.next_tick + l.interval } in
    ground (arith, catch_up_hangs fuel now next zero_interval (omega arith))

-- An interval of 0 never catches up with a tick that is not ahead.
pub wait_for_next_tick_hangs :
    (fuel : ℕ) (clock : ℕ → ℕ) (l : RateLimiter)
    → l.interval ≡ 0
    → l.next_tick ≤ clock 0
    → wait_for_next_tick fuel clock l ≡ none
unfolding wait_for_next_tick
wait_for_next_tick_hangs fuel clock l zero_interval behind =
    rw (catch_up_hangs fuel (clock 0) l zero_interval behind) refl
