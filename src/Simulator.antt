-- ===== src/Simulator.antt =====
-- src/simulator.cpp and the `RateLimiter` of include/mdfh/timing.hpp. Sockets are not modelled.
pub mod RateLimiter
pub mod Run
mod Tests
use mdfh_distrib.Common.{
  length, subst, ℕ, zero, suc, ◌+◌, ◌-◌, ◌*◌, ◌%◌, ◌^◌, ◌≤◌, ◌<◌, ◌≡◌, ◌≢◌, refl, ap, Bool, true,
  false, ◌&&◌, List, [], ◌∷◌, arith, ltb, leb, ◌==◌, if◌then◌else◌, Bool-cases, inl, inr,
}
use mdfh_distrib.Common.Word.{u64}
use mdfh_distrib.Core.{Msg}

-- `MarketDataGenerator`: the current price (the bits of a double), the last sequence number, and how
-- many messages the random engine was used for.
pub record MarketDataGenerator : Type 0 where
  pub current_price : ℕ
  pub sequence : ℕ
  pub draws : ℕ

-- `reset`, which the constructor calls
abbrev pub reset : ℕ → MarketDataGenerator
reset base_price = record { current_price = base_price; sequence = 0; draws = 0 }

-- 0.01 as a double
abbrev pub cent : ℕ
cent = 0x3f84_7ae1_47ae_147b

-- The random engine and the arithmetic of doubles: `moved n price` is the price after the jitter of
-- draw `n`, `below_cent` the comparison with 0.01, `quantity n` the draw from 1 to `max_quantity`,
-- and `sells n` the test of a remainder by 2.
module _ (moved : ℕ → ℕ → ℕ) (below_cent : ℕ → Bool) (quantity : ℕ → ℕ) (sells : ℕ → Bool) where
  abbrev pub next_price : MarketDataGenerator → ℕ
  next_price g =
      let price = moved g.draws g.current_price in if below_cent price then cent else price

  abbrev pub next_msg : MarketDataGenerator → Msg
  next_msg g = record {
    seq = u64 (g.sequence + 1);
    px = next_price g;
    qty = if sells g.draws then (2 ^ 32 - quantity g.draws) % 2 ^ 32 else quantity g.draws;
  }

  -- The batch, by its size, and the generator after it.
  unfoldable pub generate_batch : ℕ → MarketDataGenerator → List Msg × MarketDataGenerator
  generate_batch zero g = ([], g)
  generate_batch (suc n) g =
      let (rest, g') = generate_batch n (record {
        current_price = next_price g;
        sequence = u64 (g.sequence + 1);
        draws = g.draws + 1;
      }) in
      (next_msg g ∷ rest, g')

  -- Numbered from `n` on, no price below a cent, no quantity of 0.
  abbrev pub AllQuotes : ℕ → List Msg → Type 0
  AllQuotes n [] = Unit
  AllQuotes n (m ∷ ms) =
      (m.seq ≡ n) × (below_cent m.px ≡ false) × (m.qty ≢ 0) × AllQuotes (n + 1) ms

  -- A batch has its size; its messages are numbered from the generator's number on without a gap, no
  -- price is below 0.01 and no quantity is 0, provided that the drawn quantities are positive
  -- `int32_t` numbers, that 0.01 is not below itself, and that the numbers stay in 64 bits.
  pub generate_batch_lem :
      (n : ℕ) (g : MarketDataGenerator)
      → below_cent cent ≡ false
      → ((k : ℕ) → 0 < quantity k)
      → ((k : ℕ) → quantity k < 2 ^ 31)
      → g.sequence + n < 2 ^ 64
      → let (batch, g') = generate_batch n g in
        (length batch ≡ n) × (g'.sequence ≡ g.sequence + n) × AllQuotes (g.sequence + 1) batch
  unfolding generate_batch
  generate_batch_lem zero g c lo hi word = (refl, omega arith, tt)
  generate_batch_lem (suc n) g c lo hi word =
      let next : MarketDataGenerator = record {
        current_price = next_price g;
        sequence = u64 (g.sequence + 1);
        draws = g.draws + 1;
      } in
      let one : u64 (g.sequence + 1) ≡ g.sequence + 1 = omega arith in
      let (size, last, rest) = generate_batch_lem n next c lo hi (omega (arith, one)) in
      (
        ap suc size,
        omega (arith, last, one),
        (
          one,
          price,
          some_quantity,
          subst (λ k. AllQuotes (k + 1) (generate_batch n next).0) one rest,
        ),
      )
    where
      price : below_cent (next_price g) ≡ false
      price = elim (Bool-cases (below_cent (moved g.draws g.current_price))) [
        | inl e ↦ rw e c
        | inr e ↦ rw (e, e)
      ]

      some_quantity : (next_msg g).qty ≢ 0
      some_quantity = ground (arith, lo g.draws, hi g.draws)

-- `should_continue`; `late` compares the elapsed seconds with `max_seconds`.
unfoldable pub should_continue : (max_seconds max_messages sent : ℕ) → Bool → Bool
should_continue max_seconds max_messages sent late =
    if ltb 0 max_seconds && late
    then false
    else if ltb 0 max_messages && leb max_messages sent
    then false
    else true

-- A round of the loop of `run`: what the timer and the transport say.
pub record Round : Type 0 where
  pub late : Bool
  pub connected : Bool

-- The loop: each `send_batch` adds the batch size to `messages_sent_`. The flag says that it ended.
module _ (max_seconds max_messages batch_size : ℕ) where
  unfoldable pub run_loop : List Round → ℕ → ℕ × Bool
  run_loop [] sent = (sent, false)
  run_loop (now ∷ later) sent =
      let next = run_loop later (u64 (sent + batch_size)) in
      if should_continue max_seconds max_messages sent now.late && now.connected
      then next
      else (sent, true)

  -- With a limit on the messages, the simulator sends whole batches, and fewer than one batch over
  -- the limit.
  pub run_loop_limit :
      (rounds : List Round) (sent : ℕ)
      → 0 < max_messages
      → max_messages + batch_size < 2 ^ 64
      → sent < max_messages + batch_size
      → let (sent', ended) = run_loop rounds sent in
        (sent' < max_messages + batch_size) × (k : ℕ) × (sent' ≡ sent + k * batch_size)
  unfolding run_loop should_continue
  run_loop_limit [] sent pos word h = (h, 0, omega arith)
  run_loop_limit (now ∷ later) sent pos word h =
      elim (Bool-cases (should_continue max_seconds max_messages sent now.late && now.connected)) [
        | inl on ↦
            let below : sent < max_messages = ground (arith, on, pos) in
            let one : u64 (sent + batch_size) ≡ sent + batch_size = omega (arith, below) in
            let (bound, k, e) =
              run_loop_limit later (u64 (sent + batch_size)) pos word (omega (arith, one, below)) in
            (ground (arith, on, bound), suc k, ground (arith, on, e, one))
        | inr off ↦ (ground (arith, off, h), 0, ground (arith, off))
      ]
