-- ===== src/Simulator/Run.antt =====
-- `MarketDataSimulator::send_batch` and the loop of `run`: the limiter, the generator, the encoder
-- and the transport together.
pub mod Stops
pub mod Parsed
mod Tests
use mdfh_distrib.Common.{
  ℕ, suc, ◌+◌, ◌*◌, ◌^◌, ◌≤◌, ◌<◌, ◌≡◌, refl, Bool, true, false, ◌&&◌, Option, none, some, List, [],
  ◌∷◌, ◌++◌, arith, if◌then◌else◌, ◌>>=◌,
}
use mdfh_distrib.Common.Word.{u64}
use mdfh_distrib.Core.{Msg}
use mdfh_distrib.Simulator.{MarketDataGenerator, generate_batch, should_continue}
use mdfh_distrib.Simulator.RateLimiter.{RateLimiter, wait_for_next_tick}

-- `sent` lists the buffers that `Transport::send` was called with.
pub record MarketDataSimulator : Type 0 where
  pub generator : MarketDataGenerator
  pub rate_limiter : RateLimiter
  pub messages_sent : ℕ
  pub sent : List (List ℕ)

-- A round of the loop: what the timer and the transport say, and the clock that the limiter reads.
pub record Turn : Type 0 where
  pub late : Bool
  pub connected : Bool
  pub clock : ℕ → ℕ

-- The generator's draws, the encoder, and the fuel of a wait.
module _ (moved : ℕ → ℕ → ℕ) (below_cent : ℕ → Bool) (quantity : ℕ → ℕ) (sells : ℕ → Bool)
    (encode_inplace : List Msg → List ℕ) (fuel batch_size : ℕ) where
  -- What follows the wait.
  unfoldable pub send_now : RateLimiter → MarketDataSimulator → MarketDataSimulator
  send_now limiter s =
      let (batch, generator) =
        generate_batch moved below_cent quantity sells batch_size s.generator in
      record {
        generator = generator;
        rate_limiter = limiter;
        messages_sent = u64 (s.messages_sent + batch_size);
        sent = s.sent ++ (encode_inplace batch ∷ []);
      }

  -- `none` while it waits
  unfoldable pub send_batch : (ℕ → ℕ) → MarketDataSimulator → Option MarketDataSimulator
  send_batch clock s = do
    waited ← wait_for_next_tick fuel clock s.rate_limiter
    some (send_now waited.0 s)

  -- The flag says that the loop ended.
  unfoldable pub send_loop :
      (max_seconds max_messages : ℕ)
      → List Turn
      → MarketDataSimulator
      → Option (MarketDataSimulator × Bool)
  send_loop max_seconds max_messages [] s = some (s, false)
  send_loop max_seconds max_messages (now ∷ later) s =
      let next = send_batch now.clock s >>= λ s'. send_loop max_seconds max_messages later s' in
      if should_continue max_seconds max_messages s.messages_sent now.late && now.connected
      then next
      else some (s, true)
