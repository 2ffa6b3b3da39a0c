-- ===== src/Simulator/Run/Stops.antt =====
-- When the loop of `MarketDataSimulator::run` ends.
use mdfh_distrib.Common.{
  ℕ, ◌+◌, ◌*◌, ◌≤◌, ◌<◌, ◌≡◌, ◌⊎◌, Bool, true, false, ◌&&◌, List, [], ◌∷◌, arith, length, inl, inr,
}
use mdfh_distrib.Simulator.{should_continue}
use mdfh_distrib.Simulator.Run.{Turn}

module _ (batch_size max_seconds max_messages : ℕ) where
  -- In some turn the time limit is set and reached, or the transport is not connected.
  abbrev pub SomeBreak : List Turn → Type 0
  SomeBreak [] = ⊥
  SomeBreak (t ∷ ts) = ((0 < max_seconds) × (t.late ≡ true)) ⊎ (t.connected ≡ false) ⊎ SomeBreak ts

  -- Some turn breaks the loop, or the limit on the messages is set and reached before the last one.
  unfoldable pub Stops : ℕ → List Turn → Type 0
  Stops sent turns =
      SomeBreak turns
      ⊎ ((0 < max_messages)
          × (sent < max_messages + batch_size)
          × (max_messages + batch_size ≤ sent + length turns * batch_size))

  unfoldable pub continues : Turn → ℕ → Bool
  continues t sent = should_continue max_seconds max_messages sent t.late && t.connected

  continues-below :
      (t : Turn) (sent : ℕ) → continues t sent ≡ true → (max_messages ≡ 0) ⊎ (sent < max_messages)
  unfolding continues should_continue
  continues-below t sent on = ground (arith, on)

  continues-break :
      (t : Turn) (sent : ℕ)
      → continues t sent ≡ true
      → ((0 < max_seconds) × (t.late ≡ true)) ⊎ (t.connected ≡ false)
      → ⊥
  unfolding continues should_continue
  continues-break t sent on (inl late) = ground (arith, on, late)
  continues-break t sent on (inr closed) = ground (arith, on, closed)

  pub Stops-later :
      (now : Turn) (later : List Turn) (sent : ℕ)
      → continues now sent ≡ true
      → Stops sent (now ∷ later)
      → Stops (sent + batch_size) later
  unfolding Stops
  Stops-later now later sent on (inl (inl late)) = absurd (continues-break now sent on (inl late))
  Stops-later now later sent on (inl (inr (inl closed))) =
      absurd (continues-break now sent on (inr closed))
  Stops-later now later sent on (inl (inr (inr rest))) = inl rest
  Stops-later now later sent on (inr (limit, near, enough)) = elim (continues-below now sent on) [
    | inl none_set ↦ absurd (omega (arith, limit, none_set))
    | inr below ↦ inr (limit, omega (arith, below), omega (arith, enough))
  ]
