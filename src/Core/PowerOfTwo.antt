-- ===== src/Core/PowerOfTwo.antt =====
-- What `is_power_of_two` of core.hpp accepts.
use mdfh_distrib.Common.{ℕ, ◌^◌, ◌≡◌, true, ◌↔◌, arith}
use mdfh_distrib.Common.Bits.{bit_and_pow_pred, pow_of_bit_and}
use mdfh_distrib.Core.{is_power_of_two}
use native.Mathlib.Nat.{one-le-pow}

pub power_of_two_sound : (v : ℕ) → is_power_of_two v ≡ true → (k : ℕ) × (v ≡ 2 ^ k)
unfolding is_power_of_two
power_of_two_sound v h = pow_of_bit_and v (ground arith) (ground arith)

pub power_of_two_complete : (k : ℕ) → is_power_of_two (2 ^ k) ≡ true
unfolding is_power_of_two
power_of_two_complete k = ground (arith, bit_and_pow_pred k, one-le-pow k 2 (omega arith))

-- `is_power_of_two` accepts exactly the powers of two.
pub is_power_of_two_iff : (v : ℕ) → (is_power_of_two v ≡ true) ↔ ((k : ℕ) × (v ≡ 2 ^ k))
is_power_of_two_iff v = (power_of_two_sound v, λ w. rw (w.1) (power_of_two_complete w.0))
