-- ===== src/Core.antt =====
-- include/mdfh/core.hpp: the market data message, its tests, and the validation helpers that the
-- other components call; with the level filter of `Logger::log` (src/ring_buffer.cpp).
pub mod PowerOfTwo
pub mod Validation
pub mod Log
mod Tests
use mdfh_distrib.Common.{
  ℕ, ◌-◌, ◌%◌, ◌^◌, Bool, true, false, not, ◌&&◌, ◌||◌, Option, none, some, ltb, leb, ◌==◌,
  if◌then◌else◌, bit_and,
}

-- `struct Msg`. Each field is its bit pattern, as the packed structure holds it in memory: `px` is
-- an IEEE-754 double (64 bits), `qty` an `int32_t` in two's complement (32 bits).
pub record Msg : Type 0 where
  pub seq : ℕ
  pub px : ℕ
  pub qty : ℕ

-- The default constructor; +0.0 is the pattern 0.
abbrev pub zero_msg : Msg
zero_msg = record { seq = 0; px = 0; qty = 0 }

-- `px > 0.0`: sign bit clear, not zero, not a NaN. The pattern of +infinity is 0x7ff0…0.
abbrev pub px_positive : ℕ → Bool
px_positive px = ltb 0 px && leb px 0x7ff0_0000_0000_0000

-- `qty > 0` and `qty < 0` on the bit pattern.
abbrev pub qty_positive : ℕ → Bool
qty_positive q = ltb 0 q && ltb q (2 ^ 31)

abbrev pub qty_negative : ℕ → Bool
qty_negative q = leb (2 ^ 31) q

-- `Msg::is_valid`
unfoldable pub is_valid : Msg → Bool
is_valid m = ltb 0 m.seq && px_positive m.px && not (m.qty == 0)

pub data Side : Type 0 where
  buy sell unknown : Side

-- `Msg::side`: 'B', 'S' or 'U'.
unfoldable pub side : Msg → Side
side m = if qty_positive m.qty then buy else if qty_negative m.qty then sell else unknown

-- Negation of an `int32_t`. That of INT32_MIN is undefined behaviour: `none`.
abbrev pub neg_qty : ℕ → Option ℕ
neg_qty q = if q == 2 ^ 31 then none else some ((2 ^ 32 - q) % 2 ^ 32)

-- `Msg::abs_qty`
unfoldable pub abs_qty : Msg → Option ℕ
abs_qty m = if qty_negative m.qty then neg_qty m.qty else some m.qty

-- `is_power_of_two`; `value - 1` is evaluated for a positive value only.
unfoldable pub is_power_of_two : ℕ → Bool
is_power_of_two value = ltb 0 value && (bit_and value (value - 1) == 0)
