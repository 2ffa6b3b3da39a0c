-- ===== src/Core/Validation.antt =====
-- The enumerations of core.hpp and their validators, and what `Msg::is_valid`, `side` and
-- `abs_qty` decide.
use mdfh_distrib.Common.{
  ℕ, ◌-◌, ◌^◌, ◌≤◌, ◌<◌, ◌≡◌, ◌≢◌, ◌↔◌, Bool, true, ◌&&◌, none, some, arith, ltb, leb, ◌==◌, ◌⊎◌,
  inl, inr, Bool-cases,
}
use mdfh_distrib.Core.{Msg, sell, unknown, is_valid, side, abs_qty}

pub data TransportType : Type 0 where
  tcp udp_multicast : TransportType

pub data EncodingType : Type 0 where
  binary fix itch : EncodingType

-- `is_valid_port`: a `uint16_t` is at most 65535.
unfoldable pub is_valid_port : ℕ → Bool
is_valid_port port = ltb 0 port && leb port 65535

-- A message is valid just if its sequence number is positive, its price is a positive double
-- (+infinity included, no NaN) and its quantity is not zero.
pub is_valid_iff :
    (m : Msg)
    → (is_valid m ≡ true)
      ↔ ((0 < m.seq) × (0 < m.px) × (m.px ≤ 0x7ff0_0000_0000_0000) × (m.qty ≢ 0))
unfolding is_valid
is_valid_iff m = (λ h. ground arith, λ h. ground arith)

-- A valid message is a buy or a sell.
pub valid_has_side : (m : Msg) → is_valid m ≡ true → side m ≢ unknown
unfolding is_valid side
valid_has_side m h e = ground arith

-- `abs_qty` of a 32-bit quantity: undefined for INT32_MIN, else the magnitude.
pub abs_qty_cases :
    (m : Msg)
    → m.qty < 2 ^ 32
    → ((m.qty ≡ 2 ^ 31) × (abs_qty m ≡ none))
      ⊎ ((side m ≡ sell) × (abs_qty m ≡ some (2 ^ 32 - m.qty)))
      ⊎ ((side m ≢ sell) × (abs_qty m ≡ some m.qty))
unfolding abs_qty side
abs_qty_cases m h = elim (Bool-cases (leb (2 ^ 31) m.qty)) [
  | inl neg ↦ elim (Bool-cases (m.qty == 2 ^ 31)) [
    | inl least ↦ inl (ground arith, ground arith)
    | inr other ↦ inr (inl (ground arith, ground arith))
  ]
  | inr nonneg ↦ inr (inr (λ e. ground arith, ground arith))
]
