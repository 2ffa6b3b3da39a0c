-- ===== src/Core/Tests.antt =====
-- Runs of the functions of core.hpp at concrete inputs.
use mdfh_distrib.Common.{◌^◌, ◌-◌, ◌≡◌, refl, true, false, some}
use mdfh_distrib.Core.{Msg, sell, is_valid, side, abs_qty, is_power_of_two}

-- 100.25, ten sold
abbrev offer : Msg
offer = record { seq = 7; px = 0x4059_1000_0000_0000; qty = 2 ^ 32 - 10 }

offer_runs : (is_valid offer ≡ true) × (side offer ≡ sell) × (abs_qty offer ≡ some 10)
unfolding is_valid side abs_qty
offer_runs = (refl, refl, refl)

nan_is_invalid : is_valid (record offer { px = 0x7ff8_0000_0000_0000 }) ≡ false
unfolding is_valid
nan_is_invalid = refl

powers : (is_power_of_two 65536 ≡ true) × (is_power_of_two 96 ≡ false) × (is_power_of_two 0 ≡ false)
unfolding is_power_of_two
powers = (refl, refl, refl)
