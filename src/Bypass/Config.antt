-- ===== src/Bypass/Config.antt =====
-- `BypassConfig::is_valid` and `create_bypass_client`.
use mdfh_distrib.Common.{
  ℕ, ◌^◌, ◌≤◌, ◌<◌, ◌≡◌, ◌≢◌, ◌↔◌, refl, Bool, true, false, not, ◌||◌, List, [], ◌∷◌, arith, ltb,
  ◌==◌, if◌then◌else◌,
}
use mdfh_distrib.Core.{is_power_of_two}
use mdfh_distrib.Core.PowerOfTwo.{is_power_of_two_iff}
use mdfh_distrib.Core.Validation.{is_valid_port}

pub data BypassBackend : Type 0 where
  boost_asio dpdk solarflare_vi : BypassBackend

-- Strings are lists of character codes.
pub record BypassConfig : Type 0 where
  pub backend : BypassBackend
  pub interface_name : List ℕ
  pub host : List ℕ
  pub port : ℕ
  pub rx_ring_size : ℕ
  pub batch_size : ℕ
  pub cpu_core : ℕ
  pub enable_zero_copy : Bool
  pub zero_copy_threshold : ℕ
  pub poll_timeout_us : ℕ

abbrev is_empty : List ℕ → Bool
is_empty [] = true
is_empty (c ∷ cs) = false

-- The tests in the order of the source; each prints a message and returns false.
unfoldable pub is_valid : BypassConfig → Bool
is_valid c =
    if is_empty c.host
    then false
    else if not (is_valid_port c.port)
    then false
    else if is_empty c.interface_name
    then false
    else if not (is_power_of_two c.rx_ring_size)
    then false
    else if ltb c.rx_ring_size 64 || ltb (2 ^ 20) c.rx_ring_size
    then false
    else if (c.batch_size == 0) || ltb c.rx_ring_size c.batch_size
    then false
    else if ltb 65536 c.zero_copy_threshold
    then false
    else if ltb 1000000 c.poll_timeout_us
    then false
    else if ltb 256 c.cpu_core
    then false
    else true

-- The client that the factory makes; `with_dpdk` and `with_solarflare` say how the code was built.
unfoldable pub create_bypass_client :
    (with_dpdk with_solarflare : Bool) → BypassBackend → BypassBackend
create_bypass_client with_dpdk with_solarflare boost_asio = boost_asio
create_bypass_client with_dpdk with_solarflare dpdk = if with_dpdk then dpdk else boost_asio
create_bypass_client with_dpdk with_solarflare solarflare_vi =
    if with_solarflare then solarflare_vi else boost_asio

not_empty : (cs : List ℕ) → is_empty cs ≡ false → cs ≢ []
not_empty [] h = ground (arith, h)
not_empty (c ∷ cs) h = ground arith

is_empty-false : (cs : List ℕ) → cs ≢ [] → is_empty cs ≡ false
is_empty-false [] h = ground (arith, h)
is_empty-false (c ∷ cs) h = refl

-- A configuration is valid just if its names are given, its port is not 0, its ring has 2^k entries
-- with k from 6 to 20, its batches are not empty and no larger than the ring, and the three limits
-- are kept.
pub is_valid_iff :
    (c : BypassConfig)
    → (is_valid c ≡ true) ↔ (
        (c.host ≢ [])
        × (c.interface_name ≢ [])
        × (0 < c.port)
        × (c.port ≤ 65535)
        × ((k : ℕ) × (c.rx_ring_size ≡ 2 ^ k))
        × (64 ≤ c.rx_ring_size)
        × (c.rx_ring_size ≤ 2 ^ 20)
        × (0 < c.batch_size)
        × (c.batch_size ≤ c.rx_ring_size)
        × (c.zero_copy_threshold ≤ 65536)
        × (c.poll_timeout_us ≤ 1000000)
        × (c.cpu_core ≤ 256))
unfolding is_valid is_valid_port
is_valid_iff c = (
  λ h. (
    not_empty c.host (ground (arith, h)),
    not_empty c.interface_name (ground (arith, h)),
    ground (arith, h),
    ground (arith, h),
    (is_power_of_two_iff c.rx_ring_size).0 (ground (arith, h)),
    ground (arith, h),
    ground (arith, h),
    ground (arith, h),
    ground (arith, h),
    ground (arith, h),
    ground (arith, h),
    ground (arith, h),
  ),
  λ (host, interface, lo, hi, power, small, large, some_batch, batch, zero_copy, poll, core).
      ground (
        arith,
        is_empty-false c.host host,
        is_empty-false c.interface_name interface,
        (is_power_of_two_iff c.rx_ring_size).1 power,
      ),
)
