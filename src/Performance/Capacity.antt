-- ===== src/Performance/Capacity.antt =====
-- How many samples are allocated.
use mdfh_distrib.Common.{
  ℕ, zero, suc, ◌+◌, ◌*◌, ◌^◌, ◌≤◌, ◌<◌, ◌≡◌, refl, ◌∙◌, none, some, arith, ltb, ltb→le, Bool-cases,
  inl, inr, ◌==◌,
}
use mdfh_distrib.Common.Word.{u32}
use mdfh_distrib.Core.{is_power_of_two}
use mdfh_distrib.Core.PowerOfTwo.{is_power_of_two_iff}
use mdfh_distrib.Performance.{round_up, sample_capacity}
use native.Mathlib.Nat.{pow-suc, pow-le-pow_right}

pub exponent_below : (j k : ℕ) → 2 ^ j < 2 ^ k → j < k
exponent_below j k h = elim (Bool-cases (ltb j k)) [
  | inl lt ↦ ground (arith, lt)
  | inr ge ↦ omega (arith, h, pow-le-pow_right {n = 2} (omega arith) (ltb→le j k ge))
]

-- From a power of two 2^k not above the answer, 32 - k rounds are enough.
round_up_lem :
    (fuel k m : ℕ)
    → 0 < m
    → m ≤ 2 ^ 31
    → k ≤ 31
    → 31 < fuel + k
    → 2 ^ k < 2 * m
    → (c : ℕ) × (j : ℕ) × (round_up fuel m (2 ^ k) ≡ some c) × (c ≡ 2 ^ j) × (m ≤ c) × (c < 2 * m)
unfolding round_up
round_up_lem zero k m pos h small enough low = ground (arith, small, enough)
round_up_lem (suc fuel) k m pos h small enough low = elim (Bool-cases (ltb (2 ^ k) m)) [
  | inl less ↦
      let double : 2 ^ suc k ≡ 2 ^ k * 2 = pow-suc 2 k ∙ omega arith in
      let below : 2 ^ k < m = ground (arith, less) in
      let room : suc k ≤ 31 = exponent_below k 31 (omega (arith, below, h)) in
      let fits : u32 (2 ^ k * 2) ≡ 2 ^ suc k =
        omega (arith, double, pow-le-pow_right {n = 2} (omega arith) room) in
      let (c, j, e, p, lo, hi) =
        round_up_lem fuel (suc k) m pos h room (omega (arith, enough))
          (omega (arith, double, below)) in
      (c, j, ground (arith, less, fits, e), p, lo, hi)
  | inr enough' ↦ (2 ^ k, k, ground (arith, enough'), refl, ground (arith, enough'), low)
]

-- For a maximum up to 2^31, 33 rounds are enough: what is allocated is the least power of two that
-- is not below it.
pub sample_capacity_lem :
    (max_samples : ℕ)
    → 0 < max_samples
    → max_samples ≤ 2 ^ 31
    → (c : ℕ) × (j : ℕ) × (sample_capacity 33 max_samples ≡ some c)
      × (c ≡ 2 ^ j)
      × (max_samples ≤ c)
      × (c < 2 * max_samples)
unfolding sample_capacity
sample_capacity_lem m pos h = elim (Bool-cases (is_power_of_two m)) [
  | inl p ↦
      let (j, e) = (is_power_of_two_iff m).0 p in (m, j, rw p refl, e, omega arith, omega arith)
  | inr p ↦
      let (c, j, e, q, lo, hi) =
        round_up_lem 33 0 m pos h (omega arith) (omega arith) (omega arith) in
      (c, j, rw p e, q, lo, hi)
]

round_up_zero : (fuel m : ℕ) → 0 < m → round_up fuel m 0 ≡ none
unfolding round_up
round_up_zero zero m pos = refl
round_up_zero (suc fuel) m pos = ground (arith, round_up_zero fuel m pos, pos)

round_up_runs : (fuel k m : ℕ) → k ≤ 31 → 2 ^ 31 < m → round_up fuel m (2 ^ k) ≡ none
unfolding round_up
round_up_runs zero k m small h = refl
round_up_runs (suc fuel) k m small h =
    let low = pow-le-pow_right {n = 2} (omega arith) small in
    let double : 2 ^ suc k ≡ 2 ^ k * 2 = pow-suc 2 k ∙ omega arith in
    elim (Bool-cases (k == 31)) [
      | inl last ↦
          let e : k ≡ 31 = ground (arith, last) in rw e (ground (arith, round_up_zero fuel m, h))
      | inr before ↦
          let room : suc k ≤ 31 = ground (arith, before, small) in
          let fits : u32 (2 ^ k * 2) ≡ 2 ^ suc k =
            omega (arith, double, pow-le-pow_right {n = 2} (omega arith) room) in
          let ih = round_up_runs fuel (suc k) m room h in ground (arith, fits, ih, low, h)
    ]

-- Above 2^31, and short of 2^32, the doubling in 32 bits comes to 0 and never ends: no number of
-- rounds is enough.
pub sample_capacity_runs :
    (fuel max_samples : ℕ)
    → 2 ^ 31 < max_samples
    → max_samples < 2 ^ 32
    → sample_capacity fuel max_samples ≡ none
unfolding sample_capacity
sample_capacity_runs fuel m h word = elim (Bool-cases (is_power_of_two m)) [
  | inl p ↦
      let (j, e) = (is_power_of_two_iff m).0 p in
      let lo = exponent_below 31 j (omega (arith, e, h)) in
      let hi = exponent_below j 32 (omega (arith, e, word)) in ground (arith, lo, hi)
  | inr p ↦ rw p (round_up_runs fuel 0 m (omega arith) h)
]
