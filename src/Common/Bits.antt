-- ===== src/Common/Bits.antt =====
-- `&` with a low mask is a remainder, and `v & (v - 1)` is zero at the powers of two only.
use Prim.Native.Nat.{ℕ, zero, suc, ◌+◌, ◌-◌, ◌*◌, ◌/◌, ◌%◌, ◌^◌, ◌≤◌, ◌<◌, min, bit_and}
use Prim.Native.Nat.{digits, bit_and-bitwise}
use mathlib.Core.Path.{◌≡◌, refl, sym, ap, ◌∙◌}
use mathlib.Core.Logic.{◌≢◌}
use native.Mathlib.Decide.{ℕ_discrete, dec_lt}
use native.Mathlib.Nat.{
  pow-succ', one-le-pow, add-mul-mod_self_left, mod-eq_of_lt, mod-lt, div-add-mod, mod_self,
  le_refl, add-zero, mod-add-mod, mod-eq-sub-mod,
}
use native.Mathlib.Omega.{arith}

-- The digit recursion that `bit_and` stands for, its fuel made explicit.
abbrev and_run : ℕ → ℕ → ℕ → ℕ
and_run fuel a b = digits (λ _. zero) min fuel a b

-- More fuel than the first argument changes nothing.
and_run_stable : (f g a b : ℕ) → a ≤ f → a ≤ g → and_run f a b ≡ and_run g a b
and_run_stable zero zero a b p q = refl
and_run_stable zero (suc g) zero b p q = refl
and_run_stable zero (suc g) (suc a) b p q = absurd (omega arith)
and_run_stable (suc f) zero zero b p q = refl
and_run_stable (suc f) zero (suc a) b p q = absurd (omega arith)
and_run_stable (suc f) (suc g) zero b p q = refl
and_run_stable (suc f) (suc g) (suc a) b p q =
    omega (arith, and_run_stable f g (suc a / 2) (b / 2) (omega arith) (omega arith))

-- `bit_and` by its lowest digit.
pub bit_and-halves : (a b : ℕ) → bit_and a b ≡ 2 * bit_and (a / 2) (b / 2) + min (a % 2) (b % 2)
bit_and-halves zero b = omega (arith, bit_and-bitwise 0 b, bit_and-bitwise 0 (b / 2))
bit_and-halves (suc a) b = omega (
  arith,
  bit_and-bitwise (suc a) b,
  bit_and-bitwise (suc a / 2) (b / 2),
  and_run_stable a (suc a / 2) (suc a / 2) (b / 2) (omega arith) (omega arith),
)

-- By induction on a bound of the first argument.
bit_and-zero_below : (n a : ℕ) → a ≤ n → bit_and a 0 ≡ 0
bit_and-zero_below n zero h = omega (arith, bit_and-bitwise 0 0)
bit_and-zero_below zero (suc a) h = absurd (omega arith)
bit_and-zero_below (suc n) (suc a) h =
    omega (arith, bit_and-halves (suc a) 0, bit_and-zero_below n (suc a / 2) (omega arith))

pub bit_and-zero : (a : ℕ) → bit_and a 0 ≡ 0
bit_and-zero a = bit_and-zero_below a a (omega arith)

mod-double : (a p : ℕ) → 0 < p → a % (2 * p) ≡ 2 * (a / 2 % p) + a % 2
mod-double a p h =
    ap (λ t. t % (2 * p)) split
    ∙ add-mul-mod_self_left (2 * (a / 2 % p) + a % 2) (2 * p) (a / 2 / p)
    ∙ mod-eq_of_lt (omega (arith, mod-lt (a / 2) h))
  where
    split : a ≡ 2 * (a / 2 % p) + a % 2 + 2 * p * (a / 2 / p)
    split = omega (arith, div-add-mod (a / 2) p)

-- `a & (2^k - 1)` is `a mod 2^k`.
pub bit_and-mask : (k a : ℕ) → bit_and a (2 ^ k - 1) ≡ a % 2 ^ k
bit_and-mask zero a = omega (arith, bit_and-zero a)
bit_and-mask (suc k) a =
    bit_and-halves a (2 ^ suc k - 1)
    ∙ rw (mask_half.0, mask_half.1, bit_and-mask k (a / 2), pow-succ' 2 k)
        (omega (arith, mod-double a (2 ^ k) (one-le-pow k 2 (omega arith))))
  where
    mask_half : ((2 ^ suc k - 1) / 2 ≡ 2 ^ k - 1) × ((2 ^ suc k - 1) % 2 ≡ 1)
    mask_half = omega (arith, pow-succ' 2 k, one-le-pow k 2 (omega arith))

-- A power of two and the mask below it share no digit.
pub bit_and_pow_pred : (k : ℕ) → bit_and (2 ^ k) (2 ^ k - 1) ≡ 0
bit_and_pow_pred k = bit_and-mask k (2 ^ k) ∙ mod_self (2 ^ k)

bit_and_self_below : (n a : ℕ) → a ≤ n → bit_and a a ≡ a
bit_and_self_below n zero h = bit_and-zero 0
bit_and_self_below zero (suc a) h = absurd (omega arith)
bit_and_self_below (suc n) (suc a) h =
    omega (arith, bit_and-halves (suc a) (suc a), bit_and_self_below n (suc a / 2) (omega arith))

bit_and_self : (a : ℕ) → bit_and a a ≡ a
bit_and_self a = bit_and_self_below a a (le_refl a)

-- Conversely a number that shares no digit with its predecessor is a power of two.
pow_of_bit_and_below : (n v : ℕ) → v ≤ n → 0 < v → bit_and v (v - 1) ≡ 0 → (k : ℕ) × (v ≡ 2 ^ k)
pow_of_bit_and_below zero v h p e = absurd (omega arith)
pow_of_bit_and_below (suc n) v h p e = elim (ℕ_discrete (v % 2) 0) [
  | yes even ↦
      let (k, q) = pow_of_bit_and_below n (v / 2) (omega arith) (omega arith) (
        let same : (v - 1) / 2 ≡ v / 2 - 1 = omega arith in
        rw (← same) (omega (arith, bit_and-halves v (v - 1)))) in
      (suc k, omega (arith, pow-succ' 2 k))
  | no odd ↦ elim (ℕ_discrete (v / 2) 0) [
    | yes one ↦ (0, omega arith)
    | no more ↦ absurd (odd_case more odd)
  ]
]
  where
    odd_case : v / 2 ≢ 0 → v % 2 ≢ 0 → ⊥
    odd_case more odd = more (omega (arith, clash))
      where
        same : (v - 1) / 2 ≡ v / 2
        same = omega arith

        clash : v / 2 ≡ 0
        clash =
            omega (arith, bit_and-halves v (v - 1), ap (bit_and (v / 2)) same, bit_and_self (v / 2))

pub pow_of_bit_and : (v : ℕ) → 0 < v → bit_and v (v - 1) ≡ 0 → (k : ℕ) × (v ≡ 2 ^ k)
pow_of_bit_and v = pow_of_bit_and_below v v (le_refl v)

pub pow-add : (j k : ℕ) → 2 ^ (j + k) ≡ 2 ^ j * 2 ^ k
pow-add j zero = omega (arith, ap (λ (t : ℕ). 2 ^ t) (add-zero j))
pow-add j (suc k) =
    let e : j + suc k ≡ suc (j + k) = omega arith in
    rw (e, pow-succ' 2 (j + k), pow-add j k, pow-succ' 2 k) (omega arith)

-- A word that wrapped at `2 ^ 64` keeps its remainder by a smaller power of two.
pub wrap-mod : (k x : ℕ) → k ≤ 64 → x % 2 ^ 64 % 2 ^ k ≡ x % 2 ^ k
wrap-mod k x h =
    sym (add-mul-mod_self_left (x % 2 ^ 64) (2 ^ k) (2 ^ (64 - k) * (x / 2 ^ 64)))
    ∙ ap (λ t. t % 2 ^ k) whole
  where
    parts : 2 ^ k * 2 ^ (64 - k) ≡ 2 ^ 64
    parts =
        let e : k + (64 - k) ≡ 64 = omega arith in
        sym (pow-add k (64 - k)) ∙ ap (λ (t : ℕ). 2 ^ t) e

    whole : x % 2 ^ 64 + 2 ^ k * (2 ^ (64 - k) * (x / 2 ^ 64)) ≡ x
    whole = omega (arith, ap (λ (t : ℕ). t * (x / 2 ^ 64)) parts)

-- Two numbers less than `m` apart have different remainders by `m`.
pub mod-ne : (a k m : ℕ) → 0 < k → k < m → (a + k) % m ≢ a % m
mod-ne a k m lo hi e = elim (dec_lt (a % m + k) m) [
  | yes p ↦ omega (arith, mod-add-mod a m k, mod-eq_of_lt p)
  | no p ↦ omega (
    arith,
    mod-add-mod a m k,
    mod-lt a {m = m} (omega arith),
    mod-eq-sub-mod {n = a % m + k} {m = m} (omega arith),
    mod-eq_of_lt {n = a % m + k - m} {m = m} (omega (arith, mod-lt a {m = m} (omega arith))),
  )
]
