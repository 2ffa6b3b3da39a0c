-- ===== src/Ring/Create.antt =====
-- What the constructor of `RingBuffer` accepts, and the buffer that it makes.
use mdfh_distrib.Common.{
  ℕ, ◌^◌, ◌≤◌, ◌≡◌, refl, subst, ◌↔◌, none, [], arith, length-replicate, Option-cases,
}
use mdfh_distrib.Core.PowerOfTwo.{is_power_of_two_iff}
use mdfh_distrib.Ring.{RingBuffer, fresh, empty_slot, validate_capacity, create, created}
use mdfh_distrib.Ring.Invariant.{IsValid}
use mdfh_distrib.Ring.Refine.{queue}
use native.Mathlib.Nat.{one-le-pow, pow-le-pow_right}
use native.Mathlib.Decide.{dec_le}

-- An exponent above 32 is a capacity above the limit.
exponent_small : (k : ℕ) → 2 ^ k ≤ 2 ^ 32 → k ≤ 32
exponent_small k h = elim (dec_le k 32) [
  | yes p ↦ p
  | no p ↦
      absurd (omega (arith, pow-le-pow_right {n = 2} (omega arith) {i = 33} {j = k} (omega arith)))
]

-- `validate_capacity` passes exactly the powers of two up to 2^32.
pub validate_capacity_iff :
    (c : ℕ) → (validate_capacity c ≡ none) ↔ ((k : ℕ) × (k ≤ 32) × (c ≡ 2 ^ k))
unfolding validate_capacity
validate_capacity_iff c = (forth, back)
  where
    forth : validate_capacity c ≡ none → (k : ℕ) × (k ≤ 32) × (c ≡ 2 ^ k)
    forth h =
        let (k, e) = (is_power_of_two_iff c).0 (ground arith) in
        (k, exponent_small k (ground arith), e)

    back : (k : ℕ) × (k ≤ 32) × (c ≡ 2 ^ k) → validate_capacity c ≡ none
    back (k, h, e) = ground (
      arith,
      (is_power_of_two_iff c).1 (k, e),
      one-le-pow k 2 (omega arith),
      pow-le-pow_right {n = 2} (omega arith) h,
    )

-- The constructor succeeds for exactly the powers of two up to 2^32.
pub create_iff :
    (c : ℕ) → ((r : RingBuffer) × (create c ≡ created r)) ↔ ((k : ℕ) × (k ≤ 32) × (c ≡ 2 ^ k))
unfolding create
create_iff c = (
  λ w. (validate_capacity_iff c).0 (ground (arith, w.1, Option-cases (validate_capacity c))),
  λ w. (fresh c, ground (arith, (validate_capacity_iff c).1 w)),
)

-- What it makes is a valid empty buffer of the capacity asked for.
pub create-IsValid :
    (c : ℕ) {r : RingBuffer}
    → create c ≡ created r
    → IsValid r × (queue r ≡ record { items = []; peak = 0 }) × (r.capacity ≡ c)
unfolding create
create-IsValid c {r} h =
    subst (λ t. IsValid t × (queue t ≡ record { items = []; peak = 0 }) × (t.capacity ≡ c)) fresh-eq
      (
        record {
          laid = record {
            exponent = k.0;
            small = k.1;
            capacity_eq = k.2;
            mask_eq = omega (arith, k.2, one-le-pow k.0 2 (omega arith), bound);
            storage = length-replicate c empty_slot;
            write_word = omega arith;
            read_word = omega arith;
            within = omega arith;
          };
          peak = omega arith;
          mark = omega arith;
        },
        refl,
        refl,
      )
  where
    passes : validate_capacity c ≡ none
    passes = ground (arith, Option-cases (validate_capacity c))

    k : (k : ℕ) × (k ≤ 32) × (c ≡ 2 ^ k)
    k = (validate_capacity_iff c).0 passes

    bound : 2 ^ k.0 ≤ 2 ^ 32
    bound = pow-le-pow_right {n = 2} (omega arith) k.1

    fresh-eq : fresh c ≡ r
    fresh-eq = ground (arith, passes)
