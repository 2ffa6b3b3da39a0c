-- ===== src/Performance/Percentile.antt =====
-- `PerformanceTracker::calculate_percentile` never reads out of bounds, and grows with the percentile.
use mdfh_distrib.Common.{
  ℕ, zero, suc, ◌-◌, ◌≤◌, ◌<◌, ◌≡◌, ◌≢◌, arith, List, [], ◌∷◌, length, get_or, min, leb, Bool-cases,
  inl, inr,
}
use mdfh_distrib.Performance.{calculate_percentile}

-- The values rise.
abbrev pub Sorted : ℕ → List ℕ → Type 0
Sorted low [] = Unit
Sorted low (x ∷ xs) = (low ≤ x) × Sorted x xs

Sorted-from : (low i d : ℕ) (xs : List ℕ) → Sorted low xs → i < length xs → low ≤ get_or xs i d
Sorted-from low i d [] s h = omega arith
Sorted-from low zero d (x ∷ xs) (le, s) h = le
Sorted-from low (suc i) d (x ∷ xs) (le, s) h =
    omega (arith, le, Sorted-from x i d xs s (omega arith))

Sorted-get :
    (low i j d : ℕ) (xs : List ℕ)
    → Sorted low xs
    → i ≤ j
    → j < length xs
    → get_or xs i d ≤ get_or xs j d
Sorted-get low i j d [] s le h = omega arith
Sorted-get low zero zero d (x ∷ xs) s le h = omega arith
Sorted-get low zero (suc j) d (x ∷ xs) (lo, s) le h = Sorted-from x j d xs s (omega arith)
Sorted-get low (suc i) zero d (x ∷ xs) s le h = omega arith
Sorted-get low (suc i) (suc j) d (x ∷ xs) (lo, s) le h =
    Sorted-get x i j d xs s (omega arith) (omega arith)

-- On sorted values that are not empty, the percentile is the value at the index asked for, or the
-- last one beyond the end, and a larger index never gives a smaller value.
pub calculate_percentile_lem :
    (d low i j : ℕ) (xs : List ℕ)
    → Sorted low xs
    → xs ≢ []
    → i ≤ j
    → (calculate_percentile d xs i ≡ get_or xs (min i (length xs - 1)) d)
      × (calculate_percentile d xs i ≤ calculate_percentile d xs j)
unfolding calculate_percentile
calculate_percentile_lem d low i j xs s some_left le =
    let n : 0 < length xs = not_empty xs some_left in
    let at : (k : ℕ) → calculate_percentile d xs k ≡ get_or xs (min k (length xs - 1)) d =
      clamp n in
    (
      at i,
      omega (
        arith,
        at i,
        at j,
        Sorted-get low (min i (length xs - 1)) (min j (length xs - 1)) d xs s (omega arith)
            (omega (arith, n)),
      ),
    )
  where
    not_empty : (ys : List ℕ) → ys ≢ [] → 0 < length ys
    not_empty [] p = ground (arith, p)
    not_empty (y ∷ ys) p = omega arith

    clamp :
        0 < length xs → (k : ℕ) → calculate_percentile d xs k ≡ get_or xs (min k (length xs - 1)) d
    clamp n k = elim (Bool-cases (leb (length xs) k)) [
      | inl over ↦
          let e : min k (length xs - 1) ≡ length xs - 1 = ground (arith, over) in
          rw e (ground (arith, over, n))
      | inr within ↦
          let e : min k (length xs - 1) ≡ k = ground (arith, within) in
          rw e (ground (arith, within, n))
    ]
