-- ===== src/Encoding/Digits.antt =====
-- `fast_uint_to_chars` and `fast_price_to_chars`, and readers of what they write. Characters are
-- their codes.
use mdfh_distrib.Common.{
  append_assoc, ℕ, zero, suc, ◌+◌, ◌-◌, ◌*◌, ◌/◌, ◌%◌, ◌^◌, ◌≤◌, ◌<◌, ◌≡◌, refl, ap, sym, ◌∙◌, inl,
  inr, List, [], ◌∷◌, ◌++◌, arith, length, ◌==◌, if◌then◌else◌, Bool-cases,
}
use mathlib.Core.List.{reverse, reverse_aux, reverse_aux-eq}
use native.Mathlib.Nat.{pow-suc}
use mdfh_distrib.Common.Bytes.{length-reverse_aux}

-- `while (value > 0)`: the digits in `temp`, lowest first. `temp` has room for 20.
abbrev pub collect : ℕ → ℕ → List ℕ
collect zero value = []
collect (suc room) value =
    let rest = collect room (value / 10) in if value == 0 then [] else (48 + value % 10) ∷ rest

unfoldable pub fast_uint_to_chars : ℕ → List ℕ
fast_uint_to_chars value = if value == 0 then 48 ∷ [] else reverse (collect 20 value)

-- from the price in ten-thousandths, `static_cast<std::uint64_t>(price * 10000 + 0.5)`
unfoldable pub fast_price_to_chars : ℕ → List ℕ
fast_price_to_chars scaled =
    let fractional_part = scaled % 10000 in
    fast_uint_to_chars (scaled / 10000)
    ++ (46
        ∷ (48 + fractional_part / 1000)
        ∷ (48 + fractional_part / 100 % 10)
        ∷ (48 + fractional_part / 10 % 10)
        ∷ (48 + fractional_part % 10)
        ∷ [])

-- A reader: the decimal number up to the first character `stop`, and what follows it.
unfoldable pub read_number : ℕ → ℕ → List ℕ → ℕ × List ℕ
read_number stop acc [] = (acc, [])
read_number stop acc (c ∷ cs) =
    let rest = read_number stop (acc * 10 + (c - 48)) cs in if c == stop then (acc, cs) else rest

read-collect :
    (stop fuel v : ℕ) (s : List ℕ)
    → stop < 48
    → v < 10 ^ fuel
    → read_number stop 0 (reverse_aux (collect fuel v) s) ≡ read_number stop v s
unfolding read_number
read-collect stop zero v s h small = let e : 0 ≡ v = omega arith in rw e refl
read-collect stop (suc fuel) v s h small = elim (Bool-cases (v == 0)) [
  | inl e ↦ ground (arith, e)
  | inr e ↦ ground (
    arith,
    e,
    read-collect stop fuel (v / 10) ((48 + v % 10) ∷ s) h (omega (arith, small, pow-suc 10 fuel)),
  )
]

-- What is written is read back, and ends where it should.
pub read-fast_uint_to_chars :
    (stop v : ℕ) (s : List ℕ)
    → stop < 48
    → v < 2 ^ 64
    → read_number stop 0 (fast_uint_to_chars v ++ (stop ∷ s)) ≡ (v, s)
unfolding fast_uint_to_chars read_number
read-fast_uint_to_chars stop v s h small = elim (Bool-cases (v == 0)) [
  | inl e ↦ ground (arith, e)
  | inr e ↦ ground (
    arith,
    e,
    sym (reverse_aux-eq (collect 20 v) (stop ∷ s)),
    read-collect stop 20 v (stop ∷ s) h (omega arith),
  )
]

length-collect : (room k v : ℕ) → v < 10 ^ k → length (collect room v) ≤ k
length-collect zero k v h = omega arith
length-collect (suc room) zero v h = let e : v ≡ 0 = omega arith in rw e (omega arith)
length-collect (suc room) (suc k) v h =
    ground (arith, length-collect room k (v / 10) (omega (arith, pow-suc 10 k)))

-- A number below 10^k takes k characters at most.
pub length-fast_uint_to_chars : (k v : ℕ) → 0 < k → v < 10 ^ k → length (fast_uint_to_chars v) ≤ k
unfolding fast_uint_to_chars
length-fast_uint_to_chars k v pos h =
    ground (arith, length-reverse_aux (collect 20 v) [], length-collect 20 k v h)

fraction_chars : ℕ → List ℕ
fraction_chars f = (48 + f / 1000) ∷ (48 + f / 100 % 10) ∷ (48 + f / 10 % 10) ∷ (48 + f % 10) ∷ []

read-fraction_chars :
    (stop f : ℕ) (s : List ℕ)
    → stop < 48
    → f < 10000
    → read_number stop 0 (fraction_chars f ++ (stop ∷ s)) ≡ (f, s)
unfolding read_number fraction_chars
read-fraction_chars stop f s h small = ground arith

-- The characters of a price in ten-thousandths are its whole part, a point, and four digits that
-- read back as the rest.
pub read-fast_price_to_chars :
    (scaled stop : ℕ) (s : List ℕ)
    → stop < 48
    → scaled < 2 ^ 64
    → let (whole, behind) = read_number 46 0 (fast_price_to_chars scaled ++ (stop ∷ s)) in
      let (part, later) = read_number stop 0 behind in
      (whole * 10000 + part ≡ scaled) × (part < 10000) × (later ≡ s)
unfolding fast_price_to_chars fraction_chars
read-fast_price_to_chars scaled stop s h small =
    let f = fraction_chars (scaled % 10000) in
    let e : fast_price_to_chars scaled ++ (stop ∷ s)
        ≡ fast_uint_to_chars (scaled / 10000) ++ (46 ∷ (f ++ (stop ∷ s))) =
      append_assoc (fast_uint_to_chars (scaled / 10000)) (46 ∷ f) (stop ∷ s) in
    let whole : read_number 46 0 (fast_price_to_chars scaled ++ (stop ∷ s))
        ≡ (scaled / 10000, f ++ (stop ∷ s)) =
      ap (read_number 46 0) e
      ∙ read-fast_uint_to_chars 46 (scaled / 10000) (f ++ (stop ∷ s)) (omega arith) (omega arith) in
    rw (whole, read-fraction_chars stop (scaled % 10000) s h (omega arith))
      (omega arith, omega arith, refl)
