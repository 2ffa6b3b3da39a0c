-- ===== src/Common/Bytes.antt =====
-- Unsigned integers in memory, lowest byte first and highest byte first.
use Prim.Native.Nat.{ℕ, zero, suc, ◌+◌, ◌*◌, ◌/◌, ◌%◌, ◌^◌, ◌<◌}
use mathlib.Core.Path.{◌≡◌, refl, ap, ◌∙◌}
use mathlib.Core.List.{List, [], ◌∷◌, reverse, reverse_aux, reverse-reverse}
use native.Mathlib.Omega.{arith}
use native.Mathlib.Nat.{pow-suc}
use mdfh_distrib.Common.Lists.{length}

-- the number that little-endian bytes stand for
abbrev pub from_le : List ℕ → ℕ
from_le [] = 0
from_le (b ∷ bs) = b + 256 * from_le bs

-- the lowest `n` bytes of a number, little-endian
abbrev pub to_le : ℕ → ℕ → List ℕ
to_le zero v = []
to_le (suc n) v = (v % 256) ∷ to_le n (v / 256)

pub length-to_le : (n v : ℕ) → length (to_le n v) ≡ n
length-to_le zero v = refl
length-to_le (suc n) v = ap suc (length-to_le n (v / 256))

pub from_le-to_le : (n v : ℕ) → v < 256 ^ n → from_le (to_le n v) ≡ v
from_le-to_le zero v h = omega arith
from_le-to_le (suc n) v h = omega (arith, from_le-to_le n (v / 256) (omega (arith, pow-suc 256 n)))

-- big-endian
abbrev pub to_be : ℕ → ℕ → List ℕ
to_be n v = reverse (to_le n v)

abbrev pub from_be : List ℕ → ℕ
from_be bs = from_le (reverse bs)

pub from_be-to_be : (n v : ℕ) → v < 256 ^ n → from_be (to_be n v) ≡ v
from_be-to_be n v h = ap from_le (reverse-reverse (to_le n v)) ∙ from_le-to_le n v h

pub length-reverse_aux : (xs acc : List ℕ) → length (reverse_aux xs acc) ≡ length xs + length acc
length-reverse_aux [] acc = omega arith
length-reverse_aux (x ∷ xs) acc = omega (arith, length-reverse_aux xs (x ∷ acc))

pub length-to_be : (n v : ℕ) → length (to_be n v) ≡ n
length-to_be n v = omega (arith, length-reverse_aux (to_le n v) [], length-to_le n v)
