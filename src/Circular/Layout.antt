-- ===== src/Circular/Layout.antt =====
-- A circular buffer between two 64-bit positions that wrap, whose capacity is a power of two and
-- whose mask is one less: where its positions point, and what one write or one read does.
use mdfh_distrib.Common.{
  ℕ, ◌+◌, ◌-◌, ◌%◌, ◌^◌, ◌≤◌, ◌<◌, ◌≡◌, sym, ap, ◌∙◌, ◌≢◌, List, [], ◌∷◌, ◌++◌, arith, bit_and,
  length, get_or, set,
}
use mdfh_distrib.Common.Bits.{bit_and-mask, wrap-mod, mod-ne}
use mdfh_distrib.Common.Word.{u64, sub64}
use mdfh_distrib.Circular.Window.{
  window, window_cong, window-push, window-pop, window-set_outside, window-add,
}
use native.Mathlib.Nat.{one-le-pow, pow-le-pow_right}

pub record Layout (entries capacity mask write_pos read_pos : ℕ) : Type 0 where
  pub exponent : ℕ
  pub small : exponent ≤ 32
  pub capacity_eq : capacity ≡ 2 ^ exponent
  pub mask_eq : mask ≡ 2 ^ exponent - 1
  pub storage : entries ≡ capacity
  pub write_word : write_pos < 2 ^ 64
  pub read_word : read_pos < 2 ^ 64
  pub within : sub64 write_pos read_pos ≤ capacity

module _ {entries capacity mask w r : ℕ} (v : Layout entries capacity mask w r) where
  pub capacity_bounds : (0 < capacity) × (capacity ≤ 2 ^ 32)
  capacity_bounds = omega (
    arith,
    v.capacity_eq,
    one-le-pow v.exponent 2 (omega arith),
    pow-le-pow_right {n = 2} (omega arith) v.small,
  )

  -- `position & mask` is the remainder by the capacity.
  pub index_eq : (p : ℕ) → bit_and p mask ≡ p % capacity
  index_eq p = rw (v.mask_eq, v.capacity_eq) (bit_and-mask v.exponent p)

  -- A position that wrapped addresses the same entry.
  pub u64-mod : (p : ℕ) → u64 p % capacity ≡ p % capacity
  u64-mod p = rw v.capacity_eq (wrap-mod v.exponent p (omega arith))

  -- The write position lies as many entries behind the read position as are held.
  pub write-mod : w % capacity ≡ (r + sub64 w r) % capacity
  write-mod =
      let e : w ≡ u64 (r + sub64 w r) = omega arith in
      ap (λ t. t % capacity) e ∙ u64-mod (r + sub64 w r)

  -- Only a buffer that is full has the write position on the entry to be read next.
  pub apart : 0 < sub64 w r → sub64 w r < capacity → bit_and w mask ≢ bit_and r mask
  apart lo hi e =
      mod-ne r (sub64 w r) capacity lo hi (sym write-mod ∙ sym (index_eq w) ∙ e ∙ index_eq r)

module _ {ℓ} {A : Type ℓ} (d : A) (s : List A) {capacity mask w r : ℕ}
    (v : Layout (length s) capacity mask w r) where
  -- Writing the entry behind the held ones, and moving the write position over it.
  pub write-window :
      (x : A)
      → sub64 w r < capacity
      → window d capacity (set s (bit_and w mask) x) r (sub64 (u64 (w + 1)) r)
        ≡ window d capacity s r (sub64 w r) ++ (x ∷ [])
  write-window x room =
      let grown : sub64 (u64 (w + 1)) r ≡ sub64 w r + 1 =
        omega (arith, v.write_word, v.read_word, capacity_bounds v) in
      rw (grown, index_eq v w)
        (window-push d capacity s r (sub64 w r) w x (omega (arith, v.storage)) room (write-mod v))

  -- Writing that entry alone changes nothing that is held.
  pub write-window_outside :
      (x : A)
      → sub64 w r < capacity
      → window d capacity (set s (bit_and w mask) x) r (sub64 w r)
        ≡ window d capacity s r (sub64 w r)
  write-window_outside x room =
      rw (index_eq v w, write-mod v)
        (window-set_outside d capacity s r (sub64 w r) (r + sub64 w r) x (omega arith)
          (omega arith))

  -- Moving the write position over the entry behind the held ones.
  pub publish-window :
      sub64 w r < capacity
      → window d capacity s r (sub64 (u64 (w + 1)) r)
        ≡ window d capacity s r (sub64 w r) ++ (get_or s (bit_and w mask) d ∷ [])
  publish-window room =
      let grown : sub64 (u64 (w + 1)) r ≡ sub64 w r + 1 =
        omega (arith, v.write_word, v.read_word, capacity_bounds v) in
      rw (grown, index_eq v w, write-mod v) (window-add d capacity s r (sub64 w r) 1)

  -- The oldest entry, and what is left when the read position moves over it.
  pub read-window :
      sub64 w r ≢ 0
      → window d capacity s r (sub64 w r)
        ≡ get_or s (bit_and r mask) d ∷ window d capacity s (u64 (r + 1)) (sub64 w (u64 (r + 1)))
  read-window p =
      let less : sub64 w (u64 (r + 1)) ≡ sub64 w r - 1 = omega (arith, v.write_word, v.read_word) in
      rw (less, index_eq v r)
        (window-pop d capacity s r (sub64 w r) p
          ∙ ap (◌∷◌ (get_or s (r % capacity) d))
              (window_cong d capacity s _ _ (sub64 w r - 1) (sym (u64-mod v (r + 1)))))
