-- ===== src/Ring/Bulk.antt =====
-- The batch operations of `RingBuffer` move whole runs of the queue, and sequences of calls.
use mdfh_distrib.Common.{
  ℕ, zero, suc, ◌+◌, ◌-◌, ◌%◌, ◌≤◌, ◌≡◌, refl, sym, ap, ap₂, ◌∙◌, some, List, [], ◌∷◌, ◌++◌, arith,
  bit_and, min, length, set, take, drop, get_or, append_assoc, append-nil, length-take, length-set,
  take-min, drop-min,
}
use mdfh_distrib.Common.Word.{u64, sub64}
use mdfh_distrib.Circular.Window.{window, window_cong, window-push, take-window, drop-window}
use mdfh_distrib.Ring.{Slot, empty_slot, RingBuffer, copy_in, copy_out, try_push_bulk, try_pop_bulk}
use mdfh_distrib.Ring.Queue
use mdfh_distrib.Ring.Queue.{Queue}
use mdfh_distrib.Ring.Invariant.{IsValid}
use mdfh_distrib.Ring.Refine.{items, queue, length-items}
use mdfh_distrib.Circular.Layout.{capacity_bounds, index_eq, u64-mod, write-mod}
use native.Mathlib.Nat.{mod-add-mod}

module _ {r : RingBuffer} (v : IsValid r) where
  abbrev held : ℕ
  held = sub64 r.write_pos r.read_pos

  -- the index that round `i` of the copy writes
  write_index :
      (i : ℕ) → bit_and (u64 (r.write_pos + i)) r.mask ≡ (r.read_pos + (held + i)) % r.capacity
  write_index i =
      let e : r.read_pos + (held + i) ≡ r.read_pos + held + i = omega arith in
      index_eq v.laid (u64 (r.write_pos + i))
      ∙ u64-mod v.laid (r.write_pos + i)
      ∙ sym (mod-add-mod r.write_pos r.capacity i)
      ∙ ap (λ t. (t + i) % r.capacity) (write-mod v.laid)
      ∙ mod-add-mod (r.read_pos + held) r.capacity i
      ∙ ap (λ t. t % r.capacity) (sym e)

  copy_in-window :
      (xs s : List Slot) (i : ℕ)
      → length s ≡ r.capacity
      → held + i + length xs ≤ r.capacity
      → window empty_slot r.capacity
          (copy_in s r.write_pos r.mask i xs)
          r.read_pos
          (held + i + length xs)
        ≡ window empty_slot r.capacity s r.read_pos (held + i) ++ xs
  unfolding copy_in
  copy_in-window [] s i long room =
      let e : held + i + 0 ≡ held + i = omega arith in rw (e, append-nil)
  copy_in-window (x ∷ xs) s i long room =
      let e : held + i + suc (length xs) ≡ held + (i + 1) + length xs = omega arith in
      let e' : held + (i + 1) ≡ held + i + 1 = omega arith in
      let s' = set s (bit_and (u64 (r.write_pos + i)) r.mask) x in
      rw e (
        copy_in-window xs s' (i + 1) (length-set s _ x ∙ long) (omega arith)
        ∙ ap (λ t. t ++ xs) (ap (window empty_slot r.capacity s' r.read_pos) e' ∙ pushed)
        ∙ append_assoc _ (x ∷ []) xs)
    where
      pushed :
          window empty_slot r.capacity
            (set s (bit_and (u64 (r.write_pos + i)) r.mask) x)
            r.read_pos
            (held + i + 1)
          ≡ window empty_slot r.capacity s r.read_pos (held + i) ++ (x ∷ [])
      pushed = rw (write_index i) (
          window-push empty_slot r.capacity s r.read_pos (held + i) (r.read_pos + (held + i)) x
            (omega arith) (omega arith) refl)

  copy_out-window :
      (i n : ℕ)
      → copy_out r.slots r.read_pos r.mask i n
        ≡ window empty_slot r.capacity r.slots (r.read_pos + i) n
  unfolding copy_out
  copy_out-window i zero = refl
  copy_out-window i (suc n) =
      let e : r.read_pos + (i + 1) ≡ r.read_pos + i + 1 = omega arith in
      ap₂ ◌∷◌
        (ap (λ j. get_or r.slots j empty_slot)
          (index_eq v.laid (u64 (r.read_pos + i)) ∙ u64-mod v.laid (r.read_pos + i)))
        (copy_out-window (i + 1) n ∙ ap (λ h. window empty_slot r.capacity r.slots h n) e)

  push_bulk_items :
      (n : ℕ) (xs : List Slot)
      → length xs ≡ n
      → held + n ≤ r.capacity
      → window empty_slot r.capacity
          (copy_in r.slots r.write_pos r.mask 0 xs)
          r.read_pos
          (sub64 (u64 (r.write_pos + n)) r.read_pos)
        ≡ items r ++ xs
  push_bulk_items n xs e room =
      let grown : sub64 (u64 (r.write_pos + n)) r.read_pos ≡ held + 0 + length xs =
        omega (arith, v.laid.write_word, v.laid.read_word, capacity_bounds v.laid) in
      let e' : held ≡ held + 0 = omega arith in
      rw grown (
        copy_in-window xs r.slots 0 v.laid.storage (omega arith)
        ∙ ap (λ t. window empty_slot r.capacity r.slots r.read_pos t ++ xs) (sym e'))

  -- `try_push_bulk` appends as much of the batch as fits, and returns that number.
  pub try_push_bulk_refines :
      (xs : List Slot)
      → let (r', n) = try_push_bulk (some xs) r in
        (queue r', n) ≡ Queue.push_bulk r.capacity xs (queue r)
  unfolding try_push_bulk Queue.push_bulk
  try_push_bulk_refines xs =
      let n = min (length xs) (sub64 r.capacity held) in
      let room : sub64 r.capacity held ≡ r.capacity - held =
        omega (arith, v.laid.within, capacity_bounds v.laid) in
      ground (
        arith,
        room,
        push_bulk_items n (take n xs),
        length-take n xs,
        length-items r,
        capacity_bounds v.laid,
        v.laid.within,
        append-nil (items r),
        ap (λ k. take k xs) {x = n} {y = 0},
        v.peak,
      )

  pop_bulk_items :
      (n : ℕ)
      → n ≤ held
      → window empty_slot r.capacity r.slots
          (u64 (r.read_pos + n))
          (sub64 r.write_pos (u64 (r.read_pos + n)))
        ≡ drop n (items r)
  pop_bulk_items n h =
      let less : sub64 r.write_pos (u64 (r.read_pos + n)) ≡ held - n =
        omega (arith, v.laid.write_word, v.laid.read_word, capacity_bounds v.laid, v.laid.within) in
      rw less (
        window_cong empty_slot r.capacity r.slots _ _ (held - n) (u64-mod v.laid (r.read_pos + n))
        ∙ sym (drop-window empty_slot r.capacity r.slots r.read_pos n held h))

  copy_out-items : (n : ℕ) → n ≤ held → copy_out r.slots r.read_pos r.mask 0 n ≡ take n (items r)
  copy_out-items n h =
      let e : r.read_pos + 0 ≡ r.read_pos = omega arith in
      copy_out-window 0 n
      ∙ ap (λ t. window empty_slot r.capacity r.slots t n) e
      ∙ sym (take-window empty_slot r.capacity r.slots r.read_pos n held h)

  -- `try_pop_bulk` hands out the oldest entries in order, as many as there are.
  pub try_pop_bulk_refines :
      (n : ℕ) → let (r', out) = try_pop_bulk n r in (queue r', out) ≡ Queue.pop_bulk n (queue r)
  unfolding try_pop_bulk Queue.pop_bulk
  try_pop_bulk_refines n =
      let m = min n held in
      ground (
        arith,
        pop_bulk_items m,
        copy_out-items m,
        length-items r,
        take-min n (items r),
        drop-min n (items r),
        ap (λ k. take k (items r)) {x = m} {y = 0},
        ap (λ k. drop k (items r)) {x = m} {y = 0},
        ap (λ k. take k (items r)) {x = min n (length (items r))} {y = m},
        ap (λ k. drop k (items r)) {x = min n (length (items r))} {y = m},
      )
