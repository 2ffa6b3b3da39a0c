-- ===== src/Ring/Invariant.antt =====
-- The representation invariant of `RingBuffer`, and the arithmetic of its wrapping positions.
use mdfh_distrib.Common.{
  ℕ, ◌+◌, ◌^◌, ◌≤◌, ◌<◌, ◌≡◌, refl, ◌∙◌, some, List, [], ◌∷◌, arith, bit_and, min, length,
  length-set, set, take,
}
use mdfh_distrib.Common.Word.{u64, sub64}
use mdfh_distrib.Ring.{
  Slot, RingBuffer, try_push, try_pop, try_push_with_prefetch, try_pop_with_prefetch, copy_in,
  try_push_bulk, try_pop_bulk, advance_write_pos,
}
use mdfh_distrib.Circular.Layout.{Layout, capacity_bounds}

abbrev pub Laid : RingBuffer → Type 0
Laid r = Layout (length r.slots) r.capacity r.mask r.write_pos r.read_pos

pub record IsValid (r : RingBuffer) : Type 0 where
  pub laid : Laid r
  pub peak : sub64 r.write_pos r.read_pos ≤ r.high_water_mark
  pub mark : r.high_water_mark ≤ r.capacity

pub length-copy_in :
    (s : List Slot) (w m i : ℕ) (xs : List Slot) → length (copy_in s w m i xs) ≡ length s
unfolding copy_in
length-copy_in s w m i [] = refl
length-copy_in s w m i (x ∷ xs) =
    length-copy_in (set s (bit_and (u64 (w + i)) m) x) w m (i + 1) xs
    ∙ length-set s (bit_and (u64 (w + i)) m) x

-- Each method keeps the invariant.
pub try_push-IsValid : {r : RingBuffer} (x : Slot) → IsValid r → IsValid (try_push x r).0
unfolding try_push
try_push-IsValid {r} x v =
    ground (arith, capacity_bounds v.laid, length-set r.slots (bit_and r.write_pos r.mask) x)

pub try_pop-IsValid : {r : RingBuffer} → IsValid r → IsValid (try_pop r).0
unfolding try_pop
try_pop-IsValid v = ground (arith, capacity_bounds v.laid)

pub try_push_bulk-IsValid :
    {r : RingBuffer} (xs : List Slot) → IsValid r → IsValid (try_push_bulk (some xs) r).0
unfolding try_push_bulk
try_push_bulk-IsValid {r} xs v =
    let n = min (length xs) (sub64 r.capacity (sub64 r.write_pos r.read_pos)) in
    ground (arith, capacity_bounds v.laid, length-copy_in r.slots r.write_pos r.mask 0 (take n xs))

pub try_pop_bulk-IsValid : {r : RingBuffer} (n : ℕ) → IsValid r → IsValid (try_pop_bulk n r).0
unfolding try_pop_bulk
try_pop_bulk-IsValid n v = ground (arith, capacity_bounds v.laid)

-- The prefetching methods do what the plain ones do.
pub try_push_with_prefetch-eq :
    (x : Slot) (r : RingBuffer) → try_push_with_prefetch x r ≡ try_push x r
unfolding try_push_with_prefetch try_push
try_push_with_prefetch-eq x r = refl

pub try_pop_with_prefetch-eq : (r : RingBuffer) → try_pop_with_prefetch r ≡ try_pop r
unfolding try_pop_with_prefetch try_pop
try_pop_with_prefetch-eq r = refl

pub advance_write_pos-IsValid :
    {r t : RingBuffer} (n : ℕ) → IsValid r → n < 2 ^ 63 → advance_write_pos n r ≡ some t → IsValid t
unfolding advance_write_pos
advance_write_pos-IsValid n v h e = ground (arith, capacity_bounds v.laid)

pub try_push-capacity : (x : Slot) (r : RingBuffer) → (try_push x r).0.capacity ≡ r.capacity
unfolding try_push
try_push-capacity x r = ground arith

pub try_pop-capacity : (r : RingBuffer) → (try_pop r).0.capacity ≡ r.capacity
unfolding try_pop
try_pop-capacity r = ground arith
