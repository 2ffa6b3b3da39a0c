-- ===== src/Ring/Advance.antt =====
-- `RingBuffer::advance_write_pos`: the producer has written slots in place, and publishes them.
use mdfh_distrib.Common.{
  ℕ, ◌+◌, ◌-◌, ◌^◌, ◌≤◌, ◌<◌, ◌≡◌, sym, ap, ◌∙◌, ◌⊎◌, inl, inr, some, none, arith, ltb, ◌++◌, List,
  take, Bool-cases,
}
use mdfh_distrib.Common.Word.{u64, sub64}
use mdfh_distrib.Circular.Window.{window, window-add, take-window, length-window}
use mdfh_distrib.Ring.{Slot, RingBuffer, empty_slot, raise_mark, advance_write_pos}
use mdfh_distrib.Ring.Queue.{append}
use mdfh_distrib.Ring.Invariant.{IsValid}
use mdfh_distrib.Circular.Layout.{capacity_bounds}
use mdfh_distrib.Ring.Refine.{items, queue, length-items}

module _ {r : RingBuffer} (v : IsValid r) where
  abbrev held : ℕ
  held = sub64 r.write_pos r.read_pos

  -- the `n` slots behind the held ones, which the producer wrote through `slots()`
  abbrev pub written : ℕ → List Slot
  written n = window empty_slot r.capacity r.slots (r.read_pos + held) n

  grown_items :
      (n : ℕ)
      → held + n ≤ r.capacity
      → window empty_slot r.capacity r.slots r.read_pos (sub64 (u64 (r.write_pos + n)) r.read_pos)
        ≡ items r ++ written n
  grown_items n h =
      let grown : sub64 (u64 (r.write_pos + n)) r.read_pos ≡ held + n =
        omega (arith, v.laid.write_word, v.laid.read_word, capacity_bounds v.laid) in
      rw grown (window-add empty_slot r.capacity r.slots r.read_pos held n)

  -- `advance_write_pos` by less than 2^63 throws just if the queue would exceed the capacity;
  -- otherwise it appends the slots written in place, and the buffer stays valid.
  pub advance_write_pos_cases :
      (n : ℕ)
      → n < 2 ^ 63
      → ((r.capacity < held + n) × (advance_write_pos n r ≡ none))
        ⊎ ((t : RingBuffer) × (advance_write_pos n r ≡ some t)
            × (held + n ≤ r.capacity)
            × (queue t ≡ append (written n) (queue r))
            × IsValid t)
  unfolding advance_write_pos
  advance_write_pos_cases n small = elim (Bool-cases (ltb r.capacity (held + n))) [
    | inl over ↦ inl (
      ground arith,
      ground (arith, capacity_bounds v.laid, v.laid.write_word, v.laid.read_word, v.laid.within),
    )
    | inr fits ↦ inr (
      advanced,
      ground (
        arith,
        capacity_bounds v.laid,
        v.laid.write_word,
        v.laid.read_word,
        v.laid.within,
        v.peak,
      ),
      ground arith,
      ground (
        arith,
        grown_items n,
        length-items r,
        length-window empty_slot r.capacity r.slots (r.read_pos + held) n,
        capacity_bounds v.laid,
        v.laid.write_word,
        v.laid.read_word,
        v.laid.within,
        v.peak,
      ),
      ground (
        arith,
        v.laid,
        v.mark,
        capacity_bounds v.laid,
        v.laid.write_word,
        v.laid.read_word,
        v.laid.within,
        v.peak,
      ),
    )
  ]
    where
      advanced : RingBuffer
      advanced = record r {
        write_pos = u64 (r.write_pos + n);
        high_water_mark = raise_mark r.high_water_mark (sub64 (u64 (r.write_pos + n)) r.read_pos);
      }

  -- The test does not see a count that wraps: a count of 2^64 - k, with at most as many held as k,
  -- passes it, and takes the newest k items out of the queue.
  pub advance_write_pos_wraps :
      (k : ℕ)
      → 0 < k
      → k ≤ held
      → (t : RingBuffer) × (advance_write_pos (2 ^ 64 - k) r ≡ some t)
        × (items t ≡ take (held - k) (items r))
  unfolding advance_write_pos
  advance_write_pos_wraps k lo hi = (
    back,
    ground (arith, capacity_bounds v.laid, v.laid.write_word, v.laid.read_word, v.laid.within),
    ap (window empty_slot r.capacity r.slots r.read_pos) less
        ∙ sym (take-window empty_slot r.capacity r.slots r.read_pos (held - k) held (omega arith)),
  )
    where
      back : RingBuffer
      back = record r {
        write_pos = u64 (r.write_pos + (2 ^ 64 - k));
        high_water_mark =
            raise_mark r.high_water_mark (sub64 (u64 (r.write_pos + (2 ^ 64 - k))) r.read_pos);
      }

      less : sub64 (u64 (r.write_pos + (2 ^ 64 - k))) r.read_pos ≡ held - k
      less =
          omega (arith, capacity_bounds v.laid, v.laid.write_word, v.laid.read_word, v.laid.within)
