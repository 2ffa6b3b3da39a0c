-- ===== src/MultiFeed/Mpsc/Refine.antt =====
-- A valid `MPSCRingBuffer` that one thread at a time calls is a bounded queue.
use mdfh_distrib.Common.{
  get_or, ◌+◌, ◌^◌, ◌≤◌, ◌<◌, ◌≡◌, ap, Bool, true, false, none, some, List, [], ◌∷◌, ◌++◌, arith,
  length, length-set, bit_and, ltb, ◌⊎◌, inl, inr, Bool-cases,
}
use mdfh_distrib.Common.Word.{sub64}
use mdfh_distrib.Circular.Window.{window, length-window}
use mdfh_distrib.Circular.Layout.{Layout, capacity_bounds, write-window, read-window}
use mdfh_distrib.MultiFeed.Mpsc.{MultiFeedSlot, empty_multi_slot, MpscRingBuffer, try_push, try_pop}

-- The positions have not wrapped: they count the slots pushed and popped so far.
pub record IsValid (r : MpscRingBuffer) : Type 0 where
  pub laid : Layout (length r.slots) r.capacity r.mask r.write_pos r.read_pos
  pub ordered : r.read_pos ≤ r.write_pos

abbrev pub items : MpscRingBuffer → List MultiFeedSlot
items r = window empty_multi_slot r.capacity r.slots r.read_pos (sub64 r.write_pos r.read_pos)

pub length-items : (r : MpscRingBuffer) → length (items r) ≡ sub64 r.write_pos r.read_pos
length-items r = length-window empty_multi_slot r.capacity r.slots r.read_pos _

module _ {r : MpscRingBuffer} (v : IsValid r) where
  -- A push whose exchange succeeds, on a valid buffer whose positions have not come to wrap, appends
  -- the slot just if there is room; otherwise, and when the exchange fails, nothing changes. The
  -- buffer stays valid.
  pub try_push_lem :
      (exchanged : Bool) (x : MultiFeedSlot)
      → r.write_pos + 1 < 2 ^ 64
      → let (r', done) = try_push exchanged x r in
        ((done ≡ true)
          × (exchanged ≡ true)
          × (length (items r) < r.capacity)
          × (items r' ≡ items r ++ (x ∷ []))
          × (r'.capacity ≡ r.capacity)
          × (r'.write_pos ≡ r.write_pos + 1)
          × IsValid r')
        ⊎ ((done ≡ false) × (r' ≡ r) × ((exchanged ≡ false) ⊎ (length (items r) ≡ r.capacity)))
  unfolding try_push
  try_push_lem exchanged x small =
      elim (Bool-cases (ltb (sub64 r.write_pos r.read_pos) r.capacity)) [
        | inl room ↦ elim (Bool-cases exchanged) [
          | inl won ↦ inl (
            ground (arith, room, won),
            won,
            ground (arith, room, length-items r),
            ground (arith, room, won, write-window empty_multi_slot r.slots v.laid x),
            ground (arith, room, won),
            ground (arith, room, won),
            ground (
              arith,
              room,
              won,
              v.laid,
              v.ordered,
              capacity_bounds v.laid,
              length-set r.slots (bit_and r.write_pos r.mask) x,
            ),
          )
          | inr lost ↦ inr (ground (arith, room, lost), ground (arith, room, lost), inl lost)
        ]
        | inr full ↦ inr (
          ground (arith, full),
          ground (arith, full),
          inr (ground (arith, full, length-items r, v.laid.within)),
        )
      ]

  -- A pop of a valid buffer takes out the oldest item, if there is one, and leaves a valid buffer.
  pub try_pop_lem :
      let (r', out) = try_pop r in
      ((out ≡ none) × (r' ≡ r) × (items r ≡ []))
      ⊎ ((x : MultiFeedSlot) × (out ≡ some x) × (items r ≡ x ∷ items r') × IsValid r')
  unfolding try_pop
  try_pop_lem = elim (Bool-cases (ltb r.read_pos r.write_pos)) [
    | inl some_left ↦ inr (
      get_or r.slots (bit_and r.read_pos r.mask) empty_multi_slot,
      ground (arith, some_left),
      ground (
        arith,
        some_left,
        read-window empty_multi_slot r.slots v.laid,
        v.laid.read_word,
        v.laid.write_word,
      ),
      ground (arith, some_left, v.laid, v.ordered, capacity_bounds v.laid),
    )
    | inr none_left ↦ inl (
      ground (arith, none_left),
      ground (arith, none_left),
      ground (
        arith,
        none_left,
        v.ordered,
        v.laid.write_word,
        ap (window empty_multi_slot r.capacity r.slots r.read_pos)
            {x = sub64 r.write_pos r.read_pos} {y = 0},
      ),
    )
  ]
