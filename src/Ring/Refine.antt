-- ===== src/Ring/Refine.antt =====
-- A valid `RingBuffer` behaves as the bounded queue of the slots that it holds.
use mdfh_distrib.Common.{
  refl, some, none, ◌<◌, ◌≡◌, ap, true, false, List, [], ◌∷◌, ◌++◌, arith, length, ltb, Bool-cases,
  inl, inr, ◌⊎◌,
}
use mdfh_distrib.Common.Word.{sub64}
use mdfh_distrib.Circular.Window.{window, length-window}
use mdfh_distrib.Ring.{Slot, empty_slot, RingBuffer, try_push, try_pop}
use mdfh_distrib.Ring.Queue
use mdfh_distrib.Ring.Queue.{Queue}
use mdfh_distrib.Ring.Invariant.{IsValid}
use mdfh_distrib.Circular.Layout.{capacity_bounds, write-window, read-window}

abbrev pub items : RingBuffer → List Slot
items r = window empty_slot r.capacity r.slots r.read_pos (sub64 r.write_pos r.read_pos)

abbrev pub queue : RingBuffer → Queue
queue r = record { items = items r; peak = r.high_water_mark }

pub length-items : (r : RingBuffer) → length (items r) ≡ sub64 r.write_pos r.read_pos
length-items r = length-window empty_slot r.capacity r.slots r.read_pos _

-- `try_push` and `try_pop` return what the queue's operations return, and leave the queue's state.
module _ {r : RingBuffer} (v : IsValid r) where
  pub try_push_refines :
      (x : Slot)
      → let (r', done) = try_push x r in (queue r', done) ≡ Queue.push r.capacity x (queue r)
  unfolding try_push Queue.push
  try_push_refines x =
      ground
        (arith, write-window empty_slot r.slots v.laid x, length-items r, capacity_bounds v.laid)

  pub try_pop_refines : let (r', out) = try_pop r in (queue r', out) ≡ Queue.pop (queue r)
  unfolding try_pop Queue.pop
  try_pop_refines = ground (
    arith,
    read-window empty_slot r.slots v.laid,
    v.laid.read_word,
    v.laid.write_word,
    ap (window empty_slot r.capacity r.slots r.read_pos) {x = sub64 r.write_pos r.read_pos} {y = 0},
  )

  -- The two cases of a push.
  pub try_push_cases :
      (x : Slot)
      → ((length (items r) < r.capacity)
          × ((try_push x r).1 ≡ true)
          × (items (try_push x r).0 ≡ items r ++ (x ∷ [])))
        ⊎ ((length (items r) ≡ r.capacity)
            × ((try_push x r).1 ≡ false)
            × (items (try_push x r).0 ≡ items r))
  unfolding Queue.push
  try_push_cases x = elim (Bool-cases (ltb (length (items r)) r.capacity)) [
    | inl room ↦
        inl (ground arith, ground (arith, try_push_refines x), ground (arith, try_push_refines x))
    | inr full ↦ inr (
      ground (arith, length-items r, v.laid.within),
      ground (arith, try_push_refines x),
      ground (arith, try_push_refines x),
    )
  ]

  -- The two cases of a pop.
  pub try_pop_cases :
      (((try_pop r).1 ≡ none) × (items r ≡ []))
      ⊎ ((x : Slot) × ((try_pop r).1 ≡ some x) × (items r ≡ x ∷ items (try_pop r).0))
  unfolding Queue.pop
  try_pop_cases = go (items r) refl
    where
      go :
          (q : List Slot)
          → items r ≡ q
          → (((try_pop r).1 ≡ none) × (items r ≡ []))
            ⊎ ((x : Slot) × ((try_pop r).1 ≡ some x) × (items r ≡ x ∷ items (try_pop r).0))
      go [] e = inl (ground (arith, try_pop_refines, e), e)
      go (x ∷ xs) e =
          inr (x, ground (arith, try_pop_refines, e), ground (arith, try_pop_refines, e))
