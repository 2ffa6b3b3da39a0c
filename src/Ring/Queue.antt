-- ===== src/Ring/Queue.antt =====
-- What a client of `RingBuffer` may count on: a first-in first-out queue of at most `cap` slots that
-- remembers the largest size that it has had.
use mdfh_distrib.Common.{
  ℕ, ◌+◌, ◌-◌, Bool, true, false, Option, none, some, List, [], ◌∷◌, ◌++◌, ltb, if◌then◌else◌, min,
  max, length, take, drop,
}
use mdfh_distrib.Ring.{Slot}

pub record Queue : Type 0 where
  pub items : List Slot
  pub peak : ℕ

abbrev pub append : List Slot → Queue → Queue
append xs q = record { items = q.items ++ xs; peak = max q.peak (length q.items + length xs) }

unfoldable pub pop : Queue → Queue × Option Slot
pop q = elim q.items [ [] ↦ (q, none) | x ∷ rest ↦ (record q { items = rest }, some x) ]

module _ (cap : ℕ) where
  unfoldable pub push : Slot → Queue → Queue × Bool
  push x q = if ltb (length q.items) cap then (append (x ∷ []) q, true) else (q, false)

  -- As many as fit go in, from the front of the batch.
  unfoldable pub push_bulk : List Slot → Queue → Queue × ℕ
  push_bulk xs q = let n = min (length xs) (cap - length q.items) in (append (take n xs) q, n)

-- As many as there are come out, oldest first.
unfoldable pub pop_bulk : ℕ → Queue → Queue × List Slot
pop_bulk n q = (record q { items = drop n q.items }, take n q.items)
