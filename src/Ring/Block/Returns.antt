-- ===== src/Ring/Block/Returns.antt =====
-- When `try_push_or_block` returns.
use mdfh_distrib.Common.{
  ℕ, ◌≤◌, ◌<◌, ◌≡◌, ap, ◌⊎◌, inl, inr, true, List, [], ◌∷◌, arith, length, length-drop, Bool-cases,
}
use mdfh_distrib.Common.Word.{sub64}
use mdfh_distrib.Ring.{Slot, RingBuffer, try_push_with_prefetch, try_pop_bulk}
use mdfh_distrib.Ring.Invariant.{IsValid, try_pop_bulk-IsValid}
use mdfh_distrib.Circular.Layout.{capacity_bounds}
use mdfh_distrib.Ring.Refine.{items, length-items}
use mdfh_distrib.Ring.Block.{
  BackPressureMode, drop_message, block, Round, Outcome, pushed, gave_up, waiting, timed_out,
  wait_loop, try_push_or_block, attempt_room, consume, consume_capacity, wait_loop_step,
}

module _ (x : Slot) (t : ℕ) where
  -- Some round reaches the timeout, or takes a slot out before a further attempt.
  abbrev pub Ends : List Round → Type 0
  Ends [] = ⊥
  Ends (now ∷ []) = (0 < t) × (t ≤ now.elapsed_ns)
  Ends (now ∷ next ∷ later) =
      ((0 < t) × (t ≤ now.elapsed_ns)) ⊎ (0 < now.consumed) ⊎ Ends (next ∷ later)

  abbrev pub IsWaiting : Outcome → Type 0
  IsWaiting (waiting r) = Unit
  IsWaiting (pushed r) = ⊥
  IsWaiting (gave_up r) = ⊥

  -- With room the next attempt succeeds.
  room_ends :
      (now : Round) (later : List Round) (r : RingBuffer)
      → IsValid r
      → sub64 r.write_pos r.read_pos < r.capacity
      → ¬ IsWaiting (wait_loop x t (now ∷ later) r)
  unfolding wait_loop
  room_ends now later r v h = let (d, i) = attempt_room x v h in rw d (λ w. w)

  wait_loop-Ends :
      (rounds : List Round) (r : RingBuffer)
      → IsValid r
      → Ends rounds
      → ¬ IsWaiting (wait_loop x t rounds r)
  unfolding wait_loop
  wait_loop-Ends [] r v h = absurd h
  wait_loop-Ends (now ∷ []) r v h = elim (wait_loop_step x t now [] v) [
    | inl (e, i, room) ↦ rw e (λ w. w)
    | inr (full, e) ↦
        let over : timed_out t now.elapsed_ns ≡ true = ground arith in rw (e, over) (λ w. w)
  ]
  wait_loop-Ends (now ∷ next ∷ later) r v h = elim (wait_loop_step x t now (next ∷ later) v) [
    | inl (e, i, room) ↦ rw e (λ w. w)
    | inr (full, e) ↦ elim (Bool-cases (timed_out t now.elapsed_ns)) [
      | inl over ↦ rw (e, over) (λ w. w)
      | inr more ↦
          rw (e, more)
            (elim h [
              | inl late ↦ absurd (ground arith)
              | inr (inl some_taken) ↦
                  room_ends next later _ (try_pop_bulk-IsValid now.consumed v)
                    (taken full some_taken)
              | inr (inr rest) ↦
                  wait_loop-Ends (next ∷ later) _ (try_pop_bulk-IsValid now.consumed v) rest
            ])
    ]
  ]
    where
      open r use {capacity}

      taken :
          capacity ≤ sub64 r.write_pos r.read_pos
          → 0 < now.consumed
          → let r' = (try_pop_bulk now.consumed r).0 in sub64 r'.write_pos r'.read_pos < r'.capacity
      taken full some_taken =
          let r' = (try_pop_bulk now.consumed r).0 in
          omega (
            arith,
            length-items r',
            ap length (consume now.consumed v),
            length-drop now.consumed (items r),
            length-items r,
            consume_capacity r now.consumed,
            v.laid.within,
            capacity_bounds v.laid,
          )

  -- `try_push_or_block` on a valid buffer returns at once in DROP mode; in BLOCK mode it returns
  -- within the rounds as soon as one of them reaches a positive timeout, or the consumer takes a
  -- slot out before a further attempt.
  pub try_push_or_block_returns :
      (mode : BackPressureMode) (rounds : List Round) (r : RingBuffer)
      → IsValid r
      → (mode ≡ drop_message) ⊎ Ends rounds
      → ¬ IsWaiting (try_push_or_block x t mode rounds r)
  unfolding try_push_or_block
  try_push_or_block_returns drop_message rounds r v h =
      elim (Bool-cases (try_push_with_prefetch x r).1) [
        | inl e ↦ rw e (λ w. w)
        | inr e ↦ rw e (λ w. w)
      ]
  try_push_or_block_returns block rounds r v (inl e) = cc
  try_push_or_block_returns block rounds r v (inr h) = wait_loop-Ends rounds r v h
