-- ===== src/Ring/Block/Waited.antt =====
-- What `try_push_or_block` leaves in the queue, by how it ends.
use mdfh_distrib.Common.{
  ℕ, ◌+◌, ◌≤◌, ◌<◌, ◌≡◌, refl, ap, ◌⊎◌, inl, inr, false, List, [], ◌∷◌, ◌++◌, arith, length,
  length-append, ◌∙◌, drop, drop-drop, ltb, Bool-cases,
}
use mdfh_distrib.Common.Word.{sub64}
use mdfh_distrib.Ring.{Slot, RingBuffer, try_push_with_prefetch, try_pop_bulk}
use mdfh_distrib.Ring.Invariant.{IsValid, try_pop_bulk-IsValid}
use mdfh_distrib.Ring.Refine.{items, length-items}
use mdfh_distrib.Ring.Block.{
  BackPressureMode, drop_message, block, Round, Outcome, pushed, gave_up, waiting, timed_out,
  wait_loop, try_push_or_block, attempt_full, attempt_room, consume, consume_capacity,
  wait_loop_step,
}

-- What the consumer takes in some rounds, and that none of them reaches the timeout.
abbrev pub total_consumed : List Round → ℕ
total_consumed [] = 0
total_consumed (now ∷ later) = now.consumed + total_consumed later

abbrev pub NoneLate : ℕ → List Round → Type 0
NoneLate t [] = Unit
NoneLate t (now ∷ later) = ((t ≡ 0) ⊎ (now.elapsed_ns < t)) × NoneLate t later

-- What the outcome says of the queue. The loop waits for the rounds `before`, only if the queue was
-- full, and none of them late; the queue then lacks exactly what the consumer took in these. A pushed
-- item stands last; who gives up does it in DROP mode at once, or in a round that is late.
abbrev pub Explains : Slot → ℕ → BackPressureMode → List Round → RingBuffer → Outcome → Type 0
Explains x t mode rounds r (pushed r') =
    (before after : List Round) × (rounds ≡ before ++ after)
    × NoneLate t before
    × (items r' ≡ drop (total_consumed before) (items r) ++ (x ∷ []))
    × (length (items r') ≤ r.capacity)
    × ((before ≡ []) ⊎ ((mode ≡ block) × (length (items r) ≡ r.capacity)))
Explains x t mode rounds r (gave_up r') =
    (before after : List Round) × (rounds ≡ before ++ after)
    × NoneLate t before
    × (items r' ≡ drop (total_consumed before) (items r))
    × (length (items r') ≡ r.capacity)
    × (((mode ≡ drop_message) × (before ≡ []))
        ⊎ ((now : Round) × (later : List Round) × (after ≡ now ∷ later)
            × (0 < t)
            × (t ≤ now.elapsed_ns)))
Explains x t mode rounds r (waiting r') =
    (items r' ≡ drop (total_consumed rounds) (items r))
    × NoneLate t rounds
    × (mode ≡ block)
    × ((rounds ≡ []) ⊎ (length (items r) ≡ r.capacity))

not_drop : block ≡ drop_message → ⊥
not_drop h = cc

dropped_more :
    (r r' : RingBuffer) (now : Round) (before : List Round)
    → items r' ≡ drop now.consumed (items r)
    → drop (total_consumed before) (items r')
      ≡ drop (now.consumed + total_consumed before) (items r)
dropped_more r r' now before e =
    ap (drop (total_consumed before)) e
    ∙ ground (arith, drop-drop (total_consumed before) now.consumed (items r))

-- One more round of waiting, on a queue that is full.
Explains-later :
    (r r' : RingBuffer) (x : Slot) (t : ℕ) (now : Round) (later : List Round) (o : Outcome)
    → items r' ≡ drop now.consumed (items r)
    → r'.capacity ≡ r.capacity
    → length (items r) ≡ r.capacity
    → (t ≡ 0) ⊎ (now.elapsed_ns < t)
    → Explains x t block later r' o
    → Explains x t block (now ∷ later) r o
Explains-later r r' x t now later (pushed u) e c full intime
      (before, after, cut, ok, p, fits, why) =
    (
      now ∷ before,
      after,
      ap (◌∷◌ now) cut,
      (intime, ok),
      p ∙ ap (λ ys. ys ++ (x ∷ [])) (dropped_more r r' now before e),
      omega (arith, fits, c),
      inr (refl, full),
    )
Explains-later r r' x t now later (gave_up u) e c full intime
      (before, after, cut, ok, p, fits, why) =
    (
      now ∷ before,
      after,
      ap (◌∷◌ now) cut,
      (intime, ok),
      p ∙ dropped_more r r' now before e,
      fits ∙ c,
      elim why [ inl (wrong, f) ↦ absurd (not_drop wrong) | inr late ↦ inr late ],
    )
Explains-later r r' x t now later (waiting u) e c full intime (p, ok, m, why) =
    (p ∙ dropped_more r r' now later e, (intime, ok), refl, inr full)

module _ (x : Slot) (t : ℕ) where
  -- A queue with room, and one without.
  pushed_at_once :
      (mode : BackPressureMode) (rounds : List Round) (r r' : RingBuffer)
      → IsValid r
      → length (items r) < r.capacity
      → items r' ≡ items r ++ (x ∷ [])
      → Explains x t mode rounds r (pushed r')
  pushed_at_once mode rounds r r' v room i = (
    [],
    rounds,
    refl,
    tt,
    i,
    omega (arith, room, ap length i, length-append (items r) (x ∷ [])),
    inl refl,
  )

  in_time : (now : Round) → timed_out t now.elapsed_ns ≡ false → (t ≡ 0) ⊎ (now.elapsed_ns < t)
  in_time now h = ground (arith, h)

  wait_loop-Explains :
      (rounds : List Round) (r : RingBuffer)
      → IsValid r
      → Explains x t block rounds r (wait_loop x t rounds r)
  unfolding wait_loop
  wait_loop-Explains [] r v = (refl, tt, refl, inl refl)
  wait_loop-Explains (now ∷ later) r v = elim (wait_loop_step x t now later v) [
    | inl (e, i, room) ↦
        rw e (pushed_at_once block (now ∷ later) r (try_push_with_prefetch x r).0 v room i)
    | inr (full, e) ↦
        let held : length (items r) ≡ r.capacity = omega (arith, length-items r, v.laid.within) in
        elim (Bool-cases (timed_out t now.elapsed_ns)) [
          | inl over ↦
              rw (e, over)
                (
                  [],
                  now ∷ later,
                  refl,
                  tt,
                  refl,
                  held,
                  inr (now, later, refl, ground (arith, over), ground (arith, over)),
                )
          | inr more ↦
              rw (e, more)
                (Explains-later r (try_pop_bulk now.consumed r).0 x t now later _
                  (consume now.consumed v) (consume_capacity r now.consumed) held (in_time now more)
                  (wait_loop-Explains later _ (try_pop_bulk-IsValid now.consumed v)))
        ]
  ]

  -- When `try_push_or_block` on a valid buffer pushes the slot, it has waited for a run of rounds, none
  -- of which reaches the timeout, and for none unless in BLOCK mode and on a full buffer: the slot
  -- stands last, behind exactly what the consumer left of the items in these rounds. When it gives up,
  -- at once in DROP mode or else in a round that reaches a positive timeout, the buffer is full and
  -- holds exactly what the consumer left in the rounds before. While it waits, in BLOCK mode, the
  -- buffer holds exactly what the consumer left, and no round reached the timeout.
  pub try_push_or_block-Explains :
      (mode : BackPressureMode) (rounds : List Round) (r : RingBuffer)
      → IsValid r
      → Explains x t mode rounds r (try_push_or_block x t mode rounds r)
  unfolding try_push_or_block
  try_push_or_block-Explains drop_message rounds r v =
      elim (Bool-cases (ltb (sub64 r.write_pos r.read_pos) r.capacity)) [
        | inl room ↦
            let (d, i) = attempt_room x v (ground arith) in
            rw d (
              pushed_at_once drop_message rounds r (try_push_with_prefetch x r).0 v
                (ground (arith, room, length-items r)) i)
        | inr full ↦ rw (attempt_full {r = r} x (ground arith)) (
          [],
          rounds,
          refl,
          tt,
          refl,
          ground (arith, length-items r, v.laid.within),
          inl (refl, refl),
        )
      ]
  try_push_or_block-Explains block rounds r v = wait_loop-Explains rounds r v
