-- ===== src/Ring/Block.antt =====
-- `RingBuffer::try_push_or_block`. The clock and the consumer are the environment: a round of the
-- waiting loop reads an elapsed time, and the consumer takes some slots before the next attempt.
pub mod Waited
pub mod Returns
use mdfh_distrib.Common.{
  ℕ, ◌+◌, ◌≤◌, ◌<◌, ◌≡◌, refl, ap, ◌⊎◌, inl, inr, Bool, true, false, ◌&&◌, List, [], ◌∷◌, ◌++◌,
  arith, length, length-append, ◌∙◌, drop, drop-drop, length-drop, ltb, leb, if◌then◌else◌,
  Bool-cases,
}
use mdfh_distrib.Common.Word.{sub64}
use mdfh_distrib.Ring.{Slot, RingBuffer, try_push_with_prefetch, try_pop_bulk}
use mdfh_distrib.Ring.Queue
use mdfh_distrib.Ring.Queue.{Queue}
use mdfh_distrib.Ring.Invariant.{IsValid, try_pop_bulk-IsValid, try_push_with_prefetch-eq}
use mdfh_distrib.Circular.Layout.{capacity_bounds}
use mdfh_distrib.Ring.Refine.{items, length-items, try_push_refines}
use mdfh_distrib.Ring.Bulk.{try_pop_bulk_refines}

pub data BackPressureMode : Type 0 where
  drop_message block : BackPressureMode

pub record Round : Type 0 where
  pub elapsed_ns : ℕ
  pub consumed : ℕ

-- `waiting`: the rounds are used up, and the loop goes on.
pub data Outcome : Type 0 where
  pushed gave_up waiting : RingBuffer → Outcome

-- The clock is read for a positive timeout only.
abbrev pub timed_out : ℕ → ℕ → Bool
timed_out timeout_ns elapsed_ns = ltb 0 timeout_ns && leb timeout_ns elapsed_ns

unfoldable pub wait_loop : Slot → ℕ → List Round → RingBuffer → Outcome
wait_loop slot timeout_ns [] r = waiting r
wait_loop slot timeout_ns (now ∷ later) r =
    let (r', done) = try_push_with_prefetch slot r in
    let next = wait_loop slot timeout_ns later (try_pop_bulk now.consumed r').0 in
    if done then pushed r' else if timed_out timeout_ns now.elapsed_ns then gave_up r' else next

unfoldable pub try_push_or_block : Slot → ℕ → BackPressureMode → List Round → RingBuffer → Outcome
try_push_or_block slot timeout_ns drop_message rounds r =
    let (r', done) = try_push_with_prefetch slot r in if done then pushed r' else gave_up r'
try_push_or_block slot timeout_ns block rounds r = wait_loop slot timeout_ns rounds r

-- What an attempt does, by the room that there is.
pub attempt_full :
    {r : RingBuffer} (x : Slot)
    → r.capacity ≤ sub64 r.write_pos r.read_pos
    → try_push_with_prefetch x r ≡ (r, false)
unfolding try_push_with_prefetch
attempt_full x h = ground arith

pub attempt_room :
    {r : RingBuffer} (x : Slot)
    → IsValid r
    → sub64 r.write_pos r.read_pos < r.capacity
    → let (r', done) = try_push_with_prefetch x r in
      (done ≡ true) × (items r' ≡ items r ++ (x ∷ []))
unfolding Queue.push
attempt_room {r} x v h =
    ground (arith, try_push_refines v x, try_push_with_prefetch-eq x r, length-items r)

pub consume : {r : RingBuffer} (n : ℕ) → IsValid r → items (try_pop_bulk n r).0 ≡ drop n (items r)
unfolding Queue.pop_bulk
consume n v = ground (arith, try_pop_bulk_refines v n)

pub consume_capacity : (r : RingBuffer) (n : ℕ) → (try_pop_bulk n r).0.capacity ≡ r.capacity
unfolding try_pop_bulk
consume_capacity r n = ground arith

pub wait_loop_step :
    (x : Slot) (t : ℕ) (now : Round) (later : List Round) {r : RingBuffer}
    → IsValid r
    → ((let (r', done) = try_push_with_prefetch x r in
        (wait_loop x t (now ∷ later) r ≡ pushed r')
        × (items r' ≡ items r ++ (x ∷ []))
        × (length (items r) < r.capacity)))
      ⊎ ((r.capacity ≤ sub64 r.write_pos r.read_pos)
          × (wait_loop x t (now ∷ later) r ≡ (
              if timed_out t now.elapsed_ns
              then gave_up r
              else wait_loop x t later (try_pop_bulk now.consumed r).0)))
unfolding wait_loop
wait_loop_step x t now later {r} v =
    elim (Bool-cases (ltb (sub64 r.write_pos r.read_pos) r.capacity)) [
      | inl room ↦ inl (
        ground (arith, attempt_room x v),
        ground (arith, attempt_room x v),
        ground (arith, room, length-items r),
      )
      | inr full ↦ inr (ground arith, rw (attempt_full {r = r} x (ground arith)) refl)
    ]
