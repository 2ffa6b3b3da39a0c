-- ===== src/Ring/Run.antt =====
-- Whole histories of calls on a `RingBuffer`.
use mdfh_distrib.Common.{ℕ, ◌≡◌, refl, Bool, some, Option, List, [], ◌∷◌, arith}
use mdfh_distrib.Ring.{
  Slot, RingBuffer, try_push, try_pop, try_push_with_prefetch, try_pop_with_prefetch, try_push_bulk,
  try_pop_bulk,
}
use mdfh_distrib.Ring.Queue
use mdfh_distrib.Ring.Queue.{Queue}
use mdfh_distrib.Ring.Invariant.{
  IsValid, try_push-IsValid, try_pop-IsValid, try_push_bulk-IsValid, try_pop_bulk-IsValid,
  try_push_with_prefetch-eq, try_pop_with_prefetch-eq,
}
use mdfh_distrib.Ring.Refine.{queue, try_push_refines, try_pop_refines}
use mdfh_distrib.Ring.Bulk.{try_push_bulk_refines, try_pop_bulk_refines}

-- A call of a producer or of a consumer.
pub data Call : Type 0 where
  push push_with_prefetch : Slot → Call
  push_bulk : List Slot → Call
  pop pop_with_prefetch : Call
  pop_bulk : ℕ → Call

pub data Reply : Type 0 where
  pushed : Bool → Reply
  pushed_count : ℕ → Reply
  popped : Option Slot → Reply
  popped_all : List Slot → Reply

unfoldable pub call : Call → RingBuffer → RingBuffer × Reply
call (push x) r = let (r', done) = try_push x r in (r', pushed done)
call (push_with_prefetch x) r = let (r', done) = try_push_with_prefetch x r in (r', pushed done)
call (push_bulk xs) r = let (r', n) = try_push_bulk (some xs) r in (r', pushed_count n)
call pop r = let (r', out) = try_pop r in (r', popped out)
call pop_with_prefetch r = let (r', out) = try_pop_with_prefetch r in (r', popped out)
call (pop_bulk n) r = let (r', out) = try_pop_bulk n r in (r', popped_all out)

pub call_queue : ℕ → Call → Queue → Queue × Reply
call_queue cap (push x) q = let (q', done) = Queue.push cap x q in (q', pushed done)
call_queue cap (push_with_prefetch x) q = let (q', done) = Queue.push cap x q in (q', pushed done)
call_queue cap (push_bulk xs) q = let (q', n) = Queue.push_bulk cap xs q in (q', pushed_count n)
call_queue cap pop q = let (q', out) = Queue.pop q in (q', popped out)
call_queue cap pop_with_prefetch q = let (q', out) = Queue.pop q in (q', popped out)
call_queue cap (pop_bulk n) q = let (q', out) = Queue.pop_bulk n q in (q', popped_all out)

unfoldable pub run : List Call → RingBuffer → RingBuffer × List Reply
run [] r = (r, [])
run (c ∷ cs) r =
    let (r', reply) = call c r in let (last, replies) = run cs r' in (last, reply ∷ replies)

pub run_queue : ℕ → List Call → Queue → Queue × List Reply
run_queue cap [] q = (q, [])
run_queue cap (c ∷ cs) q =
    let (q', reply) = call_queue cap c q in
    let (last, replies) = run_queue cap cs q' in (last, reply ∷ replies)

pub call-IsValid : {r : RingBuffer} (c : Call) → IsValid r → IsValid (call c r).0
unfolding call
call-IsValid (push x) v = try_push-IsValid x v
call-IsValid {r} (push_with_prefetch x) v =
    rw (try_push_with_prefetch-eq x r) (try_push-IsValid x v)
call-IsValid (push_bulk xs) v = try_push_bulk-IsValid xs v
call-IsValid pop v = try_pop-IsValid v
call-IsValid {r} pop_with_prefetch v = rw (try_pop_with_prefetch-eq r) (try_pop-IsValid v)
call-IsValid (pop_bulk n) v = try_pop_bulk-IsValid n v

capacity-call : (c : Call) (r : RingBuffer) → (call c r).0.capacity ≡ r.capacity
unfolding call try_push try_pop try_push_with_prefetch try_pop_with_prefetch try_push_bulk
    try_pop_bulk
capacity-call (push x) r = ground arith
capacity-call (push_with_prefetch x) r = ground arith
capacity-call (push_bulk xs) r = ground arith
capacity-call pop r = ground arith
capacity-call pop_with_prefetch r = ground arith
capacity-call (pop_bulk n) r = ground arith

call_refines :
    {r : RingBuffer} (c : Call)
    → IsValid r
    → let (r', reply) = call c r in (queue r', reply) ≡ call_queue r.capacity c (queue r)
unfolding call call_queue
call_refines (push x) v = ground (arith, try_push_refines v x)
call_refines {r} (push_with_prefetch x) v =
    ground (arith, try_push_refines v x, try_push_with_prefetch-eq x r)
call_refines (push_bulk xs) v = ground (arith, try_push_bulk_refines v xs)
call_refines pop v = ground (arith, try_pop_refines v)
call_refines {r} pop_with_prefetch v = ground (arith, try_pop_refines v, try_pop_with_prefetch-eq r)
call_refines (pop_bulk n) v = ground (arith, try_pop_bulk_refines v n)

-- No history of plain, prefetching and batch calls tells a valid ring buffer from the bounded queue
-- of the slots that it holds: every reply is the queue's, the buffer stays valid, and at the end it
-- holds the queue's items and its high water mark is the queue's largest size.
pub run_refines :
    (cs : List Call) {r : RingBuffer}
    → IsValid r
    → let (r', replies) = run cs r in
      ((queue r', replies) ≡ run_queue r.capacity cs (queue r)) × IsValid r'
unfolding run run_queue
run_refines [] v = (refl, v)
run_refines (c ∷ cs) {r} v =
    let ih = run_refines cs (call-IsValid c v) in
    (ground (arith, ih.0, call_refines c v, capacity-call c r), ih.1)

pub capacity_push : (x : Slot) (r : RingBuffer) → (try_push x r).0.capacity ≡ r.capacity
unfolding call
capacity_push x r = capacity-call (push x) r
