-- ===== src/Ring/Spsc.antt =====
-- `RingBuffer` shared by one producer and one consumer thread: each atomic access of `try_push` and
-- `try_pop` is a step of its own, and the steps of the two threads interleave in any order.
pub mod Invariant
pub mod Safety
mod Tests
use mdfh_distrib.Common.{ℕ, ◌+◌, ◌≤◌, ◌<◌, ◌≡◌, ◌≢◌, List, [], ◌∷◌, ◌++◌, bit_and, get_or, set}
use mdfh_distrib.Common.Word.{u64, sub64}
use mdfh_distrib.Ring.{Slot, RingBuffer, empty_slot, raise_mark}

-- Where the producer stands in `try_push slot`, with the locals that are live there.
pub data Producer : Type 0 where
  idle : Producer
  loaded_write : Slot → (write : ℕ) → Producer
  loaded_read : Slot → (write read : ℕ) → Producer
  written : Slot → (write read : ℕ) → Producer  -- before the release store of `write_pos_`
  published : (write read : ℕ) → Producer  -- before the update of the high water mark

-- Where the consumer stands in `try_pop`.
pub data Consumer : Type 0 where
  idle : Consumer
  loaded_read : (read : ℕ) → Consumer
  loaded_write : (read write : ℕ) → Consumer
  copied : (read : ℕ) → Slot → Consumer  -- before the release store of `read_pos_`

-- The shared buffer, the two threads, and two ghost histories: the slots whose push, and whose pop,
-- took effect, oldest first.
pub record System : Type 0 where
  pub ring : RingBuffer
  pub producer : Producer
  pub consumer : Consumer
  pub pushed : List Slot
  pub popped : List Slot

-- A step of the producer: from its place `p` to `p'`, with the buffer and the history after it.
pub data Push (r : RingBuffer) (h : List Slot)
    : Producer → RingBuffer → List Slot → Producer → Type 0 where
  load_write : {x : Slot} → Push r h Producer.idle r h (Producer.loaded_write x r.write_pos)
  load_read :
      {x : Slot} {w : ℕ}
      → Push r h (Producer.loaded_write x w) r h (Producer.loaded_read x w r.read_pos)
  full :
      {x : Slot} {w d : ℕ}
      → r.capacity ≤ sub64 w d
      → Push r h (Producer.loaded_read x w d) r h Producer.idle
  write :
      {x : Slot} {w d : ℕ}
      → sub64 w d < r.capacity
      → Push r h
          (Producer.loaded_read x w d)
          (record r { slots = set r.slots (bit_and w r.mask) x })
          h
          (written x w d)
  publish :
      {x : Slot} {w d : ℕ}
      → Push r h
          (written x w d)
          (record r { write_pos = u64 (w + 1) })
          (h ++ (x ∷ []))
          (published w d)
  mark :
      {w d : ℕ}
      → Push r h
          (published w d)
          (record r { high_water_mark = raise_mark r.high_water_mark (sub64 (u64 (w + 1)) d) })
          h
          Producer.idle

-- A step of the consumer.
pub data Pop (r : RingBuffer) (h : List Slot)
    : Consumer → RingBuffer → List Slot → Consumer → Type 0 where
  load_read : Pop r h Consumer.idle r h (Consumer.loaded_read r.read_pos)
  load_write : {d : ℕ} → Pop r h (Consumer.loaded_read d) r h (Consumer.loaded_write d r.write_pos)
  none_left : {d w : ℕ} → d ≡ w → Pop r h (Consumer.loaded_write d w) r h Consumer.idle
  copy :
      {d w : ℕ}
      → d ≢ w
      → Pop r h
          (Consumer.loaded_write d w)
          r
          h
          (copied d (get_or r.slots (bit_and d r.mask) empty_slot))
  release :
      {d : ℕ} {x : Slot}
      → Pop r h (copied d x) (record r { read_pos = u64 (d + 1) }) (h ++ (x ∷ [])) Consumer.idle

pub data Step (s : System) : System → Type 0 where
  produce :
      {r : RingBuffer} {h : List Slot} {p : Producer}
      → Push s.ring s.pushed s.producer r h p
      → Step s (record s { ring = r; producer = p; pushed = h })
  consume :
      {r : RingBuffer} {h : List Slot} {c : Consumer}
      → Pop s.ring s.popped s.consumer r h c
      → Step s (record s { ring = r; consumer = c; popped = h })

-- Both threads start idle on a buffer that holds no slot.
pub data Reach (r : RingBuffer) : System → Type 0 where
  start : Reach r (record {
    ring = r;
    producer = Producer.idle;
    consumer = Consumer.idle;
    pushed = [];
    popped = [];
  })
  later : {s t : System} → Reach r s → Step s t → Reach r t
