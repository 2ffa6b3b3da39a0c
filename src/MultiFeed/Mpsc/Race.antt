-- ===== src/MultiFeed/Mpsc/Race.antt =====
-- `MPSCRingBuffer` shared by a producer and the consumer, one atomic access at a time: the exchange
-- publishes the position before the slot is written.
use mdfh_distrib.Common.{
  zero, suc, ap, ℕ, ◌+◌, ◌≤◌, ◌<◌, ◌≡◌, refl, List, [], ◌∷◌, ◌++◌, arith, bit_and, get_or, set,
  replicate,
}
use mdfh_distrib.Common.Word.{u64, sub64}
use mdfh_distrib.MultiFeed.Mpsc.{MultiFeedSlot, empty_multi_slot, MpscRingBuffer, fresh}

-- Where the producer stands in `try_push slot`.
pub data Producer : Type 0 where
  idle : Producer
  loaded_write : MultiFeedSlot → (write : ℕ) → Producer
  loaded_read : MultiFeedSlot → (write read : ℕ) → Producer
  claimed : MultiFeedSlot → (write : ℕ) → Producer  -- after the exchange, before the slot is written

-- The slots whose push has returned true, and those popped.
pub record System : Type 0 where
  pub ring : MpscRingBuffer
  pub producer : Producer
  pub pushed : List MultiFeedSlot
  pub popped : List MultiFeedSlot

pub data Step (s : System) : System → Type 0 where
  load_write :
      {x : MultiFeedSlot}
      → s.producer ≡ idle
      → Step s (record s { producer = loaded_write x s.ring.write_pos })
  load_read :
      {x : MultiFeedSlot} {w : ℕ}
      → s.producer ≡ loaded_write x w
      → Step s (record s { producer = loaded_read x w s.ring.read_pos })
  full :
      {x : MultiFeedSlot} {w d : ℕ}
      → s.producer ≡ loaded_read x w d
      → s.ring.capacity ≤ sub64 w d
      → Step s (record s { producer = idle })
  -- The weak exchange can fail whatever the position is.
  lost :
      {x : MultiFeedSlot} {w d : ℕ}
      → s.producer ≡ loaded_read x w d
      → sub64 w d < s.ring.capacity
      → Step s (record s { producer = idle })
  exchange :
      {x : MultiFeedSlot} {w d : ℕ}
      → s.producer ≡ loaded_read x w d
      → sub64 w d < s.ring.capacity
      → s.ring.write_pos ≡ w
      → Step s
          (record s { producer = claimed x w; ring = record s.ring { write_pos = u64 (w + 1) } })
  write :
      {x : MultiFeedSlot} {w : ℕ}
      → s.producer ≡ claimed x w
      → Step s (record s {
        producer = idle;
        ring = record s.ring { slots = set s.ring.slots (bit_and w s.ring.mask) x };
        pushed = s.pushed ++ (x ∷ []);
      })
  -- A whole `try_pop` that finds something, between two accesses of the producer.
  pop :
      s.ring.read_pos < s.ring.write_pos
      → Step s (record s {
        ring = record s.ring { read_pos = u64 (s.ring.read_pos + 1) };
        popped =
            s.popped
            ++ (get_or s.ring.slots (bit_and s.ring.read_pos s.ring.mask) empty_multi_slot ∷ []);
      })

pub data Reach (r : MpscRingBuffer) : System → Type 0 where
  start : Reach r (record { ring = r; producer = idle; pushed = []; popped = [] })
  later : {s t : System} → Reach r s → Step s t → Reach r t

replicate_entry :
    (n i : ℕ) → get_or (replicate n empty_multi_slot) i empty_multi_slot ≡ empty_multi_slot
replicate_entry zero i = refl
replicate_entry (suc n) zero = refl
replicate_entry (suc n) (suc i) = replicate_entry n i

-- In a fresh buffer of any capacity from 1 to 2^32, while the first push is between its exchange and
-- its write, the consumer can pop a slot that no push has written: the default one.
pub pops_unwritten_slot :
    (capacity : ℕ) (x : MultiFeedSlot)
    → 0 < capacity
    → (s : System) × Reach (fresh capacity) s
      × (s.producer ≡ claimed x 0)
      × (s.pushed ≡ [])
      × (s.popped ≡ empty_multi_slot ∷ [])
pops_unwritten_slot capacity x pos = (
  _,
  later
      (later (later (later start (load_write {x = x} refl)) (load_read refl))
        (exchange refl (omega arith) refl))
      (pop (omega arith)),
  refl,
  refl,
  ap (λ e. e ∷ []) (replicate_entry capacity (bit_and 0 (sub64 capacity 1))),
)
