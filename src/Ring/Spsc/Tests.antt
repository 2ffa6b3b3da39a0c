-- ===== src/Ring/Spsc/Tests.antt =====
-- A run of the two threads, and the theorems about them at its states.
use mdfh_distrib.Common.{ℕ, ◌≤◌, ◌≡◌, ◌≢◌, refl, [], ◌∷◌, ◌++◌, arith, bit_and, length}
use mdfh_distrib.Ring.{Slot, RingBuffer, empty_slot, fresh}
use mdfh_distrib.Ring.Invariant.{Laid}
use mdfh_distrib.Ring.Refine.{items}
use mdfh_distrib.Ring.Spsc.{Producer, Consumer, System, Push, Pop, Step, Reach}
use mdfh_distrib.Ring.Spsc.Safety.{fifo, no_shared_slot}

abbrev slot : ℕ → Slot
slot n = record { raw = record { seq = n; px = 0x4059_0000_0000_0000; qty = 5 }; rx_ts = n }

abbrev fresh-Laid : Laid (fresh 2)
fresh-Laid = record {
  exponent = 1;
  small = omega arith;
  capacity_eq = refl;
  mask_eq = refl;
  storage = refl;
  write_word = omega arith;
  read_word = omega arith;
  within = omega arith;
}

-- The producer has published one slot; both threads then read the positions again, and the producer
-- is about to write a second slot while the consumer is about to copy the first.
abbrev one_in : RingBuffer
one_in = record (fresh 2) { slots = slot 1 ∷ empty_slot ∷ []; write_pos = 1; high_water_mark = 1 }

abbrev race : System
race = record {
  ring = one_in;
  producer = Producer.loaded_read (slot 2) 1 0;
  consumer = Consumer.loaded_write 0 1;
  pushed = slot 1 ∷ [];
  popped = [];
}

race-Reach : Reach (fresh 2) race
race-Reach =
    Reach.later
      (Reach.later
        (Reach.later
          (Reach.later
            (Reach.later
              (Reach.later
                (Reach.later
                  (Reach.later
                    (Reach.later Reach.start (Step.produce (Push.load_write {x = slot 1})))
                    (Step.produce Push.load_read))
                  (Step.produce (Push.write (omega arith))))
                (Step.produce Push.publish))
              (Step.produce Push.mark))
            (Step.produce (Push.load_write {x = slot 2})))
          (Step.consume Pop.load_read))
        (Step.produce Push.load_read))
      (Step.consume Pop.load_write)

fifo_example : (slot 1 ∷ [] ≡ [] ++ items one_in) × (length (items one_in) ≤ 2) × (1 ≤ 2)
fifo_example = fifo fresh-Laid (omega arith) refl race-Reach

no_shared_slot_example : bit_and 1 1 ≢ bit_and 0 1
no_shared_slot_example =
    no_shared_slot fresh-Laid (omega arith) refl race-Reach refl (omega arith) refl (omega arith)
