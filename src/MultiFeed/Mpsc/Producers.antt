-- ===== src/MultiFeed/Mpsc/Producers.antt =====
-- `MPSCRingBuffer` shared by any number of producers and the consumer, one atomic access at a time:
-- which positions the exchanges claim. The consumer's `try_pop` is one step.
use mdfh_distrib.Common.{ℕ, ◌+◌, ◌<◌, ◌≡◌, List, [], ◌∷◌, ◌++◌, bit_and, set, ◌==◌, if◌then◌else◌}
use mdfh_distrib.Common.Word.{u64, sub64}
use mdfh_distrib.MultiFeed.Mpsc.{MultiFeedSlot, MpscRingBuffer}
use mdfh_distrib.MultiFeed.Mpsc.Race.{Producer, idle, loaded_write, loaded_read, claimed}

-- `owners` lists the producers whose exchange succeeded, in the order of the exchanges.
pub record Shared : Type 0 where
  pub ring : MpscRingBuffer
  pub producers : ℕ → Producer
  pub owners : List ℕ

abbrev pub update : ℕ → Producer → (ℕ → Producer) → ℕ → Producer
update p stage f q = if p == q then stage else f q

pub data Move (s : Shared) : Shared → Type 0 where
  load_write :
      (p : ℕ) (x : MultiFeedSlot)
      → s.producers p ≡ idle
      → Move s (record s { producers = update p (loaded_write x s.ring.write_pos) s.producers })
  load_read :
      (p : ℕ) {x : MultiFeedSlot} {w : ℕ}
      → s.producers p ≡ loaded_write x w
      → Move s (record s { producers = update p (loaded_read x w s.ring.read_pos) s.producers })
  -- The buffer was full, or the exchange failed.
  give_up :
      (p : ℕ) {x : MultiFeedSlot} {w d : ℕ}
      → s.producers p ≡ loaded_read x w d
      → Move s (record s { producers = update p idle s.producers })
  exchange :
      (p : ℕ) {x : MultiFeedSlot} {w d : ℕ}
      → s.producers p ≡ loaded_read x w d
      → sub64 w d < s.ring.capacity
      → s.ring.write_pos ≡ w
      → Move s (record s {
        ring = record s.ring { write_pos = u64 (w + 1) };
        producers = update p (claimed x w) s.producers;
        owners = s.owners ++ (p ∷ []);
      })
  write :
      (p : ℕ) {x : MultiFeedSlot} {w : ℕ}
      → s.producers p ≡ claimed x w
      → Move s (record s {
        ring = record s.ring { slots = set s.ring.slots (bit_and w s.ring.mask) x };
        producers = update p idle s.producers;
      })
  -- A whole `try_pop` that finds something.
  pop :
      s.ring.read_pos < s.ring.write_pos
      → Move s (record s { ring = record s.ring { read_pos = u64 (s.ring.read_pos + 1) } })

pub data Run (r : MpscRingBuffer) : Shared → Type 0 where
  start : Run r (record { ring = r; producers = λ p. idle; owners = [] })
  later : {s t : Shared} → Run r s → Move s t → Run r t
