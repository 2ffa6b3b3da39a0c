-- ===== src/Ring/Spsc/Safety.antt =====
-- What the two threads can rely on, in every interleaving of their atomic accesses.
use mdfh_distrib.Common.{ℕ, ◌≤◌, ◌<◌, ◌≡◌, ◌≢◌, [], ◌++◌, arith, subst, bit_and, length}
use mdfh_distrib.Common.Word.{sub64}
use mdfh_distrib.Circular.Layout.{apart}
use mdfh_distrib.Ring.{Slot, RingBuffer}
use mdfh_distrib.Ring.Invariant.{Laid}
use mdfh_distrib.Ring.Refine.{items, length-items}
use mdfh_distrib.Ring.Spsc.{Producer, Consumer, System, Reach}
use mdfh_distrib.Ring.Spsc.Invariant.{ProducerOk, ConsumerOk, Reach-Inv}

module _ {r : RingBuffer} {s : System} (v : Laid r) (m : r.high_water_mark ≤ r.capacity)
    (e : items r ≡ []) (reached : Reach r s) where
  -- However the accesses of one producer and one consumer interleave, starting from a buffer that
  -- is laid out well and holds nothing: the slots popped so far, followed by those in the buffer, are
  -- exactly the slots pushed so far, in order, and the buffer never holds more than its capacity.
  pub fifo :
      (s.pushed ≡ s.popped ++ items s.ring)
      × (length (items s.ring) ≤ s.ring.capacity)
      × (s.ring.high_water_mark ≤ s.ring.capacity)
  fifo =
      let i = Reach-Inv v m e reached in
      (i.history, omega (arith, length-items s.ring, i.laid.within), i.mark)

  -- While the producer, having seen room, is about to write a slot, and the consumer, having seen an
  -- item, is about to copy one, the two slots are different entries of the array.
  pub no_shared_slot :
      {x : Slot} {w d d' w' : ℕ}
      → s.producer ≡ Producer.loaded_read x w d
      → sub64 w d < s.ring.capacity
      → s.consumer ≡ Consumer.loaded_write d' w'
      → d' ≢ w'
      → bit_and w s.ring.mask ≢ bit_and d' s.ring.mask
  no_shared_slot p room c some_left same =
      let i = Reach-Inv v m e reached in
      ground (
        arith,
        apart i.laid,
        i.laid,
        subst (ProducerOk s.ring) p i.producer_ok,
        subst (ConsumerOk s.ring) c i.consumer_ok,
      )
