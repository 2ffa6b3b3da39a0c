-- ===== src/Ring/Spsc/Invariant.antt =====
-- What holds in every state that the two threads reach.
use mdfh_distrib.Common.{
  ℕ, ◌+◌, ◌^◌, ◌≤◌, ◌<◌, ◌≡◌, refl, List, [], ◌∷◌, ◌++◌, arith, bit_and, get_or, append_assoc,
  length-set, get_or-set_self, get_or-set_ne, sym,
}
use mdfh_distrib.Common.Word.{u64, sub64}
use mdfh_distrib.Circular.Layout.{
  capacity_bounds, index_eq, write-window_outside, publish-window, read-window, apart,
}
use mdfh_distrib.Ring.{Slot, RingBuffer, empty_slot}
use mdfh_distrib.Ring.Invariant.{Laid}
use mdfh_distrib.Ring.Refine.{items}
use mdfh_distrib.Ring.Spsc.{
  Producer, Consumer, written, published, copied, System, Push, Pop, Step, Reach,
}
use native.Mathlib.Nat.{mod-lt}

abbrev pub held : RingBuffer → ℕ
held r = sub64 r.write_pos r.read_pos

-- The producer's copy of the read position may lag behind: there is more room than it sees.
abbrev pub ProducerOk : RingBuffer → Producer → Type 0
ProducerOk r Producer.idle = Unit {0}
ProducerOk r (Producer.loaded_write x w) = w ≡ r.write_pos
ProducerOk r (Producer.loaded_read x w d) =
    (w ≡ r.write_pos) × (d < 2 ^ 64) × (held r ≤ sub64 w d) × (sub64 w d ≤ r.capacity)
ProducerOk r (written x w d) =
    (w ≡ r.write_pos)
    × (d < 2 ^ 64)
    × (held r ≤ sub64 w d)
    × (sub64 w d < r.capacity)
    × (get_or r.slots (bit_and w r.mask) empty_slot ≡ x)
ProducerOk r (published w d) =
    (u64 (w + 1) ≡ r.write_pos)
    × (held r ≤ sub64 (u64 (w + 1)) d)
    × (sub64 (u64 (w + 1)) d ≤ r.capacity)

-- The consumer's copy of the write position may lag behind: there are more items than it sees.
abbrev pub ConsumerOk : RingBuffer → Consumer → Type 0
ConsumerOk r Consumer.idle = Unit {0}
ConsumerOk r (Consumer.loaded_read d) = d ≡ r.read_pos
ConsumerOk r (Consumer.loaded_write d w) = (d ≡ r.read_pos) × (w < 2 ^ 64) × (sub64 w d ≤ held r)
ConsumerOk r (copied d x) =
    (d ≡ r.read_pos) × (0 < held r) × (get_or r.slots (bit_and d r.mask) empty_slot ≡ x)

pub record Inv (s : System) : Type 0 where
  pub laid : Laid s.ring
  pub mark : s.ring.high_water_mark ≤ s.ring.capacity
  pub history : s.pushed ≡ s.popped ++ items s.ring
  pub producer_ok : ProducerOk s.ring s.producer
  pub consumer_ok : ConsumerOk s.ring s.consumer

-- A step of the producer, from a buffer that satisfies the invariant.
module _ {r : RingBuffer} (v : Laid r) where
  Push-Laid :
      {h h' : List Slot} {p p' : Producer} {r' : RingBuffer}
      → Push r h p r' h' p'
      → ProducerOk r p
      → Laid r'
  Push-Laid Push.load_write ok = v
  Push-Laid Push.load_read ok = v
  Push-Laid (Push.full f) ok = v
  Push-Laid (Push.write {x} {w} f) ok = ground (arith, length-set r.slots (bit_and w r.mask) x)
  Push-Laid Push.publish ok = ground (arith, capacity_bounds v)
  Push-Laid Push.mark ok = v

  Push-ok :
      {h h' : List Slot} {p p' : Producer} {r' : RingBuffer}
      → Push r h p r' h' p'
      → ProducerOk r p
      → ProducerOk r' p'
  Push-ok Push.load_write ok = refl
  Push-ok Push.load_read ok = ground (arith, v)
  Push-ok (Push.full f) ok = tt
  Push-ok (Push.write {x} {w} f) ok = ground (
    arith,
    index_eq v w,
    mod-lt w {m = r.capacity},
    get_or-set_self r.slots (bit_and w r.mask) x empty_slot,
  )
  Push-ok (Push.publish {x} {w} {d}) ok = ground (arith, capacity_bounds v, v)
  Push-ok Push.mark ok = tt

  Push-mark :
      {h h' : List Slot} {p p' : Producer} {r' : RingBuffer}
      → Push r h p r' h' p'
      → ProducerOk r p
      → r.high_water_mark ≤ r.capacity
      → r'.high_water_mark ≤ r'.capacity
  Push-mark Push.mark ok m = ground arith
  Push-mark Push.load_write ok m = m
  Push-mark Push.load_read ok m = m
  Push-mark (Push.full f) ok m = m
  Push-mark (Push.write f) ok m = m
  Push-mark Push.publish ok m = m

  -- The items grow by the slot that is published, at that step only.
  Push-history :
      (q : List Slot) {h h' : List Slot} {p p' : Producer} {r' : RingBuffer}
      → Push r h p r' h' p'
      → ProducerOk r p
      → h ≡ q ++ items r
      → h' ≡ q ++ items r'
  Push-history q Push.load_write ok e = e
  Push-history q Push.load_read ok e = e
  Push-history q (Push.full f) ok e = e
  Push-history q (Push.write {x} {w} f) ok e =
      ground (arith, write-window_outside empty_slot r.slots v x)
  Push-history q (Push.publish {x} {w} {d}) ok e =
      ground (arith, publish-window empty_slot r.slots v, append_assoc q (items r) (x ∷ []))
  Push-history q Push.mark ok e = e

  -- The producer writes no slot that the consumer has yet to read.
  Push-consumer :
      (c : Consumer) {h h' : List Slot} {p p' : Producer} {r' : RingBuffer}
      → Push r h p r' h' p'
      → ProducerOk r p
      → ConsumerOk r c
      → ConsumerOk r' c
  Push-consumer c Push.load_write ok k = k
  Push-consumer c Push.load_read ok k = k
  Push-consumer c (Push.full f) ok k = k
  Push-consumer c Push.mark ok k = k
  Push-consumer Consumer.idle st ok k = tt
  Push-consumer (Consumer.loaded_read d) (Push.write f) ok k = k
  Push-consumer (Consumer.loaded_read d) Push.publish ok k = k
  Push-consumer (Consumer.loaded_write d w) (Push.write f) ok k = k
  Push-consumer (Consumer.loaded_write d w') Push.publish ok k =
      ground (arith, capacity_bounds v, v)
  Push-consumer (copied d y) (Push.write {x} {w} f) ok k =
      ground
        (arith, apart v, get_or-set_ne r.slots (bit_and w r.mask) (bit_and d r.mask) x empty_slot)
  Push-consumer (copied d y) Push.publish ok k = ground (arith, capacity_bounds v, v)

  Pop-Laid :
      {h h' : List Slot} {c c' : Consumer} {r' : RingBuffer}
      → Pop r h c r' h' c'
      → ConsumerOk r c
      → Laid r'
  Pop-Laid Pop.load_read ok = v
  Pop-Laid Pop.load_write ok = v
  Pop-Laid (Pop.none_left e) ok = v
  Pop-Laid (Pop.copy n) ok = v
  Pop-Laid Pop.release ok = ground (arith, v)

  Pop-ok :
      {h h' : List Slot} {c c' : Consumer} {r' : RingBuffer}
      → Pop r h c r' h' c'
      → ConsumerOk r c
      → ConsumerOk r' c'
  Pop-ok Pop.load_read ok = refl
  Pop-ok Pop.load_write ok = ground (arith, v)
  Pop-ok (Pop.none_left e) ok = tt
  Pop-ok (Pop.copy n) ok = ground (arith, v)
  Pop-ok Pop.release ok = tt

  Pop-mark :
      {h h' : List Slot} {c c' : Consumer} {r' : RingBuffer}
      → Pop r h c r' h' c'
      → r.high_water_mark ≤ r.capacity
      → r'.high_water_mark ≤ r'.capacity
  Pop-mark Pop.load_read m = m
  Pop-mark Pop.load_write m = m
  Pop-mark (Pop.none_left e) m = m
  Pop-mark (Pop.copy n) m = m
  Pop-mark Pop.release m = m

  -- The oldest item leaves when its pop takes effect, and it is the slot that was copied.
  Pop-history :
      (pushed : List Slot) {h h' : List Slot} {c c' : Consumer} {r' : RingBuffer}
      → Pop r h c r' h' c'
      → ConsumerOk r c
      → pushed ≡ h ++ items r
      → pushed ≡ h' ++ items r'
  Pop-history q Pop.load_read ok e = e
  Pop-history q Pop.load_write ok e = e
  Pop-history q (Pop.none_left n) ok e = e
  Pop-history q (Pop.copy n) ok e = e
  Pop-history q {h} (Pop.release {d} {x}) ok e = ground (
    arith,
    read-window empty_slot r.slots v,
    append_assoc h (x ∷ []) (items (record r { read_pos = u64 (d + 1) })),
  )

  -- Room does not shrink when the consumer moves on.
  Pop-producer :
      (p : Producer) {h h' : List Slot} {c c' : Consumer} {r' : RingBuffer}
      → Pop r h c r' h' c'
      → ConsumerOk r c
      → ProducerOk r p
      → ProducerOk r' p
  Pop-producer p Pop.load_read ok k = k
  Pop-producer p Pop.load_write ok k = k
  Pop-producer p (Pop.none_left n) ok k = k
  Pop-producer p (Pop.copy n) ok k = k
  Pop-producer Producer.idle Pop.release ok k = tt
  Pop-producer (Producer.loaded_write x w) Pop.release ok k = k
  Pop-producer (Producer.loaded_read x w d') Pop.release ok k = ground (arith, v)
  Pop-producer (written x w d') Pop.release ok k = ground (arith, v)
  Pop-producer (published w d') Pop.release ok k = ground (arith, v)

pub Step-Inv : {s t : System} → Step s t → Inv s → Inv t
Step-Inv {s} (Step.produce st) i = record {
  laid = Push-Laid i.laid st i.producer_ok;
  mark = Push-mark i.laid st i.producer_ok i.mark;
  history = Push-history i.laid s.popped st i.producer_ok i.history;
  producer_ok = Push-ok i.laid st i.producer_ok;
  consumer_ok = Push-consumer i.laid s.consumer st i.producer_ok i.consumer_ok;
}
Step-Inv {s} (Step.consume st) i = record {
  laid = Pop-Laid i.laid st i.consumer_ok;
  mark = Pop-mark i.laid st i.mark;
  history = Pop-history i.laid s.pushed st i.consumer_ok i.history;
  producer_ok = Pop-producer i.laid s.producer st i.consumer_ok i.producer_ok;
  consumer_ok = Pop-ok i.laid st i.consumer_ok;
}

pub Reach-Inv :
    {r : RingBuffer} {s : System}
    → Laid r
    → r.high_water_mark ≤ r.capacity
    → items r ≡ []
    → Reach r s
    → Inv s
Reach-Inv v m e Reach.start = record {
  laid = v;
  mark = m;
  history = sym e;
  producer_ok = tt;
  consumer_ok = tt;
}
Reach-Inv v m e (Reach.later before st) = Step-Inv st (Reach-Inv v m e before)
