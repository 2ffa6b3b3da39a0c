-- ===== src/MultiFeed/Worker.antt =====
-- `FeedWorker`: from the feed's own buffer into the global one, round by round. The I/O thread and the
-- connection are the `NetworkClient`'s: a round says what was done to the feed's own buffer.
pub mod Drain
pub mod LocalQueue
pub mod Moved
pub mod Rounds
pub mod Conserved
use mdfh_distrib.Common.{
  ◌⊎◌, subst, not, ℕ, zero, suc, ◌+◌, ◌-◌, ◌^◌, ◌≤◌, ◌<◌, ◌≡◌, refl, ap, sym, ◌∙◌, Bool, true,
  false, Option, none, some, List, [], ◌∷◌, ◌++◌, arith, length, take, map, append-nil,
  append_assoc, inl, inr, if◌then◌else◌, ltb, Bool-cases,
}
use mdfh_distrib.Common.Word.{u64, sub64}
use mdfh_distrib.Ring.{Slot, RingBuffer, try_pop, size}
use mdfh_distrib.Ring.Invariant
use mdfh_distrib.Ring.Invariant.{try_pop-IsValid}
use mdfh_distrib.Ring.Queue
use mdfh_distrib.Ring.Refine.{items, queue, try_pop_refines, length-items}
use mdfh_distrib.MultiFeed.Mpsc.{MultiFeedSlot, MpscRingBuffer, try_push}
use mdfh_distrib.MultiFeed.Mpsc.Refine
use mdfh_distrib.MultiFeed.Mpsc.Refine.{try_push_lem}
use mdfh_distrib.MultiFeed.Monitor.{
  FeedMonitor, record_message, received-record_message, record_connection_failed,
  record_connection_established,
}

-- What the loop reads and changes; `dropped` counts its warnings.
pub record Feed : Type 0 where
  pub local : RingBuffer
  pub monitor : FeedMonitor
  pub global : MpscRingBuffer
  pub dropped : ℕ

-- `clock n` and `exchanged n` are the time and the outcome of the exchange at round `n`.
module _ (clock : ℕ → ℕ) (exchanged : ℕ → Bool) (origin_id : ℕ) where
  abbrev pub tag : Slot → MultiFeedSlot
  tag slot = record { base_slot = slot; origin_id = origin_id; feed_sequence = slot.raw.seq }

  -- The body of the loop, for a slot that `try_pop` took out.
  unfoldable pub forward : ℕ → Slot → RingBuffer → Feed → Feed
  forward n slot local f =
      let (global, done) = try_push (exchanged n) (tag slot) f.global in
      record {
        local = local;
        monitor = record_message (clock n) slot.raw 20 f.monitor;
        global = global;
        dropped = if done then f.dropped else f.dropped + 1;
      }

  -- the loop, on fuel
  unfoldable pub process_loop : ℕ → ℕ → Feed → Feed
  process_loop zero n f = f
  process_loop (suc fuel) n f = elim (try_pop f.local).1 [
    | none ↦ f
    | some slot ↦ process_loop fuel (n + 1) (forward n slot (try_pop f.local).0 f)
  ]

  -- Each round takes a slot out, so one round more than there are slots is enough.
  unfoldable pub process_local_messages : Feed → Feed
  process_local_messages f = process_loop (suc (size f.local)) 0 f

-- The I/O thread's further work on the feed's own buffer.
abbrev pub io_all : List (RingBuffer → RingBuffer) → RingBuffer → RingBuffer
io_all [] ring = ring
io_all (io ∷ later) ring = io_all later (io ring)

module _ (clock : ℕ → ℕ) (exchanged : ℕ → Bool) (origin_id : ℕ) where
  -- `process_local_messages` and the sleep after it, with what the I/O thread does to the feed's own
  -- buffer meanwhile: a step before each `try_pop`, and the steps that are left during the sleep.
  unfoldable pub worker_round : List (RingBuffer → RingBuffer) → ℕ → Feed → Feed
  worker_round [] n f = process_loop clock exchanged origin_id (suc (size f.local)) n f
  worker_round (io ∷ later) n f = elim (try_pop (io f.local)).1 [
    | none ↦ record f { local = io_all later (io f.local) }
    | some slot ↦
        worker_round later (n + 1)
          (forward clock exchanged origin_id n slot (try_pop (io f.local)).0 f)
  ]

-- `worker_loop` without its threads: `clocks r` and `exchanges r` belong to the round `r`.
module _ (clocks : ℕ → ℕ → ℕ) (exchanges : ℕ → ℕ → Bool) (origin_id : ℕ) where
  -- The loop while `should_stop_` is not set.
  unfoldable pub worker_rounds : ℕ → List (List (RingBuffer → RingBuffer)) → Feed → Feed
  worker_rounds r [] f = f
  worker_rounds r (ios ∷ later) f =
      worker_rounds (r + 1) later (worker_round (clocks r) (exchanges r) origin_id ios 0 f)

  -- `reachable`: the connection does not throw. `last` is what the I/O thread still does until it is
  -- joined, after the last round.
  unfoldable pub worker_loop :
      Bool → List (List (RingBuffer → RingBuffer)) → (RingBuffer → RingBuffer) → Feed → Feed
  worker_loop reachable rounds last f =
      let after =
        worker_rounds 0 rounds (record f { monitor = record_connection_established f.monitor }) in
      if not reachable
      then record f { monitor = record_connection_failed f.monitor }
      else record after { local = last after.local }
