-- ===== src/Ring/Tests.antt =====
-- Runs of `RingBuffer` at concrete buffers, and the theorems at such buffers.
use mdfh_distrib.Common.{
  ℕ, ◌+◌, ◌-◌, ◌^◌, ◌≡◌, ◌↔◌, ◌≤◌, inl, inr, refl, true, false, some, none, List, [], ◌∷◌, arith,
}
use mdfh_distrib.Core.{is_power_of_two}
use mdfh_distrib.Ring.{
  Slot, RingBuffer, created, not_power_of_two, too_large, create, refused, validate_capacity,
  try_push_bulk, try_pop_bulk, copy_in, copy_out, try_push, try_pop,
}
use mdfh_distrib.Ring.Invariant.{IsValid, Laid}
use mdfh_distrib.Ring.Refine.{items, queue}
use mdfh_distrib.Ring.Run.{
  Call, push, push_bulk, pop, pop_bulk, call, run, run_queue, run_refines, popped, popped_all,
  pushed, pushed_count,
}
use mdfh_distrib.Ring.Create.{create_iff}
use mdfh_distrib.Ring.Block.{block, Round, try_push_or_block}
use mdfh_distrib.Ring.Block.Waited.{Explains, try_push_or_block-Explains}
use mdfh_distrib.Ring.Block.Returns.{IsWaiting, try_push_or_block_returns}

abbrev slot : ℕ → Slot
slot n = record { raw = record { seq = n; px = 0x4059_0000_0000_0000; qty = 5 }; rx_ts = 1000 + n }

-- Three slots held, both positions about to wrap at 2^64.
abbrev wrapped : RingBuffer
wrapped = record {
  slots = slot 3 ∷ slot 9 ∷ slot 1 ∷ slot 2 ∷ [];
  write_pos = 1;
  read_pos = 2 ^ 64 - 2;
  high_water_mark = 3;
  capacity = 4;
  mask = 3;
}

abbrev wrapped-Laid : Laid wrapped
wrapped-Laid = record {
  exponent = 2;
  small = omega arith;
  capacity_eq = refl;
  mask_eq = refl;
  storage = refl;
  write_word = omega arith;
  read_word = omega arith;
  within = omega arith;
}

abbrev wrapped-IsValid : IsValid wrapped
wrapped-IsValid = record { laid = wrapped-Laid; peak = omega arith; mark = omega arith }

wrapped_items : items wrapped ≡ slot 1 ∷ slot 2 ∷ slot 3 ∷ []
wrapped_items = refl

refusals : (create 96 ≡ refused not_power_of_two) × (create (2 ^ 33) ≡ refused too_large)
unfolding create validate_capacity is_power_of_two
refusals = (refl, refl)

abbrev script : List Call
script =
    push (slot 4) ∷ push (slot 5) ∷ pop ∷ push_bulk (slot 6 ∷ slot 7 ∷ []) ∷ pop_bulk 9 ∷ pop ∷ []

script_replies :
    (run script wrapped).1
    ≡ pushed true
      ∷ pushed false
      ∷ popped (some (slot 1))
      ∷ pushed_count 1
      ∷ popped_all (slot 2 ∷ slot 3 ∷ slot 4 ∷ slot 6 ∷ [])
      ∷ popped none
      ∷ []
unfolding run call try_push try_pop try_push_bulk try_pop_bulk copy_in copy_out
script_replies = refl

run_refines_example :
    ((queue (run script wrapped).0, (run script wrapped).1) ≡ run_queue 4 script (queue wrapped))
    × IsValid (run script wrapped).0
run_refines_example = run_refines script wrapped-IsValid

-- Full when the call comes; the consumer takes one slot while the first round waits.
abbrev full_ring : RingBuffer
full_ring = record wrapped {
  slots = slot 3 ∷ slot 4 ∷ slot 1 ∷ slot 2 ∷ [];
  write_pos = 2;
  high_water_mark = 4;
}

abbrev full-IsValid : IsValid full_ring
full-IsValid = record {
  laid = record {
    exponent = 2;
    small = omega arith;
    capacity_eq = refl;
    mask_eq = refl;
    storage = refl;
    write_word = omega arith;
    read_word = omega arith;
    within = omega arith;
  };
  peak = omega arith;
  mark = omega arith;
}

abbrev rounds : List Round
rounds = record { elapsed_ns = 10; consumed = 1 } ∷ record { elapsed_ns = 20; consumed = 0 } ∷ []

try_push_or_block-Explains_example :
    Explains
      (slot 8)
      100
      block
      rounds
      full_ring
      (try_push_or_block (slot 8) 100 block rounds full_ring)
try_push_or_block-Explains_example =
    try_push_or_block-Explains (slot 8) 100 block rounds full_ring full-IsValid

try_push_or_block_returns_example :
    ¬ IsWaiting (slot 8) 100 (try_push_or_block (slot 8) 100 block rounds full_ring)
try_push_or_block_returns_example =
    try_push_or_block_returns (slot 8) 100 block rounds full_ring full-IsValid
      (inr (inr (inl (omega arith))))

create_iff_example :
    ((r : RingBuffer) × (create 96 ≡ created r)) ↔ ((k : ℕ) × (k ≤ 32) × (96 ≡ 2 ^ k))
create_iff_example = create_iff 96
