-- ===== src/MultiFeed/Mpsc.antt =====
-- `MPSCRingBuffer`, called by one thread at a time, and the configuration-independent slot type.
pub mod Refine
pub mod Race
pub mod Producers
pub mod Claims
pub mod Exclusive
pub mod Tests
use mdfh_distrib.Common.{
  ℕ, ◌+◌, ◌-◌, Bool, true, false, not, ◌||◌, Option, none, some, List, ◌==◌, leb, if◌then◌else◌,
  bit_and, get_or, set, replicate,
}
use mdfh_distrib.Common.Word.{u64, sub64}
use mdfh_distrib.Core.{is_power_of_two}
use mdfh_distrib.Ring.{Slot, empty_slot}

-- `struct MultiFeedSlot`, less the arrival time, which nothing reads.
pub record MultiFeedSlot : Type 0 where
  pub base_slot : Slot
  pub origin_id : ℕ
  pub feed_sequence : ℕ

-- `MultiFeedSlot()`; `resize` value-initializes, so the numbers are 0.
abbrev pub empty_multi_slot : MultiFeedSlot
empty_multi_slot = record { base_slot = empty_slot; origin_id = 0; feed_sequence = 0 }

pub record MpscRingBuffer : Type 0 where
  pub slots : List MultiFeedSlot
  pub write_pos : ℕ
  pub read_pos : ℕ
  pub capacity : ℕ
  pub mask : ℕ

abbrev pub fresh : ℕ → MpscRingBuffer
fresh capacity = record {
  slots = replicate capacity empty_multi_slot;
  write_pos = 0;
  read_pos = 0;
  capacity = capacity;
  mask = sub64 capacity 1;
}

-- The constructor; `none` is the `std::invalid_argument` that it throws.
unfoldable pub create : ℕ → Option MpscRingBuffer
create capacity = if not (is_power_of_two capacity) then none else some (fresh capacity)

-- `exchanged` is what `compare_exchange_weak` returns.
unfoldable pub try_push : Bool → MultiFeedSlot → MpscRingBuffer → MpscRingBuffer × Bool
try_push exchanged slot r =
    if leb r.capacity (sub64 r.write_pos r.read_pos)
    then (r, false)
    else if not exchanged
    then (r, false)
    else (
      record r {
        write_pos = u64 (r.write_pos + 1);
        slots = set r.slots (bit_and r.write_pos r.mask) slot;
      },
      true,
    )

-- The test for an empty buffer compares the positions as numbers.
unfoldable pub try_pop : MpscRingBuffer → MpscRingBuffer × Option MultiFeedSlot
try_pop r = if leb r.write_pos r.read_pos then (r, none) else (
  record r { read_pos = u64 (r.read_pos + 1) },
  some (get_or r.slots (bit_and r.read_pos r.mask) empty_multi_slot),
)

unfoldable pub size : MpscRingBuffer → ℕ
size r = sub64 r.write_pos r.read_pos
