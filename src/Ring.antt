-- ===== src/Ring.antt =====
-- include/mdfh/ring_buffer.hpp and src/ring_buffer.cpp: `RingBuffer`, one call at a time. A method
-- returns the new buffer beside its result; an output parameter that is left alone is `none`.
-- Positions are 64-bit words that wrap. (`Ring/Spsc.antt` has the interleavings of two threads.)
pub mod Queue
pub mod Invariant
pub mod Refine
pub mod Bulk
pub mod Create
pub mod Run
pub mod Block
pub mod Advance
pub mod Spsc
mod Tests
use mdfh_distrib.Common.{
  ℕ, zero, suc, ◌+◌, ◌-◌, ◌^◌, Bool, true, false, ◌&&◌, Option, none, some, List, [], ◌∷◌, ltb, leb,
  ◌==◌, if◌then◌else◌, bit_and, min, length, get_or, set, take, replicate,
}
use mdfh_distrib.Common.Word.{u64, sub64}
use mdfh_distrib.Core.{Msg, zero_msg, is_power_of_two}
use mdfh_distrib.Core

-- `struct Slot`, less its padding
pub record Slot : Type 0 where
  pub raw : Msg
  pub rx_ts : ℕ

-- The default constructor of `Slot`.
abbrev pub empty_slot : Slot
empty_slot = record { raw = zero_msg; rx_ts = 0 }

-- `Slot::is_valid`
unfoldable pub is_valid : Slot → Bool
is_valid s = Core.is_valid s.raw && ltb 0 s.rx_ts

pub record RingBuffer : Type 0 where
  pub slots : List Slot
  pub write_pos : ℕ
  pub read_pos : ℕ
  pub high_water_mark : ℕ
  pub capacity : ℕ
  pub mask : ℕ

-- `RingBuffer::validate_capacity`: the three exceptions, in the order of the tests.
pub data CapacityError : Type 0 where
  zero_capacity not_power_of_two too_large : CapacityError

unfoldable pub validate_capacity : ℕ → Option CapacityError
validate_capacity capacity =
    if capacity == 0
    then some zero_capacity
    else if is_power_of_two capacity
    then if ltb (2 ^ 32) capacity then some too_large else none
    else some not_power_of_two

abbrev pub fresh : ℕ → RingBuffer
fresh capacity = record {
  slots = replicate capacity empty_slot;
  write_pos = 0;
  read_pos = 0;
  high_water_mark = 0;
  capacity = capacity;
  mask = sub64 capacity 1;
}

-- The constructor, which `make_ring_buffer` calls: the buffer, or the exception that it throws.
pub data Created : Type 0 where
  created : RingBuffer → Created
  refused : CapacityError → Created

pub create : ℕ → Created
create capacity = elim (validate_capacity capacity) [
  | none ↦ created (fresh capacity)
  | some e ↦ refused e
]

-- `size()`, `empty()` and `full()`
unfoldable pub size : RingBuffer → ℕ
size r = sub64 r.write_pos r.read_pos

pub empty : RingBuffer → Bool
unfolding size
empty r = size r == 0

pub full : RingBuffer → Bool
unfolding size
full r = leb r.capacity (size r)

-- The gated update of the high water mark.
abbrev pub raise_mark : ℕ → ℕ → ℕ
raise_mark mark current = if ltb mark current then current else mark

pub try_push : Slot → RingBuffer → RingBuffer × Bool
try_push slot r = if leb r.capacity (sub64 r.write_pos r.read_pos) then (r, false) else (
  record r {
    slots = set r.slots (bit_and r.write_pos r.mask) slot;
    write_pos = u64 (r.write_pos + 1);
    high_water_mark = raise_mark r.high_water_mark (sub64 (u64 (r.write_pos + 1)) r.read_pos);
  },
  true,
)

pub try_pop : RingBuffer → RingBuffer × Option Slot
try_pop r = if r.read_pos == r.write_pos then (r, none) else (
  record r { read_pos = u64 (r.read_pos + 1) },
  some (get_or r.slots (bit_and r.read_pos r.mask) empty_slot),
)

-- The prefetching variants; a prefetch changes no state, and its index is computed all the same.
abbrev prefetch : ℕ → RingBuffer → RingBuffer
prefetch index r = r

pub try_push_with_prefetch : Slot → RingBuffer → RingBuffer × Bool
try_push_with_prefetch slot r =
    if leb r.capacity (sub64 r.write_pos r.read_pos) then (r, false) else (
      let next = prefetch (bit_and (u64 (r.write_pos + 1)) r.mask) r in
          record next {
            slots = set next.slots (bit_and r.write_pos r.mask) slot;
            write_pos = u64 (r.write_pos + 1);
            high_water_mark =
                raise_mark r.high_water_mark (sub64 (u64 (r.write_pos + 1)) r.read_pos);
          },
      true,
    )

pub try_pop_with_prefetch : RingBuffer → RingBuffer × Option Slot
try_pop_with_prefetch r = if r.read_pos == r.write_pos then (r, none) else (
  let next = prefetch (bit_and (u64 (r.read_pos + 1)) r.mask) r in
      record next { read_pos = u64 (r.read_pos + 1) },
  some (get_or r.slots (bit_and r.read_pos r.mask) empty_slot),
)

-- `for (i = 0; i < to_push; ++i) slots_[(write + i) & mask_] = slots[i];` over the source's rest
pub copy_in : List Slot → ℕ → ℕ → ℕ → List Slot → List Slot
copy_in slots write mask i [] = slots
copy_in slots write mask i (x ∷ xs) =
    copy_in (set slots (bit_and (u64 (write + i)) mask) x) write mask (i + 1) xs

-- `try_push_bulk`: the list is `slots[0 .. count)`, `none` a null pointer. Returns the count pushed.
pub try_push_bulk : Option (List Slot) → RingBuffer → RingBuffer × ℕ
try_push_bulk none r = (r, 0)
try_push_bulk (some source) r =
    let count = length source in
    let available_space = sub64 r.capacity (sub64 r.write_pos r.read_pos) in
    let to_push = min count available_space in
    if count == 0 then (r, 0) else if to_push == 0 then (r, 0) else (
      record r {
        slots = copy_in r.slots r.write_pos r.mask 0 (take to_push source);
        write_pos = u64 (r.write_pos + to_push);
        high_water_mark =
            raise_mark r.high_water_mark (sub64 (u64 (r.write_pos + to_push)) r.read_pos);
      },
      to_push,
    )

-- `for (i = 0; i < to_pop; ++i) slots[i] = slots_[(read + i) & mask_];`, by the rounds left
pub copy_out : List Slot → ℕ → ℕ → ℕ → ℕ → List Slot
copy_out slots read mask i zero = []
copy_out slots read mask i (suc rounds) =
    get_or slots (bit_and (u64 (read + i)) mask) empty_slot
    ∷ copy_out slots read mask (i + 1) rounds

-- `try_pop_bulk` into an array with room for `max_count`: the slots that it writes there.
pub try_pop_bulk : ℕ → RingBuffer → RingBuffer × List Slot
try_pop_bulk max_count r =
    let available_items = sub64 r.write_pos r.read_pos in
    let to_pop = min max_count available_items in
    if max_count == 0 then (r, []) else if to_pop == 0 then (r, []) else (
      record r { read_pos = u64 (r.read_pos + to_pop) },
      copy_out r.slots r.read_pos r.mask 0 to_pop,
    )

-- `advance_write_pos`; `none` is the exception that it throws.
pub advance_write_pos : ℕ → RingBuffer → Option RingBuffer
advance_write_pos count r =
    let new_write = u64 (r.write_pos + count) in
    let current_size = sub64 new_write r.read_pos in
    if count == 0
    then some r
    else if ltb r.capacity current_size
    then none
    else some (record r {
      write_pos = new_write;
      high_water_mark = raise_mark r.high_water_mark current_size;
    })
