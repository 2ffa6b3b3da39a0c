-- ===== src/Ingestion/Parser.antt =====
-- `MessageParser`: messages of 20 bytes out of a byte stream that arrives in pieces.
pub mod Frames
pub mod Delivery
pub mod Reassembly
pub mod Overflow
pub mod Account
mod Tests
use mdfh_distrib.Common.{
  ℕ, zero, suc, ◌+◌, ◌-◌, Bool, true, false, List, [], ◌∷◌, ◌++◌, ltb, leb, if◌then◌else◌, min,
  length, take, drop,
}
use mdfh_distrib.Common.Bytes.{from_le, to_le}
use mdfh_distrib.Core.{Msg}
use mdfh_distrib.Ring.{RingBuffer, Slot, try_push}
use mdfh_distrib.Ingestion.Stats.{IngestionStats, record_message_received, record_message_dropped}

-- `sizeof(Msg)` and `MAX_PARTIAL_SIZE`
abbrev pub msg_size : ℕ
msg_size = 20

abbrev pub max_partial_size : ℕ
max_partial_size = 65536

-- `std::memcpy(&msg, bytes, sizeof(Msg))` on a little-endian machine.
unfoldable pub decode : List ℕ → Msg
decode bytes = record {
  seq = from_le (take 8 bytes);
  px = from_le (take 8 (drop 8 bytes));
  qty = from_le (take 4 (drop 16 bytes));
}

-- What the parser writes to: the ring buffer and the statistics; and how often it has read the clock.
pub record Sink : Type 0 where
  pub ring : RingBuffer
  pub stats : IngestionStats
  pub ticks : ℕ

-- The first `partial_size_` bytes of `partial_buffer_`, the only ones that are ever read.
pub record MessageParser : Type 0 where
  pub partial : List ℕ

-- `clock n` is the reading number `n` of `get_timestamp_ns()`.
module _ (clock : ℕ → ℕ) where
  unfoldable pub process_complete_message : Msg → ℕ → Sink → Sink
  process_complete_message msg timestamp sink =
      let (ring', done) = try_push (record { raw = msg; rx_ts = timestamp }) sink.ring in
      record sink {
        ring = ring';
        stats =
            if done then record_message_received sink.stats else record_message_dropped sink.stats;
      }

  -- A parsed message with the clock's reading.
  abbrev pub accept : Msg → Sink → Sink
  accept msg sink =
      process_complete_message msg (clock sink.ticks) (record sink { ticks = sink.ticks + 1 })

  -- `while (offset + sizeof(Msg) <= size)`; the offset that it ends with, on fuel.
  pub parse_loop : ℕ → List ℕ → ℕ → Sink → ℕ × Sink
  parse_loop zero bytes offset sink = (offset, sink)
  parse_loop (suc fuel) bytes offset sink =
      let next =
        parse_loop fuel bytes (offset + msg_size) (accept (decode (drop offset bytes)) sink) in
      if leb (offset + msg_size) (length bytes) then next else (offset, sink)

  -- The main loop from `offset` on, and what is kept for the next call. Each round takes 20 bytes,
  -- so as many rounds as bytes are more than enough.
  pub parse_rest : List ℕ → ℕ → Sink → MessageParser × Sink
  parse_rest bytes offset sink =
      let (offset', sink') = parse_loop (suc (length bytes)) bytes offset sink in
      let remaining = length bytes - offset' in
      if ltb offset' (length bytes)
      then (if leb remaining max_partial_size
          then (record { partial = drop offset' bytes }, sink')
          else (record { partial = [] }, sink'))
      else (record { partial = [] }, sink')

  pub parse_bytes : List ℕ → MessageParser × Sink → MessageParser × Sink
  parse_bytes bytes (parser, sink) =
      let partial_size = length parser.partial in
      let size = length bytes in
      if ltb 0 partial_size
      then (if ltb max_partial_size (partial_size + size)
          then (let bytes_to_add = min size (max_partial_size - partial_size) in
              let combined = parser.partial ++ take bytes_to_add bytes in
              let (_, sink') = parse_loop (suc (length combined)) combined 0 sink in
              parse_rest bytes bytes_to_add sink')
          else parse_rest (parser.partial ++ bytes) 0 sink)
      else parse_rest bytes 0 sink

  -- It calls `parse_bytes`.
  unfoldable pub parse_bytes_zero_copy : List ℕ → MessageParser × Sink → MessageParser × Sink
  parse_bytes_zero_copy bytes s = parse_bytes bytes s
