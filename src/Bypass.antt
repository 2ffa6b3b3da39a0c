-- ===== src/Bypass.antt =====
-- include/mdfh/kernel_bypass.hpp, src/kernel_bypass.cpp: `BypassIngestionClient`, its configuration
-- and its ring of pending packets. The libraries of the
-- backends (DPDK, ef_vi, Boost.Asio) are not modelled.
pub mod Config
pub mod Held
pub mod Release
pub mod Boost
pub mod Backend
pub mod Solarflare
pub mod Dpdk
pub mod Ingestion
mod Tests
use mdfh_distrib.Common.{
  ℕ, zero, suc, ◌+◌, ◌-◌, Bool, true, false, not, ◌&&◌, Option, none, some, List, [], ◌∷◌, ◌++◌,
  ltb, leb, ◌==◌, if◌then◌else◌, bit_and, get_or, set, replicate, length,
}
use mdfh_distrib.Common.Word.{u64, sub64}
use mdfh_distrib.Ingestion.Stats.{record_bytes_received}
use mdfh_distrib.Ingestion.Parser.{Sink, MessageParser, parse_bytes, parse_bytes_zero_copy}
use mdfh_distrib.Bypass.Config.{BypassConfig}

-- `MAX_PENDING_PACKETS` and `pending_mask_`
abbrev pub max_pending : ℕ
max_pending = 1024

abbrev pub pending_mask : ℕ
pending_mask = 1023

-- Contexts are pointers, 0 the null pointer.
pub record Pending : Type 0 where
  pub packets : List ℕ
  pub write_pos : ℕ
  pub read_pos : ℕ

abbrev pub no_pending : Pending
no_pending = record { packets = replicate max_pending 0; write_pos = 0; read_pos = 0 }

unfoldable pub try_add_pending_packet : ℕ → Pending → Pending × Bool
try_add_pending_packet context p =
    if leb max_pending (sub64 p.write_pos p.read_pos) then (p, false) else (
      record p {
        packets = set p.packets (bit_and p.write_pos pending_mask) context;
        write_pos = u64 (p.write_pos + 1);
      },
      true,
    )

-- It returns the null pointer when the ring is empty.
unfoldable pub try_get_pending_packet : Pending → Pending × ℕ
try_get_pending_packet p = if p.read_pos == p.write_pos then (p, 0) else (
  record p { read_pos = u64 (p.read_pos + 1) },
  get_or p.packets (bit_and p.read_pos pending_mask) 0,
)

-- `struct PacketDesc`, less the time stamp, which the handler does not read
pub record PacketDesc : Type 0 where
  pub data_bytes : List ℕ
  pub context : ℕ

-- The client while it is receiving; `released` lists the calls of `release_packet`.
pub record Client : Type 0 where
  pub config : BypassConfig
  pub parser : MessageParser
  pub sink : Sink
  pub pending : Pending
  pub released : List ℕ

-- The last part of `packet_handler`: what becomes of the packet's context.
unfoldable pub keep_or_release : ℕ → Client → Client
keep_or_release context c =
    let (pending', done) = try_add_pending_packet context c.pending in
    if c.config.enable_zero_copy && not (context == 0)
    then (if done
        then record c { pending = pending' }
        else record c { pending = pending'; released = c.released ++ (context ∷ []) })
    else if not (context == 0)
    then record c { released = c.released ++ (context ∷ []) }
    else c

-- `cleanup_processed_packets`, on fuel
unfoldable pub cleanup_loop : ℕ → Pending × List ℕ → Pending × List ℕ
cleanup_loop zero s = s
cleanup_loop (suc fuel) (p, released) =
    let (p', context) = try_get_pending_packet p in
    let next = cleanup_loop fuel (p', released ++ (context ∷ [])) in
    if context == 0 then (p', released) else next

-- Each round takes one packet out of 1024 at most.
unfoldable pub cleanup_processed_packets : Client → Client
cleanup_processed_packets c =
    let (p, released) = cleanup_loop (suc max_pending) (c.pending, c.released) in
    record c { pending = p; released = released }

module _ (clock : ℕ → ℕ) where
  -- The first part of `packet_handler`: the bytes are counted and parsed.
  unfoldable pub parse_packet : PacketDesc → Client → Client
  parse_packet packet c =
      let size = length packet.data_bytes in
      let counted = record c.sink { stats = record_bytes_received size c.sink.stats } in
      let (parser', sink') =
        if c.config.enable_zero_copy && leb c.config.zero_copy_threshold size
        then parse_bytes_zero_copy clock packet.data_bytes (c.parser, counted)
        else parse_bytes clock packet.data_bytes (c.parser, counted) in
      record c { parser = parser'; sink = sink' }

  -- `packet_handler` past its first test.
  unfoldable pub handle_packet : PacketDesc → Client → Client
  handle_packet packet c = keep_or_release packet.context (parse_packet packet c)

  -- A client of which the ring buffer, the statistics or the parser is still a null pointer is `none`:
  -- its packets are ignored.
  unfoldable pub packet_handler : PacketDesc → Option Client → Option Client
  packet_handler packet none = none
  packet_handler packet (some c) = some (handle_packet packet c)

  -- The packets that the backend hands over until it stops, and then the rest of `stop_ingestion`.
  unfoldable pub handle_all : List PacketDesc → Client → Client
  handle_all [] c = c
  handle_all (packet ∷ packets) c = handle_all packets (handle_packet packet c)

  unfoldable pub ingest : List PacketDesc → Client → Client
  ingest packets c = cleanup_processed_packets (handle_all packets c)
