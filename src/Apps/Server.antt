-- ===== src/Apps/Server.antt =====
-- apps/market_data_server.cpp: the generation of messages and their distribution to the clients. The
-- sockets are Boost.Asio's and the random engine is the C++ library's: what they answer is an
-- argument. Clients are accepted by another thread: a round says how many have come.
pub mod Streams
pub mod Limit
mod Tests
use mdfh_distrib.Common.{
  ℕ, zero, suc, ◌+◌, ◌-◌, ◌*◌, ◌/◌, ◌%◌, ◌^◌, Bool, true, false, not, ◌&&◌, ◌||◌, List, [], ◌∷◌,
  ◌++◌, length, replicate, map, ltb, leb, ◌==◌, if◌then◌else◌,
}
use mdfh_distrib.Common.Word.{u64}
use mdfh_distrib.Core.{Msg}

-- The fields that the loop reads.
pub record ServerConfig : Type 0 where
  pub rate : ℕ
  pub batch_size : ℕ
  pub max_seconds : ℕ
  pub max_messages : ℕ

-- The tests of `main` before the server is made.
unfoldable pub check_config : ServerConfig → Bool
check_config c = if c.rate == 0 then false else if c.batch_size == 0 then false else true

-- Nanoseconds from one batch to the next; the product is taken in 64 bits.
unfoldable pub batch_interval_ns : ServerConfig → ℕ
batch_interval_ns c = u64 (1000000000 * c.batch_size) / c.rate

-- A socket, and the messages of the batches that were written to it as a whole.
pub record Connection : Type 0 where
  pub is_open : Bool
  pub sent : List Msg

pub record MarketDataServer : Type 0 where
  pub clients : List Connection
  pub messages_sent : ℕ
  pub sequence : ℕ

-- As the generation of messages starts.
abbrev pub initial : MarketDataServer
initial = record { clients = []; messages_sent = 0; sequence = 1 }

unfoldable pub accept : ℕ → List Connection → List Connection
accept joined clients = clients ++ replicate joined (record { is_open = true; sent = [] })

unfoldable pub remove_closed : List Connection → List Connection
remove_closed [] = []
remove_closed (c ∷ cs) = if c.is_open then c ∷ remove_closed cs else remove_closed cs

abbrev pub write_batch : List Msg → Bool → Connection → Connection
write_batch batch fails c =
    if not c.is_open
    then c
    else if fails
    then record c { is_open = false }
    else record c { sent = c.sent ++ batch }

-- `fails i`: the write to the i-th client fails.
unfoldable pub write_all : List Msg → (ℕ → Bool) → ℕ → List Connection → List Connection
write_all batch fails i [] = []
write_all batch fails i (c ∷ cs) = write_batch batch (fails i) c ∷ write_all batch fails (i + 1) cs

unfoldable pub send_batch_to_clients : List Msg → (ℕ → Bool) → List Connection → List Connection
send_batch_to_clients [] fails clients = clients
send_batch_to_clients (m ∷ ms) fails clients = write_all (m ∷ ms) fails 0 (remove_closed clients)

-- A round of the loop: the flag `running_` at its test and at the n-th test within the batch, whether
-- the time is up, the clients that came before the test for clients, and the writes that fail.
pub record Round : Type 0 where
  pub running : Bool
  pub late : Bool
  pub joined : ℕ
  pub still_running : ℕ → Bool
  pub fails : ℕ → Bool

abbrev pub is_empty : List Connection → Bool
is_empty [] = true
is_empty (c ∷ cs) = false

-- The random engine: `price n`, the bits of the n-th price, `quantity n`, from 1 to the maximum, and
-- `sells n`, whether the n-th draw of the side is not 0.
module _ (price : ℕ → ℕ) (quantity : ℕ → ℕ) (sells : ℕ → Bool) where
  unfoldable pub generate_message : ℕ → Msg
  generate_message sequence = record {
    seq = sequence;
    px = price sequence;
    qty = if sells sequence then (2 ^ 32 - quantity sequence) % 2 ^ 32 else quantity sequence;
  }

  -- The loop that fills the batch, with the number of messages that are wanted.
  unfoldable pub generate : ℕ → (ℕ → Bool) → ℕ → ℕ → List Msg
  generate zero still i sequence = []
  generate (suc wanted) still i sequence =
      let rest = generate wanted still (i + 1) (u64 (sequence + 1)) in
      if still i then generate_message sequence ∷ rest else []

  module _ (config : ServerConfig) where
    unfoldable pub send_round : Round → MarketDataServer → MarketDataServer
    send_round now s =
        let batch = generate config.batch_size now.still_running 0 s.sequence in
        record {
          clients = send_batch_to_clients batch now.fails s.clients;
          messages_sent = u64 (s.messages_sent + length batch);
          sequence = u64 (s.sequence + length batch);
        }

    -- Does the loop go on?
    unfoldable pub goes_on : Round → MarketDataServer → Bool
    goes_on now s =
        if not now.running
        then false
        else if ltb 0 config.max_seconds && now.late
        then false
        else if ltb 0 config.max_messages && leb config.max_messages s.messages_sent
        then false
        else true

    unfoldable pub message_generation_loop : List Round → MarketDataServer → MarketDataServer
    message_generation_loop [] s = s
    message_generation_loop (now ∷ later) s =
        let joined = record s { clients = accept now.joined s.clients } in
        let next =
          message_generation_loop later
            (if is_empty joined.clients then joined else send_round now joined) in
        if not (goes_on now s) then s else next

-- The end of the loop: every client is closed.
abbrev pub close : Connection → Connection
close c = record c { is_open = false }

unfoldable pub close_all : List Connection → List Connection
close_all clients = map close clients
