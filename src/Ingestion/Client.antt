-- ===== src/Ingestion/Client.antt =====
-- `NetworkClient::run_io_loop`: what it does with what the socket's reads return.
mod Tests
use mdfh_distrib.Common.{
  Bool-cases, inl, inr, ℕ, zero, suc, ◌+◌, ◌^◌, ◌≤◌, ◌<◌, ◌≡◌, refl, ap, ap₂, sym, ◌∙◌, List, [],
  ◌∷◌, ◌++◌, arith, length, length-append, ◌==◌, if◌then◌else◌, append_assoc, append-nil,
}
use mdfh_distrib.Common.Word.{u64}
use mdfh_distrib.Core.{Msg}
use mdfh_distrib.Ring.{Slot, try_push}
use mdfh_distrib.Ingestion.Stats.{
  IngestionStats, record_bytes_received, record_message_received, record_message_dropped,
}
use mdfh_distrib.Ingestion.Parser.{
  msg_size, max_partial_size, Sink, MessageParser, process_complete_message, accept, parse_bytes,
  parse_bytes_zero_copy,
}
use mdfh_distrib.Ingestion.Parser.Frames.{
  messages, leftover, messages-append, leftover-append, messages_short, leftover_short,
  length-leftover,
}
use mdfh_distrib.Ingestion.Parser.Delivery.{deliver, deliver-append, parse_bytes_lem}
use mdfh_distrib.Ingestion.Parser.Reassembly.{concat}

-- What a round of the loop meets: a read of some bytes, the end of the stream, another error or an
-- exception, or the flag `should_stop_` or a closed socket before the read.
pub data Read : Type 0 where
  received : List ℕ → Read
  eof failed stopped : Read

abbrev count_bytes : ℕ → Sink → Sink
count_bytes n sink = record sink { stats = record_bytes_received n sink.stats }

module _ (clock : ℕ → ℕ) where
  -- The loop over the rounds; at the end of the list it still runs.
  unfoldable pub run_io_loop : List Read → MessageParser × Sink → MessageParser × Sink
  run_io_loop [] s = s
  run_io_loop (eof ∷ later) s = s
  run_io_loop (failed ∷ later) s = s
  run_io_loop (stopped ∷ later) s = s
  run_io_loop (received bytes ∷ later) (parser, sink) =
      let next = run_io_loop later (
        parse_bytes_zero_copy clock bytes
          (parser, record sink { stats = record_bytes_received (length bytes) sink.stats })) in
      if length bytes == 0 then (parser, sink) else next

  -- Reads of 1 to 4096 bytes, in order, and then some reason to stop.
  unfoldable pub reads : List (List ℕ) → Read → List Read
  reads [] last = last ∷ []
  reads (p ∷ ps) last = received p ∷ reads ps last

  abbrev pub AllRead : List (List ℕ) → Type 0
  AllRead [] = Unit
  AllRead (p ∷ ps) = (0 < length p) × (length p ≤ 4096) × AllRead ps

  abbrev pub IsEnd : Read → Type 0
  IsEnd (received bytes) = bytes ≡ []
  IsEnd eof = Unit
  IsEnd failed = Unit
  IsEnd stopped = Unit

  accept-count_bytes :
      (m : Msg) (n : ℕ) (sink : Sink)
      → accept clock m (count_bytes n sink) ≡ count_bytes n (accept clock m sink)
  unfolding process_complete_message record_bytes_received record_message_received
      record_message_dropped
  accept-count_bytes m n sink =
      let x : Slot = record { raw = m; rx_ts = clock sink.ticks } in
      elim (Bool-cases (try_push x sink.ring).1) [ inl e ↦ rw e refl | inr e ↦ rw e refl ]

  deliver-count_bytes :
      (ms : List Msg) (n : ℕ) (sink : Sink)
      → deliver clock ms (count_bytes n sink) ≡ count_bytes n (deliver clock ms sink)
  unfolding deliver
  deliver-count_bytes [] n sink = refl
  deliver-count_bytes (m ∷ ms) n sink =
      ap (deliver clock ms) (accept-count_bytes m n sink)
      ∙ deliver-count_bytes ms n (accept clock m sink)

  bytes-accept :
      (m : Msg) (sink : Sink)
      → (accept clock m sink).stats.bytes_received ≡ sink.stats.bytes_received
  unfolding process_complete_message record_message_received record_message_dropped
  bytes-accept m sink =
      let x : Slot = record { raw = m; rx_ts = clock sink.ticks } in
      elim (Bool-cases (try_push x sink.ring).1) [ inl e ↦ rw e refl | inr e ↦ rw e refl ]

  bytes-deliver :
      (ms : List Msg) (sink : Sink)
      → (deliver clock ms sink).stats.bytes_received ≡ sink.stats.bytes_received
  unfolding deliver
  bytes-deliver [] sink = refl
  bytes-deliver (m ∷ ms) sink = bytes-deliver ms (accept clock m sink) ∙ bytes-accept m sink

  count_bytes_add :
      (n k : ℕ) (sink : Sink) → count_bytes k (count_bytes n sink) ≡ count_bytes (n + k) sink
  unfolding record_bytes_received
  count_bytes_add n k sink =
      let e : u64 (u64 (sink.stats.bytes_received + n) + k)
          ≡ u64 (sink.stats.bytes_received + (n + k)) =
        omega arith in
      rw e refl

  count_bytes_zero : (sink : Sink) → sink.stats.bytes_received < 2 ^ 64 → count_bytes 0 sink ≡ sink
  unfolding record_bytes_received
  count_bytes_zero sink h =
      let e : u64 (sink.stats.bytes_received + 0) ≡ sink.stats.bytes_received = omega arith in
      rw e refl

  stops : (last : Read) (s : MessageParser × Sink) → IsEnd last → run_io_loop (last ∷ []) s ≡ s
  unfolding run_io_loop
  stops (received bytes) s h = rw h refl
  stops eof s h = refl
  stops failed s h = refl
  stops stopped s h = refl

  bytes_word : (n : ℕ) (sink : Sink) → (count_bytes n sink).stats.bytes_received < 2 ^ 64
  unfolding record_bytes_received
  bytes_word n sink = omega arith

  round :
      (p : List ℕ) (later : List Read) (s : MessageParser × Sink)
      → 0 < length p
      → run_io_loop (received p ∷ later) s
        ≡ run_io_loop later (parse_bytes_zero_copy clock p (s.0, count_bytes (length p) s.1))
  unfolding run_io_loop
  round p later s h = ground (arith, h)

  -- What is kept, and the sink.
  abbrev result : List ℕ → Sink → MessageParser × Sink
  result bytes t = (record { partial = bytes }, t)

  -- The messages and the bytes of one read, and those of the rest, are those of both together.
  gathered :
      (p rest kept : List ℕ) (sink : Sink)
      → count_bytes (length rest) (
          deliver clock
            (messages (leftover (kept ++ p) ++ rest))
            (count_bytes (length p) (deliver clock (messages (kept ++ p)) sink)))
        ≡ count_bytes (length (p ++ rest)) (deliver clock (messages (kept ++ (p ++ rest))) sink)
  gathered p rest kept sink =
      let first = deliver clock (messages (kept ++ p)) sink in
      let more = messages (leftover (kept ++ p) ++ rest) in
      ap (count_bytes (length rest)) (deliver-count_bytes more (length p) first)
      ∙ count_bytes_add (length p) (length rest) (deliver clock more first)
      ∙ ap₂ count_bytes (sym (length-append p rest)) (
          sym (deliver-append clock (messages (kept ++ p)) more sink)
          ∙ ap (λ ms. deliver clock ms sink)
              (sym (messages-append (kept ++ p) rest) ∙ ap messages (append_assoc kept p rest)))

  -- Reads of 1 to 4096 bytes each, then an end of the loop: the messages of the bytes kept before and
  -- all bytes read are delivered in order, the bytes behind the last message are kept, and the count
  -- of the bytes received grows by their number.
  pub run_io_loop_lem :
      (ps : List (List ℕ)) (last : Read) (kept : List ℕ) (sink : Sink)
      → length kept < msg_size
      → AllRead ps
      → IsEnd last
      → sink.stats.bytes_received < 2 ^ 64
      → run_io_loop (reads ps last) (record { partial = kept }, sink) ≡ (
        record { partial = leftover (kept ++ concat ps) },
        count_bytes (length (concat ps)) (deliver clock (messages (kept ++ concat ps)) sink),
      )
  unfolding reads deliver
  run_io_loop_lem [] last kept sink short read end word =
      stops last (result kept sink) end
      ∙ ap₂ result (sym (leftover_short kept short) ∙ ap leftover (sym (append-nil kept))) (
          sym (count_bytes_zero sink word)
          ∙ ap (λ ms. count_bytes 0 (deliver clock ms sink))
              (sym (messages_short kept short) ∙ ap messages (sym (append-nil kept))))
  run_io_loop_lem (p ∷ ps) last kept sink short (some_read, small, read) end word =
      let n = length p in
      let ms = messages (kept ++ p) in
      let left = leftover (kept ++ p) in
      let after = count_bytes n (deliver clock ms sink) in
      let parsed : parse_bytes_zero_copy clock p (result kept (count_bytes n sink))
          ≡ result left after =
        unfold parse_bytes_zero_copy in
        (parse_bytes_lem clock p kept (count_bytes n sink) (omega arith)
          ∙ ap (result left) (deliver-count_bytes ms n sink)) in
      let ih =
        run_io_loop_lem ps last left after (length-leftover (kept ++ p)) read end
          (bytes_word n (deliver clock ms sink)) in
      round p (reads ps last) (result kept sink) some_read
      ∙ ap (run_io_loop (reads ps last)) parsed
      ∙ ih
      ∙ ap₂ result
          (sym (leftover-append (kept ++ p) (concat ps))
            ∙ ap leftover (append_assoc kept p (concat ps)))
          (gathered p (concat ps) kept sink)
