-- ===== src/Ingestion/Parser/Overflow.antt =====
-- A piece that does not fit behind the kept bytes.
use mdfh_distrib.Common.{
  ℕ, suc, ◌+◌, ◌-◌, ◌/◌, ◌≤◌, ◌<◌, ◌≡◌, refl, sym, ap, ◌∙◌, true, List, ◌++◌, arith, ltb, min,
  length, take, drop, length-append, length-take, take-append-drop, append_assoc,
  drop-length-append,
}
use mdfh_distrib.Ingestion.Parser.{max_partial_size, Sink, parse_loop, parse_bytes}
use mdfh_distrib.Ingestion.Parser.Frames.{frames, frames-append, messages, leftover}
use mdfh_distrib.Ingestion.Parser.Delivery.{deliver, parse_loop_lem, parse_rest_lem}

module _ (clock : ℕ → ℕ) where
  -- When some bytes are kept and the piece behind them takes the stream past 65536 bytes, the parser
  -- delivers the 3276 messages of the first 65520 bytes and goes on at byte 65536: the 16 bytes
  -- between are lost, and what follows is cut into messages 16 bytes off their starts.
  pub parse_bytes_overflow :
      (bytes kept : List ℕ) (sink : Sink)
      → 0 < length kept
      → length kept ≤ max_partial_size
      → max_partial_size < length kept + length bytes
      → let stream = kept ++ bytes in
        parse_bytes clock bytes (record { partial = kept }, sink) ≡ (
          record { partial = leftover (drop 65536 stream) },
          deliver clock (messages (drop 65536 stream)) (deliver clock (frames 3276 stream) sink),
        )
  unfolding parse_bytes
  parse_bytes_overflow bytes kept sink lo hi over =
      rw (some_kept, past, added, loop)
        (parse_rest_lem clock bytes room (deliver clock (frames 3276 combined) sink) (omega arith)
          ∙ rw (tail, head) refl)
    where
      room : ℕ
      room = max_partial_size - length kept

      combined : List ℕ
      combined = kept ++ take room bytes

      some_kept : ltb 0 (length kept) ≡ true
      some_kept = ground arith

      past : ltb max_partial_size (length kept + length bytes) ≡ true
      past = ground arith

      added : min (length bytes) (max_partial_size - length kept) ≡ room
      added = omega arith

      full_length : length combined ≡ 65536
      full_length = omega (arith, length-append kept (take room bytes), length-take room bytes)

      whole_stream : combined ++ drop room bytes ≡ kept ++ bytes
      whole_stream =
          append_assoc kept (take room bytes) (drop room bytes)
          ∙ ap (◌++◌ kept) (take-append-drop room bytes)

      tail : drop 65536 (kept ++ bytes) ≡ drop room bytes
      tail = rw (← whole_stream) (
          ap (λ n. drop n (combined ++ drop room bytes)) (sym full_length)
          ∙ drop-length-append combined (drop room bytes))

      head : frames 3276 (kept ++ bytes) ≡ frames 3276 combined
      head =
          rw (← whole_stream)
            (frames-append 3276 combined (drop room bytes) (omega (arith, full_length)))

      loop :
          (parse_loop clock (suc (length combined)) combined 0 sink).1
          ≡ deliver clock (frames 3276 combined) sink
      loop =
          let e : (length combined - 0) / 20 ≡ 3276 = omega (arith, full_length) in
          ap (λ (p : ℕ × Sink). p.1)
            (parse_loop_lem clock (suc (length combined)) combined 0 sink (omega arith)
              (omega (arith, full_length)))
          ∙ ap (λ n. deliver clock (frames n combined) sink) e
