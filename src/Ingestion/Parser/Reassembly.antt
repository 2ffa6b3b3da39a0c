-- ===== src/Ingestion/Parser/Reassembly.antt =====
-- However a stream is cut into pieces, the parser sees the same messages.
use mdfh_distrib.Common.{
  ℕ, ◌+◌, ◌≤◌, ◌<◌, ◌≡◌, refl, ap, ◌∙◌, List, [], ◌∷◌, ◌++◌, arith, length, append-nil,
  append_assoc,
}
use mdfh_distrib.Ingestion.Parser.{msg_size, max_partial_size, Sink, MessageParser, parse_bytes}
use mdfh_distrib.Ingestion.Parser.Frames.{
  messages, leftover, length-leftover, messages-append, leftover-append, messages_short,
  leftover_short,
}
use mdfh_distrib.Ingestion.Parser.Delivery.{deliver, deliver-append, parse_bytes_lem}

-- Pieces that fit behind any kept bytes; those of `NetworkClient::run_io_loop` have 4096 at most.
abbrev pub AllFit : List (List ℕ) → Type 0
AllFit [] = Unit {0}
AllFit (p ∷ ps) = (length p + 19 ≤ max_partial_size) × AllFit ps

abbrev pub concat : List (List ℕ) → List ℕ
concat [] = []
concat (p ∷ ps) = p ++ concat ps

module _ (clock : ℕ → ℕ) where
  -- one call of `parse_bytes` for each piece
  pub feed : List (List ℕ) → MessageParser × Sink → MessageParser × Sink
  feed [] s = s
  feed (p ∷ ps) s = feed ps (parse_bytes clock p s)

  -- Feeding the pieces of a stream, none of them longer than 65517 bytes, to a parser that keeps
  -- fewer than 20 bytes delivers, in order, exactly the whole messages of the kept bytes followed by
  -- the stream, however it was cut, and keeps the bytes behind the last of them.
  pub feed_lem :
      (ps : List (List ℕ)) (kept : List ℕ) (sink : Sink)
      → length kept < msg_size
      → AllFit ps
      → feed ps (record { partial = kept }, sink) ≡ (
        record { partial = leftover (kept ++ concat ps) },
        deliver clock (messages (kept ++ concat ps)) sink,
      )
  unfolding feed
  feed_lem [] kept sink short fit =
      rw (append-nil, leftover_short kept short, messages_short kept short) (unfold deliver in refl)
  feed_lem (p ∷ ps) kept sink short (fits, fit) =
      ap (feed ps) (parse_bytes_lem clock p kept sink (omega arith))
      ∙ feed_lem ps (leftover (kept ++ p)) (deliver clock (messages (kept ++ p)) sink)
          (length-leftover (kept ++ p)) fit
      ∙ ground (
        arith,
        append_assoc kept p (concat ps),
        leftover-append (kept ++ p) (concat ps),
        messages-append (kept ++ p) (concat ps),
        deliver-append clock (messages (kept ++ p)) (messages (leftover (kept ++ p) ++ concat ps))
            sink,
      )
