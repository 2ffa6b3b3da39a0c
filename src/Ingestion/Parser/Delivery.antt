-- ===== src/Ingestion/Parser/Delivery.antt =====
-- What the parser does with a run of whole messages, and with one piece of input.
use mdfh_distrib.Common.{
  ℕ, zero, suc, ◌+◌, ◌-◌, ◌*◌, ◌/◌, ◌≤◌, ◌<◌, ◌≡◌, refl, sym, ap, ap₂, ◌∙◌, inl, inr, true, false,
  List, [], ◌∷◌, ◌++◌, arith, ltb, leb, Bool-cases, length, drop, length-drop, drop-drop, drop_all,
}
use mdfh_distrib.Core.{Msg}
use mdfh_distrib.Ingestion.Parser.{
  msg_size, max_partial_size, decode, Sink, accept, parse_loop, parse_rest, parse_bytes,
}
use mdfh_distrib.Ingestion.Parser.Frames.{frames, messages, leftover}

module _ (clock : ℕ → ℕ) where
  -- Each message in turn, with the clock's reading at its turn.
  unfoldable pub deliver : List Msg → Sink → Sink
  deliver [] sink = sink
  deliver (m ∷ ms) sink = deliver ms (accept clock m sink)

  pub deliver-append :
      (xs ys : List Msg) (sink : Sink) → deliver (xs ++ ys) sink ≡ deliver ys (deliver xs sink)
  unfolding deliver
  deliver-append [] ys sink = refl
  deliver-append (x ∷ xs) ys sink = deliver-append xs ys (accept clock x sink)

  -- With fuel for more rounds than there are whole messages, the loop delivers exactly those, and
  -- ends behind the last of them.
  pub parse_loop_lem :
      (fuel : ℕ) (bytes : List ℕ) (offset : ℕ) (sink : Sink)
      → offset ≤ length bytes
      → (length bytes - offset) / msg_size < fuel
      → let n = (length bytes - offset) / msg_size in
        parse_loop clock fuel bytes offset sink
        ≡ (offset + n * msg_size, deliver (frames n (drop offset bytes)) sink)
  unfolding parse_loop
  parse_loop_lem zero bytes offset sink within enough = absurd (omega arith)
  parse_loop_lem (suc fuel) bytes offset sink within enough =
      elim (Bool-cases (leb (offset + msg_size) (length bytes))) [
        | inl more ↦
            let m = (length bytes - (offset + msg_size)) / msg_size in
            let fits : offset + msg_size ≤ length bytes = ground arith in
            let e : (length bytes - offset) / msg_size ≡ suc m = omega arith in
            let e' : offset + msg_size + m * msg_size ≡ offset + suc m * msg_size = omega arith in
            rw (more, e)
              (parse_loop_lem fuel bytes (offset + msg_size) _ fits (omega arith)
                ∙ ap₂ (λ (a : ℕ) (b : Sink). let p : ℕ × Sink = (a, b) in p) e'
                    (unfold deliver frames in
                      ap
                        (λ t. deliver (frames m t) (accept clock (decode (drop offset bytes)) sink))
                        (sym (drop-drop msg_size offset bytes))))
        | inr done ↦
            let none_left : length bytes < offset + msg_size = ground arith in
            let e : (length bytes - offset) / msg_size ≡ 0 = omega arith in
            let e' : offset ≡ offset + 0 * msg_size = omega arith in
            rw (done, e)
              (unfold deliver frames in ap (λ (t : ℕ). let p : ℕ × Sink = (t, sink) in p) e')
      ]

  -- From an offset on, the whole messages are delivered and the bytes behind them are kept; they
  -- are fewer than 20, so the buffer for them is never too small.
  pub parse_rest_lem :
      (bytes : List ℕ) (offset : ℕ) (sink : Sink)
      → offset ≤ length bytes
      → parse_rest clock bytes offset sink ≡ (
        record { partial = leftover (drop offset bytes) },
        deliver (messages (drop offset bytes)) sink,
      )
  unfolding parse_rest leftover messages
  parse_rest_lem bytes offset sink within =
      let rest = drop offset bytes in
      let n = (length bytes - offset) / msg_size in
      let e : length rest / msg_size ≡ n = omega (arith, length-drop offset bytes) in
      rw
        (
          parse_loop_lem (suc (length bytes)) bytes offset sink within (omega arith),
          e,
          drop-drop (n * msg_size) offset bytes,
        )
        (ground (arith, drop_all (offset + n * msg_size) bytes))

  -- A piece that fits behind the kept bytes: the messages of the two together are delivered, and
  -- what they leave is kept.
  pub parse_bytes_lem :
      (bytes kept : List ℕ) (sink : Sink)
      → length kept + length bytes ≤ max_partial_size
      → parse_bytes clock bytes (record { partial = kept }, sink)
        ≡ (record { partial = leftover (kept ++ bytes) }, deliver (messages (kept ++ bytes)) sink)
  unfolding parse_bytes
  parse_bytes_lem bytes [] sink fits = parse_rest_lem bytes 0 sink (omega arith)
  parse_bytes_lem bytes (b ∷ kept) sink fits =
      let over : ltb max_partial_size (length (b ∷ kept) + length bytes) ≡ false = ground arith in
      let some_kept : ltb 0 (length (b ∷ kept)) ≡ true = ground arith in
      rw (some_kept, over) (parse_rest_lem ((b ∷ kept) ++ bytes) 0 sink (omega arith))
