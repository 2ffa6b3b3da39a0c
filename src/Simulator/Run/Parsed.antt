-- ===== src/Simulator/Run/Parsed.antt =====
-- The simulator with `BinaryEncoder`, into the client's parser.
use mdfh_distrib.Common.{
  ℕ, suc, zero, ◌+◌, ◌*◌, ◌^◌, ◌≤◌, ◌<◌, ◌≡◌, refl, sym, ap, ◌∙◌, subst, Bool, true, false, some,
  List, [], ◌∷◌, ◌++◌, arith, length, length-append, append_assoc, append-nil, Bool-cases, inl, inr,
  ◌⊎◌,
}
use mdfh_distrib.Core.{Msg}
use mdfh_distrib.Encoding.Binary.{
  encode, encode-append, AllPacked-append, IsPacked, AllPacked, length-encode, feed-encode,
}
use mdfh_distrib.Ingestion.Parser.{Sink}
use mdfh_distrib.Ingestion.Parser.Delivery.{deliver}
use mdfh_distrib.Ingestion.Parser.Reassembly.{AllFit, concat, feed}
use mdfh_distrib.Simulator.{
  MarketDataGenerator, cent, reset, next_msg, generate_batch, AllQuotes, generate_batch_lem,
}
use mdfh_distrib.Simulator.RateLimiter.{RateLimiter, wait_for_next_tick_lem}
use mdfh_distrib.Simulator.Run.Stops.{SomeBreak, Stops, continues, Stops-later}
use mdfh_distrib.Simulator.Run.{MarketDataSimulator, Turn, send_now, send_batch, send_loop}

concat-append : (ps : List (List ℕ)) (p : List ℕ) → concat (ps ++ (p ∷ [])) ≡ concat ps ++ p
concat-append [] p = append-nil p
concat-append (q ∷ ps) p =
    ap (λ t. q ++ t) (concat-append ps p) ∙ sym (append_assoc q (concat ps) p)

AllFit-append :
    (ps : List (List ℕ)) (p : List ℕ) → AllFit ps → length p + 19 ≤ 65536 → AllFit (ps ++ (p ∷ []))
AllFit-append [] p h k = (k, tt)
AllFit-append (q ∷ ps) p (f, h) k = (f, AllFit-append ps p h k)

-- Each round's clock starts by `time`, and would it be read `n` times more, it would have gone an
-- interval past it.
abbrev pub AllTimely : (time interval n : ℕ) → List Turn → Type 0
AllTimely time interval n [] = Unit
AllTimely time interval n (t ∷ ts) =
    (t.clock 0 ≤ time) × (time + interval ≤ t.clock (suc n)) × AllTimely time interval n ts

module _ (moved : ℕ → ℕ → ℕ) (below_cent : ℕ → Bool) (quantity : ℕ → ℕ) (sells : ℕ → Bool)
    (at_cent : below_cent cent ≡ false) (word : (k p : ℕ) → moved k p < 2 ^ 64)
    (some_quantity : (k : ℕ) → 0 < quantity k) (int32 : (k : ℕ) → quantity k < 2 ^ 31) where
  AllQuotes-append :
      (n : ℕ) (xs ys : List Msg)
      → AllQuotes moved below_cent quantity sells n xs
      → AllQuotes moved below_cent quantity sells (n + length xs) ys
      → AllQuotes moved below_cent quantity sells n (xs ++ ys)
  AllQuotes-append n [] ys h k =
      let e : n + 0 ≡ n = omega arith in
      subst (λ i. AllQuotes moved below_cent quantity sells i ys) e k
  AllQuotes-append n (x ∷ xs) ys (a, b, c, h) k =
      let e : n + suc (length xs) ≡ n + 1 + length xs = omega arith in
      (
        a,
        b,
        c,
        AllQuotes-append (n + 1) xs ys h
            (subst (λ i. AllQuotes moved below_cent quantity sells i ys) e k),
      )

  next_msg-IsPacked :
      (g : MarketDataGenerator) → IsPacked (next_msg moved below_cent quantity sells g)
  next_msg-IsPacked g = record {
    seq = omega arith;
    px = ground (arith, word g.draws g.current_price);
    qty = ground (arith, int32 g.draws);
  }

  generate_batch-AllPacked :
      (n : ℕ) (g : MarketDataGenerator)
      → AllPacked (generate_batch moved below_cent quantity sells n g).0
  unfolding generate_batch
  generate_batch-AllPacked zero g = tt
  generate_batch-AllPacked (suc n) g = (next_msg-IsPacked g, generate_batch-AllPacked n _)

  -- What was sent is the binary encoding of the messages `ms`, a buffer for each batch.
  record Sent (s : MarketDataSimulator) (ms : List Msg) : Type 0 where
    quotes : AllQuotes moved below_cent quantity sells 1 ms
    packed : AllPacked ms
    counted : length ms ≡ s.messages_sent
    numbered : s.generator.sequence ≡ s.messages_sent
    bytes : concat s.sent ≡ encode ms
    fit : AllFit s.sent

  module _ (fuel batch_size : ℕ) (small : batch_size ≤ 3275) where
    send_now-Sent :
        (limiter : RateLimiter) (s : MarketDataSimulator) (ms : List Msg)
        → s.messages_sent + batch_size < 2 ^ 64
        → Sent s ms
        → let s' = send_now moved below_cent quantity sells encode fuel batch_size limiter s in
          (ms' : List Msg) × Sent s' ms'
          × (s'.messages_sent ≡ s.messages_sent + batch_size)
          × (s'.rate_limiter ≡ limiter)
    unfolding send_now
    send_now-Sent limiter s ms below v =
        let batch = generate_batch moved below_cent quantity sells batch_size s.generator in
        let (size, last, all) =
          generate_batch_lem moved below_cent quantity sells batch_size s.generator at_cent
            some_quantity int32 (omega (arith, v.numbered)) in
        let from : s.generator.sequence + 1 ≡ 1 + length ms =
          omega (arith, v.numbered, v.counted) in
        (
          ms ++ batch.0,
          record {
            quotes =
                AllQuotes-append 1 ms batch.0 v.quotes
                  (subst (λ i. AllQuotes moved below_cent quantity sells i batch.0) from all);
            packed =
                AllPacked-append ms batch.0 v.packed
                  (generate_batch-AllPacked batch_size s.generator);
            counted = omega (arith, length-append ms batch.0, size, v.counted);
            numbered = omega (arith, last, v.numbered);
            bytes =
                concat-append s.sent (encode batch.0)
                ∙ ap (λ t. t ++ encode batch.0) v.bytes
                ∙ sym (encode-append ms batch.0);
            fit =
                AllFit-append s.sent (encode batch.0) v.fit
                  (omega (arith, length-encode batch.0, size));
          },
          omega arith,
          refl,
        )

    module _ (time n max_seconds max_messages : ℕ) (readings : n < fuel)
        (rounds : time + 1 < fuel) where
      loop_Sent :
          (turns : List Turn) (s : MarketDataSimulator) (ms : List Msg)
          → 0 < s.rate_limiter.interval
          → s.rate_limiter.next_tick ≤ time + s.rate_limiter.interval
          → AllTimely time s.rate_limiter.interval n turns
          → s.messages_sent + length turns * batch_size < 2 ^ 64
          → Stops batch_size max_seconds max_messages s.messages_sent turns
          → Sent s ms
          → (s' : MarketDataSimulator) × (ms' : List Msg) × (send_loop moved below_cent quantity
                sells encode fuel batch_size max_seconds max_messages turns s
              ≡ some (s', true))
            × Sent s' ms'
      unfolding send_loop send_batch continues Stops
      loop_Sent [] s ms pos near timely word64 (inl stops) v = absurd stops
      loop_Sent [] s ms pos near timely word64 (inr stops) v = absurd (omega (arith, stops))
      loop_Sent (now ∷ later) s ms pos near (by, past, timely) word64 stops v =
          elim (Bool-cases (continues batch_size max_seconds max_messages now s.messages_sent)) [
            | inl on ↦
                let limiter = s.rate_limiter in
                let (limiter', k, m, e, at, after, close, same, reached, first) =
                  wait_for_next_tick_lem fuel n now.clock limiter readings pos (omega arith)
                    (omega arith) (omega arith) in
                let (ms1, v1, count, kept) = send_now-Sent limiter' s ms (omega arith) v in
                let s1 =
                  send_now moved below_cent quantity sells encode fuel batch_size limiter' s in
                let (s', ms', e', v') =
                  loop_Sent later s1 ms1 (ground (arith, same, kept))
                    (ground (arith, close, near, same, kept, by))
                    (subst (λ i. AllTimely time i n later) (sym (ap (λ l. l.interval) kept ∙ same))
                      timely)
                    (omega (arith, count))
                    (subst (λ i. Stops batch_size max_seconds max_messages i later) (sym count)
                      (Stops-later batch_size max_seconds max_messages now later s.messages_sent on
                        stops))
                    v1 in
                (s', ms', rw (on, e) e', v')
            | inr off ↦ (s, ms, rw off refl, v)
          ]

      -- With prices that are 64-bit patterns, a cent that is not below itself, positive `int32_t`
      -- quantities, batches of at most 3275 messages, fewer than 2^64 messages in all, a positive
      -- interval, a clock that in every turn has gone, when read often enough, an interval past the
      -- time by which every turn starts, fuel for that, and turns in one of which the time limit is
      -- reached or the transport is not connected, or that are enough to reach a limit on the messages
      -- and one more: the loop of `run` from a new simulator with the binary encoder ends within these
      -- turns; and what it has sent, given buffer by buffer to a new parser, is delivered as exactly as
      -- many messages as the simulator counts, numbered from 1 without a gap, with no price below a
      -- cent and no quantity of 0, and no byte is left over.
      pub send_loop_lem :
          (turns : List Turn) (base_price : ℕ) (limiter : RateLimiter)
          → 0 < limiter.interval
          → limiter.next_tick ≤ time + limiter.interval
          → AllTimely time limiter.interval n turns
          → length turns * batch_size < 2 ^ 64
          → SomeBreak batch_size max_seconds max_messages turns
            ⊎ ((0 < max_messages) × (max_messages + batch_size ≤ length turns * batch_size))
          → (parse_clock : ℕ → ℕ) (sink : Sink)
          → let start : MarketDataSimulator = record {
            generator = reset base_price;
            rate_limiter = limiter;
            messages_sent = 0;
            sent = [];
          } in
            (s' : MarketDataSimulator) × (ms : List Msg) × (send_loop moved below_cent quantity
                sells encode fuel batch_size max_seconds max_messages turns start
              ≡ some (s', true))
            × (length ms ≡ s'.messages_sent)
            × AllQuotes moved below_cent quantity sells 1 ms
            × (feed parse_clock s'.sent (record { partial = [] }, sink)
                ≡ (record { partial = [] }, deliver parse_clock ms sink))
      unfolding Stops
      send_loop_lem turns base_price limiter pos near timely word64 stops parse_clock sink =
          let start : MarketDataSimulator = record {
            generator = reset base_price;
            rate_limiter = limiter;
            messages_sent = 0;
            sent = [];
          } in
          let none_sent : Sent start [] = record {
            quotes = tt;
            packed = tt;
            counted = refl;
            numbered = refl;
            bytes = unfold encode in refl;
            fit = tt;
          } in
          let will_stop : Stops batch_size max_seconds max_messages 0 turns = elim stops [
            | inl broken ↦ inl broken
            | inr (limit, enough) ↦ inr (limit, omega (arith, limit), omega (arith, enough))
          ] in
          let (s', ms, e, v) =
            loop_Sent turns start [] pos near timely (omega arith) will_stop none_sent in
          (
            s',
            ms,
            e,
            v.counted,
            v.quotes,
            feed-encode parse_clock ms s'.sent sink v.packed v.fit v.bytes,
          )
