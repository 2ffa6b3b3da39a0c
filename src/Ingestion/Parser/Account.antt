-- ===== src/Ingestion/Parser/Account.antt =====
-- What becomes of the messages that the parser delivers.
use mdfh_distrib.Common.{
  ℕ, zero, suc, ◌+◌, ◌-◌, ◌^◌, ◌<◌, ◌≡◌, refl, sym, ap, ◌∙◌, ◌⊎◌, inl, inr, true, false, List, [],
  ◌∷◌, ◌++◌, arith, length, take, append-nil, append_assoc, min, length-append, length-take,
}
use mdfh_distrib.Common.Word.{u64}
use mdfh_distrib.Core.{Msg}
use mdfh_distrib.Ring.{Slot, try_push}
use mdfh_distrib.Ring.Invariant.{IsValid, try_push-IsValid}
use mdfh_distrib.Ring.Refine.{items, try_push_cases}
use mdfh_distrib.Ring.Run.{capacity_push}
use mdfh_distrib.Ingestion.Stats.{record_message_received, record_message_dropped}
use mdfh_distrib.Ingestion.Parser.{Sink, accept, process_complete_message}
use mdfh_distrib.Ingestion.Parser.Delivery.{deliver}

module _ (clock : ℕ → ℕ) where
  -- The slots of the messages, with the readings of the clock from number `n` on.
  pub stamped : ℕ → List Msg → List Slot
  stamped n [] = []
  stamped n (m ∷ ms) = record { raw = m; rx_ts = clock n } ∷ stamped (n + 1) ms

  -- one message
  record Accepted (m : Msg) (sink after : Sink) : Type 0 where
    valid : IsValid after.ring
    ticks_eq : after.ticks ≡ sink.ticks + 1
    capacity_eq : after.ring.capacity ≡ sink.ring.capacity
    queued :
        items after.ring
        ≡ items sink.ring
          ++ take
              (sink.ring.capacity - length (items sink.ring))
              (record { raw = m; rx_ts = clock sink.ticks } ∷ [])
    received_eq :
        after.stats.messages_received
        ≡ u64 (sink.stats.messages_received + min 1 (sink.ring.capacity - length (items sink.ring)))
    dropped_eq :
        after.stats.messages_dropped
        ≡ u64 (sink.stats.messages_dropped + (1 - (sink.ring.capacity - length (items sink.ring))))

  take_one : (x : Slot) (n : ℕ) → 0 < n → take n (x ∷ []) ≡ x ∷ []
  take_one x zero h = absurd (omega arith)
  take_one x (suc zero) h = refl
  take_one x (suc (suc n)) h = refl

  accept-Accepted :
      (m : Msg) (sink : Sink)
      → IsValid sink.ring
      → sink.stats.messages_received < 2 ^ 64
      → sink.stats.messages_dropped < 2 ^ 64
      → Accepted m sink (accept clock m sink)
  unfolding process_complete_message record_message_received record_message_dropped
  accept-Accepted m sink v r d = record {
    valid = try_push-IsValid x v;
    ticks_eq = refl;
    capacity_eq = capacity_push x sink.ring;
    queued = elim cases [
      | inl (room, done, q) ↦
          q
          ∙ ap (◌++◌ (items sink.ring))
              (sym (take_one x (sink.ring.capacity - length (items sink.ring)) (omega arith)))
      | inr (full, done, q) ↦
          let e : sink.ring.capacity - length (items sink.ring) ≡ 0 = omega arith in
          rw (e, append-nil) q
    ];
    received_eq = elim cases [
      | inl (room, done, q) ↦ ground arith
      | inr (full, done, q) ↦ ground arith
    ];
    dropped_eq = elim cases [
      | inl (room, done, q) ↦ ground arith
      | inr (full, done, q) ↦ ground arith
    ];
  }
    where
      x : Slot
      x = record { raw = m; rx_ts = clock sink.ticks }

      cases :
          ((length (items sink.ring) < sink.ring.capacity)
            × ((try_push x sink.ring).1 ≡ true)
            × (items (try_push x sink.ring).0 ≡ items sink.ring ++ (x ∷ [])))
          ⊎ ((length (items sink.ring) ≡ sink.ring.capacity)
              × ((try_push x sink.ring).1 ≡ false)
              × (items (try_push x sink.ring).0 ≡ items sink.ring))
      cases = try_push_cases v x

  take_cons :
      (n : ℕ) (x : Slot) (xs : List Slot)
      → take n (x ∷ []) ++ take (n - length (take n (x ∷ []))) xs ≡ take n (x ∷ xs)
  take_cons zero x xs = refl
  take_cons (suc zero) x xs = refl
  take_cons (suc (suc n)) x xs = let e : suc (suc n) - 1 ≡ suc n = omega arith in rw e

  take_nil : (n : ℕ) → take {A = Slot} n [] ≡ []
  take_nil zero = refl
  take_nil (suc n) = refl

  -- Delivering messages to a valid ring buffer, with nobody taking slots out meanwhile and no counter
  -- about to wrap: the first messages, as many as there is room for, are appended in order, each
  -- with its reading of the clock, and counted as received; the others are counted as dropped.
  pub deliver_account :
      (ms : List Msg) (sink : Sink)
      → IsValid sink.ring
      → sink.stats.messages_received + length ms < 2 ^ 64
      → sink.stats.messages_dropped + length ms < 2 ^ 64
      → let after = deliver clock ms sink in
        let room = sink.ring.capacity - length (items sink.ring) in
        (items after.ring ≡ items sink.ring ++ take room (stamped sink.ticks ms))
        × (after.stats.messages_received ≡ sink.stats.messages_received + min (length ms) room)
        × (after.stats.messages_dropped ≡ sink.stats.messages_dropped + (length ms - room))
        × IsValid after.ring
  unfolding deliver stamped
  deliver_account [] sink v r d =
      let room = sink.ring.capacity - length (items sink.ring) in
      (
        sym (ap (◌++◌ (items sink.ring)) (take_nil room) ∙ append-nil (items sink.ring)),
        omega arith,
        omega arith,
        v,
      )
  deliver_account (m ∷ ms) sink v r d =
      let x : Slot = record { raw = m; rx_ts = clock sink.ticks } in
      let room = sink.ring.capacity - length (items sink.ring) in
      let a = accept-Accepted m sink v (omega arith) (omega arith) in
      let after = accept clock m sink in
      let first = take room (x ∷ []) in
      let left : after.ring.capacity - length (items after.ring) ≡ room - length first =
        omega (arith, ap length a.queued, length-append (items sink.ring) first, a.capacity_eq) in
      let counts : length first ≡ min 1 room = length-take room (x ∷ []) ∙ omega arith in
      let (q, received, dropped, valid) =
        deliver_account ms after a.valid (omega (arith, a.received_eq))
          (omega (arith, a.dropped_eq)) in
      (
        q ∙ joined x room a.queued left a.ticks_eq,
        omega (arith, received, a.received_eq, left, counts),
        omega (arith, dropped, a.dropped_eq, left, counts),
        valid,
      )
    where
      after : Sink
      after = accept clock m sink

      joined :
          (x : Slot) (room : ℕ)
          → items after.ring ≡ items sink.ring ++ take room (x ∷ [])
          → after.ring.capacity - length (items after.ring) ≡ room - length (take room (x ∷ []))
          → after.ticks ≡ sink.ticks + 1
          → items after.ring
              ++ take (after.ring.capacity - length (items after.ring)) (stamped after.ticks ms)
            ≡ items sink.ring ++ take room (x ∷ stamped (sink.ticks + 1) ms)
      joined x room e left t = ground (
        arith,
        append_assoc (items sink.ring) (take room (x ∷ []))
            (take (room - length (take room (x ∷ []))) (stamped (sink.ticks + 1) ms)),
        take_cons room x (stamped (sink.ticks + 1) ms),
        ap (λ n. take n (stamped after.ticks ms)) left,
      )
