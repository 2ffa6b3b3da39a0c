-- ===== src/MultiFeed/Worker/Drain.antt =====
-- What `process_local_messages` moves.
use mdfh_distrib.Common.{
  ap₂, length-append, subst, ℕ, zero, suc, ◌+◌, ◌-◌, ◌^◌, ◌≤◌, ◌<◌, ◌≡◌, refl, ap, sym, ◌∙◌, Bool,
  true, List, [], ◌∷◌, ◌++◌, arith, length, take, map, append-nil, append_assoc, inl, inr,
}
use mdfh_distrib.Ring.{Slot, RingBuffer, try_pop, size}
use mdfh_distrib.Ring.Invariant
use mdfh_distrib.Ring.Invariant.{try_pop-IsValid}
use mdfh_distrib.Ring.Refine.{items, length-items, try_pop_cases}
use mdfh_distrib.MultiFeed.Mpsc.{MultiFeedSlot}
use mdfh_distrib.MultiFeed.Mpsc.Refine
use mdfh_distrib.MultiFeed.Mpsc.Refine.{try_push_lem}
use mdfh_distrib.MultiFeed.Monitor.{received-record_message}
use mdfh_distrib.MultiFeed.Worker.{Feed, tag, forward, process_loop, process_local_messages}

pub take_nil : (n : ℕ) → take {A = MultiFeedSlot} n [] ≡ []
take_nil zero = refl
take_nil (suc n) = refl

take_cons :
    (n : ℕ) (x : MultiFeedSlot) (xs : List MultiFeedSlot)
    → 0 < n
    → take n (x ∷ xs) ≡ x ∷ take (n - 1) xs
take_cons zero x xs h = ground (arith, h)
take_cons (suc n) x xs h = let e : suc n - 1 ≡ n = omega arith in rw e

take_split :
    (n : ℕ) (x : MultiFeedSlot) (xs : List MultiFeedSlot)
    → take n (x ∷ []) ++ take (n - length (take n (x ∷ []))) xs ≡ take n (x ∷ xs)
take_split zero x xs = refl
take_split (suc zero) x xs = refl
take_split (suc (suc n)) x xs = let e : suc (suc n) - 1 ≡ suc n = omega arith in rw e

module _ (clock : ℕ → ℕ) (exchanged : ℕ → Bool) (origin_id : ℕ) where
  -- What one round does to the global buffer.
  pub forward_lem :
      (n : ℕ) (slot : Slot) (local : RingBuffer) (f : Feed)
      → Refine.IsValid f.global
      → exchanged n ≡ true
      → f.global.write_pos + 1 < 2 ^ 64
      → f.monitor.messages_received + 1 < 2 ^ 64
      → let after = forward clock exchanged origin_id n slot local f in
        let room = f.global.capacity - length (Refine.items f.global) in
        (Refine.items after.global
          ≡ Refine.items f.global ++ take room (tag clock exchanged origin_id slot ∷ []))
        × Refine.IsValid after.global
        × (after.global.capacity ≡ f.global.capacity)
        × (after.global.write_pos ≤ f.global.write_pos + 1)
        × (after.monitor.messages_received ≡ f.monitor.messages_received + 1)
  unfolding forward
  forward_lem n slot local f v won small count =
      let counted = received-record_message (clock n) slot.raw 20 f.monitor count in
      let room = f.global.capacity - length (Refine.items f.global) in
      elim (try_push_lem v (exchanged n) (tag clock exchanged origin_id slot) small) [
        | inl (done, _, free, q, c, w, valid) ↦ (
          q
              ∙ ap (◌++◌ (Refine.items f.global)) (
                  sym (
                    take_cons room (tag clock exchanged origin_id slot) [] (omega arith)
                    ∙ ap (◌∷◌ (tag clock exchanged origin_id slot)) (take_nil (room - 1)))),
          valid,
          c,
          omega (arith, w),
          counted,
        )
        | inr (done, same, inl lost) ↦ ground (arith, lost, won)
        | inr (done, same, inr full) ↦
            let none_free : room ≡ 0 = omega (arith, full) in
            (
              ap Refine.items same
                  ∙ sym (append-nil (Refine.items f.global))
                  ∙ ap
                      (λ k.
                        Refine.items f.global ++ take k (tag clock exchanged origin_id slot ∷ []))
                      (sym none_free),
              subst Refine.IsValid (sym same) v,
              ap (λ g. g.capacity) same,
              ground (arith, same),
              counted,
            )
      ]

  -- The loop, with more rounds than the feed's own buffer holds slots.
  process_loop_lem :
      (fuel n : ℕ) (f : Feed)
      → length (items f.local) < fuel
      → Invariant.IsValid f.local
      → Refine.IsValid f.global
      → ((i : ℕ) → exchanged i ≡ true)
      → f.global.write_pos + length (items f.local) < 2 ^ 64
      → f.monitor.messages_received + length (items f.local) < 2 ^ 64
      → let after = process_loop clock exchanged origin_id fuel n f in
        let room = f.global.capacity - length (Refine.items f.global) in
        (items after.local ≡ [])
        × (Refine.items after.global
            ≡ Refine.items f.global
              ++ take room (map (tag clock exchanged origin_id) (items f.local)))
        × (after.monitor.messages_received ≡ f.monitor.messages_received + length (items f.local))
  unfolding process_loop forward
  process_loop_lem zero n f h v g won small count = ground (arith, h)
  process_loop_lem (suc fuel) n f h v g won small count = elim (try_pop_cases v) [
    | inl (e, nil) ↦
        rw (process_loop, e, nil)
          (
            refl,
            sym (append-nil _) ∙ ap (◌++◌ (Refine.items f.global)) (sym (take_nil _)),
            omega arith,
          )
    | inr (x, e, split) ↦
        let local = (try_pop f.local).0 in
        let next = forward clock exchanged origin_id n x local f in
        let one_less : length (items f.local) ≡ length (items local) + 1 =
          ap length split ∙ omega arith in
        let (q, g', c, w, m) =
          forward_lem n x local f g (won n) (omega (arith, one_less)) (omega (arith, one_less)) in
        let (emptied, moved, counted) =
          process_loop_lem fuel (n + 1) next (omega (arith, one_less)) (try_pop-IsValid v) g' won
            (omega (arith, one_less, w)) (omega (arith, one_less, m)) in
        rw (process_loop, e)
          (emptied, moved ∙ joined f x local next split q c, omega (arith, counted, m, one_less))
  ]
    where
      joined :
          (f : Feed) (x : Slot) (local : RingBuffer) (next : Feed)
          → items f.local ≡ x ∷ items local
          → Refine.items next.global
            ≡ Refine.items f.global
              ++ take
                  (f.global.capacity - length (Refine.items f.global))
                  (tag clock exchanged origin_id x ∷ [])
          → next.global.capacity ≡ f.global.capacity
          → Refine.items next.global
              ++ take
                  (next.global.capacity - length (Refine.items next.global))
                  (map (tag clock exchanged origin_id) (items local))
            ≡ Refine.items f.global
              ++ take
                  (f.global.capacity - length (Refine.items f.global))
                  (map (tag clock exchanged origin_id) (items f.local))
      joined f x local next split q c =
          let room = f.global.capacity - length (Refine.items f.global) in
          let first = take room (tag clock exchanged origin_id x ∷ []) in
          let rest = map (tag clock exchanged origin_id) (items local) in
          let left : next.global.capacity - length (Refine.items next.global)
              ≡ room - length first =
            omega (arith, ap length q, length-append (Refine.items f.global) first, c) in
          ap₂ (λ a k. a ++ take k rest) q left
          ∙ append_assoc (Refine.items f.global) first (take (room - length first) rest)
          ∙ ap (◌++◌ (Refine.items f.global)) (
              take_split room (tag clock exchanged origin_id x) rest
              ∙ ap (λ t. take room (map (tag clock exchanged origin_id) t)) (sym split))

  -- `process_local_messages` between valid buffers, with no exchange failing and no counter about to
  -- wrap, empties the feed's own buffer; the global buffer gains the slots tagged with the feed's
  -- identifier, in order, as many as there is room for, and the monitor counts every one of them.
  pub process_local_messages_lem :
      (f : Feed)
      → Invariant.IsValid f.local
      → Refine.IsValid f.global
      → ((i : ℕ) → exchanged i ≡ true)
      → f.global.write_pos + length (items f.local) < 2 ^ 64
      → f.monitor.messages_received + length (items f.local) < 2 ^ 64
      → let after = process_local_messages clock exchanged origin_id f in
        let room = f.global.capacity - length (Refine.items f.global) in
        (items after.local ≡ [])
        × (Refine.items after.global
            ≡ Refine.items f.global
              ++ take room (map (tag clock exchanged origin_id) (items f.local)))
        × (after.monitor.messages_received ≡ f.monitor.messages_received + length (items f.local))
  unfolding process_local_messages size
  process_local_messages_lem f v g won small count =
      process_loop_lem (suc (size f.local)) 0 f (omega (arith, length-items f.local)) v g won small
        count
