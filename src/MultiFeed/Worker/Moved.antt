-- ===== src/MultiFeed/Worker/Moved.antt =====
-- What one round of a worker moves, however the I/O thread's pushes fall into it.
use mdfh_distrib.Common.{
  subst, ℕ, zero, suc, ◌+◌, ◌-◌, ◌^◌, ◌≤◌, ◌<◌, ◌≡◌, refl, ap, sym, ◌∙◌, Bool, true, List, [], ◌∷◌,
  ◌++◌, arith, length, take, map, append-nil, append_assoc, inl, inr, length-append,
}
use mathlib.Core.List.{map-append}
use mdfh_distrib.Ring.{Slot, RingBuffer, try_pop, size}
use mdfh_distrib.Ring.Invariant
use mdfh_distrib.Ring.Invariant.{
  try_push-IsValid, try_pop-IsValid, try_push-capacity, try_pop-capacity,
}
use mdfh_distrib.Ring.Refine.{items, length-items, try_pop_cases}
use mdfh_distrib.MultiFeed.Mpsc.{MultiFeedSlot}
use mdfh_distrib.MultiFeed.Mpsc.Refine
use mdfh_distrib.MultiFeed.Worker.{Feed, tag, forward, process_loop, io_all, worker_round}
use mdfh_distrib.MultiFeed.Worker.Drain.{forward_lem}
use mdfh_distrib.MultiFeed.Worker.LocalQueue.{
  push_all, join_takes, push_all_lem, enqueue, enqueue_all, queue_round, queue_round-cons,
}

module _ (start : Feed) where
  -- No counter wraps while `n` slots are moved.
  pub record Small (n : ℕ) : Type 0 where
    pub positions : start.global.write_pos + n < 2 ^ 64
    pub messages : start.monitor.messages_received + n < 2 ^ 64

  pub Small-le : {n k : ℕ} → k ≤ n → Small n → Small k
  Small-le h s = record {
    positions = omega (arith, s.positions);
    messages = omega (arith, s.messages);
  }

module _ (start : Feed) (tagged : Slot → MultiFeedSlot) where
  -- Since `start`, the slots `moved` went from the feed's own buffer to the global one.
  pub record Moved (f : Feed) (moved : List Slot) : Type 0 where
    pub local_valid : Invariant.IsValid f.local
    pub local_capacity : f.local.capacity ≡ start.local.capacity
    pub global_valid : Refine.IsValid f.global
    pub global_capacity : f.global.capacity ≡ start.global.capacity
    pub global_items :
        Refine.items f.global
        ≡ Refine.items start.global
          ++ take (start.global.capacity - length (Refine.items start.global)) (map tagged moved)
    pub counted : f.monitor.messages_received ≡ start.monitor.messages_received + length moved
    pub written : f.global.write_pos ≤ start.global.write_pos + length moved

  pub fill_Moved :
      (xs : List Slot) (f : Feed) (moved : List Slot)
      → Moved f moved
      → Moved (record f { local = push_all xs f.local }) moved
        × (items (push_all xs f.local) ≡ enqueue start.local.capacity (items f.local) xs)
  fill_Moved xs f moved v =
      let (put, valid, c) = push_all_lem xs f.local v.local_valid in
      (
        record {
          local_valid = valid;
          local_capacity = c ∙ v.local_capacity;
          global_valid = v.global_valid;
          global_capacity = v.global_capacity;
          global_items = v.global_items;
          counted = v.counted;
          written = v.written;
        },
        put ∙ ap (λ n. items f.local ++ take (n - length (items f.local)) xs) v.local_capacity,
      )

  fill_all_Moved :
      (later : List (List Slot)) (f : Feed) (moved : List Slot)
      → Moved f moved
      → Moved (record f { local = io_all (map push_all later) f.local }) moved
        × (items (io_all (map push_all later) f.local)
            ≡ enqueue_all start.local.capacity (items f.local) later)
  fill_all_Moved [] f moved v = (v, refl)
  fill_all_Moved (xs ∷ later) f moved v =
      let (v', e) = fill_Moved xs f moved v in
      let (v'', e') = fill_all_Moved later (record f { local = push_all xs f.local }) moved v' in
      (v'', e' ∙ ap (λ q. enqueue_all start.local.capacity q later) e)

module _ (clock : ℕ → ℕ) (exchanged : ℕ → Bool) (origin_id : ℕ) (start : Feed)
    (won : (i : ℕ) → exchanged i ≡ true) where
  forward-Moved :
      (n : ℕ) (x : Slot) (local : RingBuffer) (f : Feed) (moved : List Slot)
      → Small start (length moved + 1)
      → Invariant.IsValid local
      → local.capacity ≡ f.local.capacity
      → Moved start (tag clock exchanged origin_id) f moved
      → Moved start
          (tag clock exchanged origin_id)
          (forward clock exchanged origin_id n x local f)
          (moved ++ (x ∷ []))
  unfolding forward
  forward-Moved n x local f moved small valid same v =
      let tagged = tag clock exchanged origin_id in
      let next = forward clock exchanged origin_id n x local f in
      let (q, g, c, w, m) =
        forward_lem clock exchanged origin_id n x local f v.global_valid (won n)
          (omega (arith, small.positions, v.written)) (omega (arith, small.messages, v.counted)) in
      let longer = length-append moved (x ∷ []) in
      record {
        local_valid = valid;
        local_capacity = same ∙ v.local_capacity;
        global_valid = g;
        global_capacity = c ∙ v.global_capacity;
        global_items =
            join_takes (Refine.items start.global) (Refine.items f.global)
              (Refine.items next.global) (map tagged moved) (tagged x ∷ [])
              (start.global.capacity - length (Refine.items start.global)) start.global.capacity
              v.global_items
              (q
                ∙ ap
                    (λ k.
                      Refine.items f.global
                      ++ take (k - length (Refine.items f.global)) (tagged x ∷ []))
                    v.global_capacity)
              refl
            ∙ ap
                (λ ys.
                  Refine.items start.global
                  ++ take (start.global.capacity - length (Refine.items start.global)) ys)
                (sym (map-append tagged moved (x ∷ [])));
        counted = omega (arith, m, v.counted, longer);
        written = omega (arith, w, v.written, longer);
      }

  -- The drain when the I/O thread rests.
  pub loop_Moved :
      (fuel n : ℕ) (f : Feed) (moved : List Slot)
      → length (items f.local) < fuel
      → Small start (length moved + length (items f.local))
      → Moved start (tag clock exchanged origin_id) f moved
      → let after = process_loop clock exchanged origin_id fuel n f in
        (items after.local ≡ [])
        × Moved start (tag clock exchanged origin_id) after (moved ++ items f.local)
  unfolding process_loop forward
  loop_Moved zero n f moved h small v = absurd (omega arith)
  loop_Moved (suc fuel) n f moved h small v = elim (try_pop_cases v.local_valid) [
    | inl (e, nil) ↦
        rw (process_loop, e, nil)
          (refl, subst (Moved start (tag clock exchanged origin_id) f) (sym (append-nil moved)) v)
    | inr (x, e, split) ↦
        let local = (try_pop f.local).0 in
        let next = forward clock exchanged origin_id n x local f in
        let one_less : length (items f.local) ≡ length (items local) + 1 =
          ap length split ∙ omega arith in
        let longer = length-append moved (x ∷ []) in
        let v' =
          forward-Moved n x local f moved (Small-le start (omega (arith, one_less)) small)
            (try_pop-IsValid v.local_valid) (try_pop-capacity f.local) v in
        let (emptied, w) =
          loop_Moved fuel (n + 1) next (moved ++ (x ∷ [])) (omega (arith, h, one_less))
            (Small-le start (omega (arith, one_less, longer)) small) v' in
        rw (process_loop, e)
          (
            emptied,
            subst (Moved start (tag clock exchanged origin_id) _)
                (append_assoc moved (x ∷ []) (items local) ∙ ap (◌++◌ moved) (sym split)) w,
          )
  ]

  -- A round, and what the queue of the reference is after it.
  pub round_Moved :
      (pushes : List (List Slot)) (n : ℕ) (f : Feed) (moved : List Slot)
      → let (taken, left) = queue_round start.local.capacity pushes (items f.local) in
        Small start (length moved + length taken)
        → Moved start (tag clock exchanged origin_id) f moved
        → let after = worker_round clock exchanged origin_id (map push_all pushes) n f in
          (items after.local ≡ left)
          × Moved start (tag clock exchanged origin_id) after (moved ++ taken)
  unfolding worker_round size forward
  round_Moved [] n f moved small v =
      loop_Moved (suc (size f.local)) n f moved (omega (arith, length-items f.local)) small v
  round_Moved (xs ∷ later) n f moved small v =
      let capacity = start.local.capacity in
      let filled = record f { local = push_all xs f.local } in
      let (v', put) = fill_Moved start (tag clock exchanged origin_id) xs f moved v in
      elim (try_pop_cases v'.local_valid) [
        | inl (e, nil) ↦
            let (w, rest) =
              fill_all_Moved start (tag clock exchanged origin_id) later filled moved v' in
            let empty : enqueue capacity (items f.local) xs ≡ [] = sym put ∙ nil in
            rw (worker_round, e, queue_round-cons capacity xs later (items f.local) [] empty)
              (
                rest ∙ ap (λ q. enqueue_all capacity q later) nil,
                subst
                    (Moved start (tag clock exchanged origin_id)
                      (record f { local = io_all (map push_all later) (push_all xs f.local) }))
                    (sym (append-nil moved)) w,
              )
        | inr (x, e, split) ↦
            let local = (try_pop filled.local).0 in
            let next = forward clock exchanged origin_id n x local f in
            let more : enqueue capacity (items f.local) xs ≡ x ∷ items local = sym put ∙ split in
            let small' : Small start
                (length moved + suc (length (queue_round capacity later (items local)).0)) =
              subst (λ p. Small start (length moved + length p.0))
                (queue_round-cons capacity xs later (items f.local) (x ∷ items local) more) small in
            let v1 =
              forward-Moved n x local f moved (Small-le start (omega arith) small')
                (try_pop-IsValid v'.local_valid)
                (try_pop-capacity filled.local ∙ v'.local_capacity ∙ sym v.local_capacity) v in
            let longer = length-append moved (x ∷ []) in
            let (done, w) =
              round_Moved later (n + 1) next (moved ++ (x ∷ []))
                (Small-le start (omega (arith, longer)) small') v1 in
            rw
              (
                worker_round,
                e,
                queue_round-cons capacity xs later (items f.local) (x ∷ items local) more,
              )
              (
                done,
                subst (Moved start (tag clock exchanged origin_id) _)
                    (append_assoc moved (x ∷ []) (queue_round capacity later (items local)).0) w,
              )
      ]
