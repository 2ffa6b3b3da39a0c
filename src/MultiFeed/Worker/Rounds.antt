-- ===== src/MultiFeed/Worker/Rounds.antt =====
-- What a worker moves from its feed into the global buffer over many rounds.
use mdfh_distrib.Common.{
  subst, ℕ, ◌+◌, ◌-◌, ◌^◌, ◌≤◌, ◌<◌, ◌≡◌, refl, ap, sym, ◌∙◌, Bool, true, List, [], ◌∷◌, ◌++◌,
  arith, length, take, map, append-nil, append_assoc, length-append,
}
use mdfh_distrib.Ring.{Slot}
use mdfh_distrib.Ring.Invariant
use mdfh_distrib.Ring.Invariant.{
  try_push-IsValid, try_pop-IsValid, try_push-capacity, try_pop-capacity,
}
use mdfh_distrib.Ring.Refine.{items}
use mdfh_distrib.MultiFeed.Mpsc.Refine
use mdfh_distrib.MultiFeed.Monitor.{record_connection_established}
use mdfh_distrib.MultiFeed.Worker.{Feed, tag, worker_round, worker_rounds, worker_loop}
use mdfh_distrib.MultiFeed.Worker.LocalQueue.{
  push_all, take_none, enqueue, queue_round, queue_rounds,
}
use mdfh_distrib.MultiFeed.Worker.Moved.{Moved, Small, Small-le, fill_Moved, round_Moved}

module _ (clocks : ℕ → ℕ → ℕ) (exchanges : ℕ → ℕ → Bool) (origin_id : ℕ)
    (won : (i j : ℕ) → exchanges i j ≡ true) where
  rounds_Moved :
      (start : Feed) (rounds : List (List (List Slot))) (r : ℕ) (f : Feed) (moved : List Slot)
      → let (taken, left) = queue_rounds start.local.capacity rounds (items f.local) in
        Small start (length moved + length taken)
        → Moved start (tag (clocks 0) (exchanges 0) origin_id) f moved
        → let after = worker_rounds clocks exchanges origin_id r (map (map push_all) rounds) f in
          (items after.local ≡ left)
          × Moved start (tag (clocks 0) (exchanges 0) origin_id) after (moved ++ taken)
  unfolding worker_rounds
  rounds_Moved start [] r f moved small v = (
    refl,
    subst (Moved start (tag (clocks 0) (exchanges 0) origin_id) f) (sym (append-nil moved)) v,
  )
  rounds_Moved start (pushes ∷ later) r f moved small v =
      let capacity = start.local.capacity in
      let (taken, left) = queue_round capacity pushes (items f.local) in
      let more = (queue_rounds capacity later left).0 in
      let next = worker_round (clocks r) (exchanges r) origin_id (map push_all pushes) 0 f in
      let (held, w) =
        round_Moved (clocks r) (exchanges r) origin_id start (won r) pushes 0 f moved
          (Small-le start (omega (arith, length-append taken more)) small) v in
      let same : queue_rounds capacity later left ≡ queue_rounds capacity later (items next.local) =
        ap (queue_rounds capacity later) (sym held) in
      let fits : length (moved ++ taken) + length (queue_rounds capacity later (items next.local)).0
          ≤ length moved + length (taken ++ more) =
        omega
          (arith, length-append taken more, length-append moved taken, ap (λ p. length p.0) same) in
      let (last, w') =
        rounds_Moved start later (r + 1) next (moved ++ taken) (Small-le start fits small) w in
      (
        last ∙ ap (λ p. p.1) (sym same),
        subst (Moved start (tag (clocks 0) (exchanges 0) origin_id) _)
            (ap (λ p. (moved ++ taken) ++ p.0) (sym same) ∙ append_assoc moved taken more) w',
      )

  -- A worker that reaches its feed, with valid buffers, its own one empty at first, no exchange
  -- failing, no counter about to wrap and nobody taking messages out of the global buffer, over any
  -- rounds, whatever the I/O thread pushes before each step of a drain, in the sleep after it, and
  -- between the last round and its end: `taken` and `left` being what these rounds take out of a queue
  -- of the capacity of its own buffer and leave in it, the global buffer gains the slots `taken`, tagged
  -- and in order, as many as there is room for; the monitor counts every one of them; and what is left,
  -- with what is pushed after the last round as far as there is room, stays in its own buffer, and is
  -- neither moved nor counted.
  pub worker_loop_lem :
      (rounds : List (List (List Slot))) (last : List Slot) (f : Feed)
      → Invariant.IsValid f.local
      → Refine.IsValid f.global
      → items f.local ≡ []
      → let (taken, left) = queue_rounds f.local.capacity rounds [] in
        f.global.write_pos + length taken < 2 ^ 64
        → f.monitor.messages_received + length (queue_rounds f.local.capacity rounds []).0 < 2 ^ 64
        → let (taken, left) = queue_rounds f.local.capacity rounds [] in
          let after =
            worker_loop clocks exchanges origin_id true
              (map (map push_all) rounds)
              (push_all last)
              f in
          let room = f.global.capacity - length (Refine.items f.global) in
          (items after.local ≡ enqueue f.local.capacity left last)
          × (Refine.items after.global
              ≡ Refine.items f.global
                ++ take room (map (tag (clocks 0) (exchanges 0) origin_id) taken))
          × (after.monitor.messages_received ≡ f.monitor.messages_received + length taken)
  unfolding worker_loop record_connection_established
  worker_loop_lem rounds last f v g nil fits count =
      let begun : Feed = record f { monitor = record_connection_established f.monitor } in
      let tagged = tag (clocks 0) (exchanges 0) origin_id in
      let capacity = f.local.capacity in
      let none_moved : Moved begun tagged begun [] = record {
        local_valid = v;
        local_capacity = refl;
        global_valid = g;
        global_capacity = refl;
        global_items =
            sym (append-nil (Refine.items f.global))
            ∙ ap (◌++◌ (Refine.items f.global)) (take_none _);
        counted = omega arith;
        written = omega arith;
      } in
      let same : queue_rounds capacity rounds (items f.local) ≡ queue_rounds capacity rounds [] =
        ap (queue_rounds capacity rounds) nil in
      let small : Small begun (0 + length (queue_rounds capacity rounds (items f.local)).0) =
        record {
          positions = omega (arith, fits, ap (λ p. length p.0) same);
          messages = omega (arith, count, ap (λ p. length p.0) same);
        } in
      let (held, w) = rounds_Moved begun rounds 0 begun [] small none_moved in
      let after = worker_rounds clocks exchanges origin_id 0 (map (map push_all) rounds) begun in
      let (w', put) = fill_Moved begun tagged last after _ w in
      (
        put ∙ ap (λ q. enqueue capacity q last) (held ∙ ap (λ p. p.1) same),
        w.global_items
            ∙ ap
                (λ p.
                  Refine.items f.global
                  ++ take (f.global.capacity - length (Refine.items f.global)) (map tagged p.0))
                same,
        omega (arith, w.counted, ap (λ p. length p.0) same),
      )
