-- ===== src/Bypass/Release.antt =====
-- Every packet that has a context is released exactly once.
use mdfh_distrib.Common.{
  ℕ, zero, suc, ◌-◌, ◌<◌, ◌≡◌, inl, inr, refl, ap, ap₂, sym, subst, ◌∙◌, List, [], ◌∷◌, ◌++◌, arith,
  length, take, drop, length-append, append_assoc, append-nil, drop-nil, take-join, drop-join,
  if◌then◌else◌,
}
use mdfh_distrib.Bypass.{
  Pending, max_pending, PacketDesc, Client, cleanup_processed_packets, handle_packet, parse_packet,
  handle_all, ingest,
}
use mdfh_distrib.Bypass.Config.{BypassConfig}
use mdfh_distrib.Bypass.Held.{
  IsValid, items, length-items, AllLive, AllLive-append, contexts, cleanup_loop_lem, keep_cases,
}

-- How many more contexts are kept before any is released at once.
abbrev pub room_of : BypassConfig → Pending → ℕ
room_of config p = if config.enable_zero_copy then max_pending - length (items p) else 0

abbrev pub room : Client → ℕ
room c = room_of c.config c.pending

pub record Tracks (before after : Client) (cs : List ℕ) : Type 0 where
  pub valid : IsValid after.pending
  pub live : AllLive (items after.pending)
  pub kept : items after.pending ≡ items before.pending ++ take (room before) cs
  pub released : after.released ≡ before.released ++ drop (room before) cs

step :
    (c next after : Client) (one cs : List ℕ)
    → items next.pending ≡ items c.pending ++ take (room c) one
    → next.released ≡ c.released ++ drop (room c) one
    → room next ≡ room c - length one
    → Tracks next after cs
    → Tracks c after (one ++ cs)
step c next after one cs k r e t = record {
  valid = t.valid;
  live = t.live;
  kept =
      t.kept
      ∙ ap₂ (λ xs n. xs ++ take n cs) k e
      ∙ append_assoc (items c.pending) (take (room c) one) (take (room c - length one) cs)
      ∙ ap (◌++◌ (items c.pending)) (sym (take-join (room c) one cs));
  released =
      t.released
      ∙ ap₂ (λ xs n. xs ++ drop n cs) r e
      ∙ append_assoc c.released (drop (room c) one) (drop (room c - length one) cs)
      ∙ ap (◌++◌ c.released) (sym (drop-join (room c) one cs));
}

take_one : (n x : ℕ) → 0 < n → (x ∷ [] ≡ take n (x ∷ [])) × ([] ≡ drop n (x ∷ []))
take_one zero x h = ground (arith, h)
take_one (suc zero) x h = (refl, refl)
take_one (suc (suc n)) x h = (refl, refl)

take_join_nil : (n : ℕ) → [] ≡ take {A = ℕ} n []
take_join_nil zero = refl
take_join_nil (suc n) = refl

module _ (clock : ℕ → ℕ) where
  pub handle_all_lem :
      (ps : List PacketDesc) (c : Client)
      → IsValid c.pending
      → AllLive (items c.pending)
      → Tracks c (handle_all clock ps c) (contexts ps)
  unfolding handle_all handle_packet parse_packet
  handle_all_lem [] c v l = record {
    valid = v;
    live = l;
    kept =
        sym (append-nil (items c.pending)) ∙ ap (◌++◌ (items c.pending)) (take_join_nil (room c));
    released = sym (append-nil c.released) ∙ ap (◌++◌ c.released) (drop-nil (room c));
  }
  handle_all_lem (p ∷ ps) c v l =
      let next = handle_packet clock p c in
      let (config, cases) = keep_cases p.context (parse_packet clock p c) v in
      let after = handle_all clock ps next in
      elim cases [
        | inl (null, same, out) ↦
            let e : contexts (p ∷ ps) ≡ [] ++ contexts ps = ground (arith, null) in
            subst (Tracks c after) (sym e) (
              step c next after [] (contexts ps)
                (ap items same
                  ∙ sym (append-nil (items c.pending))
                  ∙ ap (◌++◌ (items c.pending)) (take_join_nil (room c)))
                (out ∙ sym (append-nil c.released) ∙ ap (◌++◌ c.released) (drop-nil (room c)))
                (ap₂ room_of config same ∙ omega arith)
                (handle_all_lem ps next (subst IsValid (sym same) v)
                  (subst (λ q. AllLive (items q)) (sym same) l)))
        | inr (inl (live, on, free, e', v', out)) ↦
            let x = p.context in
            let e : contexts (p ∷ ps) ≡ (x ∷ []) ++ contexts ps = ground (arith, live) in
            let before : room c ≡ max_pending - length (items c.pending) = rw on refl in
            let (kept, rest) = take_one (room c) x (omega (arith, before, free)) in
            let now : room next ≡ max_pending - length (items next.pending) =
              rw (config, on) refl in
            subst (Tracks c after) (sym e) (
              step c next after (x ∷ []) (contexts ps) (e' ∙ ap (◌++◌ (items c.pending)) kept)
                (out ∙ sym (append-nil c.released) ∙ ap (◌++◌ c.released) rest)
                (omega (arith, now, before, ap length e', length-append (items c.pending) (x ∷ [])))
                (handle_all_lem ps next v'
                  (subst AllLive (sym e') (AllLive-append (items c.pending) x l live))))
        | inr (inr (live, why, same, out)) ↦
            let x = p.context in
            let e : contexts (p ∷ ps) ≡ (x ∷ []) ++ contexts ps = ground (arith, live) in
            let none_free : room c ≡ 0 = elim why [
              | inl off ↦ rw off refl
              | inr full ↦ ground (arith, full)
            ] in
            subst (Tracks c after) (sym e) (
              step c next after (x ∷ []) (contexts ps)
                (ap items same
                  ∙ sym (append-nil (items c.pending))
                  ∙ ap (λ n. items c.pending ++ take n (x ∷ [])) (sym none_free))
                (out ∙ ap (λ n. c.released ++ drop n (x ∷ [])) (sym none_free))
                (ap₂ room_of config same ∙ omega (arith, none_free))
                (handle_all_lem ps next (subst IsValid (sym same) v)
                  (subst (λ q. AllLive (items q)) (sym same) l)))
      ]

  -- What one packet adds to the calls of `release_packet`.
  pub handle_packet-released :
      (p : PacketDesc) (c : Client)
      → IsValid c.pending
      → (more : List ℕ) × AllLive more
        × ((handle_packet clock p c).released ≡ c.released ++ more)
        × IsValid (handle_packet clock p c).pending
  unfolding handle_packet parse_packet
  handle_packet-released p c v =
      let (_, cases) = keep_cases p.context (parse_packet clock p c) v in
      elim cases [
        | inl (null, same, out) ↦
            ([], tt, out ∙ sym (append-nil c.released), subst IsValid (sym same) v)
        | inr (inl (live, on, free, e', v', out)) ↦ ([], tt, out ∙ sym (append-nil c.released), v')
        | inr (inr (live, why, same, out)) ↦
            (p.context ∷ [], (live, tt), out, subst IsValid (sym same) v)
      ]

  -- A run of packets through `packet_handler`, and then `stop_ingestion`, from a client whose pending
  -- ring is valid and holds no null pointer: the pending ring ends empty, and what is released are the
  -- packets' contexts that are not null and those that were pending, each exactly once: first, at
  -- once, those beyond the room in the ring, then the pending ones in order. Without zero-copy there
  -- is no such room.
  pub ingest_releases :
      (ps : List PacketDesc) (c : Client)
      → IsValid c.pending
      → AllLive (items c.pending)
      → let after = ingest clock ps c in
        (items after.pending ≡ [])
        × (after.released
            ≡ c.released
              ++ (drop (room c) (contexts ps) ++ (items c.pending ++ take (room c) (contexts ps))))
  unfolding ingest cleanup_processed_packets
  ingest_releases ps c v l =
      let mid = handle_all clock ps c in
      let t = handle_all_lem ps c v l in
      let few : length (items mid.pending) < suc max_pending =
        omega (arith, length-items mid.pending, t.valid.within) in
      let (emptied, out) =
        cleanup_loop_lem (suc max_pending) mid.pending mid.released t.valid t.live few in
      (
        emptied,
        out
            ∙ ap₂ ◌++◌ t.released t.kept
            ∙ append_assoc c.released (drop (room c) (contexts ps))
                (items c.pending ++ take (room c) (contexts ps)),
      )
