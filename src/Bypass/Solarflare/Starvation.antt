-- ===== src/Bypass/Solarflare/Starvation.antt =====
-- With zero-copy and a small ring the Solarflare card runs out of buffers.
use mdfh_distrib.Common.{
  ℕ, zero, suc, ◌+◌, ◌-◌, ◌≤◌, ◌<◌, ◌≡◌, refl, ap, sym, subst, ◌∙◌, true, List, [], ◌∷◌, ◌++◌,
  arith, length, take, drop, append-nil, drop_all, length-append,
}
use mdfh_distrib.Bypass.{
  PacketDesc, Client, handle_packet, parse_packet, keep_or_release, handle_all, max_pending,
}
use mdfh_distrib.Bypass.Config.{BypassConfig}
use mdfh_distrib.Bypass.Held.{IsValid, items, AllLive, contexts}
use mdfh_distrib.Bypass.Release.{room, handle_all_lem}
use mdfh_distrib.Bypass.Backend.{Reception, deliver, released_by}
use mdfh_distrib.Bypass.Backend.Matches.{deliver-Matches}
use mdfh_distrib.Bypass.Backend.Returned.{handed_over, same_rest}
use mdfh_distrib.Bypass.Solarflare.{
  SolarflareBypassClient, Event, rx, other, solarflare, process_event, process_events,
  reception_loop,
}
use mdfh_distrib.Bypass.Solarflare.Buffers.{packets, all_events, taken, reception_loop-events}

length-take-le : (n : ℕ) (xs : List ℕ) → length (take n xs) ≤ length xs
length-take-le zero xs = omega arith
length-take-le (suc n) [] = omega arith
length-take-le (suc n) (x ∷ xs) = omega (arith, length-take-le n xs)

length-contexts : (p : PacketDesc) → length (contexts (p ∷ [])) ≤ 1
length-contexts p = ground arith

module _ (clock : ℕ → ℕ) where
  handle_packet-config : (p : PacketDesc) (c : Client) → (handle_packet clock p c).config ≡ c.config
  unfolding handle_packet parse_packet keep_or_release
  handle_packet-config p c = ground arith

  -- What is known while the first buffers are held: none was posted again.
  record Holds (posted : List ℕ) (n : ℕ) (r : Reception SolarflareBypassClient) : Type 0 where
    valid : IsValid r.client.pending
    live : AllLive (items r.client.pending)
    up : r.backend.vi ≡ true
    zero_copy : r.client.config.enable_zero_copy ≡ true
    few : length (items r.client.pending) ≤ n
    posts : r.backend.posts ≡ posted

  -- The card hands over no more buffers than were posted so far; `n` counts those handed over.
  abbrev pub Delivers : ℕ → List Event → Reception SolarflareBypassClient → Type 0
  Delivers n [] r = Unit
  Delivers n (other ∷ es) r = Delivers n es (process_event clock other r)
  Delivers n (rx buffer_id bytes ∷ es) r =
      (n < length r.backend.posts)
      × Delivers (suc n) es (process_event clock (rx buffer_id bytes) r)

  other-Holds :
      (posted : List ℕ) (n : ℕ) (r : Reception SolarflareBypassClient)
      → Holds posted n r
      → Holds posted n (process_event clock other r)
  unfolding process_event
  other-Holds posted n r h = h

  rx-Holds :
      (buffer_id : ℕ) (bytes : List ℕ) (posted : List ℕ) (n : ℕ)
      (r : Reception SolarflareBypassClient)
      → Holds posted n r
      → n < max_pending
      → Holds posted (suc n) (process_event clock (rx buffer_id bytes) r)
  unfolding process_event deliver released_by handle_all
  rx-Holds buffer_id bytes posted n r h small =
      let e = rx buffer_id bytes in
      let p : PacketDesc = record { data_bytes = bytes; context = buffer_id } in
      let cs = contexts (p ∷ []) in
      let (more, m, v) = deliver-Matches solarflare clock p r h.valid h.up in
      let t = handle_all_lem clock (p ∷ []) r.client h.valid h.live in
      let free : room r.client ≡ max_pending - length (items r.client.pending) =
        rw h.zero_copy refl in
      let some_room : length cs ≤ room r.client =
        omega (arith, free, small, h.few, length-contexts p) in
      let kept_back : drop (room r.client) cs ≡ [] = drop_all (room r.client) cs some_room in
      let none_more : more ≡ [] =
        same_rest r.client.released more [] (process_event clock e r).client.released m.released
          (t.released ∙ ap (◌++◌ r.client.released) kept_back) in
      record {
        valid = t.valid;
        live = t.live;
        up = m.ready;
        zero_copy =
            ap (λ (c : BypassConfig). c.enable_zero_copy) (handle_packet-config p r.client)
            ∙ h.zero_copy;
        few = omega (
          arith,
          h.few,
          ap length t.kept,
          length-append (items r.client.pending) (take (room r.client) cs),
          length-take-le (room r.client) cs,
          length-contexts p,
        );
        posts =
            m.returned ∙ ap (◌++◌ r.backend.posts) none_more ∙ append-nil r.backend.posts ∙ h.posts;
      }

  Delivers-few :
      (es : List Event) (posted : List ℕ) (n : ℕ) (r : Reception SolarflareBypassClient)
      → Holds posted n r
      → length posted ≤ max_pending
      → n ≤ length posted
      → Delivers n es r
      → (n + length (handed_over (packets es)) ≤ length posted)
        × ((process_events clock es r).backend.posts ≡ posted)
  unfolding process_events
  Delivers-few [] posted n r h small le d = (omega arith, h.posts)
  Delivers-few (other ∷ es) posted n r h small le d =
      Delivers-few es posted n (process_event clock other r) (other-Holds posted n r h) small le d
  Delivers-few (rx buffer_id bytes ∷ es) posted n r h small le (one, d) =
      let here = ap length h.posts in
      let (count, same) =
        Delivers-few es posted (suc n) (process_event clock (rx buffer_id bytes) r)
          (rx-Holds buffer_id bytes posted n r h (omega (arith, here))) small (omega (arith, here))
          d in
      (omega (arith, count), same)

  -- With zero-copy, no packet pending and at most 1024 buffers posted, a card that hands over only
  -- buffers that were posted hands over no more packets than those, however long the reception loop
  -- runs: until `stop_ingestion` no buffer is posted again.
  pub zero_copy_starves :
      (polls : List (List Event)) (r : Reception SolarflareBypassClient)
      → IsValid r.client.pending
      → items r.client.pending ≡ []
      → r.backend.vi ≡ true
      → r.client.config.enable_zero_copy ≡ true
      → length r.backend.posts ≤ 1024
      → Delivers 0 (all_events polls) r
      → (length (taken polls) ≤ length r.backend.posts)
        × ((reception_loop clock polls r).backend.posts ≡ r.backend.posts)
  zero_copy_starves polls r v nil up on small d =
      let h : Holds r.backend.posts 0 r = record {
        valid = v;
        live = subst AllLive (sym nil) tt;
        up = up;
        zero_copy = on;
        few = omega (arith, ap length nil);
        posts = refl;
      } in
      let (count, same) =
        Delivers-few (all_events polls) r.backend.posts 0 r h small (omega arith) d in
      (omega (arith, count), rw (reception_loop-events clock polls r) same)
