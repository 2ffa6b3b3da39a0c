-- ===== src/Bypass/Backend/Matches.antt =====
-- What the client releases is what goes back through the backend.
use mdfh_distrib.Common.{
  ℕ, ◌≡◌, refl, ap, sym, subst, ◌∙◌, List, [], ◌∷◌, ◌++◌, arith, length, drop, append-nil,
  append_assoc, drop-length-append, suc, ◌<◌,
}
use mdfh_distrib.Bypass.{
  PacketDesc, Client, handle_packet, handle_all, cleanup_processed_packets, max_pending,
}
use mdfh_distrib.Bypass.Held.{IsValid, items, AllLive, cleanup_loop_lem, length-items}
use mdfh_distrib.Bypass.Release.{handle_packet-released, handle_all_lem}
use mdfh_distrib.Bypass.Backend.{
  Backend, Reception, release_all, released_by, deliver, deliver_all, stop_ingestion,
}

AllLive-join : (xs ys : List ℕ) → AllLive xs → AllLive ys → AllLive (xs ++ ys)
AllLive-join [] ys l m = m
AllLive-join (x ∷ xs) ys l m = (l.0, AllLive-join xs ys l.1 m)

module _ (b : Backend) where
  open b use {State, Ready, given_back, release_packet}

  release_all_lem :
      (xs : List ℕ) (s : State)
      → AllLive xs
      → Ready s
      → (given_back (release_all b xs s) ≡ given_back s ++ xs) × Ready (release_all b xs s)
  unfolding release_all
  release_all_lem [] s l ready = (sym (append-nil (given_back s)), ready)
  release_all_lem (x ∷ xs) s l ready =
      let s' = release_packet x s in
      let (e, ready') = b.release_packet_lem x s l.0 ready in
      let (all, still) = release_all_lem xs s' l.1 ready' in
      (all ∙ ap (λ ys. ys ++ xs) e ∙ append_assoc (given_back s) (x ∷ []) xs, still)

  pub record Matches (before after : Reception State) (more : List ℕ) : Type 0 where
    pub live : AllLive more
    pub released : after.client.released ≡ before.client.released ++ more
    pub returned : given_back after.backend ≡ given_back before.backend ++ more
    pub ready : Ready after.backend

  Matches-refl : (r : Reception State) → Ready r.backend → Matches r r []
  Matches-refl r ready = record {
    live = tt;
    released = sym (append-nil r.client.released);
    returned = sym (append-nil (given_back r.backend));
    ready = ready;
  }

  Matches-trans :
      {r s t : Reception State} {xs ys : List ℕ}
      → Matches r s xs
      → Matches s t ys
      → Matches r t (xs ++ ys)
  Matches-trans {r} {s} {t} {xs} {ys} m n = record {
    live = AllLive-join xs ys m.live n.live;
    released = n.released ∙ ap (λ zs. zs ++ ys) m.released ∙ append_assoc r.client.released xs ys;
    returned =
        n.returned ∙ ap (λ zs. zs ++ ys) m.returned ∙ append_assoc (given_back r.backend) xs ys;
    ready = n.ready;
  }

  released_by-Matches :
      (next : Client) (r : Reception State) (more : List ℕ)
      → AllLive more
      → next.released ≡ r.client.released ++ more
      → Ready r.backend
      → Matches r (released_by b next r) more
  unfolding released_by
  released_by-Matches next r more l e ready =
      let new = drop (length r.client.released) next.released in
      let same : new ≡ more =
        ap (drop (length r.client.released)) e ∙ drop-length-append r.client.released more in
      let (all, still) = release_all_lem new r.backend (subst AllLive (sym same) l) ready in
      record {
        live = l;
        released = e;
        returned = all ∙ ap (◌++◌ (given_back r.backend)) same;
        ready = still;
      }

  module _ (clock : ℕ → ℕ) where
    pub deliver-Matches :
        (p : PacketDesc) (r : Reception State)
        → IsValid r.client.pending
        → Ready r.backend
        → (more : List ℕ) × Matches r (deliver b clock p r) more
          × IsValid (deliver b clock p r).client.pending
    unfolding deliver released_by
    deliver-Matches p r v ready =
        let (more, l, e, v') = handle_packet-released clock p r.client v in
        let (kept, ready') = b.receive_lem p r.backend ready in
        let counted : Reception State = record r { backend = b.receive p r.backend } in
        let m = released_by-Matches (handle_packet clock p r.client) counted more l e ready' in
        (
          more,
          record {
            live = l;
            released = e;
            returned = m.returned ∙ ap (λ xs. xs ++ more) kept;
            ready = m.ready;
          },
          v',
        )

    pub deliver_all-Matches :
        (ps : List PacketDesc) (r : Reception State)
        → IsValid r.client.pending
        → Ready r.backend
        → (more : List ℕ) × Matches r (deliver_all b clock ps r) more
          × IsValid (deliver_all b clock ps r).client.pending
    unfolding deliver_all
    deliver_all-Matches [] r v ready = ([], Matches-refl r ready, v)
    deliver_all-Matches (p ∷ ps) r v ready =
        let (xs, m, v') = deliver-Matches p r v ready in
        let (ys, n, w) = deliver_all-Matches ps (deliver b clock p r) v' m.ready in
        (xs ++ ys, Matches-trans m n, w)

    -- The client sees the packets, one after the other.
    pub client_handles :
        (ps : List PacketDesc) (r : Reception State)
        → (deliver_all b clock ps r).client ≡ handle_all clock ps r.client
    unfolding deliver_all deliver handle_all released_by
    client_handles [] r = refl
    client_handles (p ∷ ps) r = client_handles ps _

    pub deliver_all-append :
        (ps qs : List PacketDesc) (r : Reception State)
        → deliver_all b clock (ps ++ qs) r ≡ deliver_all b clock qs (deliver_all b clock ps r)
    unfolding deliver_all
    deliver_all-append [] qs r = refl
    deliver_all-append (p ∷ ps) qs r = deliver_all-append ps qs (deliver b clock p r)

    pub stop_ingestion-Matches :
        (ps : List PacketDesc) (r : Reception State)
        → IsValid r.client.pending
        → AllLive (items r.client.pending)
        → Ready r.backend
        → (more : List ℕ) × Matches r (stop_ingestion b (deliver_all b clock ps r)) more
    unfolding stop_ingestion cleanup_processed_packets
    stop_ingestion-Matches ps r v l ready =
        let mid = deliver_all b clock ps r in
        let pending = mid.client.pending in
        let (xs, m, w) = deliver_all-Matches ps r v ready in
        let t = handle_all_lem clock ps r.client v l in
        let l' : AllLive (items pending) =
          subst (λ (c : Client). AllLive (items c.pending)) (sym (client_handles ps r)) t.live in
        let few : length (items pending) < suc max_pending =
          omega (arith, length-items pending, w.within) in
        let (emptied, out) =
          cleanup_loop_lem (suc max_pending) pending mid.client.released w l' few in
        let stopped : Reception State = record mid { backend = b.stop_reception mid.backend } in
        let (kept, ready') = b.stop_reception_lem mid.backend m.ready in
        let n =
          released_by-Matches (cleanup_processed_packets mid.client) stopped (items pending) l' out
            ready' in
        (
          xs ++ items pending,
          Matches-trans m (record {
            live = n.live;
            released = n.released;
            returned = n.returned ∙ ap (λ ys. ys ++ items pending) kept;
            ready = n.ready;
          }),
        )
