-- ===== src/Bypass/Backend/Returned.antt =====
-- How often each context goes back through the backend.
use mdfh_distrib.Common.{
  ℕ, suc, ◌+◌, ◌≡◌, ◌≢◌, refl, ap, sym, ◌∙◌, List, [], ◌∷◌, ◌++◌, arith, length, take, drop,
  drop-length-append, take-append-drop, ◌==◌, if◌then◌else◌,
}
use mdfh_distrib.Bypass.{PacketDesc, Client, ingest, cleanup_processed_packets}
use mdfh_distrib.Bypass.Held.{IsValid, items, AllLive, contexts}
use mdfh_distrib.Bypass.Release.{room, ingest_releases}
use mdfh_distrib.Bypass.Backend.{Backend, Reception, deliver_all, released_by, stop_ingestion}
use mdfh_distrib.Bypass.Backend.Matches.{stop_ingestion-Matches, client_handles}

abbrev pub count : ℕ → List ℕ → ℕ
count k [] = 0
count k (x ∷ xs) = if x == k then suc (count k xs) else count k xs

pub count-append : (k : ℕ) (xs ys : List ℕ) → count k (xs ++ ys) ≡ count k xs + count k ys
count-append k [] ys = omega arith
count-append k (x ∷ xs) ys = ground (arith, count-append k xs ys)

-- The contexts of all packets, the null pointers among them.
abbrev pub handed_over : List PacketDesc → List ℕ
handed_over [] = []
handed_over (p ∷ ps) = p.context ∷ handed_over ps

count-contexts :
    (k : ℕ) (ps : List PacketDesc) → k ≢ 0 → count k (contexts ps) ≡ count k (handed_over ps)
count-contexts k [] h = refl
count-contexts k (p ∷ ps) h = ground (arith, count-contexts k ps)

count_live : (xs : List ℕ) → AllLive xs → count 0 xs ≡ 0
count_live [] l = refl
count_live (x ∷ xs) l = ground (arith, l.0, count_live xs l.1)

contexts-AllLive : (ps : List PacketDesc) → AllLive (contexts ps)
contexts-AllLive [] = tt
contexts-AllLive (p ∷ ps) = ground (arith, contexts-AllLive ps)

pub same_rest : (base xs ys out : List ℕ) → out ≡ base ++ xs → out ≡ base ++ ys → xs ≡ ys
same_rest base xs ys out p q =
    sym (drop-length-append base xs)
    ∙ ap (drop (length base)) (sym p ∙ q)
    ∙ drop-length-append base ys

-- The order in which contexts are released does not matter to a count.
count_released :
    (k n : ℕ) (held cs : List ℕ)
    → count k (drop n cs ++ (held ++ take n cs)) ≡ count k held + count k cs
count_released k n held cs = omega (
  arith,
  ap (count k) (take-append-drop n cs),
  count-append k (take n cs) (drop n cs),
  count-append k (drop n cs) (held ++ take n cs),
  count-append k held (take n cs),
)

module _ (b : Backend) (clock : ℕ → ℕ) where
  open b use {State, Ready, given_back}

  -- After any packets and `stop_ingestion`, each context but the null pointer went back once for
  -- each time that it was handed over or pending, and the null pointer not at all.
  pub each_returned :
      (ps : List PacketDesc) (r : Reception State)
      → IsValid r.client.pending
      → AllLive (items r.client.pending)
      → Ready r.backend
      → let after = stop_ingestion b (deliver_all b clock ps r) in
        ((k : ℕ)
          → k ≢ 0
          → count k (given_back after.backend)
            ≡ count k (given_back r.backend)
              + count k (items r.client.pending)
              + count k (handed_over ps))
        × (count 0 (given_back after.backend) ≡ count 0 (given_back r.backend))
  unfolding ingest stop_ingestion released_by
  each_returned ps r v l ready =
      let (more, m) = stop_ingestion-Matches b clock ps r v l ready in
      let (emptied, out) = ingest_releases clock ps r.client v l in
      let held = items r.client.pending in
      let cs = contexts ps in
      let rest = drop (room r.client) cs ++ (held ++ take (room r.client) cs) in
      let after = stop_ingestion b (deliver_all b clock ps r) in
      let e : after.client.released ≡ r.client.released ++ rest =
        ap (λ (c : Client). (cleanup_processed_packets c).released) (client_handles b clock ps r)
        ∙ out in
      let same : more ≡ rest =
        same_rest r.client.released more rest after.client.released m.released e in
      let total = λ (k : ℕ).
        ap (count k) (m.returned ∙ ap (◌++◌ (given_back r.backend)) same)
        ∙ count-append k (given_back r.backend) rest
        ∙ ap (λ n. count k (given_back r.backend) + n) (count_released k (room r.client) held cs) in
      (
        λ k h. omega (arith, total k, count-contexts k ps h),
        omega (arith, total 0, count_live held l, count_live cs (contexts-AllLive ps)),
      )
