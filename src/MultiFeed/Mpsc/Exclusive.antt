-- ===== src/MultiFeed/Mpsc/Exclusive.antt =====
-- Two producers of `MPSCRingBuffer` that have claimed positions write different entries.
use mdfh_distrib.Common.{
  ap, sym, subst, ◌∙◌, ℕ, ◌+◌, ◌-◌, ◌%◌, ◌^◌, ◌≤◌, ◌<◌, ◌≡◌, ◌≢◌, ◌⊎◌, arith, bit_and, get_or,
  length, Bool-cases, inl, inr, ltb,
}
use mdfh_distrib.Common.Bits.{bit_and-mask, mod-ne}
use mdfh_distrib.MultiFeed.Mpsc.{MultiFeedSlot, fresh}
use mdfh_distrib.MultiFeed.Mpsc.Race.{claimed}
use native.Mathlib.Nat.{one-le-pow, pow-le-pow_right}
use mdfh_distrib.MultiFeed.Mpsc.Producers.{Shared, Run}
use mdfh_distrib.MultiFeed.Mpsc.Claims.{Run-IsValid, ring_kept, claim}

positions_apart :
    (k w v r : ℕ) → w < v → r ≤ w → v < r + 2 ^ k → bit_and v (2 ^ k - 1) ≢ bit_and w (2 ^ k - 1)
positions_apart k w v r lt low high same =
    let apart_by : v ≡ w + (v - w) = omega arith in
    mod-ne w (v - w) (2 ^ k) (omega arith) (omega arith)
      (sym (ap (λ t. t % 2 ^ k) apart_by) ∙ sym (bit_and-mask k v) ∙ same ∙ bit_and-mask k w)

-- However any number of producers and the consumer interleave on a fresh buffer of 2^k slots, k at
-- most 32, while fewer than 2^64 exchanges have succeeded: whenever two producers are about to write,
-- they have claimed different positions, and, if the consumer has passed neither of these, different
-- entries of the array; and at that moment the write position counts the exchanges, and is between the
-- read position and 2^k ahead of it.
pub exclusive_slots :
    {k : ℕ} {s : Shared} {x y : MultiFeedSlot} {w w' : ℕ}
    → k ≤ 32
    → Run (fresh (2 ^ k)) s
    → length s.owners < 2 ^ 64
    → (p q : ℕ) → p ≢ q
    → s.producers p ≡ claimed x w
    → s.producers q ≡ claimed y w'
    → (w ≢ w')
      × ((bit_and w s.ring.mask ≢ bit_and w' s.ring.mask)
          ⊎ (w < s.ring.read_pos)
          ⊎ (w' < s.ring.read_pos))
      × (s.ring.write_pos ≡ length s.owners)
      × (s.ring.read_pos ≤ s.ring.write_pos)
      × (s.ring.write_pos ≤ s.ring.read_pos + 2 ^ k)
exclusive_slots {k} {s} {w = w} {w' = w'} small run bound p q other at_p at_q =
    let v = Run-IsValid run bound in
    let kept = ring_kept run in
    let one = claim v p at_p in
    let two = claim v q at_q in
    let size : (0 < 2 ^ k) × (2 ^ k ≤ 2 ^ 32) =
      omega (arith, one-le-pow k 2 (omega arith), pow-le-pow_right {n = 2} (omega arith) small) in
    let mask : s.ring.mask ≡ 2 ^ k - 1 = omega (arith, kept.1) in
    let differ : w ≢ w' = λ same. other (sym one.1 ∙ ap (λ t. get_or s.owners t 0) same ∙ two.1) in
    (
      differ,
      elim (Bool-cases (ltb w s.ring.read_pos)) [
        | inl passed ↦ inr (inl (ground (arith, passed)))
        | inr left ↦ elim (Bool-cases (ltb w' s.ring.read_pos)) [
          | inl passed ↦ inr (inr (ground (arith, passed)))
          | inr left' ↦ elim (Bool-cases (ltb w w')) [
            | inl below ↦ inl (λ same.
                positions_apart k w w' s.ring.read_pos (ground (arith, below))
                  (ground (arith, left)) (omega (arith, v.within, kept.0, two.0))
                  (subst (λ m. bit_and w' m ≡ bit_and w m) mask (sym same)))
            | inr above ↦ inl (λ same.
                positions_apart k w' w s.ring.read_pos (ground (arith, above, differ))
                  (ground (arith, left')) (omega (arith, v.within, kept.0, one.0))
                  (subst (λ m. bit_and w m ≡ bit_and w' m) mask same))
          ]
        ]
      ],
      v.counted,
      v.ordered,
      omega (arith, v.within, kept.0),
    )
