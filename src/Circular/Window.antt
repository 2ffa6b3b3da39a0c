-- ===== src/Circular/Window.antt =====
-- A circular array: the entries that a run of positions addresses, by `position % capacity`. The
-- buffers of src/ring_buffer.cpp, src/multi_feed_ingestion.cpp, src/kernel_bypass.cpp and
-- src/performance_tracker.cpp are such arrays; `&` with their masks is the remainder.
use mdfh_distrib.Common.{
  ℕ, zero, suc, ◌+◌, ◌-◌, ◌%◌, ◌≤◌, ◌<◌, ◌≡◌, refl, sym, ap, ap₂, ◌∙◌, ◌≢◌, List, [], ◌∷◌, ◌++◌,
  arith, length, get_or, set, take, drop, get_or-set_self, get_or-set_ne,
}
use mdfh_distrib.Common.Bits.{mod-ne}
use native.Mathlib.Nat.{mod-add-mod, mod-lt}

-- `d` stands for a read out of range, which a buffer of `cap` entries never makes.
module _ {ℓ} {A : Type ℓ} (d : A) (cap : ℕ) where
  -- the `n` entries from position `h` on
  abbrev pub window : List A → ℕ → ℕ → List A
  window s h zero = []
  window s h (suc n) = get_or s (h % cap) d ∷ window s (h + 1) n

  pub length-window : (s : List A) (h n : ℕ) → length (window s h n) ≡ n
  length-window s h zero = refl
  length-window s h (suc n) = ap suc (length-window s (h + 1) n)

  -- Positions with the same remainder address the same entries.
  pub window_cong : (s : List A) (g h n : ℕ) → g % cap ≡ h % cap → window s g n ≡ window s h n
  window_cong s g h zero e = refl
  window_cong s g h (suc n) e = ap₂ ◌∷◌ (ap (λ i. get_or s i d) e) (
      window_cong s (g + 1) (h + 1) n
        (sym (mod-add-mod g cap 1) ∙ ap (λ t. (t + 1) % cap) e ∙ mod-add-mod h cap 1))

  pub window-add :
      (s : List A) (h m n : ℕ) → window s h (m + n) ≡ window s h m ++ window s (h + m) n
  window-add s h zero n =
      let e : 0 + n ≡ n = omega arith in let e' : h + 0 ≡ h = omega arith in rw (e, e')
  window-add s h (suc m) n =
      let e : suc m + n ≡ suc (m + n) = omega arith in
      let e' : h + suc m ≡ h + 1 + m = omega arith in
      rw (e, e') (ap (◌∷◌ (get_or s (h % cap) d)) (window-add s (h + 1) m n))

  -- A write at a position that is not within the run leaves it alone.
  pub window-set_outside :
      (s : List A) (h n i : ℕ) (x : A)
      → h + n ≤ i
      → i < h + cap
      → window (set s (i % cap) x) h n ≡ window s h n
  window-set_outside s h zero i x lo hi = refl
  window-set_outside s h (suc n) i x lo hi =
      ap₂ ◌∷◌ (get_or-set_ne s (i % cap) (h % cap) x d apart)
        (window-set_outside s (h + 1) n i x (omega arith) (omega arith))
    where
      apart : i % cap ≢ h % cap
      apart =
          let e : h + (i - h) ≡ i = omega arith in
          rw (← e) (mod-ne h (i - h) cap (omega arith) (omega arith))

  -- A write at the position behind the run extends it.
  pub window-push :
      (s : List A) (h n i : ℕ) (x : A)
      → cap ≤ length s
      → n < cap
      → i % cap ≡ (h + n) % cap
      → window (set s (i % cap) x) h (n + 1) ≡ window s h n ++ (x ∷ [])
  window-push s h n i x long room e =
      window-add (set s (i % cap) x) h n 1
      ∙ rw (e) (
          ap₂ ◌++◌ (window-set_outside s h n (h + n) x (omega arith) (omega arith)) (
            ap (λ y. y ∷ [])
              (get_or-set_self s ((h + n) % cap) x d
                (omega (arith, mod-lt (h + n) {m = cap} (omega arith))))))

  -- The first entry of a run that is not empty.
  pub window-pop :
      (s : List A) (h n : ℕ)
      → n ≢ 0
      → window s h n ≡ get_or s (h % cap) d ∷ window s (h + 1) (n - 1)
  window-pop s h zero p = absurd (p refl)
  window-pop s h (suc n) p = let e : suc n - 1 ≡ n = omega arith in rw e

  pub take-window : (s : List A) (h m n : ℕ) → m ≤ n → take m (window s h n) ≡ window s h m
  take-window s h zero n p = refl
  take-window s h (suc m) zero p = absurd (omega arith)
  take-window s h (suc m) (suc n) p =
      ap (◌∷◌ (get_or s (h % cap) d)) (take-window s (h + 1) m n (omega arith))

  pub drop-window :
      (s : List A) (h m n : ℕ) → m ≤ n → drop m (window s h n) ≡ window s (h + m) (n - m)
  drop-window s h zero n p =
      let e : h + 0 ≡ h = omega arith in let e' : n - 0 ≡ n = omega arith in rw (e, e')
  drop-window s h (suc m) zero p = absurd (omega arith)
  drop-window s h (suc m) (suc n) p =
      let e : h + suc m ≡ h + 1 + m = omega arith in
      let e' : suc n - suc m ≡ n - m = omega arith in
      rw (e, e') (drop-window s (h + 1) m n (omega arith))
