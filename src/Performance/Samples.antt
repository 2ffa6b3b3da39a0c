-- ===== src/Performance/Samples.antt =====
-- What `get_current_samples` returns after any calls of `record_timestamp`.
pub mod History
use mdfh_distrib.Common.{
  ℕ, zero, suc, ◌+◌, ◌-◌, ◌%◌, ◌^◌, ◌≤◌, ◌<◌, ◌≡◌, ◌≢◌, refl, ap, ap₂, sym, subst, ◌∙◌, Bool, true,
  false, not, ◌||◌, Option, none, some, List, [], ◌∷◌, ◌++◌, arith, length, drop, set, get_or,
  bit_and, min, replicate, length-replicate, length-set, length-append, drop-append, drop-drop,
  drop_all, ◌==◌, leb, ltb, if◌then◌else◌, ◌>>=◌, Bool-cases, inl, inr, append_assoc,
}
use mdfh_distrib.Common.Word.{u64, sub64}
use mdfh_distrib.Circular.Window.{window, length-window, window-add, drop-window}
use mdfh_distrib.Circular.Layout.{Layout, capacity_bounds, write-window, index_eq}
use mdfh_distrib.Common.Bits.{bit_and-mask}
use native.Mathlib.Nat.{one-le-pow, pow-le-pow_right, mod-eq_of_lt}
use mdfh_distrib.Performance.{
  StageTimestamps, no_stamps, PerformanceConfig, PerformanceTracker, record_timestamp, read_samples,
  get_current_samples,
}

-- the last `n` of a list
abbrev pub last {ℓ} : {A : Type ℓ} → ℕ → List A → List A
last n xs = drop (length xs - n) xs

-- The samples that are kept of the calls from number `count` on: every `rate`-th one.
abbrev pub sampled : ℕ → ℕ → List StageTimestamps → List StageTimestamps
sampled rate count [] = []
sampled rate count (x ∷ xs) =
    let rest = sampled rate (count + 1) xs in if count % rate == 0 then x ∷ rest else rest

-- Calls in a row, none of which fails.
unfoldable pub record_all : List StageTimestamps → PerformanceTracker → Option PerformanceTracker
record_all [] t = some t
record_all (x ∷ xs) t = record_timestamp x t >>= record_all xs

-- The tracker holds the last samples of a history, as many as there is room for.
pub record Holds (h : List StageTimestamps) (t : PerformanceTracker) : Type 0 where
  pub exponent : ℕ
  pub small : exponent ≤ 32
  pub capacity_eq : length t.timestamp_samples ≡ 2 ^ exponent
  pub mask_eq : t.sample_mask ≡ 2 ^ exponent - 1
  pub written : t.sample_write_pos ≡ length h
  pub kept :
      window no_stamps
        (length t.timestamp_samples)
        t.timestamp_samples
        (length h - length t.timestamp_samples)
        (min (length h) (length t.timestamp_samples))
      ≡ last (length t.timestamp_samples) h

module _ (s : List StageTimestamps) {k mask : ℕ} (small : k ≤ 32) (cap : length s ≡ 2 ^ k)
    (m : mask ≡ 2 ^ k - 1) where
  abbrev c : ℕ
  c = length s

  positive : 0 < c
  positive = omega (arith, one-le-pow k 2 (omega arith))

  bounded : c ≤ 2 ^ 32
  bounded = omega (arith, pow-le-pow_right {n = 2} (omega arith) small)

  -- the entries that stay, between the oldest of them and the write position
  layout : (w : ℕ) → w < 2 ^ 64 → Layout c c mask w (w + 1 - c)
  layout w h = record {
    exponent = k;
    small = small;
    capacity_eq = cap;
    mask_eq = m;
    storage = refl;
    write_word = h;
    read_word = omega (arith, positive);
    within = omega (arith, positive);
  }

  pub write_sample :
      (h : List StageTimestamps) (x : StageTimestamps)
      → length h + 1 < 2 ^ 64
      → window no_stamps c s (length h - c) (min (length h) c) ≡ last c h
      → window no_stamps c
          (set s (bit_and (length h) mask) x)
          (length (h ++ (x ∷ [])) - c)
          (min (length (h ++ (x ∷ []))) c)
        ≡ last c (h ++ (x ∷ []))
  write_sample h x word kept =
      let w = length h in
      let r = w + 1 - c in
      let n : length (h ++ (x ∷ [])) ≡ w + 1 = length-append h (x ∷ []) in
      let step = r - (w - c) in
      let at : (w - c) + step ≡ r = omega (arith, positive) in
      let held : min w c - step ≡ sub64 w r = omega (arith, positive) in
      let grown : sub64 (u64 (w + 1)) r ≡ min (w + 1) c = omega (arith, positive, bounded) in
      let stay : window no_stamps c s r (sub64 w r) ≡ drop r h =
        ap₂ (window no_stamps c s) (sym at) (sym held)
        ∙ sym (drop-window no_stamps c s (w - c) step (min w c) (omega (arith, positive)))
        ∙ ap (drop step) kept
        ∙ drop-drop step (w - c) h
        ∙ ap (λ t. drop t h) at in
      let written = write-window no_stamps s (layout w (omega arith)) x (omega (arith, positive)) in
      rw n (
        ap (window no_stamps c (set s (bit_and w mask) x) r) (sym grown)
        ∙ written
        ∙ ap (λ t. t ++ (x ∷ [])) stay
        ∙ sym (drop-append r h (x ∷ []) (omega (arith, positive))))

pub read_samples_lem :
    (samples : List StageTimestamps) (start mask i rounds : ℕ)
    → (k : ℕ) × (k ≤ 32) × (length samples ≡ 2 ^ k) × (mask ≡ 2 ^ k - 1)
    → start + i + rounds < 2 ^ 64
    → read_samples samples start mask i rounds
      ≡ window no_stamps (length samples) samples (start + i) rounds
unfolding read_samples
read_samples_lem samples start mask i zero v h = refl
read_samples_lem samples start mask i (suc rounds) (k, small, e, m) h =
    let at : bit_and (u64 (start + i)) mask ≡ (start + i) % length samples =
      rw (m, e)
        (bit_and-mask k (u64 (start + i)) ∙ ap (λ t. t % 2 ^ k) (mod-eq_of_lt (omega arith))) in
    let next : start + (i + 1) ≡ start + i + 1 = omega arith in
    ap₂ ◌∷◌ (ap (λ t. get_or samples t no_stamps) at) (
      read_samples_lem samples start mask (i + 1) rounds (k, small, e, m) (omega arith)
      ∙ ap (λ t. window no_stamps (length samples) samples t rounds) next)
