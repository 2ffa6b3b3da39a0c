-- ===== src/Bypass/Held.antt =====
-- The pending packets as a queue of contexts, and what becomes of a packet's context.
use mdfh_distrib.Common.{
  ℕ, zero, suc, ◌+◌, ◌<◌, ◌≡◌, ◌≢◌, ◌⊎◌, inl, inr, refl, ap, subst, ◌∙◌, true, false, List, [], ◌∷◌,
  ◌++◌, arith, length, bit_and, length-set, append_assoc, append-nil, ltb, ◌==◌, if◌then◌else◌,
  Bool-cases,
}
use mdfh_distrib.Common.Word.{sub64}
use mdfh_distrib.Circular.Window.{window, length-window}
use mdfh_distrib.Circular.Layout.{Layout, write-window, read-window}
use mdfh_distrib.Bypass.{
  Pending, no_pending, max_pending, pending_mask, PacketDesc, Client, try_add_pending_packet,
  try_get_pending_packet, keep_or_release, cleanup_loop,
}

abbrev pub IsValid : Pending → Type 0
IsValid p = Layout (length p.packets) max_pending pending_mask p.write_pos p.read_pos

pub no_pending-IsValid : IsValid no_pending
no_pending-IsValid = record {
  exponent = 10;
  small = omega arith;
  capacity_eq = refl;
  mask_eq = refl;
  storage = refl;
  write_word = omega arith;
  read_word = omega arith;
  within = omega arith;
}

-- The contexts held, oldest first.
abbrev pub items : Pending → List ℕ
items p = window 0 max_pending p.packets p.read_pos (sub64 p.write_pos p.read_pos)

pub length-items : (p : Pending) → length (items p) ≡ sub64 p.write_pos p.read_pos
length-items p = length-window 0 max_pending p.packets p.read_pos _

add_cases :
    (x : ℕ) (p : Pending)
    → IsValid p
    → ((length (items p) < max_pending)
        × ((try_add_pending_packet x p).1 ≡ true)
        × (items (try_add_pending_packet x p).0 ≡ items p ++ (x ∷ []))
        × IsValid (try_add_pending_packet x p).0)
      ⊎ ((length (items p) ≡ max_pending)
          × ((try_add_pending_packet x p).1 ≡ false)
          × ((try_add_pending_packet x p).0 ≡ p))
unfolding try_add_pending_packet
add_cases x p v = elim (Bool-cases (ltb (sub64 p.write_pos p.read_pos) max_pending)) [
  | inl room ↦ inl (
    ground (arith, room, length-items p),
    ground (arith, room),
    ground (arith, room, write-window 0 p.packets v x),
    ground (arith, room, v, length-set p.packets (bit_and p.write_pos pending_mask) x),
  )
  | inr full ↦
      inr
        (ground (arith, full, length-items p, v.within), ground (arith, full), ground (arith, full))
]

get_cases :
    (p : Pending)
    → IsValid p
    → ((items p ≡ []) × (try_get_pending_packet p ≡ (p, 0)))
      ⊎ ((items p ≡ (try_get_pending_packet p).1 ∷ items (try_get_pending_packet p).0)
          × IsValid (try_get_pending_packet p).0)
unfolding try_get_pending_packet
get_cases p v = elim (Bool-cases (p.read_pos == p.write_pos)) [
  | inl none_left ↦ inl (
    ground (
      arith,
      none_left,
      v.write_word,
      ap (window 0 max_pending p.packets p.read_pos) {x = sub64 p.write_pos p.read_pos} {y = 0},
    ),
    ground (arith, none_left),
  )
  | inr some_left ↦ inr (
    ground (arith, some_left, read-window 0 p.packets v, v.read_word, v.write_word),
    ground (arith, some_left, v),
  )
]

-- None of them is the null pointer.
abbrev pub AllLive : List ℕ → Type 0
AllLive [] = Unit
AllLive (x ∷ xs) = (x ≢ 0) × AllLive xs

pub AllLive-append : (xs : List ℕ) (x : ℕ) → AllLive xs → x ≢ 0 → AllLive (xs ++ (x ∷ []))
AllLive-append [] x l h = (h, tt)
AllLive-append (y ∷ ys) x (p, l) h = (p, AllLive-append ys x l h)

-- the contexts of packets that have one
abbrev pub contexts : List PacketDesc → List ℕ
contexts [] = []
contexts (p ∷ ps) = if p.context == 0 then contexts ps else p.context ∷ contexts ps

pub cleanup_loop_lem :
    (fuel : ℕ) (p : Pending) (released : List ℕ)
    → IsValid p
    → AllLive (items p)
    → length (items p) < fuel
    → let (p', out) = cleanup_loop fuel (p, released) in
      (items p' ≡ []) × (out ≡ released ++ items p)
unfolding cleanup_loop
cleanup_loop_lem zero p released v l h = ground (arith, h)
cleanup_loop_lem (suc fuel) p released v l h = elim (get_cases p v) [
  | inl (nil, e) ↦ ground (arith, e, nil, append-nil released)
  | inr (split, v') ↦
      let x = (try_get_pending_packet p).1 in
      let p' = (try_get_pending_packet p).0 in
      let (live, l') = subst AllLive split l in
      let less : length (items p) ≡ length (items p') + 1 = ap length split ∙ omega arith in
      let (emptied, out) =
        cleanup_loop_lem fuel p' (released ++ (x ∷ [])) v' l' (omega (arith, less)) in
      ground (arith, live, emptied, out, split, append_assoc released (x ∷ []) (items p'))
]

-- What `keep_or_release` does with a context: nothing, keep it, or release it.
pub keep_cases :
    (x : ℕ) (c : Client)
    → IsValid c.pending
    → let c' = keep_or_release x c in
      (c'.config ≡ c.config)
      × (((x ≡ 0) × (c'.pending ≡ c.pending) × (c'.released ≡ c.released))
          ⊎ ((x ≢ 0)
              × (c.config.enable_zero_copy ≡ true)
              × (length (items c.pending) < max_pending)
              × (items c'.pending ≡ items c.pending ++ (x ∷ []))
              × IsValid c'.pending
              × (c'.released ≡ c.released))
          ⊎ ((x ≢ 0)
              × ((c.config.enable_zero_copy ≡ false) ⊎ (length (items c.pending) ≡ max_pending))
              × (c'.pending ≡ c.pending)
              × (c'.released ≡ c.released ++ (x ∷ []))))
unfolding keep_or_release
keep_cases x c v = elim (Bool-cases (x == 0)) [
  | inl null ↦
      (ground (arith, null), inl (ground (arith, null), ground (arith, null), ground (arith, null)))
  | inr live ↦ elim (Bool-cases c.config.enable_zero_copy) [
    | inl on ↦ elim (add_cases x c.pending v) [
      | inl (room, done, e, v') ↦ (
        rw (live, on, done) refl,
        inr (
            inl (
              ground (arith, live),
              on,
              room,
              rw (live, on, done) e,
              rw (live, on, done) v',
              rw (live, on, done) refl,
            )),
      )
      | inr (full, done, e) ↦ (
        rw (live, on, done) refl,
        inr (inr (ground (arith, live), inr full, rw (live, on, done) e, rw (live, on, done) refl)),
      )
    ]
    | inr off ↦ (
      rw (live, off) refl,
      inr (inr (ground (arith, live), inl off, rw (live, off) refl, rw (live, off) refl)),
    )
  ]
]
