-- ===== src/MultiFeed/Mpsc/Claims.antt =====
-- What the exchanges of several producers keep: which producer owns each position claimed, and how
-- far the write position is ahead.
use mdfh_distrib.Common.{
  zero, suc, sym, subst, ◌∙◌, ℕ, ◌+◌, ◌^◌, ◌≤◌, ◌<◌, ◌≡◌, refl, List, [], ◌∷◌, ◌++◌, arith, get_or,
  length, length-append, ◌==◌, if◌then◌else◌, Bool-cases, inl, inr, ==_iff,
}
use mdfh_distrib.Common.Word.{u64, sub64}
use mdfh_distrib.MultiFeed.Mpsc.{MultiFeedSlot, fresh}
use mdfh_distrib.MultiFeed.Mpsc.Race.{Producer, idle, loaded_write, loaded_read, claimed}
use mdfh_distrib.MultiFeed.Mpsc.Producers.{Shared, update, Move, Run, start, later}

-- What is known of a producer `p` at its stage.
abbrev Stage : (p wp rp : ℕ) → List ℕ → Producer → Type 0
Stage p wp rp owners idle = Unit
Stage p wp rp owners (loaded_write x w) = w ≤ wp
Stage p wp rp owners (loaded_read x w d) = (w ≤ wp) × (d ≤ rp)
Stage p wp rp owners (claimed x w) = (w < length owners) × (get_or owners w 0 ≡ p)

pub record IsValid (s : Shared) : Type 0 where
  pub counted : s.ring.write_pos ≡ length s.owners
  pub ordered : s.ring.read_pos ≤ s.ring.write_pos
  pub within : s.ring.write_pos ≤ s.ring.read_pos + s.ring.capacity
  stages : (p : ℕ) → Stage p s.ring.write_pos s.ring.read_pos s.owners (s.producers p)

get_or-append : (xs ys : List ℕ) (i d : ℕ) → i < length xs → get_or (xs ++ ys) i d ≡ get_or xs i d
get_or-append [] ys i d h = absurd (omega arith)
get_or-append (x ∷ xs) ys zero d h = refl
get_or-append (x ∷ xs) ys (suc i) d h = get_or-append xs ys i d (omega arith)

get_or-last : (xs : List ℕ) (x d : ℕ) → get_or (xs ++ (x ∷ [])) (length xs) d ≡ x
get_or-last [] x d = refl
get_or-last (y ∷ ys) x d = get_or-last ys x d

Stage-grow :
    (p wp rp wp' rp' : ℕ) (owners more : List ℕ) (stage : Producer)
    → wp ≤ wp'
    → rp ≤ rp'
    → Stage p wp rp owners stage
    → Stage p wp' rp' (owners ++ more) stage
Stage-grow p wp rp wp' rp' owners more idle a b h = tt
Stage-grow p wp rp wp' rp' owners more (loaded_write x w) a b h = omega (arith, h)
Stage-grow p wp rp wp' rp' owners more (loaded_read x w d) a b h =
    (omega (arith, h.0), omega (arith, h.1))
Stage-grow p wp rp wp' rp' owners more (claimed x w) a b (lt, e) =
    (omega (arith, lt, length-append owners more), get_or-append owners more w 0 lt ∙ e)

Stage-pop :
    (p wp rp rp' : ℕ) (owners : List ℕ) (stage : Producer)
    → rp ≤ rp'
    → Stage p wp rp owners stage
    → Stage p wp rp' owners stage
Stage-pop p wp rp rp' owners idle b h = tt
Stage-pop p wp rp rp' owners (loaded_write x w) b h = h
Stage-pop p wp rp rp' owners (loaded_read x w d) b h = (h.0, omega (arith, h.1))
Stage-pop p wp rp rp' owners (claimed x w) b h = h

-- One producer moves to another stage, and the others stay.
Stage-update :
    (P : ℕ → Producer → Type 0) (p : ℕ) (stage : Producer) (f : ℕ → Producer)
    → P p stage
    → ((q : ℕ) → P q (f q))
    → (q : ℕ) → P q (update p stage f q)
Stage-update P p stage f one rest q = elim (Bool-cases (p == q)) [
  | inl same ↦
      let e : p ≡ q = (==_iff p q).0 same in
      subst (λ b. P q (if b then stage else f q)) (sym same) (subst (λ k. P k stage) e one)
  | inr other ↦ subst (λ b. P q (if b then stage else f q)) (sym other) (rest q)
]

-- What a producer does between its exchanges leaves the positions.
Stage-IsValid :
    {s : Shared} (p : ℕ) (stage : Producer)
    → IsValid s
    → Stage p s.ring.write_pos s.ring.read_pos s.owners stage
    → (q : ℕ) → Stage q s.ring.write_pos s.ring.read_pos s.owners (update p stage s.producers q)
Stage-IsValid {s} p stage v one =
    Stage-update (λ q. Stage q s.ring.write_pos s.ring.read_pos s.owners) p stage s.producers one
      v.stages

-- A successful exchange is the one at its position, and the positions stay within the capacity.
exchange-IsValid :
    {s : Shared} (p : ℕ) (x : MultiFeedSlot) (w d : ℕ)
    → s.producers p ≡ loaded_read x w d
    → sub64 w d < s.ring.capacity
    → s.ring.write_pos ≡ w
    → length s.owners + 1 < 2 ^ 64
    → IsValid s
    → IsValid (record s {
      ring = record s.ring { write_pos = u64 (w + 1) };
      producers = update p (claimed x w) s.producers;
      owners = s.owners ++ (p ∷ []);
    })
exchange-IsValid {s} p x w d at room same bound v =
    let seen : Stage p s.ring.write_pos s.ring.read_pos s.owners (loaded_read x w d) =
      subst (Stage p s.ring.write_pos s.ring.read_pos s.owners) at (v.stages p) in
    let next : u64 (w + 1) ≡ w + 1 = omega (arith, v.counted) in
    let owned : length (s.owners ++ (p ∷ [])) ≡ length s.owners + 1 =
      length-append s.owners (p ∷ []) in
    let last : get_or (s.owners ++ (p ∷ [])) w 0 ≡ p =
      subst (λ k. get_or (s.owners ++ (p ∷ [])) k 0 ≡ p) (sym v.counted ∙ same)
        (get_or-last s.owners p 0) in
    record {
      counted = omega (arith, v.counted);
      ordered = omega (arith, v.ordered);
      within = omega (arith, v.ordered, v.counted, seen.1);
      stages =
          Stage-update (λ q. Stage q (u64 (w + 1)) s.ring.read_pos (s.owners ++ (p ∷ []))) p
            (claimed x w) s.producers (omega (arith, v.counted), last)
            (λ q.
              Stage-grow q s.ring.write_pos s.ring.read_pos (u64 (w + 1)) s.ring.read_pos s.owners
                (p ∷ []) (s.producers q) (omega arith) (omega arith) (v.stages q));
    }

Move-IsValid : {s t : Shared} → Move s t → length t.owners < 2 ^ 64 → IsValid s → IsValid t
Move-IsValid {s} (Move.load_write p x at) bound v = record {
  counted = v.counted;
  ordered = v.ordered;
  within = v.within;
  stages = Stage-IsValid p (loaded_write x s.ring.write_pos) v (omega arith);
}
Move-IsValid {s} (Move.load_read p {x} {w} at) bound v =
    let seen = subst (Stage p s.ring.write_pos s.ring.read_pos s.owners) at (v.stages p) in
    record {
      counted = v.counted;
      ordered = v.ordered;
      within = v.within;
      stages = Stage-IsValid p (loaded_read x w s.ring.read_pos) v (seen, omega arith);
    }
Move-IsValid (Move.give_up p at) bound v = record {
  counted = v.counted;
  ordered = v.ordered;
  within = v.within;
  stages = Stage-IsValid p idle v tt;
}
Move-IsValid {s} (Move.exchange p {x} {w} {d} at room same) bound v =
    exchange-IsValid p x w d at room same (omega (arith, bound, length-append s.owners (p ∷ []))) v
Move-IsValid (Move.write p at) bound v = record {
  counted = v.counted;
  ordered = v.ordered;
  within = v.within;
  stages = Stage-IsValid p idle v tt;
}
Move-IsValid {s} (Move.pop some_left) bound v =
    let next : u64 (s.ring.read_pos + 1) ≡ s.ring.read_pos + 1 = omega (arith, v.counted) in
    record {
      counted = v.counted;
      ordered = omega arith;
      within = omega (arith, v.within);
      stages = λ q.
          Stage-pop q s.ring.write_pos s.ring.read_pos (u64 (s.ring.read_pos + 1)) s.owners
            (s.producers q) (omega arith) (v.stages q);
    }

owners-grow : {s t : Shared} → Move s t → length s.owners ≤ length t.owners
owners-grow (Move.load_write p x at) = omega arith
owners-grow (Move.load_read p at) = omega arith
owners-grow (Move.give_up p at) = omega arith
owners-grow {s} (Move.exchange p at room same) = omega (arith, length-append s.owners (p ∷ []))
owners-grow (Move.write p at) = omega arith
owners-grow (Move.pop some_left) = omega arith

pub Run-IsValid :
    {capacity : ℕ} {s : Shared} → Run (fresh capacity) s → length s.owners < 2 ^ 64 → IsValid s
Run-IsValid start bound = record {
  counted = refl;
  ordered = omega arith;
  within = omega arith;
  stages = λ p. tt;
}
Run-IsValid (later run move) bound =
    Move-IsValid move bound (Run-IsValid run (omega (arith, bound, owners-grow move)))

pub ring_kept :
    {capacity : ℕ} {s : Shared}
    → Run (fresh capacity) s
    → (s.ring.capacity ≡ capacity) × (s.ring.mask ≡ sub64 capacity 1)
ring_kept start = (refl, refl)
ring_kept (later run (Move.load_write p x at)) = ring_kept run
ring_kept (later run (Move.load_read p at)) = ring_kept run
ring_kept (later run (Move.give_up p at)) = ring_kept run
ring_kept (later run (Move.exchange p at room same)) = ring_kept run
ring_kept (later run (Move.write p at)) = ring_kept run
ring_kept (later run (Move.pop some_left)) = ring_kept run

-- What a producer has claimed lies below the write position, and is its own.
pub claim :
    {s : Shared} {x : MultiFeedSlot} {w : ℕ}
    → IsValid s
    → (p : ℕ) → s.producers p ≡ claimed x w
    → (w < s.ring.write_pos) × (get_or s.owners w 0 ≡ p)
claim {s} v p at =
    let one = subst (Stage p s.ring.write_pos s.ring.read_pos s.owners) at (v.stages p) in
    (omega (arith, one.0, v.counted), one.1)
