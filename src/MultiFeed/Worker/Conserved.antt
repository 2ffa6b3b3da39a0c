-- ===== src/MultiFeed/Worker/Conserved.antt =====
-- Nothing is lost between the I/O thread and a worker whose own buffer is large enough.
use mdfh_distrib.Common.{
  ℕ, ◌+◌, ◌-◌, ◌≤◌, ◌≡◌, refl, ap, sym, ◌∙◌, List, [], ◌∷◌, ◌++◌, arith, length, append-nil,
  append_assoc, length-append, take_all,
}
use mdfh_distrib.Ring.{Slot}
use mdfh_distrib.MultiFeed.Worker.LocalQueue.{
  enqueue, enqueue_all, queue_round, after_push, queue_round-cons, queue_rounds,
}

-- All slots of some pushes, and of the pushes of some rounds.
abbrev pub pushed : List (List Slot) → List Slot
pushed [] = []
pushed (xs ∷ later) = xs ++ pushed later

abbrev pub pushed_in : List (List (List Slot)) → List Slot
pushed_in [] = []
pushed_in (pushes ∷ later) = pushed pushes ++ pushed_in later

enqueue-fits :
    (capacity : ℕ) (q xs : List Slot)
    → length q + length xs ≤ capacity
    → enqueue capacity q xs ≡ q ++ xs
enqueue-fits capacity q xs h = ap (◌++◌ q) (take_all (capacity - length q) xs (omega (arith, h)))

enqueue_all-fits :
    (capacity : ℕ) (later : List (List Slot)) (q : List Slot)
    → length q + length (pushed later) ≤ capacity
    → enqueue_all capacity q later ≡ q ++ pushed later
enqueue_all-fits capacity [] q h = sym (append-nil q)
enqueue_all-fits capacity (xs ∷ later) q h =
    let sizes = length-append xs (pushed later) in
    ap (λ t. enqueue_all capacity t later) (enqueue-fits capacity q xs (omega (arith, h, sizes)))
    ∙ enqueue_all-fits capacity later (q ++ xs) (omega (arith, h, sizes, length-append q xs))
    ∙ append_assoc q xs (pushed later)

after_push_all :
    (capacity : ℕ) (later : List (List Slot)) (q : List Slot)
    → ((ys : List Slot)
        → length ys + length (pushed later) ≤ capacity
        → let (taken, left) = queue_round capacity later ys in taken ++ left ≡ ys ++ pushed later)
    → length q + length (pushed later) ≤ capacity
    → let (taken, left) = after_push capacity later q in taken ++ left ≡ q ++ pushed later
after_push_all capacity later [] rest h = enqueue_all-fits capacity later [] h
after_push_all capacity later (y ∷ ys) rest h = ap (◌∷◌ y) (rest ys (omega (arith, h)))

round_all :
    (capacity : ℕ) (pushes : List (List Slot)) (q : List Slot)
    → length q + length (pushed pushes) ≤ capacity
    → let (taken, left) = queue_round capacity pushes q in taken ++ left ≡ q ++ pushed pushes
round_all capacity [] q h = refl
round_all capacity (xs ∷ later) q h =
    let sizes = length-append xs (pushed later) in
    let filled = enqueue-fits capacity q xs (omega (arith, h, sizes)) in
    ap (λ p. p.0 ++ p.1) (queue_round-cons capacity xs later q (q ++ xs) filled)
    ∙ after_push_all capacity later (q ++ xs) (round_all capacity later)
        (omega (arith, h, sizes, length-append q xs))
    ∙ append_assoc q xs (pushed later)

-- When the capacity is enough for the queue and all that is pushed, the rounds take out and leave
-- exactly the queue and the pushed slots, in order.
pub queue_rounds_all :
    (capacity : ℕ) (rounds : List (List (List Slot))) (q : List Slot)
    → length q + length (pushed_in rounds) ≤ capacity
    → let (taken, left) = queue_rounds capacity rounds q in taken ++ left ≡ q ++ pushed_in rounds
queue_rounds_all capacity [] q h = sym (append-nil q)
queue_rounds_all capacity (pushes ∷ later) q h =
    let (taken, left) = queue_round capacity pushes q in
    let (more, left') = queue_rounds capacity later left in
    let sizes = length-append (pushed pushes) (pushed_in later) in
    let one = round_all capacity pushes q (omega (arith, h, sizes)) in
    let fits : length left + length (pushed_in later) ≤ capacity =
      omega (
        arith,
        h,
        sizes,
        ap length one,
        length-append taken left,
        length-append q (pushed pushes),
      ) in
    append_assoc taken more left'
    ∙ ap (◌++◌ taken) (queue_rounds_all capacity later left fits)
    ∙ sym (append_assoc taken left (pushed_in later))
    ∙ ap (λ t. t ++ pushed_in later) one
    ∙ append_assoc q (pushed pushes) (pushed_in later)
