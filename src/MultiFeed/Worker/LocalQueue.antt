-- ===== src/MultiFeed/Worker/LocalQueue.antt =====
-- The feed's own buffer as a queue: what the I/O thread's pushes add, and what the rounds take.
use mdfh_distrib.Common.{
  ℕ, zero, suc, ◌-◌, ◌≡◌, refl, ap, ap₂, sym, ◌∙◌, List, [], ◌∷◌, ◌++◌, arith, length, take,
  append-nil, append_assoc, inl, inr, length-append, length-take, take-join, take_all,
}
use mdfh_distrib.Ring.{Slot, RingBuffer, try_push}
use mdfh_distrib.Ring.Invariant
use mdfh_distrib.Ring.Invariant.{
  try_push-IsValid, try_pop-IsValid, try_push-capacity, try_pop-capacity,
}
use mdfh_distrib.Ring.Refine.{items, try_push_cases}

-- The I/O thread pushes messages one after the other.
abbrev pub push_all : List Slot → RingBuffer → RingBuffer
push_all [] ring = ring
push_all (x ∷ xs) ring = push_all xs (try_push x ring).0

pub take_none {ℓ} : {A : Type ℓ} (n : ℕ) → [] ≡ take {A = A} n []
take_none zero = refl
take_none (suc n) = refl

-- What is added in two steps, each as far as there is room, is added in one.
pub join_takes {ℓ} :
    {A : Type ℓ} (base next out xs ys : List A) (room total : ℕ)
    → next ≡ base ++ take room xs
    → out ≡ next ++ take (total - length next) ys
    → room ≡ total - length base
    → out ≡ base ++ take room (xs ++ ys)
join_takes base next out xs ys room total one two e =
    let left : total - length next ≡ room - length xs =
      omega
        (arith, e, ap length one, length-append {_} base (take room xs), length-take {_} room xs) in
    two
    ∙ ap₂ (λ a n. a ++ take n ys) one left
    ∙ append_assoc base (take room xs) (take (room - length xs) ys)
    ∙ ap (◌++◌ base) (sym (take-join room xs ys))

pub push_all_lem :
    (xs : List Slot) (ring : RingBuffer)
    → Invariant.IsValid ring
    → (items (push_all xs ring) ≡ items ring ++ take (ring.capacity - length (items ring)) xs)
      × Invariant.IsValid (push_all xs ring)
      × ((push_all xs ring).capacity ≡ ring.capacity)
push_all_lem [] ring v =
    (sym (append-nil (items ring)) ∙ ap (◌++◌ (items ring)) (take_none _), v, refl)
push_all_lem (x ∷ xs) ring v =
    let next = (try_push x ring).0 in
    let room = ring.capacity - length (items ring) in
    let (all, w, c) = push_all_lem xs next (try_push-IsValid x v) in
    let same = try_push-capacity x ring in
    let one : items next ≡ items ring ++ take room (x ∷ []) = elim (try_push_cases v x) [
      | inl (free, done, e) ↦
          e ∙ ap (◌++◌ (items ring)) (sym (take_all room (x ∷ []) (omega arith)))
      | inr (full, done, e) ↦
          let none_free : 0 ≡ room = omega (arith, full) in
          e ∙ sym (append-nil (items ring)) ∙ ap (λ n. items ring ++ take n (x ∷ [])) none_free
    ] in
    (
      join_takes (items ring) (items next) (items (push_all xs next)) (x ∷ []) xs room ring.capacity
          one (all ∙ ap (λ n. items next ++ take (n - length (items next)) xs) same) refl,
      w,
      c ∙ same,
    )

-- The reference: a queue of `capacity` slots. What a push of several adds, and several such pushes.
abbrev pub enqueue : ℕ → List Slot → List Slot → List Slot
enqueue capacity q xs = q ++ take (capacity - length q) xs

abbrev pub enqueue_all : ℕ → List Slot → List (List Slot) → List Slot
enqueue_all capacity q [] = q
enqueue_all capacity q (xs ∷ later) = enqueue_all capacity (enqueue capacity q xs) later

-- What a round takes out of the queue, and what it leaves: a slot after each push while there is one;
-- all of them when the pushes have ended before the queue was found empty.
abbrev pub queue_round : ℕ → List (List Slot) → List Slot → List Slot × List Slot
queue_round capacity [] q = (q, [])
queue_round capacity (xs ∷ later) q = elim (enqueue capacity q xs) [
  | [] ↦ ([], enqueue_all capacity [] later)
  | y ∷ ys ↦ (y ∷ (queue_round capacity later ys).0, (queue_round capacity later ys).1)
]

-- A round once the first push has made the queue `q`.
abbrev pub after_push : ℕ → List (List Slot) → List Slot → List Slot × List Slot
after_push capacity later [] = ([], enqueue_all capacity [] later)
after_push capacity later (y ∷ ys) =
    (y ∷ (queue_round capacity later ys).0, (queue_round capacity later ys).1)

pub queue_round-cons :
    (capacity : ℕ) (xs : List Slot) (later : List (List Slot)) (q q' : List Slot)
    → enqueue capacity q xs ≡ q'
    → queue_round capacity (xs ∷ later) q ≡ after_push capacity later q'
queue_round-cons capacity xs later q [] e = rw (queue_round, e) refl
queue_round-cons capacity xs later q (y ∷ ys) e = rw (queue_round, e) refl

abbrev pub queue_rounds : ℕ → List (List (List Slot)) → List Slot → List Slot × List Slot
queue_rounds capacity [] q = ([], q)
queue_rounds capacity (pushes ∷ later) q =
    let (taken, left) = queue_round capacity pushes q in
    let (more, left') = queue_rounds capacity later left in (taken ++ more, left')
