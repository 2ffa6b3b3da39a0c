-- ===== src/MultiFeed/Dispatcher.antt =====
-- `FanInDispatcher` and the loop of `MultiFeedIngestionBenchmark`, on the workers' monitors and the
-- global buffer.
use mdfh_distrib.Common.{
  ℕ, ◌+◌, ◌^◌, ◌≤◌, ◌<◌, ◌≡◌, ◌⊎◌, inl, inr, refl, ap, Bool, true, false, not, ◌&&◌, Option, none,
  some, List, [], ◌∷◌, ◌++◌, arith, map, if◌then◌else◌, ltb, leb, Bool-cases, Option-cases,
}
use mdfh_distrib.Common.Word.{u64}
use mdfh_distrib.MultiFeed.Mpsc.{MpscRingBuffer, try_pop}
use mdfh_distrib.MultiFeed.Monitor.{FeedMonitor, is_healthy, check_health}

-- `total_messages_received`
unfoldable pub add_received : ℕ → List FeedMonitor → ℕ
add_received total [] = total
add_received total (m ∷ ms) = add_received (u64 (total + m.messages_received)) ms

unfoldable pub total_messages_received : List FeedMonitor → ℕ
total_messages_received ms = add_received 0 ms

-- The first loop of `promote_backup_feeds`: is some primary feed healthy?
unfoldable pub primary_healthy : List FeedMonitor → Bool
primary_healthy [] = false
primary_healthy (m ∷ ms) =
    let rest = primary_healthy ms in if m.config.is_primary && is_healthy m then true else rest

-- The second loop: the feed whose name is printed.
unfoldable pub first_backup : List FeedMonitor → Option FeedMonitor
first_backup [] = none
first_backup (m ∷ ms) =
    let rest = first_backup ms in if not m.config.is_primary && is_healthy m then some m else rest

-- The name in the line that it prints, "Promoting backup feed ... to primary". It changes nothing: no
-- feed becomes primary.
unfoldable pub promote_backup_feeds : List FeedMonitor → Option (List ℕ)
promote_backup_feeds ms =
    let printed : Option (List ℕ) = elim (first_backup ms) [
      | none ↦ none
      | some m ↦ some m.config.name
    ] in
    if not (primary_healthy ms) then printed else none

-- One round of `health_monitor_loop` at time `now`: the checks, then the line that is printed.
unfoldable pub health_round : ℕ → List FeedMonitor → List FeedMonitor × Option (List ℕ)
health_round now ms = (map (check_health now) ms, promote_backup_feeds (map (check_health now) ms))

-- `MultiFeedIngestionBenchmark::should_continue`; `late` is the comparison of the elapsed seconds, a
-- double, with `max_seconds`.
unfoldable pub should_continue : (max_seconds max_messages processed : ℕ) → Bool → Bool
should_continue max_seconds max_messages processed late =
    if ltb 0 max_seconds && late
    then false
    else if ltb 0 max_messages && leb max_messages processed
    then false
    else true

-- `consumer_loop`, a round for each reading of the clock, with what other threads do to the buffer
-- before the round.
pub record Round : Type 0 where
  pub late : Bool
  pub others : MpscRingBuffer → MpscRingBuffer

-- What a round does with the buffer.
abbrev pub consume : MpscRingBuffer × ℕ → MpscRingBuffer × ℕ
consume (ring, processed) = elim (try_pop ring).1 [
  | none ↦ (ring, processed)
  | some slot ↦ ((try_pop ring).0, u64 (processed + 1))
]

consume_count :
    (ring : MpscRingBuffer) (processed : ℕ)
    → processed + 1 < 2 ^ 64
    → (consume (ring, processed)).1 ≤ processed + 1
consume_count ring processed h = elim (Option-cases (try_pop ring).1) [
  | inl e ↦ rw (consume, e) (omega arith)
  | inr (slot, e) ↦ rw (consume, e) (omega arith)
]

module _ (max_seconds max_messages : ℕ) where
  -- The buffer, the number processed, and whether the loop has ended.
  unfoldable pub consumer_loop : List Round → MpscRingBuffer × ℕ → (MpscRingBuffer × ℕ) × Bool
  consumer_loop [] s = (s, false)
  consumer_loop (now ∷ later) (ring, processed) =
      let next = consumer_loop later (consume (now.others ring, processed)) in
      if should_continue max_seconds max_messages processed now.late
      then next
      else ((ring, processed), true)

  -- With a limit on the messages, the consumer never processes more than it, and it ends in the first
  -- round that finds the limit reached.
  pub consumer_loop_limit :
      (rounds : List Round) (ring : MpscRingBuffer) (processed : ℕ)
      → 0 < max_messages
      → max_messages < 2 ^ 64
      → processed ≤ max_messages
      → let ((ring', processed'), ended) = consumer_loop rounds (ring, processed) in
        (processed' ≤ max_messages) × ((rounds ≡ []) ⊎ (processed < max_messages) ⊎ (ended ≡ true))
  unfolding consumer_loop should_continue
  consumer_loop_limit [] ring processed pos word h = (h, inl refl)
  consumer_loop_limit (now ∷ later) ring processed pos word h =
      elim (Bool-cases (should_continue max_seconds max_messages processed now.late)) [
        | inl on ↦
            let below : processed < max_messages = ground (arith, on, pos) in
            let one = consume_count (now.others ring) processed (omega (arith, below, word)) in
            let s = consume (now.others ring, processed) in
            let ih = consumer_loop_limit later s.0 s.1 pos word (omega (arith, one, below)) in
            ground (arith, on, ih, below)
        | inr off ↦ ground (arith, off, h)
      ]

-- Every primary feed is unhealthy, and every backup feed is.
abbrev pub NoPrimary : List FeedMonitor → Type 0
NoPrimary [] = Unit
NoPrimary (m ∷ ms) = ((m.config.is_primary ≡ false) ⊎ (is_healthy m ≡ false)) × NoPrimary ms

abbrev pub NoBackup : List FeedMonitor → Type 0
NoBackup [] = Unit
NoBackup (m ∷ ms) = ((m.config.is_primary ≡ true) ⊎ (is_healthy m ≡ false)) × NoBackup ms

no_primary : (ms : List FeedMonitor) → primary_healthy ms ≡ false → NoPrimary ms
unfolding primary_healthy
no_primary [] h = tt
no_primary (m ∷ ms) h = (
  elim (Bool-cases m.config.is_primary) [
    | inl p ↦ elim (Bool-cases (is_healthy m)) [ inl g ↦ ground (arith, p, g, h) | inr b ↦ inr b ]
    | inr q ↦ inl q
  ],
  no_primary ms (ground (arith, h)),
)

some_primary :
    (ms : List FeedMonitor)
    → primary_healthy ms ≡ true
    → (before : List FeedMonitor) × (m : FeedMonitor) × (after : List FeedMonitor) × (ms
        ≡ before ++ (m ∷ after))
      × (m.config.is_primary ≡ true)
      × (is_healthy m ≡ true)
unfolding primary_healthy
some_primary [] h = ground (arith, h)
some_primary (m ∷ ms) h = elim (Bool-cases (m.config.is_primary && is_healthy m)) [
  | inl both ↦ ([], m, ms, refl, ground (arith, both), ground (arith, both))
  | inr other ↦
      let (before, n, after, e, p, g) = some_primary ms (ground (arith, h, other)) in
      (m ∷ before, n, after, ap (◌∷◌ m) e, p, g)
]

backup_cases :
    (ms : List FeedMonitor)
    → ((first_backup ms ≡ none) × NoBackup ms)
      ⊎ ((before : List FeedMonitor) × (m : FeedMonitor) × (after : List FeedMonitor)
          × (first_backup ms ≡ some m)
          × (ms ≡ before ++ (m ∷ after))
          × NoBackup before
          × (m.config.is_primary ≡ false)
          × (is_healthy m ≡ true))
unfolding first_backup
backup_cases [] = inl (refl, tt)
backup_cases (m ∷ ms) = elim (Bool-cases (not m.config.is_primary && is_healthy m)) [
  | inl both ↦
      inr ([], m, ms, ground (arith, both), refl, tt, ground (arith, both), ground (arith, both))
  | inr other ↦
      let unfit : (m.config.is_primary ≡ true) ⊎ (is_healthy m ≡ false) =
        elim (Bool-cases m.config.is_primary) [
          | inl p ↦ inl p
          | inr q ↦ inr (ground (arith, q, other))
        ] in
      elim (backup_cases ms) [
        | inl (e, none_fit) ↦ inl (ground (arith, other, e), (unfit, none_fit))
        | inr (before, n, after, e, split, none_fit, p, g) ↦ inr (
          m ∷ before,
          n,
          after,
          ground (arith, other, e),
          ap (◌∷◌ m) split,
          (unfit, none_fit),
          p,
          g,
        )
      ]
]

promote_backup_feeds_cases :
    (ms : List FeedMonitor)
    → ((promote_backup_feeds ms ≡ none)
        × (((before : List FeedMonitor) × (m : FeedMonitor) × (after : List FeedMonitor) × (ms
                ≡ before ++ (m ∷ after))
              × (m.config.is_primary ≡ true)
              × (is_healthy m ≡ true))
            ⊎ (NoPrimary ms × NoBackup ms)))
      ⊎ ((before : List FeedMonitor) × (m : FeedMonitor) × (after : List FeedMonitor)
          × (promote_backup_feeds ms ≡ some m.config.name)
          × NoPrimary ms
          × (ms ≡ before ++ (m ∷ after))
          × NoBackup before
          × (m.config.is_primary ≡ false)
          × (is_healthy m ≡ true))
unfolding promote_backup_feeds
promote_backup_feeds_cases ms = elim (Bool-cases (primary_healthy ms)) [
  | inl h ↦ inl (rw h refl, inl (some_primary ms h))
  | inr h ↦ elim (backup_cases ms) [
    | inl (e, none_fit) ↦ inl (rw (h, e) refl, inr (no_primary ms h, none_fit))
    | inr (before, m, after, e, split, none_fit, p, g) ↦
        inr (before, m, after, rw (h, e) refl, no_primary ms h, split, none_fit, p, g)
  ]
]

check_all_config :
    (now : ℕ) (ms : List FeedMonitor)
    → map (λ (m : FeedMonitor). m.config) (map (check_health now) ms)
      ≡ map (λ (m : FeedMonitor). m.config) ms
unfolding check_health
check_all_config now [] = refl
check_all_config now (m ∷ ms) = ap (◌∷◌ m.config) (check_all_config now ms)

-- A round of the health monitor leaves every feed's configuration as it is, so that no backup feed
-- becomes primary. It prints the name of a feed just if after the checks no primary feed is healthy and
-- some backup feed is, and then that of the first healthy backup feed.
pub health_round_lem :
    (now : ℕ) (ms : List FeedMonitor)
    → let (after_checks, printed) = health_round now ms in
      let checked = map (check_health now) ms in
      (map (λ (m : FeedMonitor). m.config) after_checks ≡ map (λ (m : FeedMonitor). m.config) ms)
      × (((printed ≡ none)
            × (((before : List FeedMonitor) × (m : FeedMonitor) × (after : List FeedMonitor)
                  × (checked ≡ before ++ (m ∷ after))
                  × (m.config.is_primary ≡ true)
                  × (is_healthy m ≡ true))
                ⊎ (NoPrimary checked × NoBackup checked)))
          ⊎ ((before : List FeedMonitor) × (m : FeedMonitor) × (after : List FeedMonitor) × (printed
                ≡ some m.config.name)
              × NoPrimary checked
              × (checked ≡ before ++ (m ∷ after))
              × NoBackup before
              × (m.config.is_primary ≡ false)
              × (is_healthy m ≡ true)))
unfolding health_round
health_round_lem now ms =
    (check_all_config now ms, promote_backup_feeds_cases (map (check_health now) ms))
