-- ===== src/Apps/BypassBenchmark/Consumer.antt =====
-- What the consumer of the benchmark takes out of the buffer.
use mdfh_distrib.Common.{
  ℕ, zero, suc, ◌+◌, ◌^◌, ◌≤◌, ◌<◌, ◌≡◌, inl, inr, refl, ap, ◌∙◌, Bool, true, false, not, List, [],
  ◌∷◌, arith, Bool-cases, Option-cases,
}
use mdfh_distrib.Ring.{Slot, RingBuffer, try_pop}
use mdfh_distrib.Ingestion.Stats.{IngestionStats, record_message_processed}
use mdfh_distrib.Bypass.Config.{dpdk, create_bypass_client}
use mdfh_distrib.Bypass.Ingestion
use mdfh_distrib.Bypass.Ingestion.{Build, World}
use mdfh_distrib.Bypass.Ingestion.Connected.{is_dpdk, receiving_is_connected}
use mdfh_distrib.Apps.BypassBenchmark.{
  BenchmarkConfig, create_bypass_config, parse_backend, Consumption, should_continue, process,
  consume_batch, consumer_loop, Outcome, not_initialized, not_connected, finished, run,
}

record_message_processed-count :
    (now : ℕ) (slot : Slot) (stats : IngestionStats)
    → stats.messages_processed + 1 < 2 ^ 64
    → (record_message_processed now slot stats).messages_processed ≡ stats.messages_processed + 1
unfolding record_message_processed
record_message_processed-count now slot stats h = ground arith

-- What a run leaves unless it ends early.
abbrev pub Leaves : (Consumption → Type 0) → Outcome → Type 0
Leaves P not_initialized = Unit
Leaves P not_connected = Unit
Leaves P (finished s) = P s

module _ (clock : ℕ → ℕ) (late : ℕ → Bool) (config : BenchmarkConfig) where
  -- The loop of a client that says it is not connected makes one test at most.
  disconnected_idle :
      (rounds : List (RingBuffer → RingBuffer)) (s : Consumption)
      → let after = consumer_loop clock late config false rounds s in
        (after.ring ≡ s.ring)
        × (after.stats ≡ s.stats)
        × (after.messages_processed ≡ s.messages_processed)
  unfolding consumer_loop should_continue
  disconnected_idle [] s = (refl, refl, refl)
  disconnected_idle (others ∷ later) s = ground arith

  module _ (connected : Bool) where
    go_on-below :
        (s : Consumption)
        → should_continue clock late config connected s ≡ true
        → 0 < config.max_messages
        → s.stats.messages_processed < config.max_messages
    unfolding should_continue
    go_on-below s h pos = ground (arith, h, pos)

    consume_batch-limit :
        (rounds : ℕ) (s : Consumption)
        → 0 < config.max_messages
        → config.max_messages < 2 ^ 64
        → s.stats.messages_processed ≤ config.max_messages
        → (consume_batch clock late config connected rounds s).stats.messages_processed
          ≤ config.max_messages
    unfolding consume_batch process
    consume_batch-limit zero s pos word h = h
    consume_batch-limit (suc rounds) s pos word h =
        elim (Bool-cases (should_continue clock late config connected s)) [
          | inr off ↦ rw off h
          | inl on ↦
              let below = go_on-below s on pos in
              elim (Option-cases (try_pop s.ring).1) [
                | inl e ↦ rw (on, e) h
                | inr (slot, e) ↦
                    let one =
                      record_message_processed-count (clock s.readings) slot s.stats
                        (omega (arith, below, word)) in
                    rw (on, e) (consume_batch-limit rounds _ pos word (omega (arith, one, below)))
              ]
        ]

    consumer_loop-limit :
        (rounds : List (RingBuffer → RingBuffer)) (s : Consumption)
        → 0 < config.max_messages
        → config.max_messages < 2 ^ 64
        → s.stats.messages_processed ≤ config.max_messages
        → (consumer_loop clock late config connected rounds s).stats.messages_processed
          ≤ config.max_messages
    unfolding consumer_loop
    consumer_loop-limit [] s pos word h = h
    consumer_loop-limit (others ∷ later) s pos word h =
        elim (Bool-cases (should_continue clock late config connected s)) [
          | inr off ↦ rw off h
          | inl on ↦ rw on (
              consumer_loop-limit later _ pos word (
                consume_batch-limit 100 (record s { ring = others s.ring; tests = s.tests + 1 }) pos
                  word h))
        ]

  run_cases :
      (P : Consumption → Type 0) (build : Build) (w : World)
      (rounds : List (RingBuffer → RingBuffer)) (s : Consumption)
      → (let start = Ingestion.create (create_bypass_config config) in
          let first = Ingestion.initialize build w start in
          let second = Ingestion.connect w first.0 in
          first.1 ≡ true
          → second.1 ≡ true
          → P (
              consumer_loop clock late config
                (Ingestion.is_connected (Ingestion.start_ingestion second.0))
                rounds
                s))
      → Leaves P (run clock late config build w rounds s)
  unfolding run
  run_cases P build w rounds s h =
      let start = Ingestion.create (create_bypass_config config) in
      let first = Ingestion.initialize build w start in
      let second = Ingestion.connect w first.0 in
      elim (Bool-cases first.1) [
        | inr failed ↦ rw failed tt
        | inl done ↦ elim (Bool-cases second.1) [
          | inr failed ↦ rw (done, failed) tt
          | inl reached ↦ rw (done, reached) (h done reached)
        ]
      ]

  -- With a limit on the messages below 2^64, a run that is not over before ingestion starts processes
  -- no more than the limit, whatever the receiving thread does to the buffer.
  pub run-limit :
      (build : Build) (w : World) (rounds : List (RingBuffer → RingBuffer)) (s : Consumption)
      → 0 < config.max_messages
      → config.max_messages < 2 ^ 64
      → s.stats.messages_processed ≤ config.max_messages
      → Leaves
          (λ after. after.stats.messages_processed ≤ config.max_messages)
          (run clock late config build w rounds s)
  run-limit build w rounds s pos word h =
      run_cases (λ after. after.stats.messages_processed ≤ config.max_messages) build w rounds s
        (λ _ _. consumer_loop-limit _ rounds s pos word h)

  -- With the DPDK backend the client says that it is not connected while it receives: whatever packets
  -- come, a run that is not over before ingestion starts takes nothing out of the buffer, and
  -- processes no message.
  pub run-dpdk :
      (build : Build) (w : World) (rounds : List (RingBuffer → RingBuffer)) (s : Consumption)
      → create_bypass_client build.enable_dpdk build.enable_solarflare
          (parse_backend config.backend)
        ≡ dpdk
      → Leaves
          (λ after.
            (after.ring ≡ s.ring)
            × (after.stats ≡ s.stats)
            × (after.messages_processed ≡ s.messages_processed))
          (run clock late config build w rounds s)
  unfolding create_bypass_config
  run-dpdk build w rounds s chosen =
      run_cases
        (λ after.
          (after.ring ≡ s.ring)
          × (after.stats ≡ s.stats)
          × (after.messages_processed ≡ s.messages_processed))
        build w rounds s
        (λ done reached.
          let (_, says) =
            receiving_is_connected build w (create_bypass_config config) done reached in
          rw (says ∙ ap (λ b. not (is_dpdk b)) chosen) (disconnected_idle rounds s))
