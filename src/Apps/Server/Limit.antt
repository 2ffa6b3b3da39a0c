-- ===== src/Apps/Server/Limit.antt =====
-- How many messages the server sends.
use mdfh_distrib.Common.{
  ℕ, suc, zero, ◌+◌, ◌^◌, ◌≤◌, ◌<◌, ◌≡◌, ◌⊎◌, inl, inr, refl, Bool, List, [], ◌∷◌, arith, length,
  Bool-cases,
}
use mdfh_distrib.Common.Word.{u64}
use mdfh_distrib.Apps.Server.{
  ServerConfig, MarketDataServer, accept, Round, is_empty, generate, send_round, goes_on,
  message_generation_loop,
}

module _ (price : ℕ → ℕ) (quantity : ℕ → ℕ) (sells : ℕ → Bool) where
  length-generate :
      (wanted : ℕ) (still : ℕ → Bool) (i sequence : ℕ)
      → length (generate price quantity sells wanted still i sequence) ≤ wanted
  unfolding generate
  length-generate zero still i sequence = omega arith
  length-generate (suc wanted) still i sequence =
      ground (arith, length-generate wanted still (i + 1) (u64 (sequence + 1)))

  module _ (config : ServerConfig) where
    -- With a limit on the messages, the server sends fewer than the limit and one batch together; and
    -- a loop that finds the limit reached changes nothing.
    pub message_generation_loop_limit :
        (rounds : List Round) (s : MarketDataServer)
        → 0 < config.max_messages
        → 0 < config.batch_size
        → config.max_messages + config.batch_size < 2 ^ 64
        → s.messages_sent < config.max_messages + config.batch_size
        → let after = message_generation_loop price quantity sells config rounds s in
          (after.messages_sent < config.max_messages + config.batch_size)
          × ((s.messages_sent < config.max_messages) ⊎ (after ≡ s))
    unfolding message_generation_loop goes_on send_round
    message_generation_loop_limit [] s pos some word h = (h, inr refl)
    message_generation_loop_limit (now ∷ later) s pos some word h =
        let joined = record s { clients = accept now.joined s.clients } in
        let sent = send_round price quantity sells config now joined in
        let few = length-generate config.batch_size now.still_running 0 s.sequence in
        elim (Bool-cases (goes_on price quantity sells config now s)) [
          | inr off ↦ rw off (h, inr refl)
          | inl on ↦
              let below : s.messages_sent < config.max_messages = ground (arith, on, pos) in
              let ih = message_generation_loop_limit later joined pos some word h in
              let jh =
                message_generation_loop_limit later sent pos some word
                  (omega (arith, below, few)) in
              elim (Bool-cases (is_empty joined.clients)) [
                | inl alone ↦ rw (on, alone) (ih.0, inl below)
                | inr some_client ↦ rw (on, some_client) (jh.0, inl below)
              ]
        ]
