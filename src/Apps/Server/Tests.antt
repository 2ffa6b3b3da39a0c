-- ===== src/Apps/Server/Tests.antt =====
-- The market data server over three rounds with two clients.
use mdfh_distrib.Common.{
  ℕ, ◌+◌, ◌<◌, ◌≡◌, ◌⊎◌, refl, Bool, true, false, List, [], ◌∷◌, arith, leb, ltb,
}
use mdfh_distrib.Apps.Server.{
  ServerConfig, Round, initial, message_generation_loop, check_config, batch_interval_ns,
}
use mdfh_distrib.Apps.Server.Streams.{IsValid, message_generation_loop_lem}
use mdfh_distrib.Apps.Server.Limit.{message_generation_loop_limit}

abbrev config : ServerConfig
config = record { rate = 50000; batch_size = 100; max_seconds = 0; max_messages = 150 }

config_runs : (check_config config ≡ true) × (batch_interval_ns config ≡ 2000000)
unfolding check_config batch_interval_ns
config_runs = (refl, refl)

-- Nobody comes, then one client, then another; the first write of the last round fails, and the flag
-- falls after 40 messages.
abbrev rounds : List Round
rounds =
    let quiet : Round = record {
      running = true;
      late = false;
      joined = 0;
      still_running = λ n. true;
      fails = λ n. false;
    } in
    quiet
    ∷ record quiet { joined = 1 }
    ∷ record quiet { joined = 1; still_running = λ n. ltb n 40; fails = λ n. leb n 0 }
    ∷ []

abbrev price : ℕ → ℕ
price n = 4636737291354636288 + n

abbrev sells : ℕ → Bool
sells n = true

abbrev initial-IsValid : IsValid initial
initial-IsValid = record { counted = refl; streams = tt }

message_generation_loop_lem_example :
    IsValid (message_generation_loop price price sells config rounds initial)
message_generation_loop_lem_example =
    message_generation_loop_lem price price sells config rounds initial initial-IsValid
      (omega arith)

message_generation_loop_limit_example :
    let after = message_generation_loop price price sells config rounds initial in
    (after.messages_sent < 150 + 100) × ((0 < 150) ⊎ (after ≡ initial))
message_generation_loop_limit_example =
    message_generation_loop_limit price price sells config rounds initial (omega arith)
      (omega arith) (omega arith) (omega arith)
