-- ===== src/Apps/MultiFeedBenchmark.antt =====
-- apps/multi_feed_benchmark.cpp: how `main` makes the configuration that it runs. The command line is
-- parsed by CLI11; what the regular expression, the numbers' texts and yaml-cpp answer is an argument.
pub mod Overrides
mod Tests
use mdfh_distrib.Common.{
  ℕ, Bool, true, false, not, Option, none, some, List, [], ◌∷◌, ltb, ◌==◌, if◌then◌else◌,
}
use mdfh_distrib.MultiFeed.Config.{MultiFeedConfig, is_valid, from_cli_feeds}

-- The variables that the options fill, by default empty, 0, and 262144.
pub record CommandLine (Spec : Type 0) : Type 0 where
  pub config_file : List ℕ
  pub feed_specs : List Spec
  pub max_seconds : ℕ
  pub max_messages : ℕ
  pub global_buffer_capacity : ℕ

abbrev pub override_seconds : ℕ → MultiFeedConfig → MultiFeedConfig
override_seconds n config = if ltb 0 n then record config { max_seconds = n } else config

abbrev pub override_messages : ℕ → MultiFeedConfig → MultiFeedConfig
override_messages n config = if ltb 0 n then record config { max_messages = n } else config

abbrev pub override_capacity : ℕ → MultiFeedConfig → MultiFeedConfig
override_capacity n config =
    if not (n == 262144) then record config { global_buffer_capacity = n } else config

-- `from_file` is `from_yaml` of the named file; `none` stands for an exception.
module _ {Spec : Type 0} (match : Spec → Option (List ℕ × ℕ)) (name_of : ℕ → List ℕ)
    (from_file : List ℕ → Option MultiFeedConfig) where
  unfoldable pub load : List ℕ → List Spec → Option MultiFeedConfig
  load [] [] = none
  load [] (spec ∷ specs) = some (from_cli_feeds match name_of (spec ∷ specs))
  load (c ∷ cs) specs = from_file (c ∷ cs)

  unfoldable pub override : CommandLine Spec → MultiFeedConfig → MultiFeedConfig
  override line config =
      override_capacity line.global_buffer_capacity
        (override_messages line.max_messages (override_seconds line.max_seconds config))

  -- The configuration that is run; `none`: `main` returns 1 before.
  unfoldable pub configuration : CommandLine Spec → Option MultiFeedConfig
  configuration line = elim (load line.config_file line.feed_specs) [
    | none ↦ none
    | some config ↦
        let chosen = override line config in if not (is_valid chosen) then none else some chosen
  ]
