-- ===== src/Apps/MultiFeedBenchmark/Tests.antt =====
-- Two feeds on the command line, and a limit on the messages.
use mdfh_distrib.Common.{ℕ, ◌≡◌, refl, Option, none, some, List, [], ◌∷◌}
use mdfh_distrib.Core.{is_power_of_two}
use mdfh_distrib.MultiFeed.Config.{
  MultiFeedConfig, default_config, is_valid, check_feeds, feed_is_valid, from_cli_feeds, cli_feeds,
}
use mdfh_distrib.Apps.MultiFeedBenchmark.{CommandLine, load, override, configuration}

abbrev line : CommandLine (List ℕ × ℕ)
line = record {
  config_file = [];
  feed_specs = (97 ∷ [], 9001) ∷ (98 ∷ [], 9002) ∷ [];
  max_seconds = 0;
  max_messages = 500;
  global_buffer_capacity = 4096;
}

abbrev name_of : ℕ → List ℕ
name_of n = 102 ∷ n ∷ []

abbrev from_file : List ℕ → Option MultiFeedConfig
from_file name = none

abbrev chosen : MultiFeedConfig
chosen = record default_config {
  feeds = cli_feeds some name_of 0 line.feed_specs;
  max_messages = 500;
  global_buffer_capacity = 4096;
}

configuration_runs : configuration some name_of from_file line ≡ some chosen
unfolding configuration load override from_cli_feeds cli_feeds is_valid check_feeds feed_is_valid
    is_power_of_two
configuration_runs = refl
