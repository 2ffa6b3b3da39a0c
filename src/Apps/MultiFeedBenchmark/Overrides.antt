-- ===== src/Apps/MultiFeedBenchmark/Overrides.antt =====
-- Which configuration the benchmark of several feeds runs.
use mdfh_distrib.Common.{
  ℕ, ◌≡◌, true, Option, some, List, arith, sym, ◌∙◌, ◌==◌, if◌then◌else◌, Option-cases, inl, inr,
}
use mdfh_distrib.MultiFeed.Config.{MultiFeedConfig, is_valid}
use mdfh_distrib.Apps.MultiFeedBenchmark.{CommandLine, load, override, configuration}

module _ {Spec : Type 0} (match : Spec → Option (List ℕ × ℕ)) (name_of : ℕ → List ℕ)
    (from_file : List ℕ → Option MultiFeedConfig) where
  -- The configuration that is run is valid. It is the one that was loaded, from the file if one is
  -- named, in every field but three: a limit on the time or the messages that is not 0 on the command
  -- line replaces the loaded one, and so does a capacity on the command line other than 262144.
  configuration_lem :
      (line : CommandLine Spec) (config : MultiFeedConfig)
      → configuration match name_of from_file line ≡ some config
      → (loaded : MultiFeedConfig) × (load match name_of from_file line.config_file line.feed_specs
          ≡ some loaded)
        × (is_valid config ≡ true)
        × (config ≡ record loaded {
          max_seconds = if line.max_seconds == 0 then loaded.max_seconds else line.max_seconds;
          max_messages = if line.max_messages == 0 then loaded.max_messages else line.max_messages;
          global_buffer_capacity =
              if line.global_buffer_capacity == 262144
              then loaded.global_buffer_capacity
              else line.global_buffer_capacity;
        })
  unfolding configuration override
  configuration_lem line config h =
      elim (Option-cases (load match name_of from_file line.config_file line.feed_specs)) [
        | inl e ↦ ground (arith, e, h)
        | inr (loaded, e) ↦
            let chosen = override match name_of from_file line loaded in
            let same : chosen ≡ config = ground (arith, e, h) in
            (loaded, e, ground (arith, e, h), sym same ∙ kept line loaded)
      ]
    where
      kept :
          (line : CommandLine Spec) (loaded : MultiFeedConfig)
          → override match name_of from_file line loaded ≡ record loaded {
            max_seconds = if line.max_seconds == 0 then loaded.max_seconds else line.max_seconds;
            max_messages =
                if line.max_messages == 0 then loaded.max_messages else line.max_messages;
            global_buffer_capacity =
                if line.global_buffer_capacity == 262144
                then loaded.global_buffer_capacity
                else line.global_buffer_capacity;
          }
      kept line loaded = ground arith
