-- ===== src/MultiFeed/FromYaml.antt =====
-- `MultiFeedConfig::from_yaml`, on what yaml-cpp read: each key of the file is there or not.
use mdfh_distrib.Common.{ℕ, ◌+◌, Bool, Option, none, some, List, [], ◌∷◌, if◌then◌else◌}
use mdfh_distrib.Common.Word.{u32}
use mdfh_distrib.MultiFeed.Config.{
  FeedConfig, default_feed, feed_is_valid, MultiFeedConfig, default_config,
}

-- The keys of `global`, converted by `as<…>`.
pub record GlobalNode : Type 0 where
  pub buffer_capacity : Option ℕ
  pub dispatcher_threads : Option ℕ
  pub max_seconds : Option ℕ
  pub max_messages : Option ℕ
  pub health_check_interval_ms : Option ℕ

-- The keys of one of the `feeds`.
pub record FeedNode : Type 0 where
  pub name : Option (List ℕ)
  pub host : Option (List ℕ)
  pub port : Option ℕ
  pub is_primary : Option Bool
  pub heartbeat_interval_ms : Option ℕ
  pub timeout_multiplier : Option ℕ
  pub buffer_capacity : Option ℕ

pub record Yaml : Type 0 where
  pub global : Option GlobalNode
  pub feeds : List FeedNode  -- none, if the key is missing

-- `if (node) field = node.as<T>();`
abbrev pub or_default {ℓ} : {A : Type ℓ} → Option A → A → A
or_default none d = d
or_default (some a) d = a

unfoldable pub apply_global : Option GlobalNode → MultiFeedConfig → MultiFeedConfig
apply_global none config = config
apply_global (some g) config = record config {
  global_buffer_capacity = or_default g.buffer_capacity config.global_buffer_capacity;
  dispatcher_threads = or_default g.dispatcher_threads config.dispatcher_threads;
  max_seconds = or_default g.max_seconds config.max_seconds;
  max_messages = or_default g.max_messages config.max_messages;
  health_check_interval_ms = or_default g.health_check_interval_ms config.health_check_interval_ms;
}

module _ (name_of : ℕ → List ℕ) where
  abbrev pub feed_of : ℕ → FeedNode → FeedConfig
  feed_of origin_id node = record default_feed {
    origin_id = origin_id;
    name = or_default node.name (name_of origin_id);
    host = or_default node.host default_feed.host;
    port = or_default node.port default_feed.port;
    is_primary = or_default node.is_primary default_feed.is_primary;
    heartbeat_interval_ms =
        or_default node.heartbeat_interval_ms default_feed.heartbeat_interval_ms;
    timeout_multiplier = or_default node.timeout_multiplier default_feed.timeout_multiplier;
    buffer_capacity = or_default node.buffer_capacity default_feed.buffer_capacity;
  }

  unfoldable pub yaml_feeds : ℕ → List FeedNode → List FeedConfig
  yaml_feeds origin_id [] = []
  yaml_feeds origin_id (node ∷ nodes) =
      let rest = yaml_feeds (u32 (origin_id + 1)) nodes in
      if feed_is_valid (feed_of origin_id node) then feed_of origin_id node ∷ rest else rest

  -- `none`: a YAML exception, which becomes a `std::runtime_error`.
  unfoldable pub from_yaml : Option Yaml → Option MultiFeedConfig
  from_yaml none = none
  from_yaml (some yaml) =
      some (record (apply_global yaml.global default_config) { feeds = yaml_feeds 0 yaml.feeds })
