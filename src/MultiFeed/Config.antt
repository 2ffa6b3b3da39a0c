-- ===== src/MultiFeed/Config.antt =====
-- `FeedConfig`, `MultiFeedConfig` and `from_cli_feeds`. Strings are lists of character codes.
use mdfh_distrib.Common.{
  ℕ, ◌+◌, ◌%◌, ◌^◌, Bool, true, false, not, ◌&&◌, ◌||◌, Option, none, some, List, [], ◌∷◌, length,
  ltb, leb, ◌==◌, if◌then◌else◌,
}
use mdfh_distrib.Common.Word.{u32}
use mdfh_distrib.Core.{is_power_of_two}

pub record FeedConfig : Type 0 where
  pub name : List ℕ
  pub host : List ℕ
  pub port : ℕ
  pub origin_id : ℕ
  pub is_primary : Bool
  pub heartbeat_interval_ms : ℕ
  pub timeout_multiplier : ℕ
  pub buffer_capacity : ℕ

-- the default member initializers; the host is "127.0.0.1"
abbrev pub default_feed : FeedConfig
default_feed = record {
  name = [];
  host = 49 ∷ 50 ∷ 55 ∷ 46 ∷ 48 ∷ 46 ∷ 48 ∷ 46 ∷ 49 ∷ [];
  port = 9001;
  origin_id = 0;
  is_primary = true;
  heartbeat_interval_ms = 1000;
  timeout_multiplier = 3;
  buffer_capacity = 65536;
}

abbrev is_empty : List ℕ → Bool
is_empty [] = true
is_empty (c ∷ cs) = false

-- `FeedConfig::is_valid`; its last line is the test of a power of two.
unfoldable pub feed_is_valid : FeedConfig → Bool
feed_is_valid f =
    not (is_empty f.name)
    && not (is_empty f.host)
    && ltb 0 f.port
    && ltb 0 f.heartbeat_interval_ms
    && ltb 0 f.timeout_multiplier
    && is_power_of_two f.buffer_capacity

pub record MultiFeedConfig : Type 0 where
  pub feeds : List FeedConfig
  pub global_buffer_capacity : ℕ
  pub dispatcher_threads : ℕ
  pub max_seconds : ℕ
  pub max_messages : ℕ
  pub health_check_interval_ms : ℕ

abbrev pub default_config : MultiFeedConfig
default_config = record {
  feeds = [];
  global_buffer_capacity = 262144;
  dispatcher_threads = 1;
  max_seconds = 0;
  max_messages = 0;
  health_check_interval_ms = 100;
}

-- `origin_ids.count(id)`
abbrev pub member : ℕ → List ℕ → Bool
member id [] = false
member id (x ∷ xs) = (id == x) || member id xs

-- The loop of `MultiFeedConfig::is_valid` over the feeds, with the set of identifiers seen.
unfoldable pub check_feeds : List FeedConfig → List ℕ → Bool
check_feeds [] origin_ids = true
check_feeds (f ∷ fs) origin_ids =
    let rest = check_feeds fs (f.origin_id ∷ origin_ids) in
    if not (feed_is_valid f) then false else if member f.origin_id origin_ids then false else rest

-- `MultiFeedConfig::is_valid`
unfoldable pub is_valid : MultiFeedConfig → Bool
is_valid c =
    if leb (length c.feeds) 0
    then false
    else if not (check_feeds c.feeds [])
    then false
    else is_power_of_two c.global_buffer_capacity
      && ltb 0 c.dispatcher_threads
      && ltb 0 c.health_check_interval_ms

-- `match spec` is what the regular expression captures of a specification, the digits as the number
-- that `std::stoul` reads; `none` where it does not match. `name_of n` is "feed_" and `n`.
module _ {Spec : Type 0} (match : Spec → Option (List ℕ × ℕ)) (name_of : ℕ → List ℕ) where
  -- The feed that a matching specification describes.
  abbrev pub described : ℕ → List ℕ × ℕ → FeedConfig
  described origin_id (host, port) = record default_feed {
    name = name_of origin_id;
    origin_id = origin_id;
    host = host;
    port = port % 2 ^ 16;
    is_primary = u32 (origin_id + 1) == 1;
  }

  -- The loop of `from_cli_feeds`: the feeds that it appends, from an origin identifier on.
  unfoldable pub cli_feeds : ℕ → List Spec → List FeedConfig
  cli_feeds origin_id [] = []
  cli_feeds origin_id (spec ∷ specs) = elim (match spec) [
    | none ↦ cli_feeds origin_id specs
    | some m ↦
        let feed = described origin_id m in
        let rest = cli_feeds (u32 (origin_id + 1)) specs in
        if feed_is_valid feed then feed ∷ rest else rest
  ]

  unfoldable pub from_cli_feeds : List Spec → MultiFeedConfig
  from_cli_feeds specs = record default_config { feeds = cli_feeds 0 specs }
