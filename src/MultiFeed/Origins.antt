-- ===== src/MultiFeed/Origins.antt =====
-- The loaders give every feed an identifier of its own.
use mdfh_distrib.Common.{
  ℕ, ◌+◌, ◌^◌, ◌≤◌, ◌<◌, ◌≡◌, refl, true, false, ◌&&◌, Option, some, List, [], ◌∷◌, arith, length,
  ltb, Bool-cases, Option-cases, inl, inr,
}
use mdfh_distrib.Common.Word.{u32}
use mdfh_distrib.Core.{is_power_of_two}
use mdfh_distrib.MultiFeed.Config.{
  FeedConfig, feed_is_valid, MultiFeedConfig, member, check_feeds, is_valid, described, cli_feeds,
  from_cli_feeds,
}
use mdfh_distrib.MultiFeed.FromYaml.{FeedNode, Yaml, feed_of, yaml_feeds, from_yaml}

-- Valid feeds whose identifiers increase from `n` on.
abbrev pub Ordered : ℕ → List FeedConfig → Type 0
Ordered n [] = Unit
Ordered n (f ∷ fs) = (feed_is_valid f ≡ true) × (n ≤ f.origin_id) × Ordered (f.origin_id + 1) fs

Ordered-weaken : (n m : ℕ) (fs : List FeedConfig) → n ≤ m → Ordered m fs → Ordered n fs
Ordered-weaken n m [] h o = tt
Ordered-weaken n m (f ∷ fs) h (v, lo, o) = (v, omega arith, o)

abbrev Below : ℕ → List ℕ → Type 0
Below n [] = Unit
Below n (x ∷ xs) = (x < n) × Below n xs

Below-weaken : (n m : ℕ) (xs : List ℕ) → n ≤ m → Below n xs → Below m xs
Below-weaken n m [] h b = tt
Below-weaken n m (x ∷ xs) h (lo, b) = (omega arith, Below-weaken n m xs h b)

member-Below : (n : ℕ) (xs : List ℕ) → Below n xs → member n xs ≡ false
member-Below n [] b = refl
member-Below n (x ∷ xs) (lo, b) = ground (arith, member-Below n xs b)

check_feeds-Ordered :
    (n : ℕ) (fs : List FeedConfig) (seen : List ℕ)
    → Ordered n fs
    → Below n seen
    → check_feeds fs seen ≡ true
unfolding check_feeds
check_feeds-Ordered n [] seen o b = refl
check_feeds-Ordered n (f ∷ fs) seen (v, lo, o) b =
    let fresh_id = member-Below f.origin_id seen (Below-weaken n f.origin_id seen lo b) in
    let rest =
      check_feeds-Ordered (f.origin_id + 1) fs (f.origin_id ∷ seen) o
        (omega arith, Below-weaken n (f.origin_id + 1) seen (omega arith) b) in
    rw (v, fresh_id) rest

module _ (name_of : ℕ → List ℕ) where
  module _ {Spec : Type 0} (match : Spec → Option (List ℕ × ℕ)) where
    cli_feeds-Ordered :
        (n : ℕ) (specs : List Spec)
        → n + length specs < 2 ^ 32
        → Ordered n (cli_feeds match name_of n specs)
    unfolding cli_feeds feed_is_valid
    cli_feeds-Ordered n [] h = tt
    cli_feeds-Ordered n (spec ∷ specs) h = elim (Option-cases (match spec)) [
      | inl e ↦ rw (Ordered, e) (cli_feeds-Ordered n specs (omega arith))
      | inr (m, e) ↦
          let next : u32 (n + 1) ≡ n + 1 = omega arith in
          let ih = cli_feeds-Ordered (n + 1) specs (omega arith) in
          elim (Bool-cases (feed_is_valid (described match name_of n m))) [
            | inl good ↦ rw (Ordered, e, good, next) (good, omega arith, ih)
            | inr bad ↦ rw (Ordered, e, bad, next) (Ordered-weaken n (n + 1) _ (omega arith) ih)
          ]
    ]

    -- The configuration read from fewer than 2^32 command-line specifications is valid just if it
    -- has a feed: each feed in it is valid, and no two share an identifier.
    pub is_valid-from_cli_feeds :
        (specs : List Spec)
        → length specs < 2 ^ 32
        → let c = from_cli_feeds match name_of specs in
          (is_valid c ≡ ltb 0 (length c.feeds)) × Ordered 0 c.feeds
    unfolding is_valid from_cli_feeds is_power_of_two
    is_valid-from_cli_feeds specs h =
        let o = cli_feeds-Ordered 0 specs (omega arith) in
        (ground (arith, check_feeds-Ordered 0 (cli_feeds match name_of 0 specs) [] o tt), o)

  yaml_feeds-Ordered :
      (n : ℕ) (nodes : List FeedNode)
      → n + length nodes < 2 ^ 32
      → Ordered n (yaml_feeds name_of n nodes)
  unfolding yaml_feeds
  yaml_feeds-Ordered n [] h = tt
  yaml_feeds-Ordered n (node ∷ nodes) h =
      let next : u32 (n + 1) ≡ n + 1 = omega arith in
      let ih = yaml_feeds-Ordered (n + 1) nodes (omega arith) in
      elim (Bool-cases (feed_is_valid (feed_of name_of n node))) [
        | inl good ↦ rw (good, next) (good, omega arith, ih)
        | inr bad ↦ rw (bad, next) (Ordered-weaken n (n + 1) _ (omega arith) ih)
      ]

  -- A configuration file with fewer than 2^32 feeds loads to a valid configuration just if a feed
  -- is left and the capacity of the global buffer, the dispatcher threads and the health check
  -- interval are in order: the feeds themselves never make it invalid.
  pub is_valid-from_yaml :
      (yaml : Yaml)
      → length yaml.feeds < 2 ^ 32
      → (c : MultiFeedConfig) × (from_yaml name_of (some yaml) ≡ some c)
        × Ordered 0 c.feeds
        × (is_valid c ≡ (
            ltb 0 (length c.feeds)
            && is_power_of_two c.global_buffer_capacity
            && ltb 0 c.dispatcher_threads
            && ltb 0 c.health_check_interval_ms))
  unfolding is_valid from_yaml
  is_valid-from_yaml yaml h =
      let o = yaml_feeds-Ordered 0 yaml.feeds (omega arith) in
      (_, refl, o, ground (arith, check_feeds-Ordered 0 (yaml_feeds name_of 0 yaml.feeds) [] o tt))
