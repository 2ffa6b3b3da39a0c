-- ===== src/Bypass/Ingestion/Connected.antt =====
-- Whether the client says that it is connected while it is receiving.
use mdfh_distrib.Common.{◌≡◌, ◌∙◌, Bool, true, false, not, arith}
use mdfh_distrib.Bypass.Config.{
  BypassBackend, boost_asio, dpdk, solarflare_vi, BypassConfig, create_bypass_client,
}
use mdfh_distrib.Bypass.Boost
use mdfh_distrib.Bypass.Boost.{BoostAsioBypassClient}
use mdfh_distrib.Bypass.Dpdk
use mdfh_distrib.Bypass.Dpdk.{DpdkBypassClient}
use mdfh_distrib.Bypass.Dpdk.Startup
use mdfh_distrib.Bypass.Solarflare.{SolarflareBypassClient}
use mdfh_distrib.Bypass.Solarflare.Lifecycle
use mdfh_distrib.Bypass.Solarflare
use mdfh_distrib.Bypass.Ingestion.{
  Build, World, make, backend_initialize, backend_connect, backend_start_reception,
  backend_is_connected, create, initialize, connect, start_ingestion, is_connected,
}

abbrev pub is_dpdk : BypassBackend → Bool
is_dpdk boost_asio = false
is_dpdk dpdk = true
is_dpdk solarflare_vi = false

dpdk_initialize :
    (initial config : BypassConfig) (a : Dpdk.Answers) (flag : Bool)
    → let (_, c, done) = Dpdk.initialize config a flag (Startup.fresh initial) in
      (c.initialized ≡ done) × (c.running ≡ false)
unfolding Dpdk.initialize
dpdk_initialize initial config a flag = ground arith

dpdk_connect :
    (a : Dpdk.Answers) (c : DpdkBypassClient)
    → let c' = (Dpdk.connect a c).0 in (c'.initialized ≡ c.initialized) × (c'.running ≡ c.running)
unfolding Dpdk.connect
dpdk_connect a c = ground arith

dpdk_receiving :
    (c : DpdkBypassClient)
    → c.initialized ≡ true
    → c.running ≡ false
    → (Dpdk.is_connected c ≡ true) × (Dpdk.is_connected (Dpdk.start_reception true c) ≡ false)
unfolding Dpdk.is_connected Dpdk.start_reception
dpdk_receiving c h r = ground arith

solarflare_initialize :
    (initial config : BypassConfig) (a : Solarflare.Answers)
    → let (c, done) = Solarflare.initialize config a (Lifecycle.fresh initial) in
      done ≡ true → c.initialized ≡ true
unfolding Solarflare.initialize
solarflare_initialize initial config a h = ground arith

solarflare_receiving :
    (c : SolarflareBypassClient)
    → c.initialized ≡ true
    → let c' = (Solarflare.connect c).0 in
      (Solarflare.is_connected c' ≡ true)
      × (Solarflare.is_connected (Solarflare.start_reception true c') ≡ true)
unfolding Solarflare.connect Solarflare.is_connected Solarflare.start_reception
solarflare_receiving c h = ground arith

boost_receiving :
    (config : BypassConfig) (attempt : Boost.Attempt) (c : BoostAsioBypassClient)
    → (Boost.initialize config c).1 ≡ true
    → (Boost.connect attempt (Boost.initialize config c).0).1 ≡ true
    → let c' = (Boost.connect attempt (Boost.initialize config c).0).0 in
      (Boost.is_connected c' ≡ true) × (Boost.is_connected (Boost.start_reception true c') ≡ true)
unfolding Boost.initialize Boost.connect Boost.try_connect Boost.is_connected Boost.start_reception
boost_receiving config Boost.reached c h k = ground arith
boost_receiving config Boost.refused c h k = ground arith
boost_receiving config Boost.bad_address c h k = ground arith

backend_lem :
    (w : World) (config : BypassConfig) (b : BypassBackend)
    → let (c1, initialized) = backend_initialize w config (make config b) in
      let (c2, connected) = backend_connect w c1 in
      initialized ≡ true
      → connected ≡ true
      → (backend_is_connected c2 ≡ true)
        × (backend_is_connected (backend_start_reception true c2) ≡ not (is_dpdk b))
unfolding backend_initialize backend_connect make backend_start_reception backend_is_connected
backend_lem w config boost_asio h k = boost_receiving config w.attempt _ h k
backend_lem w config dpdk h k =
    let (i, r) = dpdk_initialize config config w.dpdk_answers w.dpdk_initialized in
    let c = (Dpdk.initialize config w.dpdk_answers w.dpdk_initialized (Startup.fresh config)).1 in
    let (i', r') = dpdk_connect w.dpdk_answers c in
    dpdk_receiving (Dpdk.connect w.dpdk_answers c).0 (i' ∙ i ∙ h) (r' ∙ r)
backend_lem w config solarflare_vi h k =
    solarflare_receiving _ (solarflare_initialize config config w.solarflare_answers h)

-- Once `initialize` and `connect` have succeeded, the client says that it is connected; once
-- ingestion has started, it says so just if the backend that the factory chose is not DPDK.
pub receiving_is_connected :
    (build : Build) (w : World) (config : BypassConfig)
    → (initialize build w (create config)).1 ≡ true
    → (connect w (initialize build w (create config)).0).1 ≡ true
    → let c = (connect w (initialize build w (create config)).0).0 in
      (is_connected c ≡ true)
      × (is_connected (start_ingestion c)
          ≡ not (
              is_dpdk
                (create_bypass_client build.enable_dpdk build.enable_solarflare config.backend)))
unfolding initialize connect is_connected start_ingestion
receiving_is_connected build w config h k =
    let chosen = create_bypass_client build.enable_dpdk build.enable_solarflare config.backend in
    backend_lem w config chosen h k
