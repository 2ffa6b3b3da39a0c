-- ===== src/Bypass/Ingestion.antt =====
-- The life cycle of `BypassIngestionClient`, which owns a backend that the factory chooses. The
-- handling of packets is modelled apart, in Bypass.antt.
pub mod Connected
mod Tests
use mdfh_distrib.Common.{
  ℕ, Bool, true, false, not, ◌&&◌, Option, none, some, List, [], if◌then◌else◌,
}
use mdfh_distrib.Bypass.Config.{
  BypassBackend, boost_asio, dpdk, solarflare_vi, BypassConfig, create_bypass_client,
}
use mdfh_distrib.Bypass.Boost
use mdfh_distrib.Bypass.Boost.{BoostAsioBypassClient}
use mdfh_distrib.Bypass.Dpdk
use mdfh_distrib.Bypass.Dpdk.{DpdkBypassClient}
use mdfh_distrib.Bypass.Dpdk.Startup
use mdfh_distrib.Bypass.Solarflare
use mdfh_distrib.Bypass.Solarflare.{SolarflareBypassClient}
use mdfh_distrib.Bypass.Solarflare.Lifecycle

-- What the factory makes, one constructor for each class.
pub data KernelBypassClient : Type 0 where
  with_boost : BoostAsioBypassClient → KernelBypassClient
  with_dpdk : DpdkBypassClient → KernelBypassClient
  with_solarflare : SolarflareBypassClient → KernelBypassClient

-- How the code was built.
pub record Build : Type 0 where
  pub enable_dpdk : Bool
  pub enable_solarflare : Bool

-- What the libraries of the backends answer.
pub record World : Type 0 where
  pub attempt : Boost.Attempt
  pub dpdk_initialized : Bool
  pub dpdk_answers : Dpdk.Answers
  pub solarflare_answers : Solarflare.Answers

-- A new client of the class, with the configuration that it does not read before `initialize`.
unfoldable pub make : BypassConfig → BypassBackend → KernelBypassClient
make config boost_asio =
    with_boost
      (record { initialized = false; running = false; socket_open = false; should_stop = false })
make config dpdk = with_dpdk (Startup.fresh config)
make config solarflare_vi = with_solarflare (Lifecycle.fresh config)

-- The virtual functions, by the class of the object.
unfoldable pub backend_initialize :
    World → BypassConfig → KernelBypassClient → KernelBypassClient × Bool
backend_initialize w config (with_boost c) =
    let (c', done) = Boost.initialize config c in (with_boost c', done)
backend_initialize w config (with_dpdk c) =
    let (flag, c', done) = Dpdk.initialize config w.dpdk_answers w.dpdk_initialized c in
    (with_dpdk c', done)
backend_initialize w config (with_solarflare c) =
    let (c', done) = Solarflare.initialize config w.solarflare_answers c in
    (with_solarflare c', done)

unfoldable pub backend_connect : World → KernelBypassClient → KernelBypassClient × Bool
backend_connect w (with_boost c) =
    let (c', done) = Boost.connect w.attempt c in (with_boost c', done)
backend_connect w (with_dpdk c) =
    let (c', done) = Dpdk.connect w.dpdk_answers c in (with_dpdk c', done)
backend_connect w (with_solarflare c) =
    let (c', done) = Solarflare.connect c in (with_solarflare c', done)

unfoldable pub backend_disconnect : KernelBypassClient → KernelBypassClient
backend_disconnect (with_boost c) = with_boost (Boost.disconnect c)
backend_disconnect (with_dpdk c) = with_dpdk (Dpdk.disconnect c)
backend_disconnect (with_solarflare c) = with_solarflare (Solarflare.disconnect c)

unfoldable pub backend_start_reception : Bool → KernelBypassClient → KernelBypassClient
backend_start_reception handler (with_boost c) = with_boost (Boost.start_reception handler c)
backend_start_reception handler (with_dpdk c) = with_dpdk (Dpdk.start_reception handler c)
backend_start_reception handler (with_solarflare c) =
    with_solarflare (Solarflare.start_reception handler c)

unfoldable pub backend_stop_reception : KernelBypassClient → KernelBypassClient
backend_stop_reception (with_boost c) = with_boost (Boost.stop_reception c)
backend_stop_reception (with_dpdk c) = with_dpdk (Dpdk.stop_reception c)
backend_stop_reception (with_solarflare c) = with_solarflare (Solarflare.stop_reception c)

unfoldable pub backend_is_connected : KernelBypassClient → Bool
backend_is_connected (with_boost c) = Boost.is_connected c
backend_is_connected (with_dpdk c) = Dpdk.is_connected c
backend_is_connected (with_solarflare c) = Solarflare.is_connected c

-- `parser`: it was made. `ingesting`: the ring buffer and the statistics are set.
pub record BypassIngestionClient : Type 0 where
  pub config : BypassConfig
  pub bypass_client : Option KernelBypassClient
  pub parser : Bool
  pub ingesting : Bool

-- The constructor.
abbrev pub create : BypassConfig → BypassIngestionClient
create config = record { config = config; bypass_client = none; parser = false; ingesting = false }

-- The factory never answers the null pointer.
unfoldable pub initialize : Build → World → BypassIngestionClient → BypassIngestionClient × Bool
initialize build w c =
    let chosen = create_bypass_client build.enable_dpdk build.enable_solarflare c.config.backend in
    let (backend, done) = backend_initialize w c.config (make c.config chosen) in
    (record c { bypass_client = some backend; parser = if done then true else c.parser }, done)

unfoldable pub connect : World → BypassIngestionClient → BypassIngestionClient × Bool
connect w c = elim c.bypass_client [
  | none ↦ (c, false)
  | some backend ↦
      let (backend', done) = backend_connect w backend in
      (record c { bypass_client = some backend' }, done)
]

unfoldable pub disconnect : BypassIngestionClient → BypassIngestionClient
disconnect c = elim c.bypass_client [
  | none ↦ c
  | some backend ↦ record c { bypass_client = some (backend_disconnect backend) }
]

unfoldable pub start_ingestion : BypassIngestionClient → BypassIngestionClient
start_ingestion c = elim c.bypass_client [
  | none ↦ c
  | some backend ↦ record c {
    bypass_client = some (backend_start_reception true backend);
    ingesting = true;
  }
]

-- The clean-up of the pending packets is that of Bypass.antt.
unfoldable pub stop_ingestion : BypassIngestionClient → BypassIngestionClient
stop_ingestion c = elim c.bypass_client [
  | none ↦ c
  | some backend ↦ record c { bypass_client = some (backend_stop_reception backend) }
]

unfoldable pub is_connected : BypassIngestionClient → Bool
is_connected c = elim c.bypass_client [ none ↦ false | some backend ↦ backend_is_connected backend ]
