-- ===== src/Bypass/Dpdk.antt =====
-- `DPDKBypassClient`: its initialisation, with the flag that all clients of the process share, its
-- life cycle, and its reception loop with the `BypassIngestionClient` as the packet handler. DPDK is
-- not modelled: what its calls answer, and the bursts that it delivers, are arguments.
pub mod Startup
pub mod Bursts
mod Tests
use mdfh_distrib.Common.{
  ℕ, zero, suc, ◌+◌, ◌%◌, ◌≡◌, ◌≢◌, refl, arith, Bool, true, false, not, ◌&&◌, ◌||◌, List, [], ◌∷◌,
  ◌++◌, length, ◌==◌, if◌then◌else◌,
}
use mdfh_distrib.Common.Word.{u64}
use mdfh_distrib.Bypass.{PacketDesc}
use mdfh_distrib.Bypass.Backend.{Backend, Reception, deliver}
use mdfh_distrib.Bypass.Config
use mdfh_distrib.Bypass.Config.{BypassConfig}

-- The calls that set the library and the port up or take them down.
pub data Call : Type 0 where
  eal_init pool_create dev_configure rx_queue_setup tx_queue_setup : Call
  dev_start promiscuous_enable dev_stop dev_close : Call

-- Whether each of them succeeds; `port_ok`: the port is valid.
pub record Answers : Type 0 where
  pub eal_ok : Bool
  pub pool_ok : Bool
  pub port_ok : Bool
  pub configure_ok : Bool
  pub rx_ok : Bool
  pub tx_ok : Bool
  pub start_ok : Bool
  pub promiscuous_ok : Bool

-- `calls` lists the calls made so far, and `freed` the buffers given to `rte_pktmbuf_free`.
pub record DpdkBypassClient : Type 0 where
  pub config : BypassConfig
  pub initialized : Bool
  pub running : Bool
  pub packets_received : ℕ
  pub bytes_received : ℕ
  pub mbuf_pool : Bool
  pub calls : List Call
  pub freed : List ℕ

abbrev pub call : Call → DpdkBypassClient → DpdkBypassClient
call made c = record c { calls = c.calls ++ (made ∷ []) }

unfoldable pub setup_dpdk_eal : Answers → DpdkBypassClient → DpdkBypassClient × Bool
setup_dpdk_eal answers c = (call eal_init c, answers.eal_ok)

unfoldable pub setup_memory_pools : Answers → DpdkBypassClient → DpdkBypassClient × Bool
setup_memory_pools answers c =
    (call pool_create (record c { mbuf_pool = answers.pool_ok }), answers.pool_ok)

unfoldable pub setup_ethernet_port : Answers → DpdkBypassClient → DpdkBypassClient × Bool
setup_ethernet_port answers c =
    if not answers.port_ok
    then (c, false)
    else let configured = call dev_configure c in
      if not answers.configure_ok
      then (configured, false)
      else let receives = call rx_queue_setup configured in
        if not answers.rx_ok
        then (receives, false)
        else (call tx_queue_setup receives, answers.tx_ok)

-- The part under the lock: `dpdk_initialized_` and the client go in and come out.
unfoldable pub setup_process : Answers → Bool → DpdkBypassClient → Bool × DpdkBypassClient × Bool
unfolding setup_dpdk_eal
setup_process answers dpdk_initialized c =
    if dpdk_initialized
    then (true, c, true)
    else let (called, done) = setup_dpdk_eal answers c in
      if not done then (false, called, false) else (true, called, true)

unfoldable pub initialize :
    BypassConfig → Answers → Bool → DpdkBypassClient → Bool × DpdkBypassClient × Bool
unfolding setup_process setup_memory_pools setup_ethernet_port
initialize config answers dpdk_initialized c =
    if not (Config.is_valid config)
    then (dpdk_initialized, c, false)
    else let (flag, with_eal, eal_done) =
        setup_process answers dpdk_initialized (record c { config = config }) in
      let (with_pool, pool_done) = setup_memory_pools answers with_eal in
      let (with_port, port_done) = setup_ethernet_port answers with_pool in
      if not eal_done
      then (flag, with_eal, false)
      else if not pool_done
      then (flag, with_pool, false)
      else if not port_done
      then (flag, with_port, false)
      else (flag, record with_port { initialized = true }, true)

unfoldable pub connect : Answers → DpdkBypassClient → DpdkBypassClient × Bool
connect answers c =
    if not c.initialized
    then (c, false)
    else let started = call dev_start c in
      if not answers.start_ok
      then (started, false)
      else (call promiscuous_enable started, answers.promiscuous_ok)

unfoldable pub start_reception : Bool → DpdkBypassClient → DpdkBypassClient
start_reception has_handler c =
    if not has_handler || c.running || not c.initialized then c else record c { running = true }

unfoldable pub stop_reception : DpdkBypassClient → DpdkBypassClient
stop_reception c = record c { running = false }

unfoldable pub disconnect : DpdkBypassClient → DpdkBypassClient
unfolding stop_reception
disconnect c =
    let stopped = stop_reception c in
    let closed = call dev_close (call dev_stop stopped) in
    if stopped.initialized then record closed { initialized = false } else stopped

unfoldable pub is_connected : DpdkBypassClient → Bool
is_connected c = c.initialized && not c.running

unfoldable pub release_packet : ℕ → DpdkBypassClient → DpdkBypassClient
release_packet context c =
    if not (context == 0) then record c { freed = c.freed ++ (context ∷ []) } else c

unfoldable pub count_packet : ℕ → DpdkBypassClient → DpdkBypassClient
count_packet length c = record c {
  packets_received = u64 (c.packets_received + 1);
  bytes_received = u64 (c.bytes_received + length);
}

pub release_packet_lem :
    (context : ℕ) (c : DpdkBypassClient)
    → context ≢ 0
    → Unit {0}
    → ((release_packet context c).freed ≡ c.freed ++ (context ∷ [])) × Unit {0}
unfolding release_packet
release_packet_lem context c h ready = ground arith

pub count_packet_lem :
    (p : PacketDesc) (c : DpdkBypassClient)
    → Unit {0}
    → ((count_packet (length p.data_bytes) c).freed ≡ c.freed) × Unit {0}
unfolding count_packet
count_packet_lem p c ready = (refl, tt)

pub stop_reception_lem :
    (c : DpdkBypassClient) → Unit {0} → ((stop_reception c).freed ≡ c.freed) × Unit {0}
unfolding stop_reception
stop_reception_lem c ready = (refl, tt)

-- The backend as the ingestion client uses it.
abbrev pub dpdk : Backend
dpdk = record {
  State = DpdkBypassClient;
  Ready = λ c. Unit {0};
  given_back = λ c. c.freed;
  receive = λ p. count_packet (length p.data_bytes);
  release_packet = release_packet;
  stop_reception = stop_reception;
  receive_lem = count_packet_lem;
  release_packet_lem = release_packet_lem;
  stop_reception_lem = stop_reception_lem;
}

-- A packet buffer: its address, and the bytes in it.
pub record Mbuf : Type 0 where
  pub address : ℕ
  pub data_bytes : List ℕ

-- The batch size is cast to 16 bits.
abbrev pub u16 : ℕ → ℕ
u16 n = n % 65536

-- `rx_burst n size` is what the n-th call of `rte_eth_rx_burst` with room for `size` delivers.
module _ (clock : ℕ → ℕ) (rx_burst : ℕ → ℕ → List Mbuf) where
  unfoldable pub process_packet_batch :
      List Mbuf → Reception DpdkBypassClient → Reception DpdkBypassClient
  process_packet_batch [] r = r
  process_packet_batch (mbuf ∷ mbufs) r =
      let packet : PacketDesc = record { data_bytes = mbuf.data_bytes; context = mbuf.address } in
      process_packet_batch mbufs (deliver dpdk clock packet r)

  -- `rounds` rounds while `running_` is set, from round `n` on; a round without packets waits.
  unfoldable pub reception_loop :
      (rounds n : ℕ) → Reception DpdkBypassClient → Reception DpdkBypassClient
  reception_loop zero n r = r
  reception_loop (suc rounds) n r =
      let batch_size = u16 r.backend.config.batch_size in
      reception_loop rounds (suc n) (process_packet_batch (rx_burst n batch_size) r)
