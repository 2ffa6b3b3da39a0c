-- ===== src/Bypass/Solarflare.antt =====
-- `SolarflareBypassClient`: its life cycle, its packet buffers, and its reception loop with the
-- `BypassIngestionClient` as the packet handler. ef_vi and the C library are not modelled: what
-- their allocating calls answer, and the events that a poll delivers, are arguments.
pub mod Lifecycle
pub mod Buffers
pub mod Starvation
mod Tests
use mdfh_distrib.Common.{
  ℕ, zero, suc, ◌+◌, ◌*◌, ◌≡◌, ◌≢◌, refl, arith, Bool, true, false, not, ◌&&◌, ◌||◌, List, [], ◌∷◌,
  ◌++◌, length, ◌==◌, if◌then◌else◌,
}
use mdfh_distrib.Common.Word.{u64}
use mdfh_distrib.Bypass.{PacketDesc}
use mdfh_distrib.Bypass.Backend.{Backend, Reception, deliver}
use mdfh_distrib.Bypass.Config
use mdfh_distrib.Bypass.Config.{BypassConfig}

-- `pd_`, `vi_`, `packet_buffer_` and `memreg_`
pub data Resource : Type 0 where
  domain interface memory registration : Resource

-- The calls that acquire a resource or give it back.
pub data Call : Type 0 where
  acquired freed : Resource → Call

-- Whether each allocating call succeeds.
pub record Answers : Type 0 where
  pub domain_ok : Bool
  pub interface_ok : Bool
  pub memory_ok : Bool
  pub registration_ok : Bool

-- The flags of the pointers say that they are not null. `calls` lists the calls made so far, and
-- `posts` the identifiers given to `ef_vi_receive_init`.
pub record SolarflareBypassClient : Type 0 where
  pub config : BypassConfig
  pub pd : Bool
  pub vi : Bool
  pub packet_buffer : Bool
  pub memreg : Bool
  pub buffer_size : ℕ
  pub initialized : Bool
  pub running : Bool
  pub packets_received : ℕ
  pub bytes_received : ℕ
  pub calls : List Call
  pub posts : List ℕ

abbrev pub packet_size : ℕ
packet_size = 2048

abbrev pub call : Call → SolarflareBypassClient → SolarflareBypassClient
call made c = record c { calls = c.calls ++ (made ∷ []) }

unfoldable pub setup_virtual_interface :
    Answers → SolarflareBypassClient → SolarflareBypassClient × Bool
setup_virtual_interface answers c =
    if not answers.domain_ok
    then (c, false)
    else let allocated = record c { pd = true; calls = c.calls ++ (acquired domain ∷ []) } in
      if not answers.interface_ok
      then (call (freed domain) allocated, false)
      else (call (acquired interface) (record allocated { vi = true }), true)

-- When the registration fails, the memory is freed and its pointer is left as it is.
unfoldable pub setup_packet_buffers :
    Answers → SolarflareBypassClient → SolarflareBypassClient × Bool
setup_packet_buffers answers c =
    let sized = record c { buffer_size = u64 (c.config.rx_ring_size * packet_size) } in
    if not answers.memory_ok
    then (sized, false)
    else let allocated = call (acquired memory) (record sized { packet_buffer = true }) in
      if not answers.registration_ok
      then (call (freed memory) allocated, false)
      else (call (acquired registration) (record allocated { memreg = true }), true)

unfoldable pub initialize :
    BypassConfig → Answers → SolarflareBypassClient → SolarflareBypassClient × Bool
initialize config answers c =
    if not (Config.is_valid config)
    then (c, false)
    else let (with_interface, interface_done) =
        setup_virtual_interface answers (record c { config = config }) in
      let (with_buffers, buffers_done) = setup_packet_buffers answers with_interface in
      if not interface_done
      then (with_interface, false)
      else if not buffers_done
      then (with_buffers, false)
      else (record with_buffers { initialized = true }, true)

-- The identifiers `i`, `i + 1`, …, as many as the first argument says.
abbrev pub ids_from : ℕ → ℕ → List ℕ
ids_from zero i = []
ids_from (suc n) i = i ∷ ids_from n (i + 1)

unfoldable pub connect : SolarflareBypassClient → SolarflareBypassClient × Bool
connect c =
    if not c.initialized
    then (c, false)
    else (record c { posts = c.posts ++ ids_from c.config.rx_ring_size 0 }, true)

unfoldable pub stop_reception : SolarflareBypassClient → SolarflareBypassClient
stop_reception c = record c { running = false }

unfoldable pub free_registration : SolarflareBypassClient → SolarflareBypassClient
free_registration c =
    if c.memreg then call (freed registration) (record c { memreg = false }) else c

unfoldable pub free_memory : SolarflareBypassClient → SolarflareBypassClient
free_memory c =
    if c.packet_buffer then call (freed memory) (record c { packet_buffer = false }) else c

unfoldable pub free_interface : SolarflareBypassClient → SolarflareBypassClient
free_interface c = if c.vi then call (freed interface) (record c { vi = false }) else c

unfoldable pub free_domain : SolarflareBypassClient → SolarflareBypassClient
free_domain c = if c.pd then call (freed domain) (record c { pd = false }) else c

unfoldable pub disconnect : SolarflareBypassClient → SolarflareBypassClient
unfolding stop_reception free_registration free_memory free_interface free_domain
disconnect c =
    let stopped = stop_reception c in
    let freed_all = free_domain (free_interface (free_memory (free_registration stopped))) in
    if stopped.initialized then record freed_all { initialized = false } else stopped

unfoldable pub start_reception : Bool → SolarflareBypassClient → SolarflareBypassClient
start_reception has_handler c =
    if not has_handler || c.running || not c.initialized then c else record c { running = true }

unfoldable pub is_connected : SolarflareBypassClient → Bool
is_connected c = c.initialized

-- The buffer that the context names is posted again.
unfoldable pub release_packet : ℕ → SolarflareBypassClient → SolarflareBypassClient
release_packet context c =
    if not (context == 0) && c.vi then record c { posts = c.posts ++ (context ∷ []) } else c

unfoldable pub count_packet : ℕ → SolarflareBypassClient → SolarflareBypassClient
count_packet length c = record c {
  packets_received = u64 (c.packets_received + 1);
  bytes_received = u64 (c.bytes_received + length);
}

pub release_packet_lem :
    (context : ℕ) (c : SolarflareBypassClient)
    → context ≢ 0
    → c.vi ≡ true
    → ((release_packet context c).posts ≡ c.posts ++ (context ∷ []))
      × ((release_packet context c).vi ≡ true)
unfolding release_packet
release_packet_lem context c h up = ground arith

pub count_packet_lem :
    (p : PacketDesc) (c : SolarflareBypassClient)
    → c.vi ≡ true
    → ((count_packet (length p.data_bytes) c).posts ≡ c.posts)
      × ((count_packet (length p.data_bytes) c).vi ≡ true)
unfolding count_packet
count_packet_lem p c up = (refl, up)

pub stop_reception_lem :
    (c : SolarflareBypassClient)
    → c.vi ≡ true
    → ((stop_reception c).posts ≡ c.posts) × ((stop_reception c).vi ≡ true)
unfolding stop_reception
stop_reception_lem c up = (refl, up)

-- The backend as the ingestion client uses it; it is ready while the interface exists.
abbrev pub solarflare : Backend
solarflare = record {
  State = SolarflareBypassClient;
  Ready = λ c. c.vi ≡ true;
  given_back = λ c. c.posts;
  receive = λ p. count_packet (length p.data_bytes);
  release_packet = release_packet;
  stop_reception = stop_reception;
  receive_lem = count_packet_lem;
  release_packet_lem = release_packet_lem;
  stop_reception_lem = stop_reception_lem;
}

-- The buffer that a packet arrived in with the bytes it holds, or an event of another type.
pub data Event : Type 0 where
  rx : ℕ → List ℕ → Event
  other : Event

module _ (clock : ℕ → ℕ) where
  unfoldable pub process_event :
      Event → Reception SolarflareBypassClient → Reception SolarflareBypassClient
  process_event other r = r
  process_event (rx buffer_id bytes) r =
      let packet : PacketDesc = record { data_bytes = bytes; context = buffer_id } in
      deliver solarflare clock packet r

  -- The loop over the events of one poll.
  unfoldable pub process_events :
      List Event → Reception SolarflareBypassClient → Reception SolarflareBypassClient
  process_events [] r = r
  process_events (e ∷ es) r = process_events es (process_event e r)

  -- A list of events for each poll while `running_` is set.
  unfoldable pub reception_loop :
      List (List Event) → Reception SolarflareBypassClient → Reception SolarflareBypassClient
  reception_loop [] r = r
  reception_loop (poll ∷ polls) r = reception_loop polls (process_events poll r)
