-- ===== src/Bypass/Backend.antt =====
-- What the ingestion client asks of a backend that hands packets over with a context, and the two
-- together: the backend calls the packet handler, and the client calls `release_packet`.
pub mod Matches
pub mod Returned
use mdfh_distrib.Common.{ℕ, ◌≡◌, ◌≢◌, List, [], ◌∷◌, ◌++◌, drop, length}
use mdfh_distrib.Bypass.{PacketDesc, Client, handle_packet, cleanup_processed_packets}

-- `given_back` lists the contexts whose packets went back to the network card or to its pool. The
-- laws hold while the backend is `Ready`.
pub record Backend : Type 1 where
  pub State : Type 0
  pub Ready : State → Type 0
  pub given_back : State → List ℕ
  pub receive : PacketDesc → State → State
  pub release_packet : ℕ → State → State
  pub stop_reception : State → State
  pub receive_lem :
      (p : PacketDesc) (s : State)
      → Ready s
      → (given_back (receive p s) ≡ given_back s) × Ready (receive p s)
  pub release_packet_lem :
      (context : ℕ) (s : State)
      → context ≢ 0
      → Ready s
      → (given_back (release_packet context s) ≡ given_back s ++ (context ∷ []))
        × Ready (release_packet context s)
  pub stop_reception_lem :
      (s : State)
      → Ready s
      → (given_back (stop_reception s) ≡ given_back s) × Ready (stop_reception s)

-- The backend with the client that handles its packets.
pub record Reception (S : Type 0) : Type 0 where
  pub backend : S
  pub client : Client

module _ (b : Backend) where
  open b use {State, receive, release_packet, stop_reception}

  unfoldable pub release_all : List ℕ → State → State
  release_all [] s = s
  release_all (context ∷ contexts) s = release_all contexts (release_packet context s)

  -- The client's new calls of `release_packet` reach the backend.
  unfoldable pub released_by : Client → Reception State → Reception State
  released_by next r = record r {
    client = next;
    backend = release_all (drop (length r.client.released) next.released) r.backend;
  }

  -- The backend counts a packet and calls the handler.
  unfoldable pub deliver : (ℕ → ℕ) → PacketDesc → Reception State → Reception State
  deliver clock packet r =
      let counted : Reception State = record r { backend = receive packet r.backend } in
      released_by (handle_packet clock packet r.client) counted

  unfoldable pub deliver_all : (ℕ → ℕ) → List PacketDesc → Reception State → Reception State
  deliver_all clock [] r = r
  deliver_all clock (packet ∷ packets) r = deliver_all clock packets (deliver clock packet r)

  -- `BypassIngestionClient::stop_ingestion`
  unfoldable pub stop_ingestion : Reception State → Reception State
  stop_ingestion r =
      let stopped : Reception State = record r { backend = stop_reception r.backend } in
      released_by (cleanup_processed_packets r.client) stopped
