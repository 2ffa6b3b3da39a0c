-- ===== src/Bypass/Dpdk/Bursts.antt =====
-- What the DPDK reception loop counts and frees.
use mdfh_distrib.Common.{
  ℕ, zero, suc, ◌+◌, ◌%◌, ◌≤◌, ◌≡◌, ◌≢◌, refl, ap, subst, sym, ◌∙◌, List, [], ◌∷◌, ◌++◌, arith,
  length, drop,
}
use mdfh_distrib.Common.Word.{u64}
use mdfh_distrib.Bypass.{PacketDesc, handle_packet}
use mdfh_distrib.Bypass.Config.{BypassConfig}
use mdfh_distrib.Bypass.Held.{IsValid, items, AllLive}
use mdfh_distrib.Bypass.Backend.{
  Reception, release_all, released_by, deliver, deliver_all, stop_ingestion,
}
use mdfh_distrib.Bypass.Backend.Returned.{count, handed_over, each_returned}
use mdfh_distrib.Bypass.Dpdk.{
  DpdkBypassClient, Mbuf, u16, dpdk, release_packet, count_packet, process_packet_batch,
  reception_loop,
}

abbrev pub packets : List Mbuf → List PacketDesc
packets [] = []
packets (mbuf ∷ mbufs) =
    let packet : PacketDesc = record { data_bytes = mbuf.data_bytes; context = mbuf.address } in
    packet ∷ packets mbufs

abbrev pub total_bytes : List Mbuf → ℕ
total_bytes [] = 0
total_bytes (mbuf ∷ mbufs) = length mbuf.data_bytes + total_bytes mbufs

-- The rest of the fields while packets are released.
record Same (c d : DpdkBypassClient) : Type 0 where
  config : d.config ≡ c.config
  packets_received : d.packets_received ≡ c.packets_received
  bytes_received : d.bytes_received ≡ c.bytes_received

release_all-Same : (xs : List ℕ) (c : DpdkBypassClient) → Same c (release_all dpdk xs c)
unfolding release_all release_packet
release_all-Same [] c = record { config = refl; packets_received = refl; bytes_received = refl }
release_all-Same (x ∷ xs) c =
    let h = release_all-Same xs (release_packet x c) in
    record {
      config = h.config ∙ ground arith;
      packets_received = h.packets_received ∙ ground arith;
      bytes_received = h.bytes_received ∙ ground arith;
    }

-- What a run of packets does to the counters.
record Counted (c d : DpdkBypassClient) (n bytes : ℕ) : Type 0 where
  config : d.config ≡ c.config
  packets_received : u64 d.packets_received ≡ u64 (c.packets_received + n)
  bytes_received : u64 d.bytes_received ≡ u64 (c.bytes_received + bytes)

Counted-trans :
    {c d e : DpdkBypassClient} {m n a b : ℕ}
    → Counted c d m a
    → Counted d e n b
    → Counted c e (m + n) (a + b)
Counted-trans h k = record {
  config = k.config ∙ h.config;
  packets_received = omega (arith, h.packets_received, k.packets_received);
  bytes_received = omega (arith, h.bytes_received, k.bytes_received);
}

module _ (clock : ℕ → ℕ) (rx_burst : ℕ → ℕ → List Mbuf) where
  -- The buffers that the first `rounds` bursts deliver, for the size of the batch.
  abbrev pub bursts : (batch_size rounds n : ℕ) → List Mbuf
  bursts batch_size zero n = []
  bursts batch_size (suc rounds) n = rx_burst n batch_size ++ bursts batch_size rounds (suc n)

  deliver-Counted :
      (p : PacketDesc) (r : Reception DpdkBypassClient)
      → Counted r.backend (deliver dpdk clock p r).backend 1 (length p.data_bytes)
  unfolding deliver released_by count_packet
  deliver-Counted p r =
      let next = handle_packet clock p r.client in
      let new = drop (length r.client.released) next.released in
      let h = release_all-Same new (count_packet (length p.data_bytes) r.backend) in
      record {
        config = h.config;
        packets_received = ap u64 h.packets_received ∙ omega arith;
        bytes_received = ap u64 h.bytes_received ∙ omega arith;
      }

  batch-Counted :
      (mbufs : List Mbuf) (r : Reception DpdkBypassClient)
      → Counted r.backend
          (process_packet_batch clock rx_burst mbufs r).backend
          (length mbufs)
          (total_bytes mbufs)
  unfolding process_packet_batch
  batch-Counted [] r = record {
    config = refl;
    packets_received = ap u64 (omega arith);
    bytes_received = ap u64 (omega arith);
  }
  batch-Counted (mbuf ∷ mbufs) r =
      let p : PacketDesc = record { data_bytes = mbuf.data_bytes; context = mbuf.address } in
      let e : 1 + length mbufs ≡ suc (length mbufs) = omega arith in
      let rest = process_packet_batch clock rx_burst mbufs (deliver dpdk clock p r) in
      subst (λ k. Counted r.backend rest.backend k (total_bytes (mbuf ∷ mbufs))) e
        (Counted-trans (deliver-Counted p r) (batch-Counted mbufs (deliver dpdk clock p r)))

  batch-deliver_all :
      (mbufs : List Mbuf) (r : Reception DpdkBypassClient)
      → process_packet_batch clock rx_burst mbufs r ≡ deliver_all dpdk clock (packets mbufs) r
  unfolding process_packet_batch deliver_all
  batch-deliver_all [] r = refl
  batch-deliver_all (mbuf ∷ mbufs) r = batch-deliver_all mbufs _

  batch-append :
      (xs ys : List Mbuf) (r : Reception DpdkBypassClient)
      → process_packet_batch clock rx_burst (xs ++ ys) r
        ≡ process_packet_batch clock rx_burst ys (process_packet_batch clock rx_burst xs r)
  unfolding process_packet_batch
  batch-append [] ys r = refl
  batch-append (x ∷ xs) ys r = batch-append xs ys _

  -- The loop is one batch of all that the bursts deliver.
  loop-bursts :
      (rounds n : ℕ) (r : Reception DpdkBypassClient)
      → reception_loop clock rx_burst rounds n r
        ≡ process_packet_batch clock rx_burst (bursts (u16 r.backend.config.batch_size) rounds n) r
  unfolding reception_loop process_packet_batch
  loop-bursts zero n r = refl
  loop-bursts (suc rounds) n r =
      let size = u16 r.backend.config.batch_size in
      let one = rx_burst n size in
      let next = process_packet_batch clock rx_burst one r in
      let same : u16 next.backend.config.batch_size ≡ size =
        ap (λ (c : BypassConfig). u16 c.batch_size) (Counted.config (batch-Counted one r)) in
      loop-bursts rounds (suc n) next
      ∙ ap (λ k. process_packet_batch clock rx_burst (bursts k rounds (suc n)) next) same
      ∙ sym (batch-append one (bursts size rounds (suc n)) r)

  -- Any number of rounds of the reception loop, and then `stop_ingestion`, with a valid pending ring
  -- without null pointers: modulo 2^64 the counters grow by the number of the packets that the bursts
  -- delivered and by their bytes; and each buffer (its address is not null) is freed once for each
  -- time that it was delivered or pending.
  pub reception_loop_lem :
      (rounds n : ℕ) (r : Reception DpdkBypassClient)
      → IsValid r.client.pending
      → AllLive (items r.client.pending)
      → let delivered = bursts (u16 r.backend.config.batch_size) rounds n in
        let loop = reception_loop clock rx_burst rounds n r in
        (u64 loop.backend.packets_received ≡ u64 (r.backend.packets_received + length delivered))
        × (u64 loop.backend.bytes_received ≡ u64 (r.backend.bytes_received + total_bytes delivered))
        × ((k : ℕ)
            → k ≢ 0
            → count k (stop_ingestion dpdk loop).backend.freed
              ≡ count k r.backend.freed
                + count k (items r.client.pending)
                + count k (handed_over (packets delivered)))
  reception_loop_lem rounds n r v l =
      let delivered = bursts (u16 r.backend.config.batch_size) rounds n in
      let h = batch-Counted delivered r in
      rw (loop-bursts rounds n r) (
        h.packets_received,
        h.bytes_received,
        rw (batch-deliver_all delivered r)
            ((each_returned dpdk clock (packets delivered) r v l tt).0),
      )

  -- `rte_eth_rx_burst` delivers no more packets than there is room for.
  abbrev pub AtMost : Type 0
  AtMost = (n size : ℕ) → length (rx_burst n size) ≤ size

  bursts_none : (rounds n : ℕ) → AtMost → bursts 0 rounds n ≡ []
  bursts_none zero n few = refl
  bursts_none (suc rounds) n few =
      rw (none (rx_burst n 0) (few n 0)) (bursts_none rounds (suc n) few)
    where
      none : (xs : List Mbuf) → length xs ≤ 0 → xs ≡ []
      none [] h = refl
      none (x ∷ xs) h = absurd (omega arith)

  -- A batch size that is a multiple of 65536 becomes 0 in 16 bits: since a burst delivers no more
  -- packets than there is room for, the loop then changes nothing, however long it runs.
  pub reception_loop_idle :
      (rounds n : ℕ) (r : Reception DpdkBypassClient)
      → AtMost
      → r.backend.config.batch_size % 65536 ≡ 0
      → reception_loop clock rx_burst rounds n r ≡ r
  unfolding process_packet_batch
  reception_loop_idle rounds n r few e =
      loop-bursts rounds n r
      ∙ ap (λ k. process_packet_batch clock rx_burst (bursts k rounds n) r) e
      ∙ ap (λ xs. process_packet_batch clock rx_burst xs r) (bursts_none rounds n few)
