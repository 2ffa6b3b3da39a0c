-- ===== src/Bypass/Solarflare/Buffers.antt =====
-- What becomes of the Solarflare packet buffers that the card hands over.
use mdfh_distrib.Common.{ℕ, ◌+◌, ◌≡◌, ◌≢◌, refl, sym, ◌∙◌, true, List, [], ◌∷◌, ◌++◌}
use mdfh_distrib.Bypass.{PacketDesc}
use mdfh_distrib.Bypass.Held.{IsValid, items, AllLive}
use mdfh_distrib.Bypass.Backend.{Reception, deliver_all, stop_ingestion}
use mdfh_distrib.Bypass.Backend.Returned.{count, handed_over, each_returned}
use mdfh_distrib.Bypass.Solarflare.{
  SolarflareBypassClient, Event, rx, other, solarflare, process_event, process_events,
  reception_loop,
}

-- The packets of the events.
abbrev pub packets : List Event → List PacketDesc
packets [] = []
packets (other ∷ es) = packets es
packets (rx buffer_id bytes ∷ es) =
    let packet : PacketDesc = record { data_bytes = bytes; context = buffer_id } in
    packet ∷ packets es

-- All events of a run, poll by poll.
abbrev pub all_events : List (List Event) → List Event
all_events [] = []
all_events (poll ∷ polls) = poll ++ all_events polls

-- The buffers that the card handed over, in order.
abbrev pub taken : List (List Event) → List ℕ
taken polls = handed_over (packets (all_events polls))

module _ (clock : ℕ → ℕ) where
  -- The polls are one run of events.
  process_events-append :
      (es fs : List Event) (r : Reception SolarflareBypassClient)
      → process_events clock (es ++ fs) r ≡ process_events clock fs (process_events clock es r)
  unfolding process_events
  process_events-append [] fs r = refl
  process_events-append (e ∷ es) fs r = process_events-append es fs (process_event clock e r)

  pub reception_loop-events :
      (polls : List (List Event)) (r : Reception SolarflareBypassClient)
      → reception_loop clock polls r ≡ process_events clock (all_events polls) r
  unfolding reception_loop process_events
  reception_loop-events [] r = refl
  reception_loop-events (poll ∷ polls) r =
      reception_loop-events polls (process_events clock poll r)
      ∙ sym (process_events-append poll (all_events polls) r)

  process_events-deliver_all :
      (es : List Event) (r : Reception SolarflareBypassClient)
      → process_events clock es r ≡ deliver_all solarflare clock (packets es) r
  unfolding process_events process_event deliver_all
  process_events-deliver_all [] r = refl
  process_events-deliver_all (other ∷ es) r = process_events-deliver_all es r
  process_events-deliver_all (rx buffer_id bytes ∷ es) r = process_events-deliver_all es _

  -- A run of the reception loop over any polls, and then `stop_ingestion`, with the interface set up
  -- and a valid pending ring without null pointers: each buffer other than 0 is posted again once for
  -- each time that the card handed it over or the ring held it, and buffer 0 is not posted again,
  -- however often the card handed it over.
  pub buffers_returned :
      (polls : List (List Event)) (r : Reception SolarflareBypassClient)
      → IsValid r.client.pending
      → AllLive (items r.client.pending)
      → r.backend.vi ≡ true
      → let after = stop_ingestion solarflare (reception_loop clock polls r) in
        ((k : ℕ)
          → k ≢ 0
          → count k after.backend.posts
            ≡ count k r.backend.posts + count k (items r.client.pending) + count k (taken polls))
        × (count 0 after.backend.posts ≡ count 0 r.backend.posts)
  buffers_returned polls r v l up =
      rw (reception_loop-events polls r ∙ process_events-deliver_all (all_events polls) r)
        (each_returned solarflare clock (packets (all_events polls)) r v l up)
