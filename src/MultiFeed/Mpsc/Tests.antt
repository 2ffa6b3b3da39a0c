-- ===== src/MultiFeed/Mpsc/Tests.antt =====
-- The theorem on several producers at two of them, which have claimed their slots.
use mdfh_distrib.Common.{ℕ, ◌+◌, ◌^◌, ◌≤◌, ◌<◌, ◌≡◌, ◌≢◌, ◌⊎◌, refl, arith, bit_and, length}
use mdfh_distrib.MultiFeed.Mpsc.{MultiFeedSlot, empty_multi_slot, fresh}
use mdfh_distrib.MultiFeed.Mpsc.Producers.{Shared, Move, Run, start, later}
use mdfh_distrib.MultiFeed.Mpsc.Exclusive.{exclusive_slots}

abbrev x : MultiFeedSlot
x = record empty_multi_slot { origin_id = 3 }

abbrev y : MultiFeedSlot
y = record empty_multi_slot { origin_id = 4 }

-- The first producer claims position 0 between the loads of the second, which so loses its first
-- exchange and claims position 1 with its second.
abbrev two_claims : (s : Shared) × Run (fresh (2 ^ 3)) s
two_claims = (
  _,
  later
      (later
        (later
          (later
            (later
              (later
                (later (later (later start (Move.load_write 1 y refl)) (Move.load_write 0 x refl))
                  (Move.load_read 0 refl))
                (Move.exchange 0 refl (omega arith) refl))
              (Move.load_read 1 refl))
            (Move.give_up 1 refl))
          (Move.load_write 1 y refl))
        (Move.load_read 1 refl))
      (Move.exchange 1 refl (omega arith) refl),
)

exclusive_slots_example :
    ((◌≢◌ {A = ℕ} 0 1)
      × ((bit_and 0 two_claims.0.ring.mask ≢ bit_and 1 two_claims.0.ring.mask)
          ⊎ (0 < two_claims.0.ring.read_pos)
          ⊎ (1 < two_claims.0.ring.read_pos))
      × (two_claims.0.ring.write_pos ≡ length two_claims.0.owners)
      × (two_claims.0.ring.read_pos ≤ two_claims.0.ring.write_pos)
      × (two_claims.0.ring.write_pos ≤ two_claims.0.ring.read_pos + 2 ^ 3))
exclusive_slots_example =
    exclusive_slots {k = 3} (omega arith) two_claims.1 (omega arith) 0 1 (omega arith) refl refl
