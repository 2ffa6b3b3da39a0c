-- ===== src/Ingestion/Parser/Tests.antt =====
-- Runs of the parser, and the theorems at such runs.
use mdfh_distrib.Common.{
  ℕ, ◌+◌, ◌-◌, ◌≡◌, refl, List, [], ◌∷◌, ◌++◌, arith, length, replicate, take, drop,
  length-replicate, min,
}
use mdfh_distrib.Core.{Msg}
use mdfh_distrib.Ring.{fresh}
use mdfh_distrib.Ring.Invariant.{IsValid}
use mdfh_distrib.Ring.Refine.{items}
use mdfh_distrib.Ingestion.Stats.{initial}
use mdfh_distrib.Ingestion.Parser.{Sink, parse_bytes, decode}
use mdfh_distrib.Ingestion.Parser.Frames.{messages, leftover, frames}
use mdfh_distrib.Ingestion.Parser.Delivery.{deliver}
use mdfh_distrib.Ingestion.Parser.Reassembly.{feed, concat, feed_lem}
use mdfh_distrib.Ingestion.Parser.Overflow.{parse_bytes_overflow}
use mdfh_distrib.Ingestion.Parser.Account.{stamped, deliver_account}

abbrev clock : ℕ → ℕ
clock n = 1000 + n

-- a buffer for two slots
abbrev sink : Sink
sink = record { ring = fresh 2; stats = initial; ticks = 0 }

fresh-IsValid : IsValid (fresh 2)
fresh-IsValid = record {
  laid = record {
    exponent = 1;
    small = omega arith;
    capacity_eq = refl;
    mask_eq = refl;
    storage = refl;
    write_word = omega arith;
    read_word = omega arith;
    within = omega arith;
  };
  peak = omega arith;
  mark = omega arith;
}

-- sequence number 0x0201, price 1.0, quantity 5
abbrev one_message : List ℕ
one_message =
    1 ∷ 2 ∷ 0 ∷ 0 ∷ 0 ∷ 0 ∷ 0 ∷ 0 ∷ 0 ∷ 0 ∷ 0 ∷ 0 ∷ 0 ∷ 0 ∷ 0xf0 ∷ 0x3f ∷ 5 ∷ 0 ∷ 0 ∷ 0 ∷ []

decoded : decode one_message ≡ record { seq = 0x0201; px = 0x3ff0_0000_0000_0000; qty = 5 }
unfolding decode
decoded = refl

abbrev pieces : List (List ℕ)
pieces = take 7 one_message ∷ drop 7 one_message ∷ one_message ∷ (1 ∷ 2 ∷ []) ∷ []

feed_lem_example : feed clock pieces (record { partial = [] }, sink) ≡ (
  record { partial = leftover ([] ++ concat pieces) },
  deliver clock (messages ([] ++ concat pieces)) sink,
)
feed_lem_example = feed_lem clock pieces [] sink (omega arith) (omega arith)

-- One read of the bypass client's buffer, with one byte kept from before.
full_read : List ℕ
full_read = replicate 65536 7

full_read-length : length full_read ≡ 65536
unfolding full_read
full_read-length = length-replicate {A = ℕ} 65536 7

parse_bytes_overflow_example : parse_bytes clock full_read (record { partial = 9 ∷ [] }, sink) ≡ (
  record { partial = leftover (drop 65536 (9 ∷ full_read)) },
  deliver clock
      (messages (drop 65536 (9 ∷ full_read)))
      (deliver clock (frames 3276 (9 ∷ full_read)) sink),
)
parse_bytes_overflow_example =
    parse_bytes_overflow clock full_read (9 ∷ []) sink (omega arith) (omega arith)
      (omega (arith, full_read-length))

abbrev three : List Msg
three =
    record { seq = 1; px = 1; qty = 1 }
    ∷ record { seq = 2; px = 1; qty = 1 }
    ∷ record { seq = 3; px = 1; qty = 1 }
    ∷ []

-- Two of three messages fit.
deliver_account_example :
    let after = deliver clock three sink in
    (items after.ring ≡ items (fresh 2) ++ take 2 (stamped clock 0 three))
    × (after.stats.messages_received ≡ 0 + min 3 2)
    × (after.stats.messages_dropped ≡ 0 + (3 - 2))
    × IsValid after.ring
deliver_account_example = deliver_account clock three sink fresh-IsValid (omega arith) (omega arith)
