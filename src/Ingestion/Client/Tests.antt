-- ===== src/Ingestion/Client/Tests.antt =====
-- A run of the read loop: 45 bytes in two reads, then the end of the stream.
use mdfh_distrib.Common.{ℕ, ◌+◌, ◌≡◌, arith, List, [], ◌∷◌, ◌++◌, replicate}
use mdfh_distrib.Ring.{fresh}
use mdfh_distrib.Ingestion.Stats.{initial, record_bytes_received}
use mdfh_distrib.Ingestion.Parser.{Sink}
use mdfh_distrib.Ingestion.Parser.Frames.{messages, leftover}
use mdfh_distrib.Ingestion.Parser.Delivery.{deliver}
use mdfh_distrib.Ingestion.Parser.Reassembly.{concat}
use mdfh_distrib.Ingestion.Client.{eof, run_io_loop, reads, run_io_loop_lem}

abbrev sink : Sink
sink = record { ring = fresh 4; stats = initial; ticks = 0 }

abbrev clock : ℕ → ℕ
clock n = 500 + n

abbrev pieces : List (List ℕ)
pieces = replicate 27 1 ∷ replicate 18 2 ∷ []

run_io_loop_lem_example :
    let after = deliver clock (messages ([] ++ concat pieces)) sink in
    run_io_loop clock (reads clock pieces eof) (record { partial = [] }, sink) ≡ (
      record { partial = leftover ([] ++ concat pieces) },
      record after { stats = record_bytes_received 45 after.stats },
    )
run_io_loop_lem_example =
    run_io_loop_lem clock pieces eof [] sink (omega arith)
      (omega arith, omega arith, (omega arith, omega arith, tt)) tt (omega arith)
