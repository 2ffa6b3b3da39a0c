-- ===== src/Ingestion/Stats/Periodic.antt =====
-- `IngestionStats::check_periodic_flush` and `print_periodic_stats`: when a line is printed, and the
-- differences that its rates are made of. Times are nanoseconds; the rates, quotients of doubles, and
-- the text are left out.
use mdfh_distrib.Common.{
  ◌/◌, ℕ, ◌+◌, ◌-◌, ◌^◌, ◌≤◌, ◌<◌, ◌≡◌, List, [], ◌∷◌, arith, leb, if◌then◌else◌, Bool-cases, inl,
  inr, ◌⊎◌, true, false, refl, subst,
}
use mdfh_distrib.Common.Word.{u64, sub64}
use mdfh_distrib.Ingestion.Stats.{IngestionStats, initial}

-- What a line shows: its time, and what came in, was processed and read since the last one.
pub record Line : Type 0 where
  pub time : ℕ
  pub recv_delta : ℕ
  pub proc_delta : ℕ
  pub bytes_delta : ℕ

-- `printed` lists the lines, the last one first.
pub record Periodic : Type 0 where
  pub last_flush : ℕ
  pub last_messages_received : ℕ
  pub last_messages_processed : ℕ
  pub last_bytes_received : ℕ
  pub printed : List Line

-- The initial values, at time `now`.
abbrev pub start : ℕ → Periodic
start now = record {
  last_flush = now;
  last_messages_received = 0;
  last_messages_processed = 0;
  last_bytes_received = 0;
  printed = [];
}

unfoldable pub print_periodic_stats : ℕ → IngestionStats → Periodic → Periodic
print_periodic_stats now stats p =
    let line : Line = record {
      time = now;
      recv_delta = sub64 stats.messages_received p.last_messages_received;
      proc_delta = sub64 stats.messages_processed p.last_messages_processed;
      bytes_delta = sub64 stats.bytes_received p.last_bytes_received;
    } in
    record p {
      last_messages_received = stats.messages_received;
      last_messages_processed = stats.messages_processed;
      last_bytes_received = stats.bytes_received;
      printed = line ∷ p.printed;
    }

-- The seconds of a duration are cut off: at least one second has passed.
unfoldable pub check_periodic_flush : ℕ → IngestionStats → Periodic → Periodic
check_periodic_flush now stats p =
    let flushed = print_periodic_stats now stats p in
    if leb 1 ((now - p.last_flush) / 1000000000) then record flushed { last_flush = now } else p

-- The calls of a consumer's loop: the time, and the statistics at that time.
unfoldable pub check_all : List (ℕ × IngestionStats) → Periodic → Periodic
check_all [] p = p
check_all ((now, stats) ∷ later) p = check_all later (check_periodic_flush now stats p)

abbrev pub total_recv : List Line → ℕ
total_recv [] = 0
total_recv (l ∷ ls) = l.recv_delta + total_recv ls

abbrev pub total_proc : List Line → ℕ
total_proc [] = 0
total_proc (l ∷ ls) = l.proc_delta + total_proc ls

abbrev pub total_bytes : List Line → ℕ
total_bytes [] = 0
total_bytes (l ∷ ls) = l.bytes_delta + total_bytes ls

-- At least a second between two lines, the later first, and before the first of them.
abbrev pub Spaced : ℕ → ℕ → List Line → Type 0
Spaced began last [] = began ≤ last
Spaced began last (l ∷ ls) =
    (l.time ≤ last) × ((previous : ℕ) × (previous + 1000000000 ≤ l.time) × Spaced began previous ls)

-- The counters fit in 64 bits.
abbrev pub InWords : List (ℕ × IngestionStats) → Type 0
InWords [] = Unit
InWords ((now, s) ∷ later) =
    (s.messages_received < 2 ^ 64)
    × (s.messages_processed < 2 ^ 64)
    × (s.bytes_received < 2 ^ 64)
    × InWords later

-- The statistics at the last call that comes a second or more after the one chosen before it, which
-- was at `last`; `stats` if there is none.
abbrev pub latest : ℕ → IngestionStats → List (ℕ × IngestionStats) → IngestionStats
latest last stats [] = stats
latest last stats ((now, s) ∷ later) =
    let next = latest now s later in
    let same = latest last stats later in if leb (last + 1000000000) now then next else same

-- The lines so far, when the counters at the last of them were those of `stats`.
record IsValid (began : ℕ) (stats : IngestionStats) (p : Periodic) : Type 0 where
  recv : u64 (total_recv p.printed) ≡ stats.messages_received
  proc : u64 (total_proc p.printed) ≡ stats.messages_processed
  bytes : u64 (total_bytes p.printed) ≡ stats.bytes_received
  last_recv : p.last_messages_received ≡ stats.messages_received
  last_proc : p.last_messages_processed ≡ stats.messages_processed
  last_bytes : p.last_bytes_received ≡ stats.bytes_received
  spaced : Spaced began p.last_flush p.printed

-- A call that prints, and one that does not.
flush_cases :
    (began now : ℕ) (old s : IngestionStats) (p : Periodic)
    → s.messages_received < 2 ^ 64
    → s.messages_processed < 2 ^ 64
    → s.bytes_received < 2 ^ 64
    → IsValid began old p
    → ((leb (p.last_flush + 1000000000) now ≡ true)
        × ((check_periodic_flush now s p).last_flush ≡ now)
        × IsValid began s (check_periodic_flush now s p))
      ⊎ ((leb (p.last_flush + 1000000000) now ≡ false) × (check_periodic_flush now s p ≡ p))
unfolding check_periodic_flush print_periodic_stats
flush_cases began now old s p a b c v =
    elim (Bool-cases (leb 1 ((now - p.last_flush) / 1000000000))) [
      | inr off ↦ inr (ground (arith, off), rw off refl)
      | inl on ↦
          let second : p.last_flush + 1000000000 ≤ now = ground (arith, on) in
          inl (
            ground (arith, second),
            rw on refl,
            rw on (record {
              recv = omega (arith, v.recv, v.last_recv, a);
              proc = omega (arith, v.proc, v.last_proc, b);
              bytes = omega (arith, v.bytes, v.last_bytes, c);
              last_recv = refl;
              last_proc = refl;
              last_bytes = refl;
              spaced = (omega arith, (p.last_flush, second, v.spaced));
            }),
          )
    ]

calls_lem :
    (began : ℕ) (calls : List (ℕ × IngestionStats)) (old : IngestionStats) (p : Periodic)
    → InWords calls
    → IsValid began old p
    → IsValid began (latest p.last_flush old calls) (check_all calls p)
unfolding check_all
calls_lem began [] old p w v = v
calls_lem began ((now, s) ∷ later) old p (a, b, c, w) v =
    elim (flush_cases began now old s p a b c v) [
      | inl (on, at, v') ↦
          let after = check_periodic_flush now s p in
          rw on (
            subst (λ t. IsValid began (latest t s later) (check_all later after)) at
              (calls_lem began later s after w v'))
      | inr (off, same) ↦ rw (off, same) (calls_lem began later old p w v)
    ]

-- Any calls of `check_periodic_flush` after the start, with counters in 64 bits: at least a second lies
-- between two printed lines and before the first; and modulo 2^64 the differences that the lines show
-- of the received messages, the processed messages and the bytes add up to these three counters at the
-- last call that comes a second or more after the one before it of this kind, the start being the
-- first, or to those of `initial`, 0, if there is none.
pub check_all_lem :
    (began : ℕ) (calls : List (ℕ × IngestionStats))
    → InWords calls
    → let after = check_all calls (start began) in
      let stats = latest began initial calls in
      (u64 (total_recv after.printed) ≡ stats.messages_received)
      × (u64 (total_proc after.printed) ≡ stats.messages_processed)
      × (u64 (total_bytes after.printed) ≡ stats.bytes_received)
      × Spaced began after.last_flush after.printed
check_all_lem began calls w =
    let fresh : IsValid began initial (start began) = record {
      recv = refl;
      proc = refl;
      bytes = refl;
      last_recv = refl;
      last_proc = refl;
      last_bytes = refl;
      spaced = omega arith;
    } in
    let v = calls_lem began calls initial (start began) w fresh in
    (v.recv, v.proc, v.bytes, v.spaced)
