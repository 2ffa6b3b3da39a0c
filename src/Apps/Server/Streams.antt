-- ===== src/Apps/Server/Streams.antt =====
-- What each client of the server is sent.
use mdfh_distrib.Common.{
  ℕ, zero, suc, ◌+◌, ◌*◌, ◌^◌, ◌≤◌, ◌<◌, ◌≡◌, refl, sym, subst, Bool, true, List, [], ◌∷◌, ◌++◌,
  arith, length, length-append, if◌then◌else◌, Bool-cases, inl, inr,
}
use mdfh_distrib.Common.Word.{u64}
use mdfh_distrib.Core.{Msg}
use mdfh_distrib.Apps.Server.{
  ServerConfig, Connection, MarketDataServer, accept, remove_closed, write_batch, write_all,
  send_batch_to_clients, Round, is_empty, generate_message, generate, send_round, goes_on,
  message_generation_loop,
}

-- Numbered from `n` on without a gap.
abbrev pub Numbered : ℕ → List Msg → Type 0
Numbered n [] = Unit
Numbered n (m ∷ ms) = (m.seq ≡ n) × Numbered (n + 1) ms

-- Every client was sent messages numbered without a gap, and a client that is open was sent the last
-- message before number `next`, or none so far.
abbrev pub AllStreams : ℕ → List Connection → Type 0
AllStreams next [] = Unit
AllStreams next (c ∷ cs) =
    ((first : ℕ) × Numbered first c.sent × (c.is_open ≡ true → first + length c.sent ≡ next))
    × AllStreams next cs

Numbered-append :
    (n : ℕ) (xs ys : List Msg) → Numbered n xs → Numbered (n + length xs) ys → Numbered n (xs ++ ys)
Numbered-append n [] ys a b = let e : n + 0 ≡ n = omega arith in subst (λ k. Numbered k ys) e b
Numbered-append n (x ∷ xs) ys (a, rest) b =
    let e : n + suc (length xs) ≡ n + 1 + length xs = omega arith in
    (a, Numbered-append (n + 1) xs ys rest (subst (λ k. Numbered k ys) e b))

AllStreams-accept :
    (next joined : ℕ) (cs : List Connection)
    → AllStreams next cs
    → AllStreams next (accept joined cs)
unfolding accept
AllStreams-accept next zero [] h = tt
AllStreams-accept next (suc joined) [] h =
    ((next, tt, λ e. omega arith), AllStreams-accept next joined [] tt)
AllStreams-accept next joined (c ∷ cs) (one, rest) = (one, AllStreams-accept next joined cs rest)

AllStreams-remove_closed :
    (next : ℕ) (cs : List Connection) → AllStreams next cs → AllStreams next (remove_closed cs)
unfolding remove_closed
AllStreams-remove_closed next [] h = tt
AllStreams-remove_closed next (c ∷ cs) (one, rest) =
    let kept = remove_closed cs in
    let ih = AllStreams-remove_closed next cs rest in
    let motive = λ (b : Bool). AllStreams next (if b then c ∷ kept else kept) in
    elim (Bool-cases c.is_open) [
      | inl e ↦ subst motive (sym e) (one, ih)
      | inr e ↦ subst motive (sym e) ih
    ]

write_batch-stream :
    (batch : List Msg) (fails : Bool) (next first : ℕ) (c : Connection)
    → Numbered next batch
    → Numbered first c.sent
    → (c.is_open ≡ true → first + length c.sent ≡ next)
    → let c' = write_batch batch fails c in
      Numbered first c'.sent × (c'.is_open ≡ true → first + length c'.sent ≡ next + length batch)
write_batch-stream batch fails next first c b run here = elim (Bool-cases c.is_open) [
  | inr closed ↦ rw (write_batch, closed) (run, λ e. ground (arith, e, closed))
  | inl open_now ↦ elim (Bool-cases fails) [
    | inl bad ↦ rw (write_batch, open_now, bad) (run, λ e. ground (arith, e))
    | inr good ↦
        let reached : first + length c.sent ≡ next = here open_now in
        rw (write_batch, open_now, good)
          (
            Numbered-append first c.sent batch run (subst (λ k. Numbered k batch) (sym reached) b),
            λ e. omega (arith, reached, length-append c.sent batch),
          )
  ]
]

AllStreams-write_all :
    (batch : List Msg) (fails : ℕ → Bool) (next i : ℕ) (cs : List Connection)
    → Numbered next batch
    → AllStreams next cs
    → AllStreams (next + length batch) (write_all batch fails i cs)
unfolding write_all
AllStreams-write_all batch fails next i [] b h = tt
AllStreams-write_all batch fails next i (c ∷ cs) b ((first, run, here), rest) =
    let (run', here') = write_batch-stream batch (fails i) next first c b run here in
    ((first, run', here'), AllStreams-write_all batch fails next (i + 1) cs b rest)

AllStreams-send :
    (batch : List Msg) (fails : ℕ → Bool) (next : ℕ) (cs : List Connection)
    → Numbered next batch
    → AllStreams next cs
    → AllStreams (next + length batch) (send_batch_to_clients batch fails cs)
unfolding send_batch_to_clients
AllStreams-send [] fails next cs b h =
    let e : next ≡ next + 0 = omega arith in subst (λ k. AllStreams k cs) e h
AllStreams-send (m ∷ ms) fails next cs b h =
    AllStreams-write_all (m ∷ ms) fails next 0 (remove_closed cs) b
      (AllStreams-remove_closed next cs h)

-- What the loop keeps.
pub record IsValid (s : MarketDataServer) : Type 0 where
  pub counted : s.messages_sent + 1 ≡ s.sequence
  pub streams : AllStreams s.sequence s.clients

module _ (price : ℕ → ℕ) (quantity : ℕ → ℕ) (sells : ℕ → Bool) where
  -- The batch holds no more messages than are wanted, numbered from the sequence number on.
  generate_lem :
      (wanted : ℕ) (still : ℕ → Bool) (i sequence : ℕ)
      → sequence + wanted < 2 ^ 64
      → let batch = generate price quantity sells wanted still i sequence in
        (length batch ≤ wanted) × Numbered sequence batch
  unfolding generate generate_message
  generate_lem zero still i sequence word = (omega arith, tt)
  generate_lem (suc wanted) still i sequence word = elim (Bool-cases (still i)) [
    | inr e ↦ rw (e, generate) (omega arith, tt)
    | inl e ↦
        let next : u64 (sequence + 1) ≡ sequence + 1 = omega arith in
        let (few, run) =
          generate_lem wanted still (i + 1) (u64 (sequence + 1)) (omega (arith, next)) in
        rw e (
          omega (arith, few),
          (
            refl,
            subst
                (λ k.
                  Numbered k
                    (generate price quantity sells wanted still (i + 1) (u64 (sequence + 1))))
                next run,
          ),
        )
  ]

  module _ (config : ServerConfig) where
    send_round-IsValid :
        (now : Round) (s : MarketDataServer)
        → IsValid s
        → s.sequence + config.batch_size < 2 ^ 64
        → IsValid (send_round price quantity sells config now s)
          × ((send_round price quantity sells config now s).sequence
              ≤ s.sequence + config.batch_size)
    unfolding send_round
    send_round-IsValid now s v word =
        let batch =
          generate price quantity sells config.batch_size now.still_running 0 s.sequence in
        let (few, run) = generate_lem config.batch_size now.still_running 0 s.sequence word in
        let e : u64 (s.sequence + length batch) ≡ s.sequence + length batch = omega (arith, few) in
        (
          record {
            counted = omega (arith, v.counted, few);
            streams =
                subst (λ k. AllStreams k (send_batch_to_clients batch now.fails s.clients)) (sym e)
                  (AllStreams-send batch now.fails s.sequence s.clients run v.streams);
          },
          omega (arith, e, few),
        )

    -- The loop of the server, over any rounds in which the sequence numbers stay in 64 bits: whatever
    -- clients come, whichever writes fail and however the flag changes, every client was sent messages
    -- numbered without a gap; a client that is open was sent every message from the one at which its
    -- stream begins to the last one; and the number of messages sent is one less than the next
    -- sequence number.
    pub message_generation_loop_lem :
        (rounds : List Round) (s : MarketDataServer)
        → IsValid s
        → s.sequence + length rounds * config.batch_size < 2 ^ 64
        → IsValid (message_generation_loop price quantity sells config rounds s)
    unfolding message_generation_loop
    message_generation_loop_lem [] s v word = v
    message_generation_loop_lem (now ∷ later) s v word =
        let joined = record s { clients = accept now.joined s.clients } in
        let w : IsValid joined = record {
          counted = v.counted;
          streams = AllStreams-accept s.sequence now.joined s.clients v.streams;
        } in
        let total : length (now ∷ later) * config.batch_size
            ≡ config.batch_size + length later * config.batch_size =
          grind arith in
        elim (Bool-cases (goes_on price quantity sells config now s)) [
          | inr off ↦ rw off v
          | inl on ↦ elim (Bool-cases (is_empty joined.clients)) [
            | inl alone ↦
                rw (on, alone) (message_generation_loop_lem later joined w (omega (arith, total)))
            | inr some_client ↦
                let (u, bound) = send_round-IsValid now joined w (omega (arith, total)) in
                rw (on, some_client)
                  (message_generation_loop_lem later
                    (send_round price quantity sells config now joined) u
                    (omega (arith, total, bound)))
          ]
        ]
