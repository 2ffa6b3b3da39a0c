-- ===== src/Bypass/Boost.antt =====
-- `BoostAsioBypassClient`: the flags of its life cycle and its reception loop with reconnection. The
-- socket is Boost.Asio's: a round says what it answers. Times are nanoseconds.
mod Tests
use mdfh_distrib.Common.{
  ℕ, zero, suc, ◌+◌, ◌-◌, ◌*◌, ◌^◌, ◌≤◌, ◌<◌, ◌≡◌, refl, ap, ap₂, sym, ◌∙◌, Bool, true, false, not,
  ◌&&◌, ◌||◌, List, [], ◌∷◌, ◌++◌, arith, length, ltb, leb, ◌==◌, if◌then◌else◌, append_assoc,
  length-append,
}
use mdfh_distrib.Common.Word.{u64}
use mdfh_distrib.Bypass.Config
use mdfh_distrib.Bypass.Config.{BypassConfig}

-- What `read_some` on the non-blocking socket answers; an exception is a failure, too.
pub data Answer : Type 0 where
  would_block eof failed : Answer
  received : List ℕ → Answer

-- A round of the loop: the time, whether a connection attempt succeeds, and the read's answer.
pub record Round : Type 0 where
  pub now : ℕ
  pub reachable : Bool
  pub answer : Answer

-- `connected` stands for the local flag, which is false whenever the socket was closed; `handed` lists
-- the pieces given to the packet handler.
pub record Reception : Type 0 where
  pub connected : Bool
  pub last_reconnect_attempt : ℕ
  pub packets_received : ℕ
  pub bytes_received : ℕ
  pub handed : List (List ℕ)

-- Reconnecting, once per second at most.
unfoldable pub reconnect : Round → Reception → Reception
reconnect round s =
    if s.connected
    then s
    else if leb 1000000000 (round.now - s.last_reconnect_attempt)
    then record s { connected = round.reachable; last_reconnect_attempt = round.now }
    else s

-- What the read's answer leads to.
unfoldable pub take_answer : Answer → Reception → Reception
take_answer would_block s = s
take_answer eof s = record s { connected = false }
take_answer failed s = record s { connected = false }
take_answer (received bytes) s =
    if ltb 0 (length bytes)
    then record s {
      packets_received = u64 (s.packets_received + 1);
      bytes_received = u64 (s.bytes_received + length bytes);
      handed = s.handed ++ (bytes ∷ []);
    }
    else s

unfoldable pub reception_round : Round → Reception → Reception
reception_round round s =
    let next = reconnect round s in if next.connected then take_answer round.answer next else next

-- `reception_loop` while `running_` is set, from the first connection attempt at time `start` on
unfoldable pub reception_loop : List Round → Reception → Reception
reception_loop [] s = s
reception_loop (round ∷ rounds) s = reception_loop rounds (reception_round round s)

-- The flags of the client's life cycle; the last two are those of its `NetworkClient`, which exists
-- once it is initialized.
pub record BoostAsioBypassClient : Type 0 where
  pub initialized : Bool
  pub running : Bool
  pub socket_open : Bool
  pub should_stop : Bool

unfoldable pub initialize : BypassConfig → BoostAsioBypassClient → BoostAsioBypassClient × Bool
initialize config c =
    if not (Config.is_valid config)
    then (c, false)
    else (record c { initialized = true; socket_open = false; should_stop = false }, true)

-- How a connection attempt of the `NetworkClient` ends: it throws at the text of the address, or from
-- `socket_.connect`, which has opened the socket and leaves it open.
pub data Attempt : Type 0 where
  reached refused bad_address : Attempt

unfoldable pub try_connect : Attempt → BoostAsioBypassClient → BoostAsioBypassClient × Bool
try_connect reached c = (record c { socket_open = true }, true)
try_connect refused c = (record c { socket_open = true }, false)
try_connect bad_address c = (c, false)

unfoldable pub connect : Attempt → BoostAsioBypassClient → BoostAsioBypassClient × Bool
connect attempt c =
    let tried = try_connect attempt c in if not c.initialized then (c, false) else tried

unfoldable pub start_reception : Bool → BoostAsioBypassClient → BoostAsioBypassClient
start_reception has_handler c =
    if not has_handler || c.running then c else record c { running = true }

unfoldable pub stop_reception : BoostAsioBypassClient → BoostAsioBypassClient
stop_reception c = record c { running = false }

-- The `stop` of the `NetworkClient` sets its flag, and leaves the socket as it is.
unfoldable pub disconnect : BoostAsioBypassClient → BoostAsioBypassClient
unfolding stop_reception
disconnect c =
    let stopped = stop_reception c in
    if stopped.initialized then record stopped { should_stop = true } else stopped

unfoldable pub is_connected : BoostAsioBypassClient → Bool
is_connected c = c.initialized && c.socket_open

abbrev pub total_bytes : List (List ℕ) → ℕ
total_bytes [] = 0
total_bytes (p ∷ ps) = length p + total_bytes ps

total_bytes-append :
    (ps : List (List ℕ)) (p : List ℕ) → total_bytes (ps ++ (p ∷ [])) ≡ total_bytes ps + length p
total_bytes-append [] p = omega arith
total_bytes-append (q ∷ ps) p = omega (arith, total_bytes-append ps p)

-- The counters are those of the pieces handed over.
abbrev pub IsCounted : Reception → Type 0
IsCounted s =
    (s.packets_received ≡ u64 (length s.handed)) × (s.bytes_received ≡ u64 (total_bytes s.handed))

take_answer-IsCounted : (a : Answer) (s : Reception) → IsCounted s → IsCounted (take_answer a s)
unfolding take_answer
take_answer-IsCounted would_block s c = c
take_answer-IsCounted eof s c = c
take_answer-IsCounted failed s c = c
take_answer-IsCounted (received bytes) s c =
    ground (arith, c, length-append s.handed (bytes ∷ []), total_bytes-append s.handed bytes)

round-IsCounted :
    (round : Round) (s : Reception) → IsCounted s → IsCounted (reception_round round s)
unfolding reception_round reconnect
round-IsCounted round s c = ground (
  arith,
  c,
  take_answer-IsCounted round.answer (reconnect round s),
  take_answer-IsCounted round.answer s,
)

-- However the connection is lost and made again, the counters of packets and bytes are the number and
-- the total length, modulo 2^64, of the pieces handed to the packet handler.
pub reception_loop-IsCounted :
    (rounds : List Round) (s : Reception) → IsCounted s → IsCounted (reception_loop rounds s)
unfolding reception_loop
reception_loop-IsCounted [] s c = c
reception_loop-IsCounted (round ∷ rounds) s c =
    reception_loop-IsCounted rounds (reception_round round s) (round-IsCounted round s c)
