-- ===== src/Encoding/Fix.antt =====
-- `FIXEncoder`: one market data message of FIX 4.4 for each message. Characters are their codes.
use mdfh_distrib.Common.{
  ℕ, ◌+◌, ◌-◌, ◌/◌, ◌%◌, ◌^◌, ◌<◌, ◌≡◌, ap, ap₂, sym, ◌∙◌, Option, some, none, List, [], ◌∷◌, ◌++◌,
  arith, length, take, drop, ltb, ◌==◌, if◌then◌else◌, length-append, ◌>>=◌, append_assoc,
  take-append, take_all, drop-length-append,
}
use mdfh_distrib.Common.Word.{u32}
use mdfh_distrib.Core.{Msg, abs_qty, qty_positive}
use mdfh_distrib.Encoding.Itch.{sofh}
use mdfh_distrib.Encoding.Digits.{
  fast_uint_to_chars, fast_price_to_chars, read_number, read-fast_uint_to_chars,
}

-- `struct EncodingConfig`
pub record EncodingConfig : Type 0 where
  pub sender_comp_id : List ℕ
  pub target_comp_id : List ℕ

-- "8=FIX.4.4", SOH
abbrev begin_string : List ℕ
begin_string = 56 ∷ 61 ∷ 70 ∷ 73 ∷ 88 ∷ 46 ∷ 52 ∷ 46 ∷ 52 ∷ 1 ∷ []

-- The body that `encode_inplace` builds at `body_start`: MsgType, SenderCompID, TargetCompID,
-- MsgSeqNum, SendingTime, NoMDEntries, MDUpdateAction, MDEntryType, MDEntryPx, MDEntrySize.
unfoldable pub body : EncodingConfig → List ℕ → ℕ → ℕ → Msg → List ℕ
body config timestamp scaled magnitude msg =
    (51 ∷ 53 ∷ 61 ∷ 88 ∷ 1 ∷ [])
    ++ (52 ∷ 57 ∷ 61 ∷ [])
    ++ config.sender_comp_id
    ++ (1 ∷ [])
    ++ (53 ∷ 54 ∷ 61 ∷ [])
    ++ config.target_comp_id
    ++ (1 ∷ [])
    ++ (51 ∷ 52 ∷ 61 ∷ [])
    ++ fast_uint_to_chars msg.seq
    ++ (1 ∷ [])
    ++ (53 ∷ 50 ∷ 61 ∷ [])
    ++ timestamp
    ++ (1 ∷ [])
    ++ (50 ∷ 54 ∷ 56 ∷ 61 ∷ 49 ∷ 1 ∷ [])
    ++ (50 ∷ 55 ∷ 57 ∷ 61 ∷ 48 ∷ 1 ∷ [])
    ++ (50 ∷ 54 ∷ 57 ∷ 61 ∷ (if qty_positive msg.qty then 48 else 49) ∷ 1 ∷ [])
    ++ (50 ∷ 55 ∷ 48 ∷ 61 ∷ [])
    ++ fast_price_to_chars scaled
    ++ (1 ∷ [])
    ++ (50 ∷ 55 ∷ 49 ∷ 61 ∷ [])
    ++ fast_uint_to_chars magnitude
    ++ (1 ∷ [])

-- The sum of the bytes, an `uint32_t`, before it is reduced.
unfoldable pub byte_sum : ℕ → List ℕ → ℕ
byte_sum sum [] = sum
byte_sum sum (c ∷ cs) = byte_sum (u32 (sum + c % 256)) cs

-- `FIXEncoder::calculate_checksum`, and the same computation in `encode_inplace`
unfoldable pub calculate_checksum : List ℕ → ℕ
calculate_checksum msg = byte_sum 0 msg % 256

-- the three branches that write the checksum
unfoldable pub checksum_chars : ℕ → List ℕ
checksum_chars checksum =
    if ltb checksum 10
    then 48 ∷ 48 ∷ (48 + checksum) ∷ []
    else if ltb checksum 100
    then 48 ∷ (48 + checksum / 10) ∷ (48 + checksum % 10) ∷ []
    else (48 + checksum / 100) ∷ (48 + checksum / 10 % 10) ∷ (48 + checksum % 10) ∷ []

-- The message around a body: BodyLength before it, CheckSum behind it.
unfoldable pub complete : List ℕ → List ℕ
complete content =
    let front =
      begin_string ++ ((57 ∷ 61 ∷ []) ++ (fast_uint_to_chars (length content) ++ (1 ∷ content))) in
    front ++ ((49 ∷ 48 ∷ 61 ∷ []) ++ (checksum_chars (calculate_checksum front) ++ (1 ∷ [])))

-- One message in `fix_buffer`. The body is written from byte 30 of 512 on and then moved down, so a
-- body past the end of the array is undefined behaviour, as `std::abs` of INT32_MIN is: `none`.
unfoldable pub fix_message : EncodingConfig → List ℕ → ℕ → Msg → Option (List ℕ)
fix_message config timestamp scaled msg = do
  magnitude ← abs_qty msg
  let content = body config timestamp scaled magnitude msg in
      if ltb 512 (30 + length content) then none else some (complete content)

-- `scale` is the cast of the price; `clock n` is the text that `get_fast_timestamp` returns for
-- message `n`.
module _ (scale : ℕ → ℕ) (clock : ℕ → List ℕ) (config : EncodingConfig) where
  unfoldable pub encode : ℕ → List Msg → Option (List ℕ)
  encode n [] = some []
  encode n (msg ∷ msgs) = do
    fix_buffer ← fix_message config (clock n) (scale msg.px) msg
    rest ← encode (n + 1) msgs
    some (sofh (u32 (6 + length fix_buffer)) 0x5000 ++ (fix_buffer ++ rest))

-- A receiver: it takes the body by BodyLength, and accepts it if CheckSum is the sum of the bytes
-- before that field, modulo 256.
unfoldable pub total : List ℕ → ℕ
total [] = 0
total (c ∷ cs) = c % 256 + total cs

unfoldable pub receive : List ℕ → Option (List ℕ × List ℕ)
receive bytes =
    let (body_length, rest) = read_number 1 0 (drop 12 bytes) in
    let tail = drop body_length rest in
    let (stated, later) = read_number 1 0 (drop 3 tail) in
    if stated == total (take (length bytes - length tail) bytes) % 256
    then some (take body_length rest, later)
    else none

byte_sum_lem : (cs : List ℕ) (sum : ℕ) → sum < 2 ^ 32 → byte_sum sum cs ≡ u32 (sum + total cs)
unfolding byte_sum total
byte_sum_lem [] sum h = omega arith
byte_sum_lem (c ∷ cs) sum h = omega (arith, byte_sum_lem cs (u32 (sum + c % 256)) (omega arith))

calculate_checksum_lem : (cs : List ℕ) → calculate_checksum cs ≡ total cs % 256
unfolding calculate_checksum
calculate_checksum_lem cs = omega (arith, byte_sum_lem cs 0 (omega arith))

read-checksum_chars :
    (c : ℕ) (s : List ℕ) → c < 256 → read_number 1 0 (checksum_chars c ++ (1 ∷ s)) ≡ (c, s)
unfolding checksum_chars read_number
read-checksum_chars c s h = ground arith

receive_by :
    (bytes rest later : List ℕ) (n stated : ℕ)
    → read_number 1 0 (drop 12 bytes) ≡ (n, rest)
    → read_number 1 0 (drop 3 (drop n rest)) ≡ (stated, later)
    → stated ≡ total (take (length bytes - length (drop n rest)) bytes) % 256
    → receive bytes ≡ some (take n rest, later)
unfolding receive
receive_by bytes rest later n stated h h' e = rw (h, h') (ground (arith, e))

take-length-append : (xs ys : List ℕ) → take (length xs) (xs ++ ys) ≡ xs
take-length-append xs ys =
    take-append (length xs) xs ys (omega arith) ∙ take_all (length xs) xs (omega arith)

-- A receiver of a completed message, followed by anything, accepts its checksum, and takes out the
-- body and what follows the message.
pub receive-complete :
    (content later : List ℕ)
    → length content < 2 ^ 64
    → receive (complete content ++ later) ≡ some (content, later)
unfolding complete
receive-complete content later small =
    receive_by ((front ++ trailer) ++ later) (content ++ tail) later n c
      (ap (read_number 1 0) at_length
        ∙ read-fast_uint_to_chars 1 n (content ++ tail) (omega arith) small)
      (ap (λ t. read_number 1 0 (drop 3 t)) (drop-length-append content tail)
        ∙ ap (read_number 1 0) at_checksum
        ∙ read-checksum_chars c later (unfold calculate_checksum in omega arith))
      (calculate_checksum_lem front ∙ ap (λ t. total t % 256) (sym front_taken))
    ∙ ap (λ t. some (t, later)) (take-length-append content tail)
  where
    n : ℕ
    n = length content

    digits : List ℕ
    digits = fast_uint_to_chars n

    front : List ℕ
    front = begin_string ++ ((57 ∷ 61 ∷ []) ++ (digits ++ (1 ∷ content)))

    c : ℕ
    c = calculate_checksum front

    trailer : List ℕ
    trailer = (49 ∷ 48 ∷ 61 ∷ []) ++ (checksum_chars c ++ (1 ∷ []))

    tail : List ℕ
    tail = trailer ++ later

    at_length : drop 12 ((front ++ trailer) ++ later) ≡ digits ++ (1 ∷ (content ++ tail))
    at_length =
        append_assoc (digits ++ (1 ∷ content)) trailer later
        ∙ append_assoc digits (1 ∷ content) tail

    at_checksum : drop 3 tail ≡ checksum_chars c ++ (1 ∷ later)
    at_checksum = append_assoc (checksum_chars c) (1 ∷ []) later

    front_taken :
        take
          (length ((front ++ trailer) ++ later) - length (drop n (content ++ tail)))
          ((front ++ trailer) ++ later)
        ≡ front
    front_taken =
        ap₂ take {y = length front}
          (omega (
            arith,
            ap length (drop-length-append content tail),
            length-append front trailer,
            length-append trailer later,
            length-append (front ++ trailer) later,
          ))
          (append_assoc front trailer later)
        ∙ take-length-append front tail
