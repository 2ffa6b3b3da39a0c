-- ===== src/Encoding/Binary.antt =====
-- `BinaryEncoder`: the memory of the messages, on a little-endian machine.
use mdfh_distrib.Common.{
  append_assoc, drop-drop, drop_all, ℕ, ◌*◌, ◌/◌, ◌^◌, ◌<◌, ◌≡◌, refl, ap, ap₂, sym, ◌∙◌, List, [],
  ◌∷◌, ◌++◌, arith, length, take, drop, length-append, take-append, take_all, drop-length-append,
}
use mdfh_distrib.Common.Bytes.{from_le, to_le, from_le-to_le, length-to_le}
use mdfh_distrib.Core.{Msg}
use mdfh_distrib.Ingestion.Parser.{msg_size, decode, MessageParser, Sink}
use mdfh_distrib.Ingestion.Parser.Frames.{frames, messages, leftover}
use mdfh_distrib.Ingestion.Parser.Delivery.{deliver}
use mdfh_distrib.Ingestion.Parser.Reassembly.{AllFit, concat, feed, feed_lem}

-- the 20 bytes of a message in memory
unfoldable pub msg_bytes : Msg → List ℕ
msg_bytes m = to_le 8 m.seq ++ (to_le 8 m.px ++ to_le 4 m.qty)

-- `encode_inplace`, and `encode`, which calls it on an empty buffer
unfoldable pub encode : List Msg → List ℕ
encode [] = []
encode (m ∷ ms) = msg_bytes m ++ encode ms

-- The fields are machine words.
pub record IsPacked (m : Msg) : Type 0 where
  pub seq : m.seq < 2 ^ 64
  pub px : m.px < 2 ^ 64
  pub qty : m.qty < 2 ^ 32

abbrev pub AllPacked : List Msg → Type 0
AllPacked [] = Unit
AllPacked (m ∷ ms) = IsPacked m × AllPacked ms

length-msg_bytes : (m : Msg) → length (msg_bytes m) ≡ 20
unfolding msg_bytes
length-msg_bytes m = omega (
  arith,
  length-append (to_le 8 m.seq) (to_le 8 m.px ++ to_le 4 m.qty),
  length-append (to_le 8 m.px) (to_le 4 m.qty),
  length-to_le 8 m.seq,
  length-to_le 8 m.px,
  length-to_le 4 m.qty,
)

pub encode-append : (xs ys : List Msg) → encode (xs ++ ys) ≡ encode xs ++ encode ys
unfolding encode
encode-append [] ys = refl
encode-append (x ∷ xs) ys =
    ap (λ t. msg_bytes x ++ t) (encode-append xs ys)
    ∙ sym (append_assoc (msg_bytes x) (encode xs) (encode ys))

pub AllPacked-append : (xs ys : List Msg) → AllPacked xs → AllPacked ys → AllPacked (xs ++ ys)
AllPacked-append [] ys h k = k
AllPacked-append (x ∷ xs) ys (p, h) k = (p, AllPacked-append xs ys h k)

pub length-encode : (ms : List Msg) → length (encode ms) ≡ length ms * 20
unfolding encode
length-encode [] = refl
length-encode (m ∷ ms) =
    omega (arith, length-append (msg_bytes m) (encode ms), length-msg_bytes m, length-encode ms)

-- a field's bytes at the front of a list
field : (n v : ℕ) (rest : List ℕ) → v < 256 ^ n → from_le (take n (to_le n v ++ rest)) ≡ v
field n v rest h = ground (
  arith,
  take-append n (to_le n v) rest,
  take_all n (to_le n v),
  length-to_le n v,
  from_le-to_le n v h,
)

skip : (n v : ℕ) (rest : List ℕ) → drop n (to_le n v ++ rest) ≡ rest
skip n v rest =
    ap (λ k. drop k (to_le n v ++ rest)) (sym (length-to_le n v))
    ∙ drop-length-append (to_le n v) rest

decode-msg_bytes : (m : Msg) (rest : List ℕ) → IsPacked m → decode (msg_bytes m ++ rest) ≡ m
unfolding decode msg_bytes
decode-msg_bytes m rest p =
    let a = to_le 8 m.seq in
    let b = to_le 8 m.px in
    let c = to_le 4 m.qty in
    let split : (a ++ (b ++ c)) ++ rest ≡ a ++ (b ++ (c ++ rest)) =
      append_assoc a (b ++ c) rest ∙ ap (◌++◌ a) (append_assoc b c rest) in
    let second : drop 8 ((a ++ (b ++ c)) ++ rest) ≡ b ++ (c ++ rest) =
      ap (drop 8) split ∙ skip 8 m.seq (b ++ (c ++ rest)) in
    let third : drop 16 ((a ++ (b ++ c)) ++ rest) ≡ c ++ rest =
      sym (drop-drop 8 8 ((a ++ (b ++ c)) ++ rest))
      ∙ ap (drop 8) second
      ∙ skip 8 m.px (c ++ rest) in
    ground (
      arith,
      ap (λ t. from_le (take 8 t)) split,
      ap (λ t. from_le (take 8 t)) second,
      ap (λ t. from_le (take 4 t)) third,
      field 8 m.seq (b ++ (c ++ rest)) p.seq,
      field 8 m.px (c ++ rest) p.px,
      field 4 m.qty rest p.qty,
    )

frames-encode : (ms : List Msg) → AllPacked ms → frames (length ms) (encode ms) ≡ ms
unfolding frames encode
frames-encode [] packed = refl
frames-encode (m ∷ ms) (p, packed) = ap₂ ◌∷◌ (decode-msg_bytes m (encode ms) p) (
    ap (frames (length ms)) (
      ap (λ k. drop k (msg_bytes m ++ encode ms)) (sym (length-msg_bytes m))
      ∙ drop-length-append (msg_bytes m) (encode ms))
    ∙ frames-encode ms packed)

-- The whole messages in the encoding of messages are these messages, and no byte is left over.
pub messages-encode :
    (ms : List Msg) → AllPacked ms → (messages (encode ms) ≡ ms) × (leftover (encode ms) ≡ [])
unfolding messages leftover
messages-encode ms packed =
    let count : length (encode ms) / msg_size ≡ length ms = omega (arith, length-encode ms) in
    (
      ap (λ k. frames k (encode ms)) count ∙ frames-encode ms packed,
      drop_all (length (encode ms) / msg_size * msg_size) (encode ms)
          (omega (arith, length-encode ms)),
    )

module _ (clock : ℕ → ℕ) where
  -- However the encoding of messages with machine-word fields is cut into pieces of at most 65517
  -- bytes, a fresh parser that is fed the pieces delivers exactly these messages, in order, and
  -- keeps no byte.
  pub feed-encode :
      (ms : List Msg) (ps : List (List ℕ)) (sink : Sink)
      → AllPacked ms
      → AllFit ps
      → concat ps ≡ encode ms
      → feed clock ps (record { partial = [] }, sink)
        ≡ (record { partial = [] }, deliver clock ms sink)
  feed-encode ms ps sink packed fit cut =
      let (all, none_left) = messages-encode ms packed in
      feed_lem clock ps [] sink (omega arith) fit ∙ ap after cut ∙ ap₂ result all none_left
    where
      result : List Msg → List ℕ → MessageParser × Sink
      result delivered kept = (record { partial = kept }, deliver clock delivered sink)

      after : List ℕ → MessageParser × Sink
      after bytes = result (messages bytes) (leftover bytes)
