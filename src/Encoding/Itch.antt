-- ===== src/Encoding/Itch.antt =====
-- `ITCHEncoder`: one quote message behind a framing header for each message, fields big-endian.
use mdfh_distrib.Common.{
  subst, ◌⊎◌, ◌>>=◌, bind-some, map, ℕ, zero, suc, ◌^◌, ◌<◌, ◌≡◌, refl, ap₂, Option, some, none,
  ◌+◌, ◌-◌, ◌%◌, ltb, ◌==◌, Bool-cases, List, [], ◌∷◌, ◌++◌, arith, length, take, drop, inl, inr,
  if◌then◌else◌,
}
use mdfh_distrib.Common.Bytes.{to_be, from_be, from_be-to_be}
use mdfh_distrib.Core.{Msg, abs_qty, qty_positive}
use mdfh_distrib.Encoding.Binary.{IsPacked, AllPacked}

-- `struct SOFH` as it stands in the buffer: total length and encoding type.
abbrev pub sofh : ℕ → ℕ → List ℕ
sofh message_length encoding_type = to_be 4 message_length ++ to_be 2 encoding_type

-- `struct ITCHMsg`, the fields as numbers, characters by their codes
pub record ItchMsg : Type 0 where
  pub msg_type : ℕ
  pub timestamp : ℕ
  pub seq : ℕ
  pub price : ℕ
  pub qty : ℕ
  pub side : ℕ

-- The memory of an `ITCHMsg` whose fields went through `htobe64` and `htobe32`: 26 bytes.
abbrev pub itch_bytes : ItchMsg → List ℕ
itch_bytes i =
    i.msg_type
    ∷ (to_be 8 i.timestamp
        ++ (to_be 8 i.seq ++ (to_be 4 i.price ++ (to_be 4 i.qty ++ (i.side ∷ [])))))

-- `scale px` is `static_cast<std::uint32_t>(msg.px * 10000)`, a double's product cut to an integer.
module _ (scale : ℕ → ℕ) where
  -- The quote of a message; `std::abs` of INT32_MIN is undefined behaviour: `none`.
  unfoldable pub quote : ℕ → Msg → Option ItchMsg
  quote timestamp_ns msg = do
    magnitude ← abs_qty msg
    some (record {
      msg_type = 81;  -- 'Q'
      timestamp = timestamp_ns;
      seq = msg.seq;
      price = scale msg.px;
      qty = magnitude;
      side = if qty_positive msg.qty then 66 else 83;  -- 'B', 'S'
    })

  -- `encode_inplace`, with the time read once before the loop
  unfoldable pub encode : ℕ → List Msg → Option (List ℕ)
  encode timestamp_ns [] = some []
  encode timestamp_ns (msg ∷ msgs) = do
    itch_msg ← quote timestamp_ns msg
    rest ← encode timestamp_ns msgs
    some (sofh 32 0x4954 ++ (itch_bytes itch_msg ++ rest))

-- A reader of the protocol: the framing header, then the fields.
module _ where
  abbrev field : ℕ → ℕ → List ℕ → ℕ
  field offset size bytes = from_be (take size (drop offset bytes))

  -- one frame: its length, its encoding type, its message
  unfoldable pub read : List ℕ → ℕ × ℕ × ItchMsg
  read bytes = (
    field 0 4 bytes,
    field 4 2 bytes,
    record {
      msg_type = field 6 1 bytes;
      timestamp = field 7 8 bytes;
      seq = field 15 8 bytes;
      price = field 23 4 bytes;
      qty = field 27 4 bytes;
      side = field 31 1 bytes;
    },
  )

  -- the frames of a stream, the next one behind the length that the header names
  unfoldable pub read_all : ℕ → List ℕ → List (ℕ × ℕ × ItchMsg)
  read_all zero bytes = []
  read_all (suc n) bytes = read bytes ∷ read_all n (drop (field 0 4 bytes) bytes)

some-inj : {A : Type 0} {a b : A} → some a ≡ some b → a ≡ b
some-inj h = ground (arith, h)

-- The fields of a quote are as wide as in the source.
record Fits (i : ItchMsg) : Type 0 where
  msg_type : i.msg_type < 256
  timestamp : i.timestamp < 2 ^ 64
  seq : i.seq < 2 ^ 64
  price : i.price < 2 ^ 32
  qty : i.qty < 2 ^ 32
  side : i.side < 256

pub framed : ItchMsg → ℕ × ℕ × ItchMsg
framed i = (32, 0x4954, i)

read-bytes :
    (i : ItchMsg) (rest : List ℕ)
    → Fits i
    → read (sofh 32 0x4954 ++ (itch_bytes i ++ rest)) ≡ framed i
unfolding read framed
read-bytes i rest f = ground (
  arith,
  from_be-to_be 8 i.timestamp f.timestamp,
  from_be-to_be 8 i.seq f.seq,
  from_be-to_be 4 i.price f.price,
  from_be-to_be 4 i.qty f.qty,
)

-- A quote that shows a message: type 'Q', the time, the number, the scaled price; and by the sign of
-- the quantity, two's complement in 32 bits, side 'B' with it, or 'S' with 0 or with its negation.
pub record Shows (scale : ℕ → ℕ) (now : ℕ) (m : Msg) (i : ItchMsg) : Type 0 where
  pub msg_type : i.msg_type ≡ 0x51
  pub timestamp : i.timestamp ≡ now
  pub seq : i.seq ≡ m.seq
  pub price : i.price ≡ scale m.px
  pub qty_side :
      ((0 < m.qty) × (m.qty < 2 ^ 31) × (i.side ≡ 0x42) × (i.qty ≡ m.qty))
      ⊎ ((m.qty ≡ 0) × (i.side ≡ 0x53) × (i.qty ≡ 0))
      ⊎ ((2 ^ 31 < m.qty) × (i.side ≡ 0x53) × (i.qty + m.qty ≡ 2 ^ 32))

-- One quote for each message.
abbrev pub AllShown : (scale : ℕ → ℕ) (now : ℕ) → List Msg → List ItchMsg → Type 0
AllShown scale now [] [] = Unit
AllShown scale now [] (q ∷ qs) = ⊥
AllShown scale now (m ∷ ms) [] = ⊥
AllShown scale now (m ∷ ms) (q ∷ qs) = Shows scale now m q × AllShown scale now ms qs

-- Some quantity is INT32_MIN.
abbrev pub SomeMin : List Msg → Type 0
SomeMin [] = ⊥
SomeMin (m ∷ ms) = (m.qty ≡ 2 ^ 31) ⊎ SomeMin ms

abs_qty_bound : (m : Msg) (a : ℕ) → m.qty < 2 ^ 32 → abs_qty m ≡ some a → a < 2 ^ 32
unfolding abs_qty
abs_qty_bound m a h e = ground (arith, e)

module _ (scale : ℕ → ℕ) (now : ℕ) (narrow : (px : ℕ) → scale px < 2 ^ 32)
    (small : now < 2 ^ 64) where
  quote-Fits : {m : Msg} {q : ItchMsg} → IsPacked m → quote scale now m ≡ some q → Fits q
  unfolding quote
  quote-Fits {m} {q} p h =
      let (a, e, f) = bind-some (abs_qty m) h in
      subst Fits (some-inj f) (record {
        msg_type = omega arith;
        timestamp = small;
        seq = p.seq;
        price = narrow m.px;
        qty = abs_qty_bound m a p.qty e;
        side = ground arith;
      })

  quote_cases :
      (m : Msg)
      → m.qty < 2 ^ 32
      → ((quote scale now m ≡ none) × (m.qty ≡ 2 ^ 31))
        ⊎ ((q : ItchMsg) × (quote scale now m ≡ some q) × Shows scale now m q)
  unfolding quote abs_qty
  quote_cases m word = elim (Bool-cases (m.qty == 2 ^ 31)) [
    | inl least ↦ inl (ground (arith, least), ground (arith, least))
    | inr other ↦ elim (Bool-cases (ltb m.qty (2 ^ 31))) [
      | inl small_qty ↦ elim (Bool-cases (ltb 0 m.qty)) [
        | inl buys ↦ inr (
          record {
            msg_type = 81;
            timestamp = now;
            seq = m.seq;
            price = scale m.px;
            qty = m.qty;
            side = 66;
          },
          ground (arith, small_qty, buys),
          record {
            msg_type = refl;
            timestamp = refl;
            seq = refl;
            price = refl;
            qty_side = inl (ground (arith, buys), ground (arith, small_qty), refl, refl);
          },
        )
        | inr nothing ↦ inr (
          record {
            msg_type = 81;
            timestamp = now;
            seq = m.seq;
            price = scale m.px;
            qty = m.qty;
            side = 83;
          },
          ground (arith, small_qty, nothing),
          record {
            msg_type = refl;
            timestamp = refl;
            seq = refl;
            price = refl;
            qty_side = inr (inl (ground (arith, nothing), refl, ground (arith, nothing)));
          },
        )
      ]
      | inr large ↦ inr (
        record {
          msg_type = 81;
          timestamp = now;
          seq = m.seq;
          price = scale m.px;
          qty = (2 ^ 32 - m.qty) % 2 ^ 32;
          side = 83;
        },
        ground (arith, large, other),
        record {
          msg_type = refl;
          timestamp = refl;
          seq = refl;
          price = refl;
          qty_side = inr (inr (ground (arith, large, other), refl, ground (arith, large)));
        },
      )
    ]
  ]

  -- The encoding of messages with machine-word fields is undefined if a quantity is INT32_MIN;
  -- otherwise a reader that goes from frame to frame by the lengths in the headers finds one quote for
  -- each message, in order, each in a frame of 32 bytes of type 0x4954 and showing its message: its
  -- number and scaled price, side 'B' and the quantity if that is positive, and otherwise side 'S'
  -- and the negated quantity, which no INT32_MIN has.
  pub read_all-encode :
      (ms : List Msg)
      → AllPacked ms
      → ((encode scale now ms ≡ none) × SomeMin ms)
        ⊎ ((bytes : List ℕ) × (qs : List ItchMsg) × (encode scale now ms ≡ some bytes)
            × AllShown scale now ms qs
            × (read_all (length ms) bytes ≡ map framed qs))
  unfolding encode read_all
  read_all-encode [] packed = inr ([], [], refl, tt, refl)
  read_all-encode (m ∷ ms) (p, packed) = elim (quote_cases m p.qty) [
    | inl (bad, least) ↦ inl (rw bad refl, inl least)
    | inr (q, e, shown) ↦ elim (read_all-encode ms packed) [
      | inl (bad, least) ↦ inl (rw (e, bad) refl, inr least)
      | inr (bytes, qs, f, all, ih) ↦ inr (
        sofh 32 0x4954 ++ (itch_bytes q ++ bytes),
        q ∷ qs,
        rw (e, f) refl,
        (shown, all),
        ap₂ ◌∷◌ (read-bytes q bytes (quote-Fits p e)) ih,
      )
    ]
  ]
