-- ===== src/Encoding/Tests.antt =====
-- Runs of the encoders, and their theorems at concrete messages.
use mdfh_distrib.Common.{
  ◌==◌, if◌then◌else◌, ◌^◌, ℕ, ◌+◌, ◌<◌, ◌≡◌, ◌⊎◌, refl, arith, List, [], ◌∷◌, some, none, take,
  drop, map,
}
use mdfh_distrib.Core.{Msg}
use mdfh_distrib.Ring.{fresh}
use mdfh_distrib.Ingestion.Stats.{initial}
use mdfh_distrib.Ingestion.Parser.{Sink}
use mdfh_distrib.Ingestion.Parser.Delivery.{deliver}
use mdfh_distrib.Ingestion.Parser.Reassembly.{feed}
use mdfh_distrib.Encoding.Binary
use mdfh_distrib.Encoding.Binary.{feed-encode}
use mdfh_distrib.Encoding.Itch
use mdfh_distrib.Encoding.Itch.{ItchMsg, read_all, SomeMin, AllShown, framed, read_all-encode}
use mdfh_distrib.Encoding.Digits.{fast_price_to_chars, fast_uint_to_chars}
use mdfh_distrib.Encoding.Fix.{EncodingConfig}

-- 100.25, five bought; 99.0, three sold
abbrev quotes_in : List Msg
quotes_in =
    record { seq = 1; px = 0x4059_1000_0000_0000; qty = 5 }
    ∷ record { seq = 2; px = 0x4058_c000_0000_0000; qty = 0xffff_fffd }
    ∷ []

abbrev packed : Binary.AllPacked quotes_in
packed = (
  record { seq = omega arith; px = omega arith; qty = omega arith },
  (record { seq = omega arith; px = omega arith; qty = omega arith }, tt),
)

abbrev sink : Sink
sink = record { ring = fresh 4; stats = initial; ticks = 0 }

abbrev clock : ℕ → ℕ
clock n = 1000 + n

-- The stream cut inside the first message and inside the second.
abbrev cut : List (List ℕ)
cut =
    take 7 (Binary.encode quotes_in)
    ∷ take 20 (drop 7 (Binary.encode quotes_in))
    ∷ drop 27 (Binary.encode quotes_in)
    ∷ []

feed-encode_example :
    feed clock cut (record { partial = [] }, sink)
    ≡ (record { partial = [] }, deliver clock quotes_in sink)
unfolding Binary.encode Binary.msg_bytes
feed-encode_example =
    feed-encode clock quotes_in cut sink packed (omega arith, (omega arith, (omega arith, tt))) refl

-- The scale of the two prices above.
abbrev ticks : ℕ → ℕ
ticks px = if px == 0x4059_1000_0000_0000 then 1002500 else 990000

ticks_small : (px : ℕ) → ticks px < 2 ^ 32
ticks_small px = ground arith

read_all-encode_example :
    ((Itch.encode ticks 77 quotes_in ≡ none) × SomeMin quotes_in)
    ⊎ ((bytes : List ℕ) × (qs : List ItchMsg) × (Itch.encode ticks 77 quotes_in ≡ some bytes)
        × AllShown ticks 77 quotes_in qs
        × (read_all 2 bytes ≡ map framed qs))
read_all-encode_example = read_all-encode ticks 77 ticks_small (omega arith) quotes_in packed

-- 100.2500, then SOH
price_chars : fast_price_to_chars 1002500 ≡ 49 ∷ 48 ∷ 48 ∷ 46 ∷ 50 ∷ 53 ∷ 48 ∷ 48 ∷ []
unfolding fast_price_to_chars fast_uint_to_chars
price_chars = refl

abbrev config : EncodingConfig
config = record { sender_comp_id = 77 ∷ 68 ∷ []; target_comp_id = 67 ∷ [] }

abbrev offer : Msg
offer = record { seq = 2; px = 0x4058_c000_0000_0000; qty = 0xffff_fffd }
