-- ===== src/Encoding/Factory.antt =====
-- `create_encoder`: the encoder of an encoding type, and what its `encode` does.
use mdfh_distrib.Common.{ℕ, Option, some, List}
use mdfh_distrib.Core.{Msg}
use mdfh_distrib.Core.Validation.{EncodingType, binary, fix, itch}
use mdfh_distrib.Encoding.Binary
use mdfh_distrib.Encoding.Itch
use mdfh_distrib.Encoding.Fix
use mdfh_distrib.Encoding.Fix.{EncodingConfig}

-- The three classes that implement `MessageEncoder`.
pub data MessageEncoder : Type 0 where
  binary_encoder itch_encoder : MessageEncoder
  fix_encoder : EncodingConfig → MessageEncoder

unfoldable pub create_encoder : EncodingType → EncodingConfig → MessageEncoder
create_encoder binary config = binary_encoder
create_encoder fix config = fix_encoder config
create_encoder itch config = itch_encoder

-- The casts of a price for ITCH and for FIX, the time, and the texts of the time for FIX.
module _ (itch_scale fix_scale : ℕ → ℕ) (now : ℕ) (clock : ℕ → List ℕ) where
  unfoldable pub encode : MessageEncoder → List Msg → Option (List ℕ)
  encode binary_encoder msgs = some (Binary.encode msgs)
  encode itch_encoder msgs = Itch.encode itch_scale now msgs
  encode (fix_encoder config) msgs = Fix.encode fix_scale clock config 0 msgs
