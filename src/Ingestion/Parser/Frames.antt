-- ===== src/Ingestion/Parser/Frames.antt =====
-- The 20-byte messages of a byte stream, and the bytes behind the last whole one.
use mdfh_distrib.Common.{
  ℕ, zero, suc, ◌+◌, ◌*◌, ◌/◌, ◌≤◌, ◌<◌, ◌≡◌, refl, sym, ap, ap₂, ◌∙◌, List, [], ◌∷◌, ◌++◌, arith,
  length, drop, length-append, length-drop, drop-drop, drop-append, take-append,
}
use mdfh_distrib.Core.{Msg}
use mdfh_distrib.Ingestion.Parser.{msg_size, decode}

-- the first `n` messages
unfoldable pub frames : ℕ → List ℕ → List Msg
frames zero bytes = []
frames (suc n) bytes = decode bytes ∷ frames n (drop msg_size bytes)

-- all whole messages
unfoldable pub messages : List ℕ → List Msg
messages bytes = frames (length bytes / msg_size) bytes

unfoldable pub leftover : List ℕ → List ℕ
leftover bytes = drop (length bytes / msg_size * msg_size) bytes

pub length-leftover : (bytes : List ℕ) → length (leftover bytes) < msg_size
unfolding leftover
length-leftover bytes = omega (arith, length-drop (length bytes / msg_size * msg_size) bytes)

pub length-frames : (n : ℕ) (bytes : List ℕ) → length (frames n bytes) ≡ n
unfolding frames
length-frames zero bytes = refl
length-frames (suc n) bytes = ap suc (length-frames n (drop msg_size bytes))

decode-append : (a b : List ℕ) → msg_size ≤ length a → decode (a ++ b) ≡ decode a
unfolding decode
decode-append a b h = ground (
  arith,
  take-append 8 a b,
  drop-append 8 a b,
  drop-append 16 a b,
  take-append 8 (drop 8 a) b,
  take-append 4 (drop 16 a) b,
  length-drop 8 a,
  length-drop 16 a,
)

pub frames-append :
    (n : ℕ) (a b : List ℕ) → n * msg_size ≤ length a → frames n (a ++ b) ≡ frames n a
unfolding frames
frames-append zero a b h = refl
frames-append (suc n) a b h = ap₂ ◌∷◌ (decode-append a b (omega arith)) (
    ap (frames n) (drop-append msg_size a b (omega arith))
    ∙ frames-append n (drop msg_size a) b (omega (arith, length-drop msg_size a)))

frames-add :
    (m n : ℕ) (a : List ℕ) → frames (m + n) a ≡ frames m a ++ frames n (drop (m * msg_size) a)
unfolding frames
frames-add zero n a = let e : 0 + n ≡ n = omega arith in rw e
frames-add (suc m) n a =
    let e : suc m + n ≡ suc (m + n) = omega arith in
    let e' : suc m * msg_size ≡ msg_size + m * msg_size = omega arith in
    rw (e, e')
      (ap (◌∷◌ (decode a)) (
        frames-add m n (drop msg_size a)
        ∙ ap (λ t. frames m (drop msg_size a) ++ frames n t) (drop-drop (m * msg_size) msg_size a)))

module _ (a b : List ℕ) where
  abbrev whole : ℕ
  whole = length a / msg_size

  -- the bytes behind the messages that end within `a`
  rest-append : drop (whole * msg_size) (a ++ b) ≡ leftover a ++ b
  unfolding leftover
  rest-append = drop-append (whole * msg_size) a b (omega arith)

  count-append : length (a ++ b) / msg_size ≡ whole + length (leftover a ++ b) / msg_size
  unfolding leftover
  count-append =
      omega
        (arith, length-append a b, length-append (leftover a) b, length-drop (whole * msg_size) a)

  -- The messages of a stream are those of a first part and those of what it leaves with the rest.
  pub messages-append : messages (a ++ b) ≡ messages a ++ messages (leftover a ++ b)
  unfolding messages
  messages-append = rw count-append (
      frames-add whole (length (leftover a ++ b) / msg_size) (a ++ b)
      ∙ ap₂ ◌++◌ (frames-append whole a b (omega arith))
          (ap (frames (length (leftover a ++ b) / msg_size)) rest-append))

  pub leftover-append : leftover (a ++ b) ≡ leftover (leftover a ++ b)
  unfolding leftover
  leftover-append =
      let k = length (leftover a ++ b) / msg_size in
      let e : (whole + k) * msg_size ≡ whole * msg_size + k * msg_size = omega arith in
      rw (count-append, e)
        (sym (drop-drop (k * msg_size) (whole * msg_size) (a ++ b))
          ∙ ap (drop (k * msg_size)) rest-append)

-- Fewer than 20 bytes hold no message.
pub messages_short : (a : List ℕ) → length a < msg_size → messages a ≡ []
unfolding messages frames
messages_short a h = let e : length a / msg_size ≡ 0 = omega arith in rw e

pub leftover_short : (a : List ℕ) → length a < msg_size → leftover a ≡ a
unfolding leftover
leftover_short a h = let e : length a / msg_size ≡ 0 = omega arith in rw e
