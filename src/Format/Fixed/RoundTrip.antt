-- ===== src/Format/Fixed/RoundTrip.antt =====
-- Decoding a fixed-width integer is the inverse of encoding it.
use kv_mem.Prelude.{
  ℕ, ◌+◌, ◌*◌, ◌/◌, ◌%◌, ◌^◌, ◌≡◌, refl, [], ◌∷◌, ◌++◌, length, arith, bit_or_high, bit_and_byte,
}
use kv_mem.Bytes.{Bytes, IsByte, IsBytes, IsU32, IsU64}
use kv_mem.Format.Fixed.{encode_fixed32, encode_fixed64, decode_fixed32, decode_fixed64}

-- Four bytes, lowest first, as a sum.
pub decode_fixed32_sum :
    (a b c d : ℕ) (rest : Bytes)
    → IsByte a
    → IsByte b
    → IsByte c
    → decode_fixed32 (a ∷ b ∷ c ∷ d ∷ rest) ≡ a + b * 256 + c * 65536 + d * 16777216
unfolding decode_fixed32
decode_fixed32_sum a b c d rest ha hb hc =
    rw
      (
        bit_or_high 8 a b ha,
        bit_or_high 16 (a + b * 2 ^ 8) c (omega arith),
        bit_or_high 24 (a + b * 2 ^ 8 + c * 2 ^ 16) d (omega arith),
      )
      (omega arith)

encode_fixed32_digits :
    (v : ℕ)
    → encode_fixed32 v ≡ v % 256 ∷ (v / 256 % 256) ∷ (v / 65536 % 256) ∷ (v / 16777216 % 256) ∷ []
unfolding encode_fixed32
encode_fixed32_digits v = ground (
  arith,
  bit_and_byte (v / 1),
  bit_and_byte (v / 256),
  bit_and_byte (v / 65536),
  bit_and_byte (v / 16777216),
)

-- What EncodeFixed32 wrote DecodeFixed32 reads back, whatever follows it.
pub decode-encode_fixed32 :
    (v : ℕ) (rest : Bytes) → IsU32 v → decode_fixed32 (encode_fixed32 v ++ rest) ≡ v
decode-encode_fixed32 v rest h = rw (encode_fixed32_digits v) (
    omega (
      arith,
      decode_fixed32_sum (v % 256) (v / 256 % 256) (v / 65536 % 256) (v / 16777216 % 256) rest
          (omega arith) (omega arith) (omega arith),
    ))

-- Any four bytes are the encoding of the number that they decode to.
pub encode-decode_fixed32 :
    (a b c d : ℕ) (rest : Bytes)
    → IsByte a
    → IsByte b
    → IsByte c
    → IsByte d
    → encode_fixed32 (decode_fixed32 (a ∷ b ∷ c ∷ d ∷ rest)) ≡ a ∷ b ∷ c ∷ d ∷ []
encode-decode_fixed32 a b c d rest ha hb hc hd =
    rw (decode_fixed32_sum a b c d rest ha hb hc) (rw encode_fixed32_digits (ground arith))

pub length-encode_fixed32 : (v : ℕ) → length (encode_fixed32 v) ≡ 4
unfolding encode_fixed32
length-encode_fixed32 v = refl

pub encode_fixed32-IsBytes : (v : ℕ) → IsBytes (encode_fixed32 v)
encode_fixed32-IsBytes v = rw (encode_fixed32_digits v) (omega arith)

-- Eight bytes, lowest first, as a sum.
pub decode_fixed64_sum :
    (a b c d e f g h : ℕ) (rest : Bytes)
    → IsByte a
    → IsByte b
    → IsByte c
    → IsByte d
    → IsByte e
    → IsByte f
    → IsByte g
    → decode_fixed64 (a ∷ b ∷ c ∷ d ∷ e ∷ f ∷ g ∷ h ∷ rest)
      ≡ a + b * 2 ^ 8 + c * 2 ^ 16 + d * 2 ^ 24 + e * 2 ^ 32 + f * 2 ^ 40 + g * 2 ^ 48 + h * 2 ^ 56
unfolding decode_fixed64
decode_fixed64_sum a b c d e f g h rest ha hb hc hd he hf hg =
    rw
      (
        bit_or_high 0 0 a (omega arith),
        bit_or_high 8 (0 + a * 2 ^ 0) b (omega arith),
        bit_or_high 16 (0 + a * 2 ^ 0 + b * 2 ^ 8) c (omega arith),
        bit_or_high 24 (0 + a * 2 ^ 0 + b * 2 ^ 8 + c * 2 ^ 16) d (omega arith),
        bit_or_high 32 (0 + a * 2 ^ 0 + b * 2 ^ 8 + c * 2 ^ 16 + d * 2 ^ 24) e (omega arith),
        bit_or_high 40 (0 + a * 2 ^ 0 + b * 2 ^ 8 + c * 2 ^ 16 + d * 2 ^ 24 + e * 2 ^ 32) f
            (omega arith),
        bit_or_high 48
            (0 + a * 2 ^ 0 + b * 2 ^ 8 + c * 2 ^ 16 + d * 2 ^ 24 + e * 2 ^ 32 + f * 2 ^ 40) g
            (omega arith),
        bit_or_high 56
            (0
              + a * 2 ^ 0
              + b * 2 ^ 8
              + c * 2 ^ 16
              + d * 2 ^ 24
              + e * 2 ^ 32
              + f * 2 ^ 40
              + g * 2 ^ 48)
            h (omega arith),
      )
      (omega arith)

encode_fixed64_digits :
    (v : ℕ)
    → encode_fixed64 v
      ≡ v % 256
        ∷ (v / 2 ^ 8 % 256)
        ∷ (v / 2 ^ 16 % 256)
        ∷ (v / 2 ^ 24 % 256)
        ∷ (v / 2 ^ 32 % 256)
        ∷ (v / 2 ^ 40 % 256)
        ∷ (v / 2 ^ 48 % 256)
        ∷ (v / 2 ^ 56 % 256)
        ∷ []
unfolding encode_fixed64
encode_fixed64_digits v = ground (
  arith,
  bit_and_byte (v / 2 ^ 0),
  bit_and_byte (v / 2 ^ 8),
  bit_and_byte (v / 2 ^ 16),
  bit_and_byte (v / 2 ^ 24),
  bit_and_byte (v / 2 ^ 32),
  bit_and_byte (v / 2 ^ 40),
  bit_and_byte (v / 2 ^ 48),
  bit_and_byte (v / 2 ^ 56),
)

-- What EncodeFixed64 wrote DecodeFixed64 reads back, whatever follows it.
pub decode-encode_fixed64 :
    (v : ℕ) (rest : Bytes) → IsU64 v → decode_fixed64 (encode_fixed64 v ++ rest) ≡ v
decode-encode_fixed64 v rest h = rw (encode_fixed64_digits v) (
    omega (
      arith,
      decode_fixed64_sum (v % 256) (v / 2 ^ 8 % 256) (v / 2 ^ 16 % 256) (v / 2 ^ 24 % 256)
          (v / 2 ^ 32 % 256) (v / 2 ^ 40 % 256) (v / 2 ^ 48 % 256) (v / 2 ^ 56 % 256) rest
          (omega arith) (omega arith) (omega arith) (omega arith) (omega arith) (omega arith)
          (omega arith),
    ))

pub length-encode_fixed64 : (v : ℕ) → length (encode_fixed64 v) ≡ 8
unfolding encode_fixed64
length-encode_fixed64 v = refl

pub encode_fixed64-IsBytes : (v : ℕ) → IsBytes (encode_fixed64 v)
encode_fixed64-IsBytes v = rw (encode_fixed64_digits v) (omega arith)
