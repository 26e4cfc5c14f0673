-- ===== src/Format/Fixed.antt =====
-- EncodeFixed32/64 and DecodeFixed32/64 of src/storage_util.cc: little-endian integers. A pointer
-- into a buffer is the list of the bytes from there on; the callers check that enough bytes are
-- left, and a byte past the end reads as 0 here.
pub mod RoundTrip
use kv_mem.Prelude.{ℕ, zero, suc, ◌+◌, ◌*◌, List, [], ◌∷◌, get_or, bit_and, bit_or, ◌<<<◌, ◌>>>◌}
use kv_mem.Bytes.{Bytes}

-- static_cast<char>((value >> (8 * i)) & 0xff)
abbrev pub byte_at : ℕ → ℕ → ℕ
byte_at value i = bit_and (value >>> (8 * i)) 0xff

unfoldable pub encode_fixed32 : ℕ → Bytes
encode_fixed32 value = byte_at value 0 ∷ byte_at value 1 ∷ byte_at value 2 ∷ byte_at value 3 ∷ []

-- The loop of EncodeFixed64, with `n` rounds left from round `i` on.
unfoldable pub fixed64_bytes : ℕ → ℕ → ℕ → Bytes
fixed64_bytes zero i value = []
fixed64_bytes (suc n) i value = byte_at value i ∷ fixed64_bytes n (i + 1) value

unfoldable pub encode_fixed64 : ℕ → Bytes
unfolding fixed64_bytes
encode_fixed64 value = fixed64_bytes 8 0 value

unfoldable pub decode_fixed32 : Bytes → ℕ
decode_fixed32 bytes =
    bit_or (bit_or (bit_or (get_or bytes 0 0) (get_or bytes 1 0 <<< 8)) (get_or bytes 2 0 <<< 16))
      (get_or bytes 3 0 <<< 24)

-- The loop of DecodeFixed64.
unfoldable pub fixed64_value : ℕ → ℕ → Bytes → ℕ → ℕ
fixed64_value zero i bytes value = value
fixed64_value (suc n) i bytes value =
    fixed64_value n (i + 1) bytes (bit_or value (get_or bytes i 0 <<< (8 * i)))

unfoldable pub decode_fixed64 : Bytes → ℕ
unfolding fixed64_value
decode_fixed64 bytes = fixed64_value 8 0 bytes 0
