-- ===== src/Format/Crc.antt =====
-- CRC32 of src/storage_util.cc.
use kv_mem.Prelude.{ℕ, zero, suc, ◌-◌, ◌%◌, ◌^◌, [], ◌∷◌, bit_and, bit_xor, ◌>>>◌, arith}
use kv_mem.Bytes.{Bytes, IsU32}

-- One round of the inner loop: `0u - (crc & 1u)` is all ones or 0.
crc_bit : ℕ → ℕ
crc_bit crc =
    let mask = (2 ^ 32 - bit_and crc 1) % 2 ^ 32 in bit_xor (crc >>> 1) (bit_and 0xedb88320 mask)

crc_bits : ℕ → ℕ → ℕ
crc_bits zero crc = crc
crc_bits (suc n) crc = crc_bits n (crc_bit crc)

crc_bytes : ℕ → Bytes → ℕ
crc_bytes crc [] = crc
crc_bytes crc (byte ∷ rest) = crc_bytes (crc_bits 8 (bit_xor crc byte)) rest

-- `~crc` of a uint32_t is its distance from the largest one.
unfoldable pub crc32 : Bytes → ℕ
unfolding crc_bit crc_bits crc_bytes
crc32 bytes = 0xffffffff - crc_bytes 0xffffffff bytes

pub crc32-IsU32 : (bytes : Bytes) → IsU32 (crc32 bytes)
unfolding crc32
crc32-IsU32 bytes = omega arith
