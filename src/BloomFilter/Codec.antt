-- ===== src/BloomFilter/Codec.antt =====
-- Encode and Decode of src/bloom_filter.cc.
pub mod RoundTrip
use kv_mem.Prelude.{◌+◌, ◌/◌, not, ◌||◌, ◌++◌, length, drop, ltb, ◌==◌}
use kv_mem.Bytes.{Bytes}
use kv_mem.Status.{Result, ok, corruption, reject_if, ◌>>=◌, ◌>>◌}
use kv_mem.Format.Fixed.{encode_fixed32, decode_fixed32}
use kv_mem.BloomFilter.{BloomFilter}

unfoldable pub encode : BloomFilter → Bytes
encode filter = encode_fixed32 filter.bit_count ++ encode_fixed32 filter.hash_count ++ filter.bits

unfoldable pub decode : Bytes → Result BloomFilter
decode encoded = do
  reject_if (ltb (length encoded) 8) (corruption "invalid bloom filter")
  let bit_count = decode_fixed32 encoded
  let hash_count = decode_fixed32 (drop 4 encoded)
  let expected = (bit_count + 7) / 8
  reject_if
      (not (length encoded == expected + 8)
        || bit_count == 0
        || hash_count == 0
        || ltb 30 hash_count)
      (corruption "invalid bloom filter payload")
  ok record { bits = drop 8 encoded; bit_count = bit_count; hash_count = hash_count }
