-- ===== src/BloomFilter/Codec/RoundTrip.antt =====
-- A filter that was built survives Encode and Decode, and one that Decode accepts is never read out
-- of bounds: src/bloom_filter.cc.
use native.Mathlib.Nat.{mod-lt}
use kv_mem.Prelude.{
  ℕ, ◌+◌, ◌*◌, ◌/◌, ◌%◌, ◌^◌, ◌≤◌, ◌<◌, max, min, ◌≡◌, refl, ◌∙◌, List, [], ◌∷◌, ◌++◌, append_assoc,
  length, length-append, length-replicate, length-drop, replicate, drop, drop_front, arith,
}
use kv_mem.Bytes.{Bytes}
use kv_mem.Status.{ok}
use kv_mem.Format.Fixed.{encode_fixed32, decode_fixed32}
use kv_mem.Format.Fixed.RoundTrip.{decode-encode_fixed32, length-encode_fixed32}
use kv_mem.BloomFilter.{BloomFilter, hash, bit_index, add_hashes, add_keys, build}
use kv_mem.BloomFilter.NoFalseNegative.{length-add_hashes}
use kv_mem.BloomFilter.Codec.{encode, decode}

length-add_keys :
    (bit_count hash_count : ℕ) (keys : List Bytes) (bits : Bytes)
    → length (add_keys bit_count hash_count keys bits) ≡ length bits
unfolding add_keys
length-add_keys bit_count hash_count [] bits = refl
length-add_keys bit_count hash_count (key ∷ rest) bits =
    length-add_keys bit_count hash_count rest (add_hashes key bit_count hash_count 0 bits)
    ∙ length-add_hashes key bit_count hash_count 0 bits

record IsSound (filter : BloomFilter) : Type 0 where
  fits : filter.bit_count < 2 ^ 32
  has_bits : 0 < filter.bit_count
  has_hashes : 0 < filter.hash_count
  few_hashes : filter.hash_count ≤ 30
  table : length filter.bits ≡ (filter.bit_count + 7) / 8

decode-encode : (filter : BloomFilter) → IsSound filter → decode (encode filter) ≡ ok filter
unfolding encode decode
decode-encode filter s =
    let bit_field = encode_fixed32 filter.bit_count in
    let hash_field = encode_fixed32 filter.hash_count in
    let whole = append_assoc bit_field hash_field filter.bits in
    let len_bits = length-encode_fixed32 filter.bit_count in
    let len_hash = length-encode_fixed32 filter.hash_count in
    let len = length-append (bit_field ++ hash_field) filter.bits in
    let len_head = length-append bit_field hash_field in
    let few = s.few_hashes in
    let table = s.table in
    let first : decode_fixed32 (bit_field ++ hash_field ++ filter.bits) ≡ filter.bit_count =
      rw whole (decode-encode_fixed32 filter.bit_count (hash_field ++ filter.bits) s.fits) in
    let second : decode_fixed32 (drop 4 (bit_field ++ hash_field ++ filter.bits))
        ≡ filter.hash_count =
      rw (whole, drop_front 4 bit_field (hash_field ++ filter.bits) len_bits)
        (decode-encode_fixed32 filter.hash_count filter.bits (omega arith)) in
    let payload = drop_front 8 (bit_field ++ hash_field) filter.bits (omega arith) in
    ground (arith, first, second, payload, s.has_bits, s.has_hashes, len, len_head)

build-IsSound :
    (keys : List Bytes) (bits_per_key : ℕ)
    → length keys * max 1 bits_per_key + 7 < 2 ^ 32
    → IsSound (build keys bits_per_key)
unfolding build
build-IsSound keys bits_per_key fits =
    let bit_count = max 64 (length keys * max 1 bits_per_key % 2 ^ 64) % 2 ^ 32 in
    let hash_count = max 1 (min 30 (bits_per_key * 69 / 100)) in
    let zeros = replicate {A = ℕ} ((bit_count + 7) % 2 ^ 32 / 8) 0 in
    let table = length-add_keys bit_count hash_count keys zeros in
    let len = length-replicate {A = ℕ} ((bit_count + 7) % 2 ^ 32 / 8) 0 in
    record {
      fits = omega arith;
      has_bits = omega arith;
      has_hashes = omega arith;
      few_hashes = omega arith;
      table = omega arith;
    }

-- A filter built from so many keys that its count of bits and seven more fit 32 bits is what
-- Decode returns for the bytes that Encode writes for it.
pub decode-encode-build :
    (keys : List Bytes) (bits_per_key : ℕ)
    → length keys * max 1 bits_per_key + 7 < 2 ^ 32
    → decode (encode (build keys bits_per_key)) ≡ ok (build keys bits_per_key)
decode-encode-build keys bits_per_key fits =
    decode-encode (build keys bits_per_key) (build-IsSound keys bits_per_key fits)

-- If Decode accepts some bytes, then each bit that MayContain computes for a key lies in the
-- table of the filter it returned.
pub decode-InBounds :
    (encoded : Bytes) (filter : BloomFilter) (key : Bytes) (i : ℕ)
    → decode encoded ≡ ok filter
    → bit_index key filter.bit_count i / 8 < length filter.bits
unfolding decode bit_index
decode-InBounds encoded filter key i h = ground (
  arith,
  length-drop 8 encoded,
  mod-lt ((hash key 0x9747b28c + i * hash key 0x5bd1e995) % 2 ^ 32) {m = filter.bit_count},
)
