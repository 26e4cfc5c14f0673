-- ===== src/BloomFilter.antt =====
-- BloomFilter of src/bloom_filter.cc. The bits are a list of bytes, a word of 32 bits has its
-- wrap-around written out, and `bits_per_key * 0.69`, truncated, is `bits_per_key * 69 / 100`: the
-- product is no whole number up to 43 bits per key, and from there on the limit of 30 decides.
pub mod NoFalseNegative
pub mod Codec
use kv_mem.Prelude.{
  ℕ, zero, suc, ◌+◌, ◌*◌, ◌/◌, ◌%◌, ◌^◌, min, max, bit_and, bit_or, bit_xor, ◌<<<◌, ◌>>>◌, Bool,
  true, false, ◌||◌, List, [], ◌∷◌, length, get_or, set, replicate, ◌==◌, if◌then◌else◌,
}
use kv_mem.Bytes.{Bytes}

pub record BloomFilter : Type 0 where
  pub bits : Bytes
  pub bit_count : ℕ
  pub hash_count : ℕ

-- The loop of Hash.
unfoldable pub hash_bytes : Bytes → ℕ → ℕ
hash_bytes [] hash = hash
hash_bytes (ch ∷ rest) hash =
    let mixed = bit_xor hash ch * 0x5bd1e995 % 2 ^ 32 in
    hash_bytes rest (bit_xor mixed (mixed >>> 15))

unfoldable pub hash : Bytes → ℕ → ℕ
unfolding hash_bytes
hash key seed = hash_bytes key (bit_xor seed (length key % 2 ^ 32))

-- (h1 + i * h2) % bit_count
unfoldable pub bit_index : Bytes → ℕ → ℕ → ℕ
bit_index key bit_count i = (hash key 0x9747b28c + i * hash key 0x5bd1e995) % 2 ^ 32 % bit_count

-- static_cast<std::uint8_t>(1u << (bit % 8))
unfoldable pub bit_mask : ℕ → ℕ
bit_mask bit = (1 <<< (bit % 8)) % 256

unfoldable pub set_bit : Bytes → ℕ → Bytes
set_bit bits bit = set bits (bit / 8) (bit_or (get_or bits (bit / 8) 0) (bit_mask bit))

-- The inner loop of Build, with `n` rounds left from round `i` on.
unfoldable pub add_hashes : Bytes → ℕ → ℕ → ℕ → Bytes → Bytes
add_hashes key bit_count zero i bits = bits
add_hashes key bit_count (suc n) i bits =
    add_hashes key bit_count n (i + 1) (set_bit bits (bit_index key bit_count i))

-- for (const auto& key : keys)
unfoldable pub add_keys : ℕ → ℕ → List Bytes → Bytes → Bytes
add_keys bit_count hash_count [] bits = bits
add_keys bit_count hash_count (key ∷ rest) bits =
    add_keys bit_count hash_count rest (add_hashes key bit_count hash_count 0 bits)

unfoldable pub build : List Bytes → ℕ → BloomFilter
build keys bits_per_key =
    let bit_count = max 64 (length keys * max 1 bits_per_key % 2 ^ 64) % 2 ^ 32 in
    let hash_count = max 1 (min 30 (bits_per_key * 69 / 100)) in
    record {
      bits = add_keys bit_count hash_count keys (replicate ((bit_count + 7) % 2 ^ 32 / 8) 0);
      bit_count = bit_count;
      hash_count = hash_count;
    }

unfoldable pub test_bit : Bytes → ℕ → Bool
test_bit bits bit = if bit_and (get_or bits (bit / 8) 0) (bit_mask bit) == 0 then false else true

-- The loop of MayContain, with `n` rounds left from round `i` on.
unfoldable pub test_hashes : Bytes → ℕ → ℕ → ℕ → Bytes → Bool
test_hashes key bit_count zero i bits = true
test_hashes key bit_count (suc n) i bits =
    let rest = test_hashes key bit_count n (i + 1) bits in
    if test_bit bits (bit_index key bit_count i) then rest else false

unfoldable pub may_contain : BloomFilter → Bytes → Bool
may_contain filter key =
    if filter.bit_count == 0 || filter.hash_count == 0
    then true
    else test_hashes key filter.bit_count filter.hash_count 0 filter.bits
