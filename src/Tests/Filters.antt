-- ===== src/Tests/Filters.antt =====
-- Tests of src/bloom_filter.cc.
use kv_mem.Prelude.{◌/◌, ◌<◌, ◌≡◌, refl, true, false, List, [], ◌∷◌, length, Memᴰ, arith}
use kv_mem.Bytes.{Bytes, text}
use kv_mem.Status.{ok, err, corruption}
use kv_mem.BloomFilter.{
  BloomFilter, hash, bit_index, build, may_contain, test_hashes, test_bit, bit_mask, set_bit,
  add_keys, add_hashes,
}
use kv_mem.BloomFilter.NoFalseNegative.{may_contain-build}
use kv_mem.BloomFilter.Codec.{encode, decode}
use kv_mem.BloomFilter.Codec.RoundTrip.{decode-encode-build, decode-InBounds}
use kv_mem.Format.Fixed.{decode_fixed32}

abbrev two_keys : List Bytes
two_keys = text "a" ∷ text "bc" ∷ []

abbrev eight_bytes : Bytes
eight_bytes = 0 ∷ 255 ∷ 0 ∷ 255 ∷ 0 ∷ 255 ∷ 0 ∷ 255 ∷ []

-- Sixty-four bits, three hashes, and eight bytes of them.
abbrev stored_filter : Bytes
stored_filter = 64 ∷ 0 ∷ 0 ∷ 0 ∷ 3 ∷ 0 ∷ 0 ∷ 0 ∷ eight_bytes

abbrev read_filter : BloomFilter
read_filter = record { bits = eight_bytes; bit_count = 64; hash_count = 3 }

decode_stored : decode stored_filter ≡ ok read_filter
unfolding decode decode_fixed32
decode_stored = refl

decode_no_hashes :
    decode (8 ∷ 0 ∷ 0 ∷ 0 ∷ 0 ∷ 0 ∷ 0 ∷ 0 ∷ 1 ∷ [])
    ≡ err (corruption "invalid bloom filter payload")
unfolding decode decode_fixed32
decode_no_hashes = refl

other_key_denied : may_contain (build two_keys 10) (text "zz") ≡ false
unfolding may_contain test_hashes test_bit bit_mask bit_index hash build add_keys add_hashes set_bit
other_key_denied = refl

may_contain-build_example : may_contain (build two_keys 10) (text "bc") ≡ true
may_contain-build_example =
    may_contain-build two_keys 10 (text "bc") (omega arith) (Memᴰ.tail (Memᴰ.head refl))

decode-encode-build_example : decode (encode (build two_keys 10)) ≡ ok (build two_keys 10)
decode-encode-build_example = decode-encode-build two_keys 10 (omega arith)

decode-InBounds_example : bit_index (text "k") 64 2 / 8 < length eight_bytes
decode-InBounds_example = decode-InBounds stored_filter read_filter (text "k") 2 decode_stored
