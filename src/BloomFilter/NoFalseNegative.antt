-- ===== src/BloomFilter/NoFalseNegative.antt =====
-- The filter of src/bloom_filter.cc never denies a key that it was built from.
use native.Mathlib.Nat.{mod-lt}
use kv_mem.Prelude.{
  ℕ, zero, suc, ◌+◌, ◌*◌, ◌/◌, ◌%◌, ◌^◌, ◌≤◌, ◌<◌, max, ◌<<<◌, bit_and, bit_or, bit_and-bit_or,
  bit_and-bit_or_le, ◌≡◌, refl, true, List, [], ◌∷◌, Memᴰ, ◌∙◌, replicate, min, length, get_or, set,
  length-set, length-replicate, arith,
}
use kv_mem.Bytes.{Bytes}
use kv_mem.BloomFilter.{
  bit_index, bit_mask, set_bit, test_bit, add_hashes, add_keys, test_hashes, build, may_contain,
}

get_or-set_same : (xs : Bytes) (i v : ℕ) → i < length xs → get_or (set xs i v) i 0 ≡ v
get_or-set_same [] i v h = absurd (omega arith)
get_or-set_same (x ∷ xs) zero v h = refl
get_or-set_same (x ∷ xs) (suc i) v h = get_or-set_same xs i v (omega arith)

-- A write of a byte with more bits leaves each byte with at least the bits it had.
get_or-set_le :
    (xs : Bytes) (i j y m : ℕ)
    → bit_and (get_or xs j 0) m ≤ bit_and (get_or (set xs i (bit_or (get_or xs i 0) y)) j 0) m
get_or-set_le [] i j y m = omega arith
get_or-set_le (x ∷ xs) zero zero y m = bit_and-bit_or_le x y m
get_or-set_le (x ∷ xs) zero (suc j) y m = omega arith
get_or-set_le (x ∷ xs) (suc i) zero y m = omega arith
get_or-set_le (x ∷ xs) (suc i) (suc j) y m = get_or-set_le xs i j y m

mask-positive : (r : ℕ) → r < 8 → 0 < (1 <<< r) % 256
mask-positive zero h = omega arith
mask-positive (suc zero) h = omega arith
mask-positive (suc (suc zero)) h = omega arith
mask-positive (suc (suc (suc zero))) h = omega arith
mask-positive (suc (suc (suc (suc zero)))) h = omega arith
mask-positive (suc (suc (suc (suc (suc zero))))) h = omega arith
mask-positive (suc (suc (suc (suc (suc (suc zero)))))) h = omega arith
mask-positive (suc (suc (suc (suc (suc (suc (suc zero))))))) h = omega arith
mask-positive (suc (suc (suc (suc (suc (suc (suc (suc r)))))))) h = absurd (omega arith)

bit_mask-positive : (bit : ℕ) → 0 < bit_mask bit
unfolding bit_mask
bit_mask-positive bit = mask-positive (bit % 8) (omega arith)

test_bit-set_bit :
    (bits : Bytes) (bit : ℕ) → bit / 8 < length bits → test_bit (set_bit bits bit) bit ≡ true
unfolding set_bit test_bit
test_bit-set_bit bits bit h = ground (
  arith,
  get_or-set_same bits (bit / 8) (bit_or (get_or bits (bit / 8) 0) (bit_mask bit)) h,
  bit_and-bit_or (get_or bits (bit / 8) 0) (bit_mask bit),
  bit_mask-positive bit,
)

set_bit-keeps :
    (bits : Bytes) (bit other : ℕ)
    → test_bit bits other ≡ true
    → test_bit (set_bit bits bit) other ≡ true
unfolding set_bit test_bit
set_bit-keeps bits bit other h =
    ground (arith, get_or-set_le bits (bit / 8) (other / 8) (bit_mask bit) (bit_mask other))

length-set_bit : (bits : Bytes) (bit : ℕ) → length (set_bit bits bit) ≡ length bits
unfolding set_bit
length-set_bit bits bit = length-set bits _ _

pub length-add_hashes :
    (key : Bytes) (bit_count n i : ℕ) (bits : Bytes)
    → length (add_hashes key bit_count n i bits) ≡ length bits
unfolding add_hashes
length-add_hashes key bit_count zero i bits = refl
length-add_hashes key bit_count (suc n) i bits =
    length-add_hashes key bit_count n (i + 1) (set_bit bits (bit_index key bit_count i))
    ∙ length-set_bit bits (bit_index key bit_count i)

add_hashes-keeps :
    (key : Bytes) (bit_count n i : ℕ) (bits : Bytes) (bit : ℕ)
    → test_bit bits bit ≡ true
    → test_bit (add_hashes key bit_count n i bits) bit ≡ true
unfolding add_hashes
add_hashes-keeps key bit_count zero i bits bit h = h
add_hashes-keeps key bit_count (suc n) i bits bit h =
    add_hashes-keeps key bit_count n (i + 1) (set_bit bits (bit_index key bit_count i)) bit
      (set_bit-keeps bits (bit_index key bit_count i) bit h)

-- Every bit of the table lies in its bytes.
Covers : ℕ → Bytes → Type 0
Covers bit_count bits = (h : ℕ) → h % bit_count / 8 < length bits

test_hashes-keeps :
    (key : Bytes) (bit_count n i : ℕ) (bits more : Bytes)
    → ((bit : ℕ) → test_bit bits bit ≡ true → test_bit more bit ≡ true)
    → test_hashes key bit_count n i bits ≡ true
    → test_hashes key bit_count n i more ≡ true
unfolding test_hashes
test_hashes-keeps key bit_count zero i bits more keeps h = refl
test_hashes-keeps key bit_count (suc n) i bits more keeps h = ground (
  arith,
  keeps (bit_index key bit_count i),
  test_hashes-keeps key bit_count n (i + 1) bits more keeps,
)

test_hashes-add_hashes :
    (key : Bytes) (bit_count n i : ℕ) (bits : Bytes)
    → Covers bit_count bits
    → test_hashes key bit_count n i (add_hashes key bit_count n i bits) ≡ true
unfolding test_hashes add_hashes bit_index Covers
test_hashes-add_hashes key bit_count zero i bits h = refl
test_hashes-add_hashes key bit_count (suc n) i bits h =
    let bit = bit_index key bit_count i in
    ground (
      arith,
      add_hashes-keeps key bit_count n (i + 1) (set_bit bits bit) bit
          (test_bit-set_bit bits bit (h _)),
      test_hashes-add_hashes key bit_count n (i + 1) (set_bit bits bit)
          (λ x. omega (arith, h x, length-set_bit bits bit)),
    )

add_keys-keeps :
    (bit_count hash_count : ℕ) (keys : List Bytes) (bits : Bytes) (bit : ℕ)
    → test_bit bits bit ≡ true
    → test_bit (add_keys bit_count hash_count keys bits) bit ≡ true
unfolding add_keys
add_keys-keeps bit_count hash_count [] bits bit h = h
add_keys-keeps bit_count hash_count (key ∷ rest) bits bit h =
    add_keys-keeps bit_count hash_count rest _ bit
      (add_hashes-keeps key bit_count hash_count 0 bits bit h)

Covers-replicate :
    (bit_count : ℕ)
    → 0 < bit_count
    → bit_count + 7 < 2 ^ 32
    → Covers bit_count (replicate ((bit_count + 7) % 2 ^ 32 / 8) 0)
unfolding Covers
Covers-replicate bit_count pos fits h =
    omega (arith, length-replicate {A = ℕ} ((bit_count + 7) % 2 ^ 32 / 8) 0, mod-lt h pos)

test_hashes-add_keys :
    (bit_count hash_count : ℕ) (keys : List Bytes) (bits : Bytes) (key : Bytes)
    → Covers bit_count bits
    → Memᴰ key keys
    → test_hashes key bit_count hash_count 0 (add_keys bit_count hash_count keys bits) ≡ true
unfolding add_keys Covers
test_hashes-add_keys bit_count hash_count [] bits key c at = elim at [ ]
test_hashes-add_keys bit_count hash_count (first ∷ rest) bits key c (Memᴰ.head e) = rw e (
    test_hashes-keeps first bit_count hash_count 0 _ _ (add_keys-keeps bit_count hash_count rest _)
      (test_hashes-add_hashes first bit_count hash_count 0 bits c))
test_hashes-add_keys bit_count hash_count (first ∷ rest) bits key c (Memᴰ.tail at) =
    test_hashes-add_keys bit_count hash_count rest _ key
      (λ x. omega (arith, c x, length-add_hashes first bit_count hash_count 0 bits)) at

-- A filter built from so many keys that its count of bits and seven more fit 32 bits may contain
-- each of the keys.
pub may_contain-build :
    (keys : List Bytes) (bits_per_key : ℕ) (key : Bytes)
    → length keys * max 1 bits_per_key + 7 < 2 ^ 32
    → Memᴰ key keys
    → may_contain (build keys bits_per_key) key ≡ true
unfolding may_contain build
may_contain-build keys bits_per_key key fits at =
    let n = length keys * max 1 bits_per_key in
    let bit_count = max 64 (n % 2 ^ 64) % 2 ^ 32 in
    let hash_count = max 1 (min 30 (bits_per_key * 69 / 100)) in
    ground (
      arith,
      test_hashes-add_keys bit_count hash_count keys (replicate ((bit_count + 7) % 2 ^ 32 / 8) 0)
          key (Covers-replicate bit_count (omega arith) (omega arith)) at,
    )
