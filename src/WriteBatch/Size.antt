-- ===== src/WriteBatch/Size.antt =====
-- ValidateEncoding against the size of what Encode writes.
use kv_mem.Prelude.{
  ℕ, ◌+◌, ◌*◌, ◌%◌, ◌^◌, ◌≤◌, ◌≡◌, refl, ◌↔◌, List, [], ◌∷◌, ◌++◌, length, length-append, arith,
}
use kv_mem.Status.{ok}
use kv_mem.Format.Fixed.RoundTrip.{length-encode_fixed32}
use kv_mem.Format.Fixed.{encode_fixed32}
use kv_mem.WriteBatch.{
  Operation, WriteBatch, count, validate_operations, validate_encoding, u32_max,
}
use kv_mem.WriteBatch.Codec.{encode_operation, encode_operations, encode}

pub length-encode_operation :
    (o : Operation) → length (encode_operation o) ≡ 9 + length o.key + length o.value
unfolding encode_operation
length-encode_operation o =
    let k : ℕ = length o.key % 2 ^ 32 in
    let v : ℕ = length o.value % 2 ^ 32 in
    omega (
      arith,
      length-append (encode_fixed32 k) (encode_fixed32 v ++ (o.key ++ o.value)),
      length-append (encode_fixed32 v) (o.key ++ o.value),
      length-append o.key o.value,
      length-encode_fixed32 k,
      length-encode_fixed32 v,
    )

pub length-encode_operations :
    (o : Operation) (rest : List Operation)
    → length (encode_operations (o ∷ rest))
      ≡ 9 + length o.key + length o.value + length (encode_operations rest)
unfolding encode_operations
length-encode_operations o rest =
    omega (
      arith,
      length-append (encode_operation o) (encode_operations rest),
      length-encode_operation o,
    )

-- Nothing wraps while the sum stays within 32 bits.
pub validate_operations_sound :
    (size : ℕ) (os : List Operation)
    → size ≤ u32_max
    → validate_operations size os ≡ ok tt
    → size + length (encode_operations os) ≤ u32_max
unfolding validate_operations
validate_operations_sound size [] fits h = unfold encode_operations in omega arith
validate_operations_sound size (o ∷ rest) fits h = ground (
  arith,
  length-encode_operations o rest,
  validate_operations_sound ((size + (9 + length o.key + length o.value)) % 2 ^ 64) rest,
)

validate_operations_complete :
    (size : ℕ) (os : List Operation)
    → size + length (encode_operations os) ≤ u32_max
    → validate_operations size os ≡ ok tt
unfolding validate_operations
validate_operations_complete size [] h = refl
validate_operations_complete size (o ∷ rest) h = ground (
  arith,
  length-encode_operations o rest,
  validate_operations_complete ((size + (9 + length o.key + length o.value)) % 2 ^ 64) rest,
)

pub count-le-encode : (os : List Operation) → length os * 9 ≤ length (encode_operations os)
count-le-encode [] = unfold encode_operations in omega arith
count-le-encode (o ∷ rest) = omega (arith, length-encode_operations o rest, count-le-encode rest)

-- A batch passes ValidateEncoding exactly when what Encode writes for it is at most 2^32 - 1 bytes.
pub validate_encoding_iff :
    (batch : WriteBatch) → (validate_encoding batch ≡ ok tt) ↔ (length (encode batch) ≤ u32_max)
unfolding validate_encoding encode count
validate_encoding_iff batch = (
  λ h. ground (arith, validate_operations_sound 0 batch.operations),
  λ h.
      ground
        (arith, count-le-encode batch.operations, validate_operations_complete 0 batch.operations),
)
