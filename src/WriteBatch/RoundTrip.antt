-- ===== src/WriteBatch/RoundTrip.antt =====
-- Encode and Decode are inverse to one another.
use mathlib.Core.WellFounded.{Acc}
use kv_mem.Prelude.{
  ℕ, ◌+◌, ◌%◌, ◌^◌, ◌≤◌, ◌≡◌, refl, ap, ◌∙◌, false, List, [], ◌∷◌, ◌++◌, append-nil, append_assoc,
  length, length-append, drop, take_front, drop_front, All, arith, ltb, Shorter,
}
use kv_mem.Bytes.{Bytes, IsU32}
use kv_mem.Status.{ok}
use kv_mem.Format.Fixed.{encode_fixed32}
use kv_mem.Format.Fixed.RoundTrip.{decode-encode_fixed32}
use kv_mem.WriteBatch.{
  OpType, op_put, op_delete, Operation, WriteBatch, CarriesNone, IsWellFormed, validate_encoding,
  u32_max,
}
use kv_mem.WriteBatch.Codec.{
  op_byte, op_type, encode_operation, encode_operations, encode, key_size, value_size,
  carries_value, decode_operation, after_operation, decode_loop, decode,
}
use kv_mem.WriteBatch.Size.{length-encode_operations, validate_encoding_iff}

-- An operation on the wire: the type, the two sizes, and what follows the header.
abbrev wire : ℕ → ℕ → ℕ → Bytes → Bytes
wire type k v payload = type ∷ (encode_fixed32 k ++ (encode_fixed32 v ++ payload))

module _ (type k v : ℕ) (payload : Bytes) where
  key_size-wire : IsU32 k → key_size (wire type k v payload) ≡ k
  key_size-wire h = decode-encode_fixed32 k (encode_fixed32 v ++ payload) h

  value_size-wire : IsU32 v → value_size (wire type k v payload) ≡ v
  unfolding encode_fixed32
  value_size-wire h = decode-encode_fixed32 v payload h

  drop-wire : drop 9 (wire type k v payload) ≡ payload
  unfolding encode_fixed32
  drop-wire = refl

  long-wire : ltb (length (wire type k v payload)) 9 ≡ false
  unfolding encode_fixed32
  long-wire = ground arith

abbrev wire_of : Operation → Bytes → Bytes
wire_of o rest = wire (op_byte o.type) (length o.key) (length o.value) (o.key ++ (o.value ++ rest))

encode_operation-wire :
    (o : Operation) (rest : Bytes)
    → IsU32 (length o.key)
    → IsU32 (length o.value)
    → encode_operation o ++ rest ≡ wire_of o rest
unfolding encode_operation encode_fixed32
encode_operation-wire o rest hk hv =
    let ek : length o.key % 2 ^ 32 ≡ length o.key = omega arith in
    let ev : length o.value % 2 ^ 32 ≡ length o.value = omega arith in rw (ek, ev, append_assoc)

op_type-op_byte : (t : OpType) → op_type (op_byte t) ≡ ok t
unfolding op_type op_byte
op_type-op_byte op_put = refl
op_type-op_byte op_delete = refl

carries_value-CarriesNone :
    (t : OpType) (v : Bytes) → (t ≡ op_delete → v ≡ []) → carries_value t v ≡ false
carries_value-CarriesNone op_put v h = refl
carries_value-CarriesNone op_delete v h = rw (h refl)

decode_operation-wire :
    (o : Operation) (rest : Bytes)
    → IsU32 (length o.key)
    → IsU32 (length o.value)
    → CarriesNone o
    → decode_operation (wire_of o rest) ≡ ok o
unfolding decode_operation
decode_operation-wire o rest hk hv c =
    let payload : Bytes = o.key ++ (o.value ++ rest) in
    let t : ℕ = op_byte o.type in
    let enough : ltb (length payload) (length o.key + length o.value) ≡ false =
      ground (arith, length-append o.key (o.value ++ rest), length-append o.value rest) in
    rw (
      long-wire t (length o.key) (length o.value) payload,
      op_type-op_byte o.type,
      key_size-wire t (length o.key) (length o.value) payload hk,
      value_size-wire t (length o.key) (length o.value) payload hv,
      drop-wire t (length o.key) (length o.value) payload,
      enough,
      drop_front (length o.key) o.key (o.value ++ rest) refl,
      take_front (length o.value) o.value rest refl,
      take_front (length o.key) o.key (o.value ++ rest) refl,
      carries_value-CarriesNone o.type o.value c,
    )

after_operation-wire :
    (o : Operation) (rest : Bytes)
    → IsU32 (length o.key)
    → IsU32 (length o.value)
    → after_operation (wire_of o rest) ≡ rest
unfolding after_operation
after_operation-wire o rest hk hv =
    let payload : Bytes = o.key ++ (o.value ++ rest) in
    let t : ℕ = op_byte o.type in
    rw (
      key_size-wire t (length o.key) (length o.value) payload hk,
      value_size-wire t (length o.key) (length o.value) payload hv,
      drop-wire t (length o.key) (length o.value) payload,
      drop_front (length o.key) o.key (o.value ++ rest) refl,
      drop_front (length o.value) o.value rest refl,
    )

operation_fits :
    (o : Operation) (os : List Operation)
    → length (encode_operations (o ∷ os)) ≤ u32_max
    → IsU32 (length o.key) × IsU32 (length o.value) × (length (encode_operations os) ≤ u32_max)
operation_fits o os h = omega (arith, length-encode_operations o os)

encode_operations-wire :
    (o : Operation) (os : List Operation)
    → length (encode_operations (o ∷ os)) ≤ u32_max
    → encode_operations (o ∷ os) ≡ wire_of o (encode_operations os)
unfolding encode_operations
encode_operations-wire o os h =
    let (hk, hv, _) = operation_fits o os h in encode_operation-wire o (encode_operations os) hk hv

-- `ptr` is what is still to be read, and `done` what was read before it.
decode_loop-encode_operations :
    (done os : List Operation) (ptr : Bytes) (w : Acc Shorter ptr)
    → ptr ≡ encode_operations os
    → length (encode_operations os) ≤ u32_max
    → All CarriesNone os
    → decode_loop done ptr w ≡ ok (done ++ os)
unfolding decode_loop
decode_loop-encode_operations done [] [] w e fits c = rw append-nil
decode_loop-encode_operations done [] (b ∷ rest) w e fits c = unfold encode_operations in cc
decode_loop-encode_operations done (o ∷ os) [] w e fits c = cc (encode_operations-wire o os fits)
decode_loop-encode_operations done (o ∷ os) (b ∷ rest) (Acc.intro _ smaller) e fits c =
    let (hk, hv, later) = operation_fits o os fits in
    let wired : b ∷ rest ≡ wire_of o (encode_operations os) =
      e ∙ encode_operations-wire o os fits in
    let first : decode_operation (b ∷ rest) ≡ ok o =
      ap decode_operation wired ∙ decode_operation-wire o (encode_operations os) hk hv c.0 in
    let next : after_operation (b ∷ rest) ≡ encode_operations os =
      ap after_operation wired ∙ after_operation-wire o (encode_operations os) hk hv in
    rw first (
      decode_loop-encode_operations (done ++ (o ∷ [])) os _ (smaller _ _) next later c.1
      ∙ ap ok (append_assoc done (o ∷ []) os))

-- Decode gives back a batch that ValidateEncoding accepts and in which no delete carries a value.
pub decode-encode :
    (batch : WriteBatch)
    → validate_encoding batch ≡ ok tt
    → IsWellFormed batch
    → decode (encode batch) ≡ ok batch
unfolding decode encode
decode-encode batch valid c = rw (
    decode_loop-encode_operations [] batch.operations _ _ refl
      ((validate_encoding_iff batch).0 valid) c)
