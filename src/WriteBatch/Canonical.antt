-- ===== src/WriteBatch/Canonical.antt =====
-- What Decode accepts is what Encode writes: a batch has one encoding.
use mathlib.Core.WellFounded.{Acc}
use kv_mem.Prelude.{
  ℕ, ◌+◌, ◌%◌, ◌^◌, ◌≤◌, ◌≡◌, refl, ap, ◌∙◌, false, List, [], ◌∷◌, ◌++◌, append-nil, append_assoc,
  length, length-drop, length-take, take, drop, take-append-drop, get_or, All, All-drop, All-append,
  arith, Shorter, shorter_wf,
}
use kv_mem.Bytes.{Bytes, IsByte, IsBytes}
use kv_mem.Status.{ok, >>=-eq-ok}
use kv_mem.Format.Fixed.RoundTrip.{encode-decode_fixed32, decode_fixed32_sum}
use kv_mem.WriteBatch.{OpType, op_put, op_delete, Operation, WriteBatch, CarriesNone, IsWellFormed}
use kv_mem.WriteBatch.Codec.{
  op_byte, op_type, encode_operation, encode_operations, encode, key_size, value_size,
  carries_value, decode_operation, after_operation, decode_loop, decode,
}

-- What a round that succeeds has checked.
record Decoded (ptr : Bytes) (o : Operation) : Type 0 where
  long : 9 ≤ length ptr
  type : op_type (get_or ptr 0 0) ≡ ok o.type
  fits : key_size ptr + value_size ptr ≤ length (drop 9 ptr)
  key : o.key ≡ take (key_size ptr) (drop 9 ptr)
  value : o.value ≡ take (value_size ptr) (drop (key_size ptr) (drop 9 ptr))
  carries : carries_value o.type o.value ≡ false

decode_operation-Decoded :
    (ptr : Bytes) (o : Operation) → decode_operation ptr ≡ ok o → Decoded ptr o
unfolding decode_operation
decode_operation-Decoded ptr o h = ground arith

type_byte : (b : ℕ) (t : OpType) → op_type b ≡ ok t → b ≡ op_byte t
unfolding op_type op_byte
type_byte b op_put h = ground arith
type_byte b op_delete h = ground arith

CarriesNone_of : (t : OpType) (v : Bytes) → carries_value t v ≡ false → t ≡ op_delete → v ≡ []
CarriesNone_of op_put v h e = cc
CarriesNone_of op_delete [] h e = refl
CarriesNone_of op_delete (b ∷ rest) h e = cc

-- Cut at `k` and then at `v`, a list is its three parts.
three_parts : (k v : ℕ) (xs : Bytes) → take k xs ++ (take v (drop k xs) ++ drop v (drop k xs)) ≡ xs
three_parts k v xs = rw (take-append-drop v (drop k xs), take-append-drop k xs)

-- Encoding what a round has read gives the bytes that it took.
encode-Decoded :
    (ptr : Bytes) (o : Operation)
    → Decoded ptr o
    → IsBytes ptr
    → encode_operation o ++ after_operation ptr ≡ ptr
unfolding encode_operation after_operation
encode-Decoded (b ∷ k0 ∷ k1 ∷ k2 ∷ k3 ∷ v0 ∷ v1 ∷ v2 ∷ v3 ∷ payload) o d h =
    let ptr : Bytes = b ∷ k0 ∷ k1 ∷ k2 ∷ k3 ∷ v0 ∷ v1 ∷ v2 ∷ v3 ∷ payload in
    let k : ℕ = key_size ptr in
    let v : ℕ = value_size ptr in
    let ksum =
      decode_fixed32_sum k0 k1 k2 k3 (v0 ∷ v1 ∷ v2 ∷ v3 ∷ payload) h.1.0 h.1.1.0 h.1.1.1.0 in
    let vsum =
      decode_fixed32_sum v0 v1 v2 v3 payload h.1.1.1.1.1.0 h.1.1.1.1.1.1.0 h.1.1.1.1.1.1.1.0 in
    let ek : length o.key % 2 ^ 32 ≡ k =
      rw d.key (omega (arith, ksum, d.fits, h, length-take k payload)) in
    let ev : length o.value % 2 ^ 32 ≡ v =
      rw d.value
        (omega (arith, vsum, d.fits, h, length-take v (drop k payload), length-drop k payload)) in
    rw (
      ek,
      ev,
      ← type_byte b o.type d.type,
      encode-decode_fixed32 k0 k1 k2 k3 (v0 ∷ v1 ∷ v2 ∷ v3 ∷ payload) h.1.0 h.1.1.0 h.1.1.1.0
          h.1.1.1.1.0,
      encode-decode_fixed32 v0 v1 v2 v3 payload h.1.1.1.1.1.0 h.1.1.1.1.1.1.0 h.1.1.1.1.1.1.1.0
          h.1.1.1.1.1.1.1.1.0,
      d.key,
      d.value,
      append_assoc,
      three_parts k v payload,
    )
encode-Decoded _ o d h = absurd (omega (arith, d.long))

after_operation-IsBytes : (ptr : Bytes) → IsBytes ptr → IsBytes (after_operation ptr)
unfolding after_operation
after_operation-IsBytes ptr h =
    All-drop IsByte (value_size ptr) _ (All-drop IsByte (key_size ptr) _ (All-drop IsByte 9 ptr h))

encode_operations-append :
    (xs ys : List Operation)
    → encode_operations (xs ++ ys) ≡ encode_operations xs ++ encode_operations ys
unfolding encode_operations
encode_operations-append [] ys = refl
encode_operations-append (x ∷ xs) ys = rw (encode_operations-append xs ys, append_assoc)

encode_operations_single : (o : Operation) → encode_operations (o ∷ []) ≡ encode_operation o
unfolding encode_operations
encode_operations_single o = append-nil (encode_operation o)

-- The bytes read so far and those still to come, as one buffer.
decode_loop_canonical :
    (done : List Operation) (ptr : Bytes) (w : Acc Shorter ptr) (os : List Operation)
    → IsBytes ptr
    → All CarriesNone done
    → decode_loop done ptr w ≡ ok os
    → All CarriesNone os × (encode_operations os ≡ encode_operations done ++ ptr)
unfolding decode_loop
decode_loop_canonical done [] w os h c e =
    let same : done ≡ os = cc in rw (← same) (c, rw append-nil)
decode_loop_canonical done (b ∷ rest) (Acc.intro _ smaller) os h c e =
    let (o, read, more) = >>=-eq-ok (decode_operation (b ∷ rest)) _ e in
    let d : Decoded (b ∷ rest) o = decode_operation-Decoded (b ∷ rest) o read in
    let (c', eq) =
      decode_loop_canonical (done ++ (o ∷ [])) (after_operation (b ∷ rest)) (smaller _ _) os
        (after_operation-IsBytes (b ∷ rest) h)
        (All-append CarriesNone done (o ∷ []) c (CarriesNone_of o.type o.value d.carries, tt))
        more in
    (
      c',
      eq
          ∙ ap (λ t. t ++ after_operation (b ∷ rest)) (encode_operations-append done (o ∷ []))
          ∙ append_assoc (encode_operations done) (encode_operations (o ∷ [])) _
          ∙ ap (λ t. encode_operations done ++ t)
              (ap (λ t. t ++ after_operation (b ∷ rest)) (encode_operations_single o)
                ∙ encode-Decoded (b ∷ rest) o d h),
    )

-- A buffer that Decode accepts is, byte for byte, what Encode writes for the batch that it returns,
-- and no delete of that batch carries a value.
pub encode-decode :
    (encoded : Bytes) (batch : WriteBatch)
    → IsBytes encoded
    → decode encoded ≡ ok batch
    → (encode batch ≡ encoded) × IsWellFormed batch
unfolding decode encode
encode-decode encoded batch h e =
    let (os, read, made) = >>=-eq-ok (decode_loop [] encoded (shorter_wf.apply encoded)) _ e in
    let (c, eq) = decode_loop_canonical [] encoded _ os h tt read in
    let same : os ≡ batch.operations = cc in rw (← same) (unfold encode_operations in eq, c)
