-- ===== src/WriteBatch/Codec.antt =====
-- WriteBatch::Encode and WriteBatch::Decode. What is left of the buffer, from `ptr` to `end`, is a
-- list of bytes.
use mathlib.Core.WellFounded.{Acc}
use kv_mem.Prelude.{
  ℕ, ◌+◌, ◌%◌, ◌^◌, Bool, true, false, List, [], ◌∷◌, ◌++◌, length, take, drop, length-drop, get_or,
  ltb, ◌==◌, if◌then◌else◌, arith, Shorter, shorter_wf,
}
use kv_mem.Bytes.{Bytes}
use kv_mem.Status.{Result, ok, err, corruption, reject_if, ◌>>=◌, ◌>>◌}
use kv_mem.Format.Fixed.{encode_fixed32, decode_fixed32}
use kv_mem.WriteBatch.{OpType, op_put, op_delete, Operation, WriteBatch, operation_header_size}

unfoldable pub op_byte : OpType → ℕ
op_byte op_put = 1
op_byte op_delete = 2

unfoldable pub encode_operation : Operation → Bytes
unfolding op_byte
encode_operation o =
    op_byte o.type
    ∷ (encode_fixed32 (length o.key % 2 ^ 32)
        ++ (encode_fixed32 (length o.value % 2 ^ 32) ++ (o.key ++ o.value)))

unfoldable pub encode_operations : List Operation → Bytes
encode_operations [] = []
encode_operations (o ∷ rest) = encode_operation o ++ encode_operations rest

unfoldable pub encode : WriteBatch → Bytes
encode batch = encode_operations batch.operations

-- `static_cast<WriteBatchOpType>(byte)`, refused unless it is one of the two.
unfoldable pub op_type : ℕ → Result OpType
op_type byte =
    if byte == 1
    then ok op_put
    else if byte == 2
    then ok op_delete
    else err (corruption "unknown WriteBatch operation type")

abbrev pub key_size : Bytes → ℕ
key_size ptr = decode_fixed32 (drop 1 ptr)

abbrev pub value_size : Bytes → ℕ
value_size ptr = decode_fixed32 (drop 5 ptr)

-- `delete operation carries a value`
abbrev pub carries_value : OpType → Bytes → Bool
carries_value op_delete (b ∷ rest) = true
carries_value _ _ = false

-- One round of the loop: the operation at `ptr`, checked in the order of the source.
unfoldable pub decode_operation : Bytes → Result Operation
unfolding op_type
decode_operation ptr = do
  reject_if (ltb (length ptr) operation_header_size)
      (corruption "invalid WriteBatch operation header")
  type ← op_type (get_or ptr 0 0)
  let payload = drop operation_header_size ptr
  reject_if (ltb (length payload) (key_size ptr + value_size ptr))
      (corruption "invalid WriteBatch operation payload")
  let value = take (value_size ptr) (drop (key_size ptr) payload)
  reject_if (carries_value type value) (corruption "delete operation carries a value")
  ok (record { type = type; key = take (key_size ptr) payload; value = value })

-- Where the round leaves `ptr`.
unfoldable pub after_operation : Bytes → Bytes
after_operation ptr = drop (value_size ptr) (drop (key_size ptr) (drop operation_header_size ptr))

pub after_operation-Shorter :
    (b : ℕ) (rest : Bytes) → Shorter (after_operation (b ∷ rest)) (b ∷ rest)
unfolding after_operation
after_operation-Shorter b rest = omega (
  arith,
  length-drop (value_size (b ∷ rest)) (drop (key_size (b ∷ rest)) (drop 8 rest)),
  length-drop (key_size (b ∷ rest)) (drop 8 rest),
  length-drop 8 rest,
)

-- while (ptr != end)
unfoldable pub decode_loop :
    List Operation → (ptr : Bytes) → Acc Shorter ptr → Result (List Operation)
decode_loop decoded [] w = ok decoded
decode_loop decoded (b ∷ rest) (Acc.intro _ smaller) = do
  operation ← decode_operation (b ∷ rest)
  decode_loop (decoded ++ (operation ∷ [])) (after_operation (b ∷ rest))
      (smaller _ (after_operation-Shorter b rest))

-- On an error the batch keeps the operations that it had.
unfoldable pub decode : Bytes → Result WriteBatch
unfolding decode_operation after_operation decode_loop shorter_wf
decode encoded = do
  operations ← decode_loop [] encoded (shorter_wf.apply encoded)
  ok (record { operations = operations })
