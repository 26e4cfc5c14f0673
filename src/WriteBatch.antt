-- ===== src/WriteBatch.antt =====
-- include/write_batch.h and src/write_batch.cc.
pub mod Codec
pub mod Size
pub mod RoundTrip
pub mod Canonical
use kv_mem.Prelude.{
  ℕ, suc, ◌+◌, ◌%◌, ◌^◌, ◌<◌, ◌≡◌, Bool, true, false, List, [], ◌∷◌, ◌++◌, length, length-append,
  All, All-append, refl, ap, ltb, ◌||◌, if◌then◌else◌, arith,
}
use kv_mem.Bytes.{Bytes}
use kv_mem.Status.{Status, ok, err, invalid_argument}

pub data OpType : Type 0 where
  op_put op_delete : OpType

pub record Operation : Type 0 where
  pub type : OpType
  pub key : Bytes
  pub value : Bytes

pub record WriteBatch : Type 0 where
  pub operations : List Operation

abbrev pub empty : WriteBatch
empty = record { operations = [] }

-- operations_.push_back(operation)
abbrev add : WriteBatch → Operation → WriteBatch
add batch operation = record batch { operations = batch.operations ++ (operation ∷ []) }

unfoldable pub put : WriteBatch → Bytes → Bytes → WriteBatch
put batch key value = add batch (record { type = op_put; key = key; value = value })

unfoldable pub delete_key : WriteBatch → Bytes → WriteBatch
delete_key batch key = add batch (record { type = op_delete; key = key; value = [] })

pub clear : WriteBatch → WriteBatch
clear batch = record batch { operations = [] }

unfoldable pub count : WriteBatch → ℕ
count batch = length batch.operations

abbrev pub u32_max : ℕ
u32_max = 0xffffffff

abbrev pub operation_header_size : ℕ
operation_header_size = 9

-- The loop of ValidateEncoding; `size` is a uint64_t.
unfoldable pub validate_operations : ℕ → List Operation → Status
validate_operations size [] = ok tt
validate_operations size (operation ∷ rest) =
    let size' =
      (size + (operation_header_size + length operation.key + length operation.value)) % 2 ^ 64 in
    let more = validate_operations size' rest in
    if ltb u32_max (length operation.key) || ltb u32_max (length operation.value)
    then err (invalid_argument "WriteBatch key or value is too large")
    else if ltb u32_max size'
    then err (invalid_argument "WriteBatch payload is too large")
    else more

unfoldable pub validate_encoding : WriteBatch → Status
unfolding validate_operations
validate_encoding batch =
    if ltb u32_max (count batch)
    then err (invalid_argument "WriteBatch operation count is too large")
    else validate_operations 0 batch.operations

-- A delete carries no value: what Put, Delete and Clear build, and what Decode accepts.
abbrev pub CarriesNone : Operation → Type 0
CarriesNone o = o.type ≡ op_delete → o.value ≡ []

abbrev pub IsWellFormed : WriteBatch → Type 0
IsWellFormed batch = All CarriesNone batch.operations

put-IsWellFormed :
    (b : WriteBatch) (key value : Bytes) → IsWellFormed b → IsWellFormed (put b key value)
unfolding put
put-IsWellFormed b key value h = All-append CarriesNone b.operations _ h ((λ e. cc), tt)

delete_key-IsWellFormed :
    (b : WriteBatch) (key : Bytes) → IsWellFormed b → IsWellFormed (delete_key b key)
unfolding delete_key
delete_key-IsWellFormed b key h = All-append CarriesNone b.operations _ h ((λ e. refl), tt)
