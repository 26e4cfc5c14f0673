-- ===== src/Tests/Format.antt =====
-- Tests of src/format.cc, src/storage_util.cc and src/write_batch.cc.
use kv_mem.Prelude.{◌≡◌, refl, none, some, ◌||◌, ◌&&◌, [], ◌∷◌, ◌++◌, length, ltb, ◌≤◌, ◌↔◌, arith}
use kv_mem.Bytes.{Bytes, text, bytes_ltb, bytes_eq}
use kv_mem.Status.{ok, err, corruption}
use kv_mem.Format.Fixed.{encode_fixed32, decode_fixed32, encode_fixed64, decode_fixed64}
use kv_mem.Format.Fixed.RoundTrip.{decode-encode_fixed32, decode-encode_fixed64}
use kv_mem.Format.Crc.{crc32}
use kv_mem.Format.InternalKey.{encode_internal_key, decode_internal_key, inverted_bytes}
use kv_mem.Format.InternalKey.Laws.{decode-encode_internal_key, bytes_ltb-encode_internal_key}
use kv_mem.Format.Decimal.{all_digits, parse_digits, decimal}
use kv_mem.Format.FileName.{
  sstable_file_name, wal_file_name, parse_sstable_file_name, parse_wal_file_name,
  parse_numbered_name, numbered_name,
}
use kv_mem.Format.FileName.RoundTrip.{parse-file_name}
use kv_mem.WriteBatch.{
  WriteBatch, IsWellFormed, count, op_put, op_delete, empty, put, delete_key, validate_encoding,
  u32_max,
}
use kv_mem.WriteBatch.Codec.{encode, decode, encode_operations, encode_operation}
use kv_mem.WriteBatch.Size.{validate_encoding_iff}
use kv_mem.WriteBatch.RoundTrip.{decode-encode}
use kv_mem.WriteBatch.Canonical.{encode-decode}

-- The check value of CRC-32.
crc32_check_value : crc32 (text "123456789") ≡ 0xcbf43926
unfolding crc32
crc32_check_value = refl

fixed32_bytes : encode_fixed32 0x01020304 ≡ 4 ∷ 3 ∷ 2 ∷ 1 ∷ []
unfolding encode_fixed32
fixed32_bytes = refl

decode-encode_fixed32_example : decode_fixed32 (encode_fixed32 0xdeadbeef ++ (7 ∷ [])) ≡ 0xdeadbeef
decode-encode_fixed32_example = decode-encode_fixed32 0xdeadbeef (7 ∷ []) (omega arith)

decode-encode_fixed64_example :
    decode_fixed64 (encode_fixed64 0xdeadbeefcafe ++ []) ≡ 0xdeadbeefcafe
decode-encode_fixed64_example = decode-encode_fixed64 0xdeadbeefcafe [] (omega arith)

internal_key_bytes :
    encode_internal_key (text "a") 1 ≡ 97 ∷ 0 ∷ 255 ∷ 255 ∷ 255 ∷ 255 ∷ 255 ∷ 255 ∷ 255 ∷ 254 ∷ []
unfolding encode_internal_key inverted_bytes
internal_key_bytes = refl

decode-encode_internal_key_example :
    decode_internal_key (encode_internal_key (text "a") 7) ≡ some (text "a", 7)
decode-encode_internal_key_example = decode-encode_internal_key (text "a") 7 (omega arith)

bytes_ltb-encode_internal_key_example :
    bytes_ltb (encode_internal_key (text "a") 7) (encode_internal_key (text "a") 3)
    ≡ (bytes_ltb (text "a") (text "a") || (bytes_eq (text "a") (text "a") && ltb 3 7))
bytes_ltb-encode_internal_key_example =
    bytes_ltb-encode_internal_key (text "a") (text "a") 7 3 (omega arith) (omega arith)
      (omega arith) (omega arith)

file_names :
    (wal_file_name 42 ≡ text "wal_000042.log")
    × (parse_wal_file_name (text "wal_000000.log") ≡ none)
    × (parse_sstable_file_name (text "sst_00012.data") ≡ none)
unfolding wal_file_name parse_wal_file_name parse_sstable_file_name parse_numbered_name
    numbered_name decimal bytes_eq all_digits parse_digits
file_names = (refl, refl, refl)

parse-file_name_example :
    (parse_sstable_file_name (sstable_file_name 12) ≡ some 12)
    × (parse_wal_file_name (wal_file_name 12) ≡ some 12)
parse-file_name_example = parse-file_name 12 (omega arith) (omega arith)

-- Put "k" = "v", then Delete "old".
abbrev pub two_operations : WriteBatch
two_operations = record {
  operations =
      record { type = op_put; key = text "k"; value = text "v" }
      ∷ record { type = op_delete; key = text "old"; value = [] }
      ∷ [];
}

two_operations_built : delete_key (put empty (text "k") (text "v")) (text "old") ≡ two_operations
unfolding put delete_key
two_operations_built = refl

-- The bytes of the two operations: type, sizes, key and value.
abbrev two_encoded : Bytes
two_encoded =
    1 ∷ 1 ∷ 0 ∷ 0 ∷ 0 ∷ 1 ∷ 0 ∷ 0 ∷ 0 ∷ 107 ∷ 118 ∷ 2 ∷ 3 ∷ 0 ∷ 0 ∷ 0 ∷ 0 ∷ 0 ∷ 0 ∷ 0 ∷ 111 ∷ 108
    ∷ 100 ∷ []

encode_two : encode two_operations ≡ two_encoded
unfolding encode encode_operations encode_operation encode_fixed32
encode_two = refl

decode_two : decode two_encoded ≡ ok two_operations
unfolding decode decode_fixed32
decode_two = refl

decode_bad_type :
    decode (3 ∷ 0 ∷ 0 ∷ 0 ∷ 0 ∷ 0 ∷ 0 ∷ 0 ∷ 0 ∷ [])
    ≡ err (corruption "unknown WriteBatch operation type")
unfolding decode decode_fixed32
decode_bad_type = refl

pub two_operations_valid : validate_encoding two_operations ≡ ok tt
unfolding validate_encoding count
two_operations_valid = refl

validate_encoding_iff_example :
    (validate_encoding two_operations ≡ ok tt) ↔ (length (encode two_operations) ≤ u32_max)
validate_encoding_iff_example = validate_encoding_iff two_operations

decode-encode_example : decode (encode two_operations) ≡ ok two_operations
decode-encode_example =
    decode-encode two_operations two_operations_valid ((λ e. cc), ((λ e. refl), tt))

encode-decode_example : (encode two_operations ≡ two_encoded) × IsWellFormed two_operations
encode-decode_example = encode-decode two_encoded two_operations (omega arith) decode_two
