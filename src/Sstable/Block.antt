-- ===== src/Sstable/Block.antt =====
-- EncodeBlock of src/sstable.cpp: a block of entries whose keys share prefixes, with restart points.
pub mod Decode
pub mod Record
pub mod Layout
pub mod RoundTrip
use kv_mem.Prelude.{
  ℕ, suc, ◌+◌, ◌%◌, ◌^◌, Bool, List, [], ◌∷◌, ◌++◌, length, drop, ◌==◌, if◌then◌else◌,
}
use kv_mem.Bytes.{Bytes}
use kv_mem.Types.{VersionedEntry}
use kv_mem.Format.Crc.{crc32}
use kv_mem.Format.Fixed.{encode_fixed32, encode_fixed64}

-- BLK4
abbrev pub data_block_magic : ℕ
data_block_magic = 0x344b4c42

abbrev pub restart_interval : ℕ
restart_interval = 16

abbrev pub block_trailer_size : ℕ
block_trailer_size = 5

abbrev pub no_compression : ℕ
no_compression = 0

-- SSTable::ValueType
abbrev pub value_type : Bool → ℕ
value_type deleted = if deleted then 2 else 1

-- while (shared < limit && previous_key[shared] == entry.key[shared]) ++shared;
unfoldable pub shared_prefix : Bytes → Bytes → ℕ
shared_prefix (x ∷ xs) (y ∷ ys) = let more = shared_prefix xs ys in if x == y then suc more else 0
shared_prefix _ _ = 0

-- What one round of the loop appends: the header, the rest of the key and the value.
unfoldable pub encode_record : ℕ → VersionedEntry → Bytes
encode_record shared entry =
    let unshared = drop shared entry.key in
    encode_fixed32 (shared % 2 ^ 32)
    ++ (encode_fixed32 (length unshared % 2 ^ 32)
        ++ (encode_fixed32 (length entry.value % 2 ^ 32)
            ++ (value_type entry.deleted
                ∷ (encode_fixed64 entry.sequence ++ (unshared ++ entry.value)))))

-- The prefix that the record at distance `i` from the first leaves out.
unfoldable pub shared_size : ℕ → Bytes → VersionedEntry → ℕ
shared_size i previous_key entry =
    if i % restart_interval == 0 then 0 else shared_prefix previous_key entry.key

-- What the loop appends to the payload from the entry at distance `i` on.
unfoldable pub encode_records : ℕ → Bytes → List VersionedEntry → Bytes
encode_records i previous_key [] = []
encode_records i previous_key (entry ∷ rest) =
    encode_record (shared_size i previous_key entry) entry ++ encode_records (i + 1) entry.key rest

-- The restart offsets that the loop collects, the payload being `size` bytes long before.
unfoldable pub restart_offsets : ℕ → Bytes → ℕ → List VersionedEntry → List ℕ
restart_offsets i previous_key size [] = []
restart_offsets i previous_key size (entry ∷ rest) =
    let record_size = length (encode_record (shared_size i previous_key entry) entry) in
    let more = restart_offsets (i + 1) entry.key (size + record_size) rest in
    if i % restart_interval == 0 then size % 2 ^ 32 ∷ more else more

-- for (const auto offset : restart_offsets)
unfoldable pub encode_offsets : List ℕ → Bytes
encode_offsets [] = []
encode_offsets (offset ∷ rest) = encode_fixed32 offset ++ encode_offsets rest

-- The payload, without the trailer.
unfoldable pub encode_payload : List VersionedEntry → Bytes
encode_payload entries =
    let offsets = restart_offsets 0 [] 16 entries in
    encode_fixed32 data_block_magic
    ++ (encode_fixed32 restart_interval
        ++ (encode_fixed64 (length entries)
            ++ (encode_records 0 [] entries
                ++ (encode_offsets offsets ++ encode_fixed32 (length offsets % 2 ^ 32)))))

unfoldable pub encode_block : List VersionedEntry → Bytes
encode_block entries =
    let checksummed = encode_payload entries ++ (no_compression ∷ []) in
    checksummed ++ encode_fixed32 (crc32 checksummed)
