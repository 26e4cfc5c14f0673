-- ===== src/Sstable/Create.antt =====
-- SSTable::CreateFromEntries of src/sstable.cpp: the bytes that it writes. The file system's part,
-- the temporary file, its flush and the rename, is left out.
pub mod Split
use kv_mem.Prelude.{
  ℕ, zero, suc, ◌+◌, ◌-◌, ◌/◌, ◌%◌, ◌^◌, Bool, true, false, ◌||◌, List, [], ◌∷◌, ◌++◌, length, ltb,
  ◌==◌, if◌then◌else◌,
}
use kv_mem.Bytes.{Bytes, bytes_ltb, bytes_eq}
use kv_mem.Types.{VersionedEntry}
use kv_mem.Status.{Result, ok, invalid_argument, reject_if, ◌>>=◌, ◌>>◌}
use kv_mem.Format.Fixed.{encode_fixed32, encode_fixed64}
use kv_mem.Format.InternalKey.{encode_internal_key}
use kv_mem.BloomFilter.{build}
use kv_mem.BloomFilter.Codec.{encode}
use kv_mem.Sstable.Block.{encode_block}

-- KVSTBLK3
abbrev pub sstable_magic : ℕ
sstable_magic = 0x4b565354424c4b33

abbrev pub footer_size : ℕ
footer_size = 40

abbrev pub record_header_size : ℕ
record_header_size = 17

pub record IndexEntry : Type 0 where
  pub last_internal_key : Bytes
  pub block_offset : ℕ
  pub block_size : ℕ

-- unique_keys.insert(key); the set is its keys in order.
unfoldable pub insert_key : Bytes → List Bytes → List Bytes
insert_key key [] = key ∷ []
insert_key key (k ∷ rest) =
    let more = insert_key key rest in
    if bytes_ltb key k then key ∷ k ∷ rest else if bytes_ltb k key then k ∷ more else k ∷ rest

-- for (const auto& entry : entries)
unfoldable pub insert_keys : List VersionedEntry → List Bytes → List Bytes
insert_keys [] keys = keys
insert_keys (entry ∷ rest) keys = insert_keys rest (insert_key entry.key keys)

-- The second inner loop, at the last entry of the block so far: the block, and the entries behind it.
unfoldable pub take_versions :
    VersionedEntry → List VersionedEntry → List VersionedEntry × List VersionedEntry
take_versions entry [] = (entry ∷ [], [])
take_versions entry (next ∷ rest) =
    let more = take_versions next rest in
    if bytes_eq next.key entry.key then (entry ∷ more.0, more.1) else (entry ∷ [], next ∷ rest)

-- The first inner loop, at an entry that the block takes.
unfoldable pub take_block :
    ℕ → ℕ → VersionedEntry → List VersionedEntry → List VersionedEntry × List VersionedEntry
take_block block_size approx_size entry [] = (entry ∷ [], [])
take_block block_size approx_size entry (next ∷ rest) =
    let approx_size' = approx_size + (record_header_size + length entry.key + length entry.value) in
    let more = take_block block_size approx_size' next rest in
    if ltb approx_size' block_size
    then (entry ∷ more.0, more.1)
    else take_versions entry (next ∷ rest)

-- while (begin < entries.size()); a round takes an entry at least.
unfoldable pub split_blocks : ℕ → ℕ → List VersionedEntry → List (List VersionedEntry)
split_blocks zero block_size entries = []
split_blocks (suc n) block_size [] = []
split_blocks (suc n) block_size (entry ∷ rest) =
    let taken = take_block block_size 8 entry rest in taken.0 ∷ split_blocks n block_size taken.1

-- EncodeInternalKey(entries[end - 1].key, entries[end - 1].sequence)
unfoldable pub last_key : List VersionedEntry → Bytes
last_key [] = []
last_key (entry ∷ []) = encode_internal_key entry.key entry.sequence
last_key (entry ∷ next ∷ rest) = last_key (next ∷ rest)

-- The blocks in the file, from an offset on.
unfoldable pub write_blocks : List (List VersionedEntry) → Bytes
write_blocks [] = []
write_blocks (block ∷ rest) = encode_block block ++ write_blocks rest

-- The index entries of the blocks, the first of which begins at an offset.
unfoldable pub index_of : ℕ → List (List VersionedEntry) → List IndexEntry
index_of offset [] = []
index_of offset (block ∷ rest) =
    let block_size = length (encode_block block) in
    record { last_internal_key = last_key block; block_offset = offset; block_size = block_size }
    ∷ index_of (offset + block_size) rest

-- for (const auto& item : index)
unfoldable pub encode_items : List IndexEntry → Bytes
encode_items [] = []
encode_items (item ∷ rest) =
    encode_fixed32 (length item.last_internal_key % 2 ^ 32)
    ++ (item.last_internal_key
        ++ (encode_fixed64 item.block_offset
            ++ (encode_fixed64 item.block_size ++ encode_items rest)))

unfoldable pub encode_index : List IndexEntry → Bytes
encode_index index = encode_fixed64 (length index) ++ encode_items index

unfoldable pub encode_footer : ℕ → ℕ → ℕ → ℕ → Bytes
encode_footer index_offset index_size filter_offset filter_size =
    encode_fixed64 index_offset
    ++ (encode_fixed64 index_size
        ++ (encode_fixed64 filter_offset
            ++ (encode_fixed64 filter_size ++ encode_fixed64 sstable_magic)))

-- The file, from its blocks and the keys of the filter.
unfoldable pub encode_table : List (List VersionedEntry) → List Bytes → ℕ → Bytes
encode_table blocks keys bloom_bits_per_key =
    let records = write_blocks blocks in
    let index_block = encode_index (index_of 0 blocks) in
    let filter_block = encode (build keys bloom_bits_per_key) in
    let footer =
      encode_footer (length records) (length index_block) (length records + length index_block)
        (length filter_block) in
    records ++ (index_block ++ (filter_block ++ footer))

unfoldable pub create_from_entries : List VersionedEntry → ℕ → ℕ → Result Bytes
create_from_entries entries block_size bloom_bits_per_key = do
  let keys = insert_keys entries []
  reject_if
      (bloom_bits_per_key == 0
        || (ltb 64 bloom_bits_per_key || ltb ((2 ^ 32 - 1 - 7) / bloom_bits_per_key) (length keys)))
      (invalid_argument "Bloom filter exceeds supported size or bits-per-key range")
  ok (encode_table (split_blocks (length entries) block_size entries) keys bloom_bits_per_key)
