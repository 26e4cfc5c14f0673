-- ===== src/Sstable/Table/Created.antt =====
-- A file that SSTable::CreateFromEntries of src/sstable.cpp wrote, opened and read.
use native.Mathlib.Nat.{le-div_iff_mul-le}
use kv_mem.Prelude.{
  ℕ, ◌+◌, ◌-◌, ◌*◌, ◌/◌, ◌^◌, ◌<◌, ◌≤◌, ◌≡◌, ap, sym, ◌∙◌, max, Bool, false, ◌||◌, Bool-cases, inl,
  inr, some, List, [], ◌∷◌, ◌++◌, length, length-append, ltb, ◌==◌, All, arith,
}
use kv_mem.Bytes.{Bytes, IsU32, IsU64}
use kv_mem.Types.{VersionedEntry}
use kv_mem.Status.{ok, ◌>>=◌}
use kv_mem.Format.Fixed.{encode_fixed32}
use kv_mem.Format.InternalKey.{HasNoNul}
use kv_mem.BloomFilter.{build}
use kv_mem.BlockCache.{new_block_cache, node_block}
use kv_mem.BlockCache.Runs.{new-Caches}
use kv_mem.Sstable.Block.{encode_block, encode_payload}
use kv_mem.Sstable.Block.RoundTrip.{IsBlock}
use kv_mem.Sstable.Lookup.Sorted.{IsSorted, IsPlain, find_visible}
use kv_mem.Sstable.Create.{
  insert_keys, split_blocks, last_key, index_of, encode_table, create_from_entries,
}
use kv_mem.Sstable.Create.Split.{concat-split_blocks}
use kv_mem.Sstable.Table.{SsTable, Reader, load_index, found_or_not, table_get}
use kv_mem.Sstable.Table.Load.{load_index-encode_table}
use kv_mem.Sstable.Table.Blocks.{index_of-Indexed}
use kv_mem.Sstable.Table.Filtered.{filter-passes}
use kv_mem.Sstable.Table.Serve.{Ascending, AnyServes}
use kv_mem.Sstable.Table.Get.{IsTable, table_get-find_visible}

length-encode_block : (block : List VersionedEntry) → 0 < length (encode_block block)
unfolding encode_block
length-encode_block block = omega (
  arith,
  length-append (encode_payload block ++ (0 ∷ [])) (encode_fixed32 _),
  length-append (encode_payload block) (0 ∷ []),
)

-- The blocks from an offset on begin at it or later.
index_of-from :
    (from offset : ℕ) (blocks : List (List VersionedEntry))
    → from < offset
    → All (λ item. from < item.block_offset) (index_of offset blocks)
unfolding index_of
index_of-from from offset [] later = tt
index_of-from from offset (block ∷ rest) later =
    (later, index_of-from from (offset + length (encode_block block)) rest (omega arith))

index_of-Ascending :
    (offset : ℕ) (blocks : List (List VersionedEntry)) → Ascending (index_of offset blocks)
unfolding Ascending index_of
index_of-Ascending offset [] = tt
index_of-Ascending offset (block ∷ rest) =
    let some_bytes = length-encode_block block in
    (
      index_of-from offset (offset + length (encode_block block)) rest (omega arith),
      index_of-Ascending (offset + length (encode_block block)) rest,
    )

-- What the limits of CreateFromEntries say of the filter's size.
filter_limit :
    (n bits : ℕ)
    → (bits == 0 || (ltb 64 bits || ltb ((2 ^ 32 - 1 - 7) / bits) n)) ≡ false
    → n * max 1 bits + 7 < 2 ^ 32
filter_limit n bits h =
    let some_bits : 0 < bits = ground arith in
    let few : n ≤ (2 ^ 32 - 1 - 7) / bits = ground arith in
    let product = (le-div_iff_mul-le {k = bits} {x = n} {y = 2 ^ 32 - 1 - 7} some_bits).0 few in
    let one : max 1 bits ≡ bits = omega arith in rw one (omega arith)

-- The entries fit the file: each block, its last key, and the whole.
pub record FitsFile (entries : List VersionedEntry) (block_size bloom_bits_per_key : ℕ)
    : Type 0 where
  pub blocks : All IsBlock (split_blocks (length entries) block_size entries)
  pub last_keys :
      All
        (λ block. IsU32 (length (last_key block)))
        (split_blocks (length entries) block_size entries)
  pub file :
      length (
        encode_table
          (split_blocks (length entries) block_size entries)
          (insert_keys entries [])
          bloom_bits_per_key)
      < 2 ^ 63

module _ (entries : List VersionedEntry) (block_size bloom_bits_per_key : ℕ) (file : Bytes)
    (fits : FitsFile entries block_size bloom_bits_per_key)
    (created : create_from_entries entries block_size bloom_bits_per_key ≡ ok file) where
  abbrev blocks : List (List VersionedEntry)
  blocks = split_blocks (length entries) block_size entries

  abbrev refused : Bool
  refused =
      bloom_bits_per_key == 0
      || (ltb 64 bloom_bits_per_key
          || ltb ((2 ^ 32 - 1 - 7) / bloom_bits_per_key) (length (insert_keys entries [])))

  accepted : refused ≡ false
  unfolding create_from_entries
  accepted = elim (Bool-cases refused) [
    | inr passed ↦ passed
    | inl over ↦ absurd (let h = simp over at created in cc)
  ]

  limits : length (insert_keys entries []) * max 1 bloom_bits_per_key + 7 < 2 ^ 32
  limits = filter_limit (length (insert_keys entries [])) bloom_bits_per_key accepted

  file_is : encode_table blocks (insert_keys entries []) bloom_bits_per_key ≡ file
  unfolding create_from_entries
  file_is = let h = simp accepted at created in cc

  unfoldable pub loaded : ℕ → SsTable
  loaded file_number = record {
    file_number = file_number;
    file = encode_table blocks (insert_keys entries []) bloom_bits_per_key;
    index = index_of 0 blocks;
    filter = build (insert_keys entries []) bloom_bits_per_key;
  }

  pub load_index-created : (file_number : ℕ) → load_index file_number file ≡ ok (loaded file_number)
  unfolding loaded
  load_index-created file_number =
      ap (load_index file_number) (sym file_is)
      ∙ load_index-encode_table blocks (insert_keys entries []) bloom_bits_per_key file_number
          (record { file = fits.file; filter = limits; last_keys = fits.last_keys })

  pub loaded-IsTable : (file_number : ℕ) → IsTable (loaded file_number) entries
  unfolding loaded encode_table
  loaded-IsTable file_number = record {
    blocks = blocks;
    whole = concat-split_blocks (length entries) block_size entries (omega arith);
    indexed = index_of-Indexed blocks [] _ fits.file;
    fits = fits.blocks;
    ascending = index_of-Ascending 0 blocks;
    passes = filter-passes entries bloom_bits_per_key limits;
  }

abbrev pub new_reader : ℕ → Reader
new_reader capacity = record {
  block_cache = some (new_block_cache capacity);
  bloom_filtered_count = 0;
  block_read_count = 0;
  restart_seek_count = 0;
}

pub new_reader-serves :
    (table : SsTable) (capacity : ℕ) → AnyServes table ((new_reader capacity).block_cache)
unfolding AnyServes node_block
new_reader-serves table capacity = record {
  is_cache = (new-Caches capacity).is_cache;
  same = λ item block m h. absurd cc;
}

-- A file that CreateFromEntries wrote for sorted entries that fit it can be opened, and a lookup in
-- it, through a new cache of whatever capacity, answers the first visible version of the key among
-- the entries, or NotFound. The keys hold no NUL.
pub get-created :
    (entries : List VersionedEntry) (block_size bloom_bits_per_key : ℕ) (file : Bytes)
    (file_number capacity : ℕ) (key : Bytes) (read_sequence : ℕ)
    → FitsFile entries block_size bloom_bits_per_key
    → create_from_entries entries block_size bloom_bits_per_key ≡ ok file
    → All IsPlain entries
    → IsSorted entries
    → HasNoNul key
    → IsU64 read_sequence
    → (load_index file_number file >>= λ table.
        (table_get table key read_sequence (new_reader capacity)).0)
      ≡ found_or_not (find_visible key read_sequence entries)
get-created entries block_size bloom_bits_per_key file file_number capacity key read_sequence fits
      created plain sorted clean small =
    let table = loaded entries block_size bloom_bits_per_key file fits created file_number in
    ap (λ r. r >>= λ t. (table_get t key read_sequence (new_reader capacity)).0)
      (load_index-created entries block_size bloom_bits_per_key file fits created file_number)
    ∙ (table_get-find_visible table entries key read_sequence (new_reader capacity)
        (loaded-IsTable entries block_size bloom_bits_per_key file fits created file_number) plain
        sorted clean small (new_reader-serves table capacity)).0
