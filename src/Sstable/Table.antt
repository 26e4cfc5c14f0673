-- ===== src/Sstable/Table.antt =====
-- SSTable of src/sstable.cpp behind Open: LoadIndex, ReadRawBlock, ReadBlock, GetFromBlock, Get,
-- Entries. The descriptor is given by the file's bytes; the counters and the cache, which the const
-- members change, are a record that each call takes and returns.
pub mod Load
pub mod Blocks
pub mod Filtered
pub mod Serve
pub mod Get
pub mod Others
pub mod Created
pub mod Entries
use kv_mem.Prelude.{
  ℕ, zero, suc, ◌+◌, ◌-◌, ◌^◌, Bool, true, false, not, ◌||◌, ◌&&◌, Option, none, some, List, [],
  ◌∷◌, ◌++◌, length, take, drop, ltb, ◌==◌, if◌then◌else◌,
}
use kv_mem.Bytes.{Bytes, bytes_ltb}
use kv_mem.Types.{VersionedEntry}
use kv_mem.Status.{Status, Result, ok, err, corruption, not_found, reject_if, ◌>>=◌, ◌>>◌}
use kv_mem.Format.Fixed.{decode_fixed32, decode_fixed64}
use kv_mem.Format.InternalKey.{encode_internal_key}
use kv_mem.BloomFilter.{BloomFilter, may_contain}
use kv_mem.BloomFilter.Codec.{decode}
use kv_mem.BlockCache.{BlockCache, Key, get, put}
use kv_mem.Sstable.Block.Decode.{decode_block, decode_block_payload, parse_prefix_block_layout}
use kv_mem.Sstable.Lookup.{Match, get_from_layout}
use kv_mem.Sstable.Create.{IndexEntry, sstable_magic, footer_size}

-- std::numeric_limits<off_t>::max()
abbrev pub max_offset : ℕ
max_offset = 2 ^ 63 - 1

-- ReadExactAt on a file of which each read succeeds.
unfoldable pub read_exact_at : Bytes → ℕ → ℕ → Result Bytes
read_exact_at file offset size = do
  reject_if (ltb max_offset offset || (ltb 0 size && ltb (max_offset - offset) (size - 1)))
      (corruption "SSTable read range is too large")
  reject_if (ltb 0 size && ltb (length file) (offset + size)) (corruption "incomplete SSTable read")
  ok (take size (drop offset file))

pub record SsTable : Type 0 where
  pub file_number : ℕ
  pub file : Bytes
  pub index : List IndexEntry
  pub filter : BloomFilter

-- The loop of LoadIndex, with `n` rounds left, and the bytes from the pointer to the end.
unfoldable pub load_items : ℕ → ℕ → Bytes → Result (List IndexEntry)
load_items index_offset zero bytes = do
  reject_if (ltb 0 (length bytes)) (corruption "trailing SSTable index bytes")
  ok []
load_items index_offset (suc n) bytes = do
  reject_if (ltb (length bytes) 4) (corruption "invalid SSTable index key size")
  let key_size = decode_fixed32 bytes
  let rest = drop 4 bytes
  reject_if (ltb (length rest) (key_size + 16)) (corruption "invalid SSTable index entry")
  let after = drop key_size rest
  let block_offset = decode_fixed64 after
  let block_size = decode_fixed64 (drop 8 after)
  reject_if (ltb index_offset block_offset || ltb (index_offset - block_offset) block_size)
      (corruption "invalid SSTable data block range")
  items ← load_items index_offset n (drop 16 after)
  ok (
      record {
        last_internal_key = take key_size rest;
        block_offset = block_offset;
        block_size = block_size;
      }
      ∷ items)

unfoldable pub load_index : ℕ → Bytes → Result SsTable
load_index file_number file = do
  let file_size = length file
  reject_if (ltb file_size footer_size) (corruption "SSTable too small")
  footer ← read_exact_at file (file_size - footer_size) footer_size
  let index_offset = decode_fixed64 footer
  let index_size = decode_fixed64 (drop 8 footer)
  let filter_offset = decode_fixed64 (drop 16 footer)
  let filter_size = decode_fixed64 (drop 24 footer)
  reject_if (not (decode_fixed64 (drop 32 footer) == sstable_magic))
      (corruption "invalid SSTable magic")
  let data_end = file_size - footer_size
  reject_if
      (ltb filter_offset index_offset
        || (not (index_size == filter_offset - index_offset)
            || (ltb data_end filter_offset || not (filter_size == data_end - filter_offset))))
      (corruption "invalid SSTable footer")
  index_block ← read_exact_at file index_offset index_size
  reject_if (ltb (length index_block) 8) (corruption "invalid SSTable index")
  index ← load_items index_offset (decode_fixed64 index_block) (drop 8 index_block)
  filter_block ← read_exact_at file filter_offset filter_size
  filter ← decode filter_block
  ok (record { file_number = file_number; file = file; index = index; filter = filter })

-- What the const members of SSTable change.
pub record Reader : Type 0 where
  pub block_cache : Option BlockCache
  pub bloom_filtered_count : ℕ
  pub block_read_count : ℕ
  pub restart_seek_count : ℕ

abbrev pub block_key : SsTable → IndexEntry → Key
block_key table item = record { file_number = table.file_number; block_offset = item.block_offset }

-- The lookup in the cache, if there is one.
unfoldable pub look_up : Key → Reader → Option BlockCache → Option Bytes × Reader
look_up key reader none = (none, reader)
look_up key reader (some cache) =
    let (block, cache') = get key cache in (block, record reader { block_cache = some cache' })

unfoldable pub cached : Key → Reader → Option Bytes × Reader
cached key reader = look_up key reader reader.block_cache

-- The counter and the cache behind a read from the file.
unfoldable pub remember : Key → Bytes → Reader → Reader
remember key block reader = record reader {
  block_read_count = reader.block_read_count + 1;
  block_cache = elim reader.block_cache [ none ↦ none | some cache ↦ some (put key block cache) ];
}

-- What ReadRawBlock does with what the cache answered.
unfoldable pub read_behind : SsTable → IndexEntry → Option Bytes × Reader → Result Bytes × Reader
read_behind table item (some block, reader) = (ok block, reader)
read_behind table item (none, reader) =
    elim (read_exact_at table.file item.block_offset item.block_size) [
      | err e ↦ (err e, reader)
      | ok block ↦ (ok block, remember (block_key table item) block reader)
    ]

unfoldable pub read_raw_block : SsTable → IndexEntry → Reader → Result Bytes × Reader
read_raw_block table item reader = read_behind table item (cached (block_key table item) reader)

unfoldable pub read_block : SsTable → IndexEntry → Reader → Result (List VersionedEntry) × Reader
read_block table item reader =
    let (block, reader') = read_raw_block table item reader in (block >>= decode_block, reader')

abbrev pub count_seek : Reader → Reader
count_seek reader = record reader { restart_seek_count = reader.restart_seek_count + 1 }

-- SSTable::GetFromBlock behind ReadRawBlock.
unfoldable pub get_behind : Bytes → ℕ → Result Bytes × Reader → Result (Option Match) × Reader
get_behind key read_sequence (err e, reader) = (err e, reader)
get_behind key read_sequence (ok block_data, reader) =
    elim (decode_block_payload block_data >>= parse_prefix_block_layout) [
      | err e ↦ (err e, reader)
      | ok layout ↦ (get_from_layout layout key read_sequence, count_seek reader)
    ]

-- SSTable::GetFromBlock
unfoldable pub get_from_item :
    SsTable → IndexEntry → Bytes → ℕ → Reader → Result (Option Match) × Reader
get_from_item table item key read_sequence reader =
    get_behind key read_sequence (read_raw_block table item reader)

-- std::lower_bound by last_internal_key.
unfoldable pub lower_bound : Bytes → List IndexEntry → Option IndexEntry
lower_bound target [] = none
lower_bound target (item ∷ rest) =
    let later = lower_bound target rest in
    if bytes_ltb item.last_internal_key target then later else some item

-- NotFound unless a version was found.
abbrev pub found_or_not : Option Match → Result Match
found_or_not none = err (not_found "key not found")
found_or_not (some m) = ok m

-- SSTable::Get with an optional value: a deletion is OK without one.
unfoldable pub table_get : SsTable → Bytes → ℕ → Reader → Result Match × Reader
table_get table key read_sequence reader =
    if not (may_contain table.filter key)
    then (
      err (not_found "key not found"),
      record reader { bloom_filtered_count = reader.bloom_filtered_count + 1 },
    )
    else elim (lower_bound (encode_internal_key key read_sequence) table.index) [
      | none ↦ (err (not_found "key not found"), reader)
      | some item ↦
          let answer = get_from_item table item key read_sequence reader in
          (answer.0 >>= found_or_not, answer.1)
    ]

-- What SSTable::Get with a value answers: its status, `found`, and the matched sequence, which the
-- caller sets to 0 before.
pub record TableAnswer : Type 0 where
  pub status : Result Bytes
  pub found : Bool
  pub sequence : ℕ

unfoldable pub value_answer : Result Match → TableAnswer
value_answer (err e) = record { status = err e; found = false; sequence = 0 }
value_answer (ok m) = record {
  status = elim m.value [ none ↦ err (not_found "key deleted") | some value ↦ ok value ];
  found = true;
  sequence = m.matched_sequence;
}

unfoldable pub table_get_value : SsTable → Bytes → ℕ → Reader → TableAnswer × Reader
table_get_value table key read_sequence reader =
    let answer = table_get table key read_sequence reader in (value_answer answer.0, answer.1)

-- The loop of SSTable::Entries.
unfoldable pub read_items :
    SsTable → List IndexEntry → Reader → Result (List VersionedEntry) × Reader
read_items table [] reader = (ok [], reader)
read_items table (item ∷ rest) reader =
    let (block, reader') = read_block table item reader in
    let more = read_items table rest reader' in
    elim block [
      | err e ↦ (err e, reader')
      | ok entries ↦ (more.0 >>= λ later. ok (entries ++ later), more.1)
    ]

unfoldable pub table_entries : SsTable → Reader → Result (List VersionedEntry) × Reader
table_entries table reader = read_items table table.index reader
