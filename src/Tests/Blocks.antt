-- ===== src/Tests/Blocks.antt =====
-- Tests of src/sstable.cpp and src/block_cache.cc.
use kv_mem.Prelude.{
  ◌^◌, ◌<◌, ◌≤◌, ◌≡◌, ◌⊎◌, refl, true, false, none, some, List, [], ◌∷◌, map, length, All, arith,
}
use kv_mem.Bytes.{Bytes, text, bytes_ltb, bytes_eq}
use kv_mem.Types.{VersionedEntry}
use kv_mem.Status.{ok, ◌>>=◌}
use kv_mem.Format.Fixed.{encode_fixed32, encode_fixed64}
use kv_mem.Format.InternalKey.{encode_internal_key, inverted_bytes}
use kv_mem.BloomFilter.{hash, bit_index, build, bit_mask, set_bit, add_keys, add_hashes}
use kv_mem.BloomFilter.Codec.{encode}
use kv_mem.BlockCache.{
  Key, new_block_cache, same_key, is_indexed, erase, get, back_key, pop_back, evict, put,
}
use kv_mem.BlockCache.Forgets.{get-put}
use kv_mem.BlockCache.Runs.{
  Call, put_call, after_call, after_calls, last_put, after_calls-last_put, new-Caches,
}
use kv_mem.Sstable.Block.{
  encode_record, encode_records, shared_size, shared_prefix, restart_offsets, encode_offsets,
  encode_payload, encode_block,
}
use kv_mem.Sstable.Block.Decode.{decode_block}
use kv_mem.Sstable.Block.Record.{stored}
use kv_mem.Sstable.Block.RoundTrip.{IsBlock, decode_block-encode_block}
use kv_mem.Sstable.Lookup.{get_from_block}
use kv_mem.Sstable.Lookup.Sorted.{IsSorted, IsPlain, find_visible}
use kv_mem.Sstable.Lookup.Correct.{get_from_block-find_visible}
use kv_mem.Sstable.Create.{
  insert_key, insert_keys, take_versions, take_block, split_blocks, last_key, write_blocks,
  index_of, encode_items, encode_index, encode_footer, encode_table, create_from_entries,
}
use kv_mem.Sstable.Create.Split.{concat, concat-split_blocks}
use kv_mem.Sstable.Table.{SsTable, load_index, table_get, table_entries}
use kv_mem.Sstable.Table.Load.{load_index-encode_table}
use kv_mem.Sstable.Table.Serve.{AnyServes}
use kv_mem.Sstable.Table.Get.{table_get-find_visible}
use kv_mem.Sstable.Table.Entries.{table_entries-IsTable}
use kv_mem.Sstable.Table.Created.{
  FitsFile, new_reader, new_reader-serves, loaded, loaded-IsTable, get-created,
}

abbrev pub a2 : VersionedEntry
a2 = record { key = text "a"; sequence = 2; value = text "x"; deleted = false }

abbrev pub b5 : VersionedEntry
b5 = record { key = text "b"; sequence = 5; value = []; deleted = true }

abbrev pub b3 : VersionedEntry
b3 = record { key = text "b"; sequence = 3; value = text "yy"; deleted = false }

abbrev pub three : List VersionedEntry
three = a2 ∷ b5 ∷ b3 ∷ []

three-IsBlock : IsBlock (three)
unfolding encode_payload encode_records encode_record restart_offsets encode_offsets shared_size
    shared_prefix encode_fixed32 encode_fixed64
three-IsBlock = record {
  filled = omega arith;
  fits = (
    record { key = omega arith; value = omega arith; sequence = omega arith },
    (
      record { key = omega arith; value = omega arith; sequence = omega arith },
      (record { key = omega arith; value = omega arith; sequence = omega arith }, tt),
    ),
  );
  small = omega arith;
}

first-IsBlock : IsBlock (a2 ∷ [])
unfolding encode_payload encode_records encode_record restart_offsets encode_offsets shared_size
    shared_prefix encode_fixed32 encode_fixed64
first-IsBlock = record {
  filled = omega arith;
  fits = (record { key = omega arith; value = omega arith; sequence = omega arith }, tt);
  small = omega arith;
}

second-IsBlock : IsBlock (b5 ∷ b3 ∷ [])
unfolding encode_payload encode_records encode_record restart_offsets encode_offsets shared_size
    shared_prefix encode_fixed32 encode_fixed64
second-IsBlock = record {
  filled = omega arith;
  fits = (
    record { key = omega arith; value = omega arith; sequence = omega arith },
    (record { key = omega arith; value = omega arith; sequence = omega arith }, tt),
  );
  small = omega arith;
}

pub three-IsPlain : All IsPlain three
three-IsPlain = (
  ((omega arith, tt), omega arith),
  (((omega arith, tt), omega arith), (((omega arith, tt), omega arith), tt)),
)

pub three-IsSorted : IsSorted three
unfolding IsSorted encode_internal_key inverted_bytes bytes_ltb
three-IsSorted = ((refl, (refl, tt)), ((refl, tt), (tt, tt)))

two_blocks : split_blocks 3 1 three ≡ (a2 ∷ []) ∷ (b5 ∷ b3 ∷ []) ∷ []
unfolding split_blocks take_block take_versions bytes_eq
two_blocks = refl

decode_block-encode_block_example : decode_block (encode_block three) ≡ ok (map stored three)
decode_block-encode_block_example = decode_block-encode_block three three-IsBlock

get_from_block-find_visible_example :
    get_from_block (encode_block three) (text "b") 4
    ≡ ok (some (record { matched_sequence = 3; value = some (text "yy") }))
unfolding find_visible bytes_eq
get_from_block-find_visible_example =
    get_from_block-find_visible three (text "b") 4 three-IsBlock three-IsPlain three-IsSorted
      (omega arith, tt) (omega arith)

-- The file of the three entries in two blocks.
abbrev pub file : Bytes
file = encode_table (split_blocks 3 1 three) (insert_keys three []) 10

pub three_created : create_from_entries three 1 10 ≡ ok file
unfolding create_from_entries insert_keys insert_key bytes_ltb
three_created = refl

three_short : length file < 2 ^ 63
unfolding encode_payload encode_records encode_record restart_offsets encode_offsets shared_size
    shared_prefix encode_fixed32 encode_fixed64 encode_table write_blocks encode_block encode_index
    encode_items index_of split_blocks take_block take_versions bytes_eq last_key
    encode_internal_key inverted_bytes encode_footer insert_keys insert_key bytes_ltb encode build
    add_keys add_hashes set_bit bit_index bit_mask hash
three_short = omega arith

pub three-FitsFile : FitsFile three 1 10
unfolding split_blocks take_block take_versions bytes_eq last_key encode_internal_key inverted_bytes
three-FitsFile = record {
  blocks = (first-IsBlock, (second-IsBlock, tt));
  last_keys = (omega arith, (omega arith, tt));
  file = three_short;
}

load_index-encode_table_example :
    load_index 7 file
    ≡ ok (record {
      file_number = 7;
      file = file;
      index = index_of 0 (split_blocks 3 1 three);
      filter = build (insert_keys three []) 10;
    })
unfolding split_blocks take_block take_versions bytes_eq last_key encode_internal_key inverted_bytes
    insert_keys insert_key bytes_ltb
load_index-encode_table_example =
    load_index-encode_table (split_blocks 3 1 three) (insert_keys three []) 10 7 (record {
      file = three_short;
      filter = omega arith;
      last_keys = (omega arith, (omega arith, tt));
    })

get-created_example :
    (load_index 7 file >>= λ table. (table_get table (text "b") 4 (new_reader 2)).0)
    ≡ ok (record { matched_sequence = 3; value = some (text "yy") })
unfolding find_visible bytes_eq
get-created_example =
    get-created three 1 10 file 7 2 (text "b") 4 three-FitsFile three_created three-IsPlain
      three-IsSorted (omega arith, tt) (omega arith)

abbrev pub table : SsTable
table = loaded three 1 10 file three-FitsFile three_created 7

table_get-find_visible_example :
    ((table_get table (text "b") 9 (new_reader 2)).0
      ≡ ok (record { matched_sequence = 5; value = none }))
    × AnyServes table ((table_get table (text "b") 9 (new_reader 2)).1.block_cache)
unfolding find_visible bytes_eq
table_get-find_visible_example =
    table_get-find_visible table three (text "b") 9 (new_reader 2)
      (loaded-IsTable three 1 10 file three-FitsFile three_created 7) three-IsPlain three-IsSorted
      (omega arith, tt) (omega arith) (new_reader-serves table 2)

table_entries-IsTable_example :
    ((table_entries table (new_reader 2)).0 ≡ ok (map stored three))
    × AnyServes table ((table_entries table (new_reader 2)).1.block_cache)
table_entries-IsTable_example =
    table_entries-IsTable table three (new_reader 2)
      (loaded-IsTable three 1 10 file three-FitsFile three_created 7) (new_reader-serves table 2)

concat-split_blocks_example : concat (split_blocks 3 1 three) ≡ three
concat-split_blocks_example = concat-split_blocks 3 1 three (omega arith)

abbrev first_key : Key
first_key = record { file_number = 7; block_offset = 0 }

abbrev second_key : Key
second_key = record { file_number = 7; block_offset = 40 }

-- The second block takes the only place.
abbrev two_puts : List Call
two_puts = put_call first_key (text "p") ∷ put_call second_key (text "q") ∷ []

first_evicted : (get first_key (after_calls two_puts (new_block_cache 1))).0 ≡ none
unfolding after_calls after_call put evict pop_back back_key erase is_indexed same_key get
first_evicted = refl

after_calls-last_put_example :
    (((get second_key (after_calls two_puts (new_block_cache 1))).0 ≡ none)
      ⊎ ((get second_key (after_calls two_puts (new_block_cache 1))).0 ≡ some (text "q")))
    × (length (after_calls two_puts (new_block_cache 1)).entries
        ≤ (after_calls two_puts (new_block_cache 1)).capacity)
unfolding last_put same_key
after_calls-last_put_example = after_calls-last_put 1 two_puts second_key

get-put_example : (get first_key (put first_key (text "p") (new_block_cache 1))).0 ≡ some (text "p")
get-put_example =
    get-put first_key (text "p") (new_block_cache 1) (new-Caches 1).is_cache (omega arith)
