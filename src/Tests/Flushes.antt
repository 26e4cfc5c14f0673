-- ===== src/Tests/Flushes.antt =====
-- Tests of the flush of a memtable in src/db.cc.
use kv_mem.Prelude.{◌^◌, ◌<◌, ◌≡◌, refl, false, none, some, List, [], ◌∷◌, length, arith}
use kv_mem.Bytes.{text, bytes_ltb, bytes_eq}
use kv_mem.Types.{VersionedEntry}
use kv_mem.Status.{ok}
use kv_mem.Format.Fixed.{encode_fixed32, encode_fixed64}
use kv_mem.Format.InternalKey.{encode_internal_key, inverted_bytes}
use kv_mem.BloomFilter.{hash, bit_index, build, bit_mask, set_bit, add_keys, add_hashes}
use kv_mem.BloomFilter.Codec.{encode}
use kv_mem.BlockCache.{new_block_cache, node_block}
use kv_mem.BlockCache.Runs.{new-Caches}
use kv_mem.Sstable.Block.{
  encode_record, encode_records, shared_size, shared_prefix, restart_offsets, encode_offsets,
  encode_payload, encode_block,
}
use kv_mem.Sstable.Block.RoundTrip.{IsBlock}
use kv_mem.Sstable.Lookup.Sorted.{IsSorted}
use kv_mem.Sstable.Create.{
  insert_key, insert_keys, take_versions, take_block, split_blocks, last_key, write_blocks,
  index_of, encode_items, encode_index, encode_footer, encode_table,
}
use kv_mem.Sstable.Create.Split.{concat}
use kv_mem.Sstable.Table.Created.{FitsFile, new_reader, new_reader-serves, loaded, loaded-IsTable}
use kv_mem.Db.Store.{validate_key, contains_invalid_key_byte}
use kv_mem.Db.Snapshots.{Readers, validate_read_options, read_sequence}
use kv_mem.Db.Get.{get}
use kv_mem.Db.Get.Tables.{HoldAll}
use kv_mem.Db.Get.Layers.{IsLayered}
use kv_mem.Db.Flush.{Flushing, flush_immutable_mem_table, publish_flush, version_of}
use kv_mem.Db.Flush.Keeps.{IsFresh, IsFlushable, get-publish_flush}
use kv_mem.Tests.Blocks.{
  table, three, file, three-FitsFile, three_created, three-IsPlain, three-IsSorted,
}
use kv_mem.Tests.Reads.{list_get, list-MemTableReads}

abbrev b8 : VersionedEntry
b8 = record { key = text "b"; sequence = 8; value = text "z"; deleted = false }

abbrev one : List VersionedEntry
one = b8 ∷ []

abbrev readers : Readers
readers = record { closed = false; last_sequence = 9; snapshots = [] }

abbrev db : Flushing (List VersionedEntry)
db = record {
  background_status = ok tt;
  active_memtable = [];
  active_memtable_oldest_wal_file_number = 5;
  immutable_memtables = (one, 4) ∷ [];
  sstables = table ∷ [];
  metas = [];
  wal_file_number = 4;
  flush_count = 0;
}

one-IsBlock : IsBlock one
unfolding encode_payload encode_records encode_record restart_offsets encode_offsets shared_size
    shared_prefix encode_fixed32 encode_fixed64
one-IsBlock = record {
  filled = omega arith;
  fits = (record { key = omega arith; value = omega arith; sequence = omega arith }, tt);
  small = omega arith;
}

one_short : length (encode_table (split_blocks 1 4096 one) (insert_keys one []) 10) < 2 ^ 63
unfolding encode_payload encode_records encode_record restart_offsets encode_offsets shared_size
    shared_prefix encode_fixed32 encode_fixed64 encode_table write_blocks encode_block encode_index
    encode_items index_of split_blocks take_block take_versions bytes_eq last_key
    encode_internal_key inverted_bytes encode_footer insert_keys insert_key bytes_ltb encode build
    add_keys add_hashes set_bit bit_index bit_mask hash
one_short = omega arith

one-FitsFile : FitsFile one 4096 10
unfolding split_blocks take_block last_key encode_internal_key inverted_bytes
one-FitsFile = record {
  blocks = (one-IsBlock, tt);
  last_keys = (omega arith, tt);
  file = one_short;
}

one-IsFlushable : IsFlushable one 4096 10 8 (table ∷ []) (some (new_block_cache 2))
unfolding IsSorted IsFresh node_block loaded
one-IsFlushable = record {
  fits = one-FitsFile;
  plain = (((omega arith, tt), omega arith), tt);
  sorted = (tt, tt);
  new_number = ((λ e. absurd (omega arith)), tt);
  fresh = ((new-Caches 2).is_cache, (λ offset. refl));
}

-- The key that is read is in the memtable that goes to a table.
get-publish_flush_example :
    (get list_get
      (version_of readers
        (publish_flush 4 (flush_immutable_mem_table false 4096 10 one 8) (ok tt) db))
      (text "b")
      none
      (new_reader 2)).0
    ≡ (get list_get (version_of readers db) (text "b") none (new_reader 2)).0
unfolding validate_key contains_invalid_key_byte validate_read_options read_sequence HoldAll
    IsLayered concat list-MemTableReads
get-publish_flush_example =
    get-publish_flush list_get list-MemTableReads readers db one 4 [] false 4096 10 8 (ok tt)
      (text "b") none (new_reader 2) (three ∷ []) refl refl refl (omega arith)
      (
        record {
          is_table = loaded-IsTable three 1 10 file three-FitsFile three_created 7;
          plain = three-IsPlain;
          sorted = three-IsSorted;
        },
        tt,
        tt,
      )
      (new_reader-serves table 2, tt)
      (tt, ((((λ h. omega arith), ((λ h. omega arith), ((λ h. omega arith), tt))), tt), tt))
      one-IsFlushable
