-- ===== src/Tests/Iterators.antt =====
-- Tests of SSTableInternalIterator of src/sstable.cpp.
use kv_mem.Prelude.{◌≡◌, true, [], ◌∷◌, arith}
use kv_mem.Bytes.{text, bytes_ltb}
use kv_mem.Status.{ok}
use kv_mem.Sstable.Table.Created.{new_reader, new_reader-serves, loaded-IsTable}
use kv_mem.Sstable.Iterator.{TableIterator, seek_to_first, seek, walk}
use kv_mem.Sstable.Iterator.Walk.{keep_visible}
use kv_mem.Sstable.Iterator.Keep.{keep_from}
use kv_mem.Sstable.Iterator.Seeking.{seek_to_first-walk, seek-walk}
use kv_mem.Tests.Blocks.{
  a2, b3, b5, table, three, file, three-FitsFile, three_created, three-IsPlain, three-IsSorted,
}

-- Whatever the iterator was before.
abbrev some_iterator : TableIterator
some_iterator = record {
  block_index = 5;
  entry_index = 1;
  loaded_block = true;
  block_entries = a2 ∷ [];
  status = ok tt;
  reader = new_reader 2;
}

seek_to_first-walk_example : walk 3 4 table 4 (seek_to_first 4 table 4 some_iterator) ≡ a2 ∷ b3 ∷ []
unfolding keep_visible
seek_to_first-walk_example =
    seek_to_first-walk table three 4 3 4 some_iterator
      (loaded-IsTable three 1 10 file three-FitsFile three_created 7) (new_reader-serves table 2)
      (omega arith) (omega arith)

seek-walk_example : walk 3 4 table 9 (seek 4 table 9 (text "b") some_iterator) ≡ b5 ∷ b3 ∷ []
unfolding keep_from bytes_ltb
seek-walk_example =
    seek-walk table three (text "b") 9 3 4 some_iterator
      (loaded-IsTable three 1 10 file three-FitsFile three_created 7) three-IsPlain three-IsSorted
      (omega arith, tt) (omega arith) (new_reader-serves table 2) (omega arith) (omega arith)
