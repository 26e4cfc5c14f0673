-- ===== src/Tests/Reads.antt =====
-- Tests of DB::Get of src/db.cc.
use kv_mem.Prelude.{ℕ, ◌≡◌, refl, true, false, Option, none, some, List, [], ◌∷◌, arith}
use kv_mem.Bytes.{Bytes, text, bytes_eq}
use kv_mem.Types.{Entry, VersionedEntry}
use kv_mem.Status.{err, not_found}
use kv_mem.Db.Store.{validate_key, contains_invalid_key_byte}
use kv_mem.Db.Snapshots.{validate_read_options, read_sequence}
use kv_mem.Db.Get.{Version, get, final_answer}
use kv_mem.Db.Get.Newest.{newest_match, newer}
use kv_mem.Db.Get.Tables.{HoldAll}
use kv_mem.Db.Get.Layers.{as_match, MemTableReads, IsLayered, get-newest_match}
use kv_mem.Sstable.Lookup.{Match}
use kv_mem.Sstable.Create.Split.{concat}
use kv_mem.Sstable.Table.Created.{new_reader, new_reader-serves, loaded-IsTable}
use kv_mem.Tests.Blocks.{
  table, three, file, three-FitsFile, three_created, three-IsPlain, three-IsSorted,
}

-- A memtable that is the list of its entries.
abbrev entry_with : ℕ → Option Bytes → Entry
entry_with sequence none = record { sequence = sequence; value = []; deleted = true }
entry_with sequence (some value) = record { sequence = sequence; value = value; deleted = false }

abbrev entry_of : Option Match → Option Entry
entry_of none = none
entry_of (some m) = some (entry_with m.matched_sequence m.value)

as_match-entry_with :
    (n : ℕ) (value : Option Bytes)
    → as_match (some (entry_with n value)) ≡ some (record { matched_sequence = n; value = value })
as_match-entry_with n none = refl
as_match-entry_with n (some value) = refl

pub as_match-entry_of : (m : Option Match) → as_match (entry_of m) ≡ m
as_match-entry_of none = refl
as_match-entry_of (some m) = as_match-entry_with m.matched_sequence m.value

abbrev pub list_get : Bytes → ℕ → List VersionedEntry → Option Entry
list_get key n entries = entry_of (newest_match key n entries)

unfoldable pub list-MemTableReads : MemTableReads list_get
list-MemTableReads = record {
  entries = λ entries. entries;
  newest = λ key n entries. as_match-entry_of (newest_match key n entries);
}

abbrev a6 : VersionedEntry
a6 = record { key = text "a"; sequence = 6; value = text "new"; deleted = false }

abbrev version : Version (List VersionedEntry)
version = record {
  readers = record { closed = false; last_sequence = 9; snapshots = [] };
  active_memtable = a6 ∷ [];
  immutable_memtables = [] ∷ [];
  sstables = table ∷ [];
}

-- The deletion in the table hides the older version; the active memtable has another key.
get-newest_match_example :
    (get list_get version (text "b") none (new_reader 2)).0 ≡ err (not_found "key deleted")
unfolding validate_key contains_invalid_key_byte validate_read_options read_sequence HoldAll
    IsLayered concat newest_match newer bytes_eq final_answer list-MemTableReads
get-newest_match_example =
    get-newest_match list_get list-MemTableReads version (text "b") none (new_reader 2) (three ∷ [])
      refl refl (omega arith)
      (
        record {
          is_table = loaded-IsTable three 1 10 file three-FitsFile three_created 7;
          plain = three-IsPlain;
          sorted = three-IsSorted;
        },
        tt,
        tt,
      )
      (new_reader-serves table 2, tt)
      ((((λ h. omega arith), ((λ h. omega arith), ((λ h. omega arith), tt))), tt), (tt, tt))
