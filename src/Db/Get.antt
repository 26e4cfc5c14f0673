-- ===== src/Db/Get.antt =====
-- DB::Get of src/db.cc. The memtables, newest first, and the tables, in the order of the loop, are
-- lists; the tables share one cache, and their counters are given by their sums, as DB::Stats
-- reports them. `have_visible`, `newest_deleted`, `newest_sequence` and `*value` are one optional
-- match, whose value is absent for a deletion.
pub mod Newest
pub mod Tables
pub mod Layers
use mathlib.Core.List.{reverse}
use kv_mem.Prelude.{
  ℕ, Bool, true, false, ◌&&◌, Option, none, some, List, [], ◌∷◌, map, ltb, ◌==◌, if◌then◌else◌,
}
use kv_mem.Bytes.{Bytes}
use kv_mem.Types.{Entry}
use kv_mem.Status.{Status, Error, Result, ok, err, not_found, ◌>>◌}
use kv_mem.Db.Store.{validate_key}
use kv_mem.Db.Snapshots.{Readers, validate_read_options, read_sequence}
use kv_mem.Sstable.Lookup.{Match}
use kv_mem.Sstable.Table.{SsTable, Reader, TableAnswer, table_get_value}

-- `!status.ok() && !status.IsNotFound()`, with the error.
unfoldable pub failure : Result Bytes → Option Error
failure (ok value) = none
failure (err (not_found m)) = none
failure (err e) = some e

-- `!have_visible || sequence > newest_sequence`
unfoldable pub improves : Option Match → ℕ → Bool
improves none sequence = true
improves (some m) sequence = ltb m.matched_sequence sequence

abbrev pub value_in : Result Bytes → Option Bytes
value_in (ok value) = some value
value_in (err e) = none

-- What the loop holds behind a table's answer.
unfoldable pub consider : TableAnswer → Option Match → Option Match
consider answer newest =
    if answer.found && improves newest answer.sequence
    then some (record { matched_sequence = answer.sequence; value = value_in answer.status })
    else newest

-- A round of the loop behind a table's answer; a version at the read's sequence ends it.
unfoldable pub search_behind :
    ℕ
    → Option Match
    → TableAnswer × Reader
    → Result (Option Match) × Reader
    → Result (Option Match) × Reader
search_behind read_sequence newest (answer, reader) more = elim (failure answer.status) [
  | some e ↦ (err e, reader)
  | none ↦
      if answer.found && (improves newest answer.sequence && answer.sequence == read_sequence)
      then (ok (consider answer newest), reader)
      else more
]

-- The loop over the tables.
unfoldable pub search_tables :
    Bytes → ℕ → List SsTable → Option Match → Reader → Result (Option Match) × Reader
search_tables key read_sequence [] newest reader = (ok newest, reader)
search_tables key read_sequence (table ∷ rest) newest reader =
    let answer = table_get_value table key read_sequence reader in
    let more = search_tables key read_sequence rest (consider answer.0 newest) answer.1 in
    search_behind read_sequence newest answer more

-- The status, with the value, behind the loop.
unfoldable pub final_answer : Option Match → Result Bytes
final_answer none = err (not_found "key not found")
final_answer (some m) = elim m.value [
  | none ↦ err (not_found "key deleted")
  | some value ↦ ok value
]

unfoldable pub entry_answer : Entry → Result Bytes
entry_answer entry = if entry.deleted then err (not_found "key deleted") else ok entry.value

-- The first memtable that has an entry, by what MemTable::Get answers.
unfoldable pub search_memtables :
    {M : Type 0} → (Bytes → ℕ → M → Option Entry) → Bytes → ℕ → List M → Option Entry
search_memtables memtable_get key read_sequence [] = none
search_memtables memtable_get key read_sequence (table ∷ rest) =
    let more = search_memtables memtable_get key read_sequence rest in
    elim (memtable_get key read_sequence table) [ some entry ↦ some entry | none ↦ more ]

-- The fields of DB that Get reads.
pub record Version (M : Type 0) : Type 0 where
  pub readers : Readers
  pub active_memtable : M
  pub immutable_memtables : List M
  pub sstables : List SsTable

abbrev pub memtables : {M : Type 0} → Version M → List M
memtables version = version.active_memtable ∷ reverse version.immutable_memtables

unfoldable pub search_version :
    {M : Type 0}
    → (Bytes → ℕ → M → Option Entry)
    → Bytes
    → ℕ
    → List M
    → List SsTable
    → Reader
    → Result Bytes × Reader
search_version memtable_get key read_sequence memtables sstables reader =
    let searched = search_tables key read_sequence sstables none reader in
    elim (search_memtables memtable_get key read_sequence memtables) [
      | some entry ↦ (entry_answer entry, reader)
      | none ↦ elim searched.0 [
        | err e ↦ (err e, searched.1)
        | ok newest ↦ (final_answer newest, searched.1)
      ]
    ]

-- The options give a snapshot's handle.
unfoldable pub get :
    {M : Type 0}
    → (Bytes → ℕ → M → Option Entry)
    → Version M
    → Bytes
    → Option ℕ
    → Reader
    → Result Bytes × Reader
get memtable_get version key options reader =
    elim (validate_key key >> validate_read_options version.readers options) [
      | err e ↦ (err e, reader)
      | ok u ↦
          search_version memtable_get key (read_sequence version.readers options)
            (memtables version) (reverse version.sstables) reader
    ]
