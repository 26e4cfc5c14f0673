-- ===== src/Db/Flush.antt =====
-- DB::FlushImmutableMemTable and the publishing step of DB::BackgroundWorkerLoop in src/db.cc. The
-- paths, the size of the file and the log of events are left out; what Manifest::Save answers is an
-- argument.
pub mod Keeps
use kv_mem.Prelude.{ℕ, ◌+◌, Bool, true, false, not, List, [], ◌∷◌, ◌++◌, map, ◌==◌, if◌then◌else◌}
use kv_mem.Bytes.{Bytes}
use kv_mem.Types.{VersionedEntry}
use kv_mem.Status.{Status, Result, ok, err, io_error, corruption, reject_if, ◌>>=◌, ◌>>◌}
use kv_mem.Compaction.Ranges.{SstableMeta}
use kv_mem.Sstable.Create.{create_from_entries}
use kv_mem.Sstable.Table.{SsTable, load_index}
use kv_mem.Db.Snapshots.{Readers}
use kv_mem.Db.Get.{Version}

-- The fields of DB and of its manifest that a flush reads or sets; a memtable stands with the number
-- of its WAL.
pub record Flushing (M : Type 0) : Type 0 where
  pub background_status : Status
  pub active_memtable : M
  pub active_memtable_oldest_wal_file_number : ℕ
  pub immutable_memtables : List (M × ℕ)
  pub sstables : List SsTable
  pub metas : List SstableMeta
  pub wal_file_number : ℕ
  pub flush_count : ℕ

abbrev pub front_key : List VersionedEntry → Bytes
front_key [] = []
front_key (entry ∷ rest) = entry.key

unfoldable pub back_key : List VersionedEntry → Bytes
back_key [] = []
back_key (entry ∷ []) = entry.key
back_key (entry ∷ next ∷ rest) = back_key (next ∷ rest)

-- The fields of `meta` but its path and its size.
abbrev pub meta_of : ℕ → List VersionedEntry → SstableMeta
meta_of number entries = record {
  file_number = number;
  level = 0;
  smallest_key = front_key entries;
  largest_key = back_key entries;
}

unfoldable pub flush_immutable_mem_table :
    Bool → ℕ → ℕ → List VersionedEntry → ℕ → Result (SsTable × SstableMeta)
flush_immutable_mem_table testing_fail_flush block_size bloom_bits_per_key entries sstable_number =
    do
      reject_if testing_fail_flush (io_error "injected flush failure")
      file ← create_from_entries entries block_size bloom_bits_per_key
      table ← load_index sstable_number file
      ok (table, meta_of table.file_number entries)

-- SetBackgroundErrorLocked
unfoldable pub first_error : Status → Status → Status
first_error (ok u) status = status
first_error (err e) status = err e

abbrev pub fail_flush : {M : Type 0} → Status → Flushing M → Flushing M
fail_flush status db = record db { background_status = first_error db.background_status status }

abbrev pub next_live_wal : {M : Type 0} → ℕ → List (M × ℕ) → ℕ
next_live_wal active_oldest [] = active_oldest
next_live_wal active_oldest ((memtable, wal) ∷ rest) = wal

-- The queue's front, against the memtable that was flushed.
unfoldable pub publish_front :
    {M : Type 0} → ℕ → SsTable × SstableMeta → Status → List (M × ℕ) → Flushing M → Flushing M
publish_front wal flushed saved [] db =
    fail_flush (err (corruption "immutable memtable queue changed during flush")) db
publish_front wal flushed saved (front ∷ rest) db =
    if not (front.1 == wal)
    then fail_flush (err (corruption "immutable memtable queue changed during flush")) db
    else elim saved [
      | err e ↦ fail_flush (err e) db
      | ok u ↦ record db {
        sstables = db.sstables ++ (flushed.0 ∷ []);
        metas = db.metas ++ (flushed.1 ∷ []);
        wal_file_number = next_live_wal db.active_memtable_oldest_wal_file_number rest;
        immutable_memtables = rest;
        flush_count = db.flush_count + 1;
      }
    ]

unfoldable pub publish_flush :
    {M : Type 0} → ℕ → Result (SsTable × SstableMeta) → Status → Flushing M → Flushing M
publish_flush wal (err e) saved db = fail_flush (err e) db
publish_flush wal (ok flushed) saved db = publish_front wal flushed saved db.immutable_memtables db

-- What Get reads.
abbrev pub version_of : {M : Type 0} → Readers → Flushing M → Version M
version_of readers db = record {
  readers = readers;
  active_memtable = db.active_memtable;
  immutable_memtables = map (λ p. p.0) db.immutable_memtables;
  sstables = db.sstables;
}
