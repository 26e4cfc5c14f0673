-- ===== src/Db/Recover/Scan.antt =====
-- Recover of DB in src/db.cc: the scan of the directory, the numbers that it sets, and the loop over
-- the WAL files.
use kv_mem.Prelude.{
  ℕ, ◌+◌, Bool, false, Option, none, some, List, [], ◌∷◌, ◌++◌, max, ltb, ◌==◌, if◌then◌else◌,
}
use kv_mem.Bytes.{Bytes}
use kv_mem.Status.{Result, ok, err, corruption}
use kv_mem.Format.FileName.{parse_sstable_file_name, parse_wal_file_name}
use kv_mem.Wal.Reader.{ReadIo}
use kv_mem.Db.Store.{MemTableOps, Store, max_file_number}
use kv_mem.Db.Recover.{Replay, replay_file}

-- An entry of the directory iterator.
pub record DirectoryEntry : Type 0 where
  pub is_regular_file : Bool
  pub name : Bytes
  pub contents : Bytes

-- What the scan collects.
pub record DirectoryScan : Type 0 where
  pub max_seen_file_number : ℕ
  pub wal_files : List (ℕ × Bytes)

-- for (const auto& meta : manifest_->SSTables())
unfoldable pub max_table_number : ℕ → List ℕ → ℕ
max_table_number seen [] = seen
max_table_number seen (number ∷ rest) = max_table_number (max seen number) rest

unfoldable pub scan_sstable_name : Bytes → DirectoryScan → DirectoryScan
scan_sstable_name name scan = elim (parse_sstable_file_name name) [
  | none ↦ scan
  | some number ↦ record scan { max_seen_file_number = max scan.max_seen_file_number number }
]

unfoldable pub scan_wal_name : ℕ → Bytes → Bytes → DirectoryScan → DirectoryScan
scan_wal_name oldest_live_wal name contents scan = elim (parse_wal_file_name name) [
  | none ↦ scan
  | some number ↦ record {
    max_seen_file_number = max scan.max_seen_file_number number;
    wal_files =
        if ltb number oldest_live_wal
        then scan.wal_files
        else scan.wal_files ++ ((number, contents) ∷ []);
  }
]

-- for (const auto& entry : std::filesystem::directory_iterator(options_.db_path))
unfoldable pub scan_entries : ℕ → List DirectoryEntry → DirectoryScan → DirectoryScan
scan_entries oldest_live_wal [] scan = scan
scan_entries oldest_live_wal (entry ∷ rest) scan =
    let seen =
      if entry.is_regular_file
      then scan_wal_name oldest_live_wal entry.name entry.contents
          (scan_sstable_name entry.name scan)
      else scan in
    scan_entries oldest_live_wal rest seen

-- std::sort by number.
unfoldable pub insert_wal : ℕ × Bytes → List (ℕ × Bytes) → List (ℕ × Bytes)
insert_wal file [] = file ∷ []
insert_wal file (first ∷ rest) =
    let more = insert_wal file rest in
    if ltb first.0 file.0 then first ∷ more else file ∷ first ∷ rest

unfoldable pub sort_wals : List (ℕ × Bytes) → List (ℕ × Bytes)
unfolding insert_wal
sort_wals [] = []
sort_wals (file ∷ rest) = insert_wal file (sort_wals rest)

-- front().first and back().first, or the number of the manifest.
unfoldable pub first_number : ℕ → List (ℕ × Bytes) → ℕ
first_number default_number [] = default_number
first_number default_number (file ∷ rest) = file.0

unfoldable pub last_number : ℕ → List (ℕ × Bytes) → ℕ
last_number default_number [] = default_number
last_number default_number (file ∷ rest) = last_number file.0 rest

unfoldable pub scan_directory : ℕ → List ℕ → List DirectoryEntry → DirectoryScan
unfolding max_table_number scan_entries sort_wals
scan_directory oldest_live_wal tables entries =
    let scan =
      scan_entries oldest_live_wal entries
        (record { max_seen_file_number = max_table_number 0 tables; wal_files = [] }) in
    record scan { wal_files = sort_wals scan.wal_files }

-- Recover up to the replay.
unfoldable pub set_numbers : {M : Type 0} → DirectoryScan → Store M → Result (Store M)
unfolding first_number last_number
set_numbers scan store =
    let oldest_live_wal = store.manifest.wal_file_number in
    let next =
      if ltb scan.max_seen_file_number store.manifest.next_file_number
      then store.manifest.next_file_number
      else scan.max_seen_file_number + 1 in
    if scan.max_seen_file_number == max_file_number
    then err (corruption "file number range exhausted during WAL recovery")
    else ok (record store {
      active_wal_file_number = last_number oldest_live_wal scan.wal_files;
      oldest_wal_file_number = first_number oldest_live_wal scan.wal_files;
      manifest = record store.manifest { next_file_number = next };
    })

module _ {M : Type 0} (ops : MemTableOps M) where
  -- for (const auto& wal_file : wal_files); each file has its fuel and its answers.
  unfoldable pub replay_files :
      ℕ → (ℕ → ℕ → ReadIo) → List (ℕ × Bytes) → Replay M → Option (Result (Replay M))
  replay_files fuel io [] state = some (ok state)
  replay_files fuel io (file ∷ rest) state =
      elim (replay_file ops fuel (io file.0)
        (record { opened = false; contents = file.1; position = 0 }) state) [
          | none ↦ none
          | some (left, err e) ↦ some (err e)
          | some (left, ok next) ↦ replay_files fuel io rest next
        ]

  unfoldable pub recover :
      ℕ → (ℕ → ℕ → ReadIo) → List ℕ → List DirectoryEntry → Store M → Option (Result (Store M))
  unfolding scan_directory set_numbers replay_files
  recover fuel io tables entries store =
      let scan = scan_directory store.manifest.wal_file_number tables entries in
      elim (set_numbers scan store) [
        | err e ↦ some (err e)
        | ok numbered ↦
            elim (replay_files fuel io scan.wal_files (record {
              active_memtable = numbered.active_memtable;
              last_sequence = numbered.manifest.last_sequence;
              last_replayed = 0;
            })) [
              | none ↦ none
              | some (err e) ↦ some (err e)
              | some (ok state) ↦ some (
                  ok (record numbered {
                    active_memtable = state.active_memtable;
                    manifest = record numbered.manifest { last_sequence = state.last_sequence };
                  }))
            ]
      ]
