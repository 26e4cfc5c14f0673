-- ===== src/Tests/Replays.antt =====
-- Tests of Recover in src/db.cc on a directory with two logs.
use kv_mem.Prelude.{
  ℕ, ◌+◌, ◌-◌, ◌<◌, ◌≤◌, ◌≡◌, refl, inl, inr, max, ◌==◌, if◌then◌else◌, some, true, List, [], ◌∷◌,
  ◌++◌, take, arith,
}
use kv_mem.Bytes.{text, bytes_eq}
use kv_mem.Types.{VersionedEntry}
use kv_mem.Status.{ok}
use kv_mem.Format.Decimal.{all_digits, parse_digits}
use kv_mem.Format.FileName.{parse_sstable_file_name, parse_wal_file_name, parse_numbered_name}
use kv_mem.Format.Fixed.{encode_fixed32}
use kv_mem.Format.InternalKey.{max_sequence}
use kv_mem.WriteBatch.{count}
use kv_mem.WriteBatch.Codec.{encode, encode_operations, encode_operation}
use kv_mem.Wal.{wal_record}
use kv_mem.Wal.RoundTrip.{IsRecordable, length-wal_record}
use kv_mem.Db.Store.{Store, contains_invalid_key_byte, validate_key, validate_keys}
use kv_mem.Db.Recover.Log.{Acceptable, Ends, log_of, total, applied}
use kv_mem.Db.Recover.Scan.{
  DirectoryEntry, scan_directory, scan_sstable_name, scan_wal_name, recover,
}
use kv_mem.Db.Recover.Whole.{WrittenLog, AreWritten, files_of, batches_of, recover-applied}
use kv_mem.Tests.Format.{two_operations, two_operations_valid}
use kv_mem.Tests.Log.{healthy_io, healthy}
use kv_mem.Tests.Stores.{entry_list, new_store}

two_at-IsRecordable : (n : ℕ) → 0 < n → n + 1 ≤ max_sequence → IsRecordable two_operations n
unfolding count
two_at-IsRecordable n positive room = record {
  valid = two_operations_valid;
  well_formed = ((λ e. cc), ((λ e. refl), tt));
  filled = omega arith;
  positive = positive;
  in_range = room;
}

-- The first log ends with a part of a record, and the second goes on behind the whole ones.
abbrev older_log : WrittenLog
older_log = record {
  number = 4;
  batches = two_operations ∷ [];
  tail = take 30 (wal_record two_operations 7);
}

abbrev newer_log : WrittenLog
newer_log = record { number = 5; batches = two_operations ∷ []; tail = [] }

abbrev entry_of : WrittenLog → ℕ → DirectoryEntry
entry_of log sequence = record {
  is_regular_file = true;
  name = if log.number == 4 then text "wal_000004.log" else text "wal_000005.log";
  contents = log_of log.batches sequence ++ log.tail;
}

-- The iterator meets the newer log first.
abbrev two_logs : List DirectoryEntry
two_logs = entry_of newer_log 7 ∷ entry_of older_log 5 ∷ []

-- Its manifest has seen four operations.
abbrev saved_store : Store (List VersionedEntry)
saved_store = record new_store {
  manifest = record { next_file_number = 6; wal_file_number = 4; last_sequence = 4 };
}

two_logs_found :
    let scan = scan_directory 4 [] two_logs in
    (scan.wal_files ≡ files_of (older_log ∷ newer_log ∷ []) 5) × (scan.max_seen_file_number ≡ 5)
unfolding scan_directory scan_sstable_name scan_wal_name parse_sstable_file_name parse_wal_file_name
    parse_numbered_name bytes_eq all_digits parse_digits files_of total count
two_logs_found = (refl, refl)

two_logs-AreWritten : AreWritten (older_log ∷ newer_log ∷ []) 5
unfolding AreWritten Acceptable Ends total count validate_keys validate_key
    contains_invalid_key_byte encode encode_operations encode_operation encode_fixed32
two_logs-AreWritten =
    let five = two_at-IsRecordable 5 (omega arith) (omega arith) in
    let seven = two_at-IsRecordable 7 (omega arith) (omega arith) in
    let size = length-wal_record two_operations 7 in
    (
      (five, refl, tt),
      inr (two_operations, 30, seven, omega (arith, size), refl),
      ((seven, refl, tt), inl refl, tt),
    )

recover-applied_example :
    (after : Store (List VersionedEntry)) × (recover entry_list 2
        (λ number n. healthy_io)
        []
        two_logs
        saved_store
      ≡ some (ok after))
    × (after.active_memtable
        ≡ applied entry_list (two_operations ∷ two_operations ∷ []) 5 saved_store.active_memtable)
    × (after.manifest.last_sequence ≡ max 4 (5 + total (two_operations ∷ two_operations ∷ []) - 1))
unfolding batches_of
recover-applied_example =
    recover-applied entry_list 2 (λ number n. healthy_io) (λ number n. healthy) [] two_logs
      saved_store (older_log ∷ newer_log ∷ []) 5 two_logs_found.0 (omega (arith, two_logs_found.1))
      (omega arith, (omega arith, tt)) two_logs-AreWritten (omega arith) (omega arith)
