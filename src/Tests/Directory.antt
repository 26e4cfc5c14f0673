-- ===== src/Tests/Directory.antt =====
-- Tests of the scan of the directory in Recover of src/db.cc.
use kv_mem.Prelude.{
  ◌≡◌, refl, inl, inr, some, true, false, List, [], ◌∷◌, ◌++◌, take, length-take, length-append,
  Memᴰ, arith,
}
use kv_mem.Bytes.{text, bytes_eq}
use kv_mem.Types.{VersionedEntry}
use kv_mem.Status.{Result, ok}
use kv_mem.WriteBatch.Codec.{encode, encode_operations, encode_operation, decode}
use kv_mem.Format.Fixed.{encode_fixed32, encode_fixed64, decode_fixed32, decode_fixed64}
use kv_mem.Wal.{wal_record, wal_header}
use kv_mem.Wal.RoundTrip.{length-wal_record}
use kv_mem.Tests.Format.{two_operations}
use kv_mem.Format.Decimal.{all_digits, parse_digits}
use kv_mem.Format.FileName.{parse_sstable_file_name, parse_wal_file_name, parse_numbered_name}
use kv_mem.Db.Store.{Store, apply_operation, contains_invalid_key_byte, validate_key}
use kv_mem.Db.Recover.Scan.{
  DirectoryEntry, scan_directory, scan_sstable_name, scan_wal_name, recover,
}
use kv_mem.Db.Recover.Enough.{Outlasts}
use kv_mem.Db.Recover.Fresh.{recover-Fresh, Taken, AllocatesAbove}
use kv_mem.Db.Recover.Live.{IsAscending, scan_directory-IsAscending}
use kv_mem.Db.Recover.{replay_file}
use kv_mem.Wal.Reader.{
  read_next, read_record, gcount, read_batch_record, check_header, read_payload, check_payload,
  truncate_torn_tail,
}
use kv_mem.WriteBatch.{count}
use kv_mem.Format.Crc.{crc32}
use kv_mem.Tests.Log.{healthy_io}
use kv_mem.Tests.Stores.{entry_list, new_store}

abbrev live_log : DirectoryEntry
live_log = record { is_regular_file = true; name = text "wal_000004.log"; contents = [] }

abbrev dead_log : DirectoryEntry
dead_log = record { is_regular_file = true; name = text "wal_000002.log"; contents = [] }

abbrev orphan_table : DirectoryEntry
orphan_table = record { is_regular_file = true; name = text "sst_000009.data"; contents = [] }

abbrev lock_file : DirectoryEntry
lock_file = record { is_regular_file = true; name = text "LOCK"; contents = [] }

abbrev directory : List DirectoryEntry
directory = live_log ∷ dead_log ∷ orphan_table ∷ lock_file ∷ []

directory_seen :
    scan_directory 3 (1 ∷ []) directory
    ≡ record { max_seen_file_number = 9; wal_files = (4, []) ∷ [] }
unfolding scan_directory scan_sstable_name scan_wal_name parse_sstable_file_name parse_wal_file_name
    parse_numbered_name bytes_eq all_digits parse_digits
directory_seen = refl

live_log_parsed : parse_wal_file_name live_log.name ≡ some 4
unfolding parse_wal_file_name parse_numbered_name bytes_eq all_digits parse_digits
live_log_parsed = refl

scan_directory-IsAscending_example :
    let files = (scan_directory 3 (1 ∷ []) directory).wal_files in
    IsAscending files × Memᴰ (4, live_log.contents) files
scan_directory-IsAscending_example =
    scan_directory-IsAscending 3 (1 ∷ []) directory live_log 4 (Memᴰ.head refl) refl live_log_parsed
      (omega arith)

-- A table that no manifest names, and a log of one record, with a part of another behind it.
abbrev full_log : DirectoryEntry
full_log = record {
  is_regular_file = true;
  name = text "wal_000004.log";
  contents = wal_record two_operations 5 ++ take 30 (wal_record two_operations 7);
}

abbrev crashed : List DirectoryEntry
crashed = orphan_table ∷ full_log ∷ []

abbrev recovered_store : Store (List VersionedEntry)
recovered_store = record new_store {
  active_memtable =
      record { key = text "old"; sequence = 6; value = []; deleted = true }
      ∷ record { key = text "k"; sequence = 5; value = text "v"; deleted = false }
      ∷ [];
  active_wal_file_number = 4;
  oldest_wal_file_number = 4;
  manifest = record { next_file_number = 10; wal_file_number = 1; last_sequence = 6 };
}

recover-crashed :
    recover entry_list 100 (λ number n. healthy_io) [] crashed new_store ≡ some (ok recovered_store)
unfolding recover scan_sstable_name scan_wal_name parse_sstable_file_name parse_wal_file_name
    parse_numbered_name bytes_eq all_digits parse_digits replay_file read_next read_record gcount
    wal_record encode_fixed32 wal_header encode_fixed64 encode encode_operations encode_operation
    decode_fixed32 read_batch_record check_header count decode_fixed64 read_payload apply_operation
    contains_invalid_key_byte validate_key crc32 check_payload truncate_torn_tail decode
recover-crashed = refl

crashed-Outlasts : Outlasts 100 crashed
unfolding encode encode_operations encode_operation encode_fixed32
crashed-Outlasts =
    let first = length-wal_record two_operations 5 in
    let second = length-take 30 (wal_record two_operations 7) in
    let both =
      length-append (wal_record two_operations 5) (take 30 (wal_record two_operations 7)) in
    (omega arith, (omega (arith, first, second, both), tt))

orphan_table-Taken : Taken [] crashed 9
unfolding Taken parse_sstable_file_name parse_numbered_name bytes_eq all_digits parse_digits
orphan_table-Taken = inr (orphan_table, Memᴰ.head refl, refl, inl refl)

recover-Fresh_example :
    (result : Result (Store (List VersionedEntry))) × (recover entry_list 100
        (λ number n. healthy_io)
        []
        crashed
        new_store
      ≡ some result)
    × AllocatesAbove 9 result
recover-Fresh_example =
    recover-Fresh entry_list 100 (λ number n. healthy_io) [] crashed new_store 9 crashed-Outlasts
      orphan_table-Taken
