-- ===== src/Tests/Stores.antt =====
-- Tests of the writes and of the recovery in src/db.cc.
use kv_mem.Prelude.{◌≡◌, refl, inl, none, some, true, false, List, [], ◌∷◌, length, arith}
use kv_mem.Bytes.{Bytes, text}
use kv_mem.Types.{VersionedEntry}
use kv_mem.Status.{ok, err, invalid_argument, is_invalid_argument}
use kv_mem.WriteBatch.{count}
use kv_mem.Wal.Writer.{AppendIo}
use kv_mem.Db.Store.{MemTableOps, Store, WriteIo, validate_key, contains_invalid_key_byte}
use kv_mem.Db.Recover.{Replay}
use kv_mem.Db.Recover.Log.{log_of, total, Acceptable, applied}
use kv_mem.Db.Writes.{MemTableLaws, IsLogging, Request, write_all, requested}
use kv_mem.Db.Writes.Logging.{Ends-nil}
use kv_mem.Db.Writes.Recovered.{write_all-RecoversFrom, RecoversFrom}
use kv_mem.Tests.Format.{two_operations}
use kv_mem.Tests.Log.{healthy_io, healthy}

-- A memtable that is the list of its entries, newest first.
abbrev pub entry_list : MemTableOps (List VersionedEntry)
entry_list = record {
  empty = [];
  put = λ key sequence value table.
      record { key = key; sequence = sequence; value = value; deleted = false } ∷ table;
  delete_key = λ key sequence table.
      record { key = key; sequence = sequence; value = []; deleted = true } ∷ table;
  size = length;
}

entry_list-laws : MemTableLaws entry_list
entry_list-laws = record {
  size_empty = refl;
  size_put = λ key sequence value table. omega arith;
  size_delete = λ key sequence table. omega arith;
}

tab_refused :
    validate_key (text "a\tb") ≡ err (invalid_argument "key cannot contain tab, newline, or NUL")
unfolding validate_key contains_invalid_key_byte
tab_refused = refl

abbrev pub new_store : Store (List VersionedEntry)
new_store = record {
  background_status = ok tt;
  closed = false;
  wal = some (record { is_open = true; contents = [] });
  logs = [];
  manifest = record { next_file_number = 2; wal_file_number = 1; last_sequence = 0 };
  active_memtable = [];
  immutable_memtables = [];
  active_wal_file_number = 1;
  oldest_wal_file_number = 1;
  background_work_pending = false;
}

new_store_logs : IsLogging entry_list 1 new_store [] []
unfolding log_of total applied Acceptable
new_store_logs = record {
  logged = refl;
  table = refl;
  last = refl;
  acceptable = tt;
  clean = λ h. refl;
  behind = inl (Ends-nil 1);
}

-- All calls succeed, or the stream fails after some bytes.
abbrev write_io : AppendIo → WriteIo
write_io append = record { append = append; open_wal = ok []; save = ok tt }

abbrev good_append : AppendIo
good_append = record { failed_after = none; before_sync = ok tt; fsync_file = ok tt }

abbrev cut_append : AppendIo
cut_append = record { failed_after = some 30; before_sync = ok tt; fsync_file = ok tt }

abbrev one_good_one_cut : List Request
one_good_one_cut =
    (write_io good_append, two_operations) ∷ (write_io cut_append, two_operations) ∷ []

abbrev new_replay : Replay (List VersionedEntry)
new_replay = record { active_memtable = []; last_sequence = 0; last_replayed = 0 }

write_all-RecoversFrom_example :
    let (final, acknowledged) = write_all entry_list 10 one_good_one_cut new_store in
    (contents : Bytes) × (final.wal ≡ some (record { is_open = true; contents = contents }))
    × (final.active_memtable ≡ applied entry_list acknowledged 1 [])
    × RecoversFrom entry_list
        (λ n. healthy_io)
        (λ n. healthy)
        1
        4
        new_replay
        (omega arith)
        (omega arith)
        acknowledged
        contents
unfolding requested count is_invalid_argument
write_all-RecoversFrom_example =
    write_all-RecoversFrom entry_list entry_list-laws (λ n. healthy_io) (λ n. healthy) 10 1 4
      one_good_one_cut new_store new_replay new_store_logs
      (
        (record { hook = refl; fsync = refl }, ((λ e. cc), ((λ e. refl), tt))),
        ((record { hook = refl; fsync = refl }, ((λ e. cc), ((λ e. refl), tt))), tt),
      )
      (omega arith) (omega arith) (omega arith) (omega arith)
