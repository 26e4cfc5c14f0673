-- ===== src/Tests/Log.antt =====
-- Tests of src/wal.cc.
use kv_mem.Prelude.{◌≡◌, refl, none, some, true, [], ◌∷◌, ◌++◌, take, drop, arith}
use kv_mem.Bytes.{Bytes}
use kv_mem.Status.{ok}
use kv_mem.WriteBatch.{count}
use kv_mem.WriteBatch.Codec.{encode, encode_operations, encode_operation}
use kv_mem.Format.Fixed.{encode_fixed32}
use kv_mem.Wal.{wal_record}
use kv_mem.Wal.Writer.{WalWriter, AppendIo, append_batch}
use kv_mem.Wal.Reader.{WalReader, ReadIo, reads, read_next}
use kv_mem.Wal.RoundTrip.{IsHealthy, IsRecordable, read_next-record, length-wal_record}
use kv_mem.Wal.TornTail.{read_next_torn}
use kv_mem.Wal.Atomic.{append_batch_atomic, WholeOrNothing, at_old_end}
use kv_mem.Tests.Format.{two_operations, two_operations_valid}

abbrev pub healthy_io : ReadIo
healthy_io = record {
  inspected = true;
  exists = true;
  can_open = true;
  has_position = true;
  prefix_read = reads;
  header_read = reads;
  has_size = true;
  payload_read = reads;
  resized = true;
  fsync_file = ok tt;
  fsync_directory = ok tt;
}

pub healthy : IsHealthy healthy_io
healthy = record {
  inspected = refl;
  exists = refl;
  can_open = refl;
  has_position = refl;
  prefix_read = refl;
  header_read = refl;
  has_size = refl;
  payload_read = refl;
  resized = refl;
  fsync_file = refl;
  fsync_directory = refl;
}

two-IsRecordable : IsRecordable two_operations 5
unfolding count
two-IsRecordable = record {
  valid = two_operations_valid;
  well_formed = ((λ e. cc), ((λ e. refl), tt));
  filled = omega arith;
  positive = omega arith;
  in_range = omega arith;
}

abbrev reader_of : Bytes → WalReader
reader_of contents = record { opened = true; contents = contents; position = 0 }

read_next-record_example :
    let (after, result) =
      read_next healthy_io (reader_of (wal_record two_operations 5 ++ (1 ∷ []))) in
    (result ≡ ok (some (record { sequence = 5; batch = two_operations })))
    × (drop after.position after.contents ≡ 1 ∷ [])
    × (after.contents ≡ wal_record two_operations 5 ++ (1 ∷ []))
    × (after.opened ≡ true)
read_next-record_example =
    read_next-record healthy_io (reader_of (wal_record two_operations 5 ++ (1 ∷ []))) two_operations
      5 (1 ∷ []) healthy two-IsRecordable refl refl

read_next_torn_example :
    let torn = reader_of (take 30 (wal_record two_operations 5)) in
    ((read_next healthy_io torn).1 ≡ ok none)
    × ((read_next healthy_io torn).0.contents ≡ take 0 (take 30 (wal_record two_operations 5)))
unfolding encode encode_operations encode_operation encode_fixed32
read_next_torn_example =
    read_next_torn healthy_io (reader_of (take 30 (wal_record two_operations 5))) two_operations 5
      30 healthy two-IsRecordable refl (omega (arith, length-wal_record two_operations 5)) refl

-- The log starts empty, and the stream fails after ten bytes of the record.
abbrev fresh_log : WalWriter
fresh_log = record { is_open = true; contents = [] }

abbrev failing_io : AppendIo
failing_io = record { failed_after = some 10; before_sync = ok tt; fsync_file = ok tt }

append_batch_atomic_example :
    let (after, status) = append_batch failing_io fresh_log two_operations 5 in
    WholeOrNothing healthy_io two_operations 5 [] after.contents
    × (status ≡ ok tt
        → (read_next healthy_io (at_old_end [] after.contents)).1
          ≡ ok (some (record { sequence = 5; batch = two_operations })))
unfolding count
append_batch_atomic_example =
    append_batch_atomic failing_io fresh_log two_operations 5 healthy_io healthy
      ((λ e. cc), ((λ e. refl), tt)) (omega arith) (omega arith)
