-- ===== src/Wal/Writer.antt =====
-- WALWriter. The file is the list of its bytes; what the stream, the hook before the sync and fsync
-- answer is an argument.
use kv_mem.Prelude.{
  ℕ, ◌-◌, Bool, false, not, ◌||◌, Option, none, some, ◌++◌, length, take, ltb, ◌==◌, if◌then◌else◌,
}
use kv_mem.Bytes.{Bytes}
use kv_mem.Status.{Status, ok, err, io_error, invalid_argument, reject_if, ◌>>◌}
use kv_mem.Format.InternalKey.{max_sequence}
use kv_mem.WriteBatch.{WriteBatch, count, validate_encoding, u32_max}
use kv_mem.WriteBatch.Codec.{encode}
use kv_mem.Wal.{wal_record}

pub record WalWriter : Type 0 where
  pub is_open : Bool
  pub contents : Bytes

-- What the calls of one append answer. A stream that fails has written so many bytes of the record.
pub record AppendIo : Type 0 where
  pub failed_after : Option ℕ
  pub before_sync : Status
  pub fsync_file : Status

-- What AppendBatch checks before it writes, in the order of the source.
unfoldable pub check_append : WalWriter → WriteBatch → ℕ → Status
check_append writer batch sequence = do
  reject_if (not writer.is_open) (io_error "WAL writer is not open")
  validate_encoding batch
  reject_if (sequence == 0 || ltb (max_sequence - sequence) (count batch - 1))
      (invalid_argument "invalid WAL sequence range")
  reject_if (ltb u32_max (length (encode batch)))
      (invalid_argument "WriteBatch payload is too large")

-- The writes, the flush, the hook and the sync.
unfoldable pub write_record : AppendIo → WalWriter → Bytes → WalWriter × Status
write_record io writer bytes = elim io.failed_after [
  | some n ↦ (
    record writer { contents = writer.contents ++ take n bytes },
    err (io_error "failed to append WAL batch record"),
  )
  | none ↦ (record writer { contents = writer.contents ++ bytes }, io.before_sync >> io.fsync_file)
]

unfoldable pub append_batch : AppendIo → WalWriter → WriteBatch → ℕ → WalWriter × Status
unfolding check_append write_record
append_batch io writer batch sequence =
    if count batch == 0 then (writer, ok tt) else elim (check_append writer batch sequence) [
      | err e ↦ (writer, err e)
      | ok u ↦ write_record io writer (wal_record batch sequence)
    ]

-- Close
unfoldable pub close : WalWriter → WalWriter
close writer = record writer { is_open = false }
