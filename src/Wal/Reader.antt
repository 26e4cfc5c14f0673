-- ===== src/Wal/Reader.antt =====
-- WALReader. The file is the list of its bytes and the stream is a position in it; what the file
-- system answers is an argument.
use kv_mem.Prelude.{
  ℕ, ◌+◌, ◌-◌, Bool, true, false, not, ◌||◌, Option, none, some, ◌++◌, length, take, drop, get_or,
  min, ltb, ◌==◌, if◌then◌else◌,
}
use kv_mem.Bytes.{Bytes}
use kv_mem.Status.{Status, Result, ok, err, io_error, corruption, reject_if, ◌>>=◌, ◌>>◌}
use kv_mem.Format.Fixed.{decode_fixed32, decode_fixed64}
use kv_mem.Format.Crc.{crc32}
use kv_mem.Format.InternalKey.{max_sequence}
use kv_mem.WriteBatch.{count}
use kv_mem.WriteBatch.Codec.{decode}
use kv_mem.Wal.{
  WalBatchRecord, wal_batch_magic, batch_header_without_magic_size, batch_checksum_offset,
  record_type_batch,
}

pub record WalReader : Type 0 where
  pub opened : Bool
  pub contents : Bytes
  pub position : ℕ

-- A read of the stream goes to the end of the request or of the file, or fails after some bytes.
pub data ReadEvent : Type 0 where
  reads : ReadEvent
  fails_after : ℕ → ReadEvent

-- What the calls of one ReadNext answer.
pub record ReadIo : Type 0 where
  pub inspected : Bool
  pub exists : Bool
  pub can_open : Bool
  pub has_position : Bool
  pub prefix_read : ReadEvent
  pub header_read : ReadEvent
  pub has_size : Bool
  pub payload_read : ReadEvent
  pub resized : Bool
  pub fsync_file : Status
  pub fsync_directory : Status

-- gcount() after a read of `n` bytes where `rest` is left.
unfoldable pub gcount : ReadEvent → ℕ → Bytes → ℕ
gcount reads n rest = min n (length rest)
gcount (fails_after k) n rest = min k (min n (length rest))

-- eof() after a read that came short.
unfoldable pub at_eof : ReadEvent → Bool
at_eof reads = true
at_eof (fails_after k) = false

abbrev pub ReadResult : Type 0
ReadResult = WalReader × Result (Option WalBatchRecord)

-- TruncateTornTail; `ok none` is `*eof = true` with OK.
unfoldable pub truncate_torn_tail : ReadIo → WalReader → ℕ → ReadResult
truncate_torn_tail io reader record_offset =
    let closed = record reader { opened = false } in
    if not io.resized then (closed, err (io_error "failed to truncate torn WAL")) else (
      record closed { contents = take record_offset closed.contents },
      io.fsync_file >> (io.fsync_directory >> ok none),
    )

-- A read that came short: a failure of the stream, or a record that the file does not hold whole.
unfoldable pub short_read : ReadEvent → Status → ReadIo → WalReader → ℕ → ReadResult
short_read event error io reader record_offset =
    if not (at_eof event)
    then (reader, error >> ok none)
    else truncate_torn_tail io reader record_offset

-- From the payload on: the checksum, the operations and their count.
unfoldable pub check_payload : Bytes → Bytes → Result (Option WalBatchRecord)
check_payload header payload = do
  reject_if
      (not (
        crc32 (take batch_checksum_offset header ++ payload)
        == decode_fixed32 (drop batch_checksum_offset header)))
      (corruption "WAL batch checksum mismatch")
  batch ← decode payload
  reject_if (not (count batch == decode_fixed32 (drop 9 header)))
      (corruption "WAL batch operation count mismatch")
  ok (some (record { sequence = decode_fixed64 (drop 1 header); batch = batch }))

-- The checks of the header.
unfoldable pub check_header : Bytes → Status
check_header header =
    let sequence = decode_fixed64 (drop 1 header) in
    let operations = decode_fixed32 (drop 9 header) in
    reject_if (not (get_or header 0 0 == record_type_batch))
      (corruption "unknown WAL batch record type")
    >> reject_if
        (operations == 0 || (sequence == 0 || ltb (max_sequence - sequence) (operations - 1)))
        (corruption "invalid WAL sequence range or empty batch")

-- ReadBatchRecord, from the payload on.
unfoldable pub read_payload : ReadIo → WalReader → ℕ → Bytes → ReadResult
read_payload io reader record_offset header =
    let rest = drop reader.position reader.contents in
    let payload_size = decode_fixed32 (drop 13 header) in
    if not io.has_size
    then (reader, err (io_error "failed to determine WAL size"))
    else if ltb (length rest) payload_size
    then truncate_torn_tail io reader record_offset
    else if ltb (gcount io.payload_read payload_size rest) payload_size
    then short_read io.payload_read (err (io_error "failed to read WAL batch payload")) io reader
        record_offset
    else (
      record reader { position = reader.position + payload_size },
      check_payload header (take payload_size rest),
    )

-- ReadBatchRecord: the header.
unfoldable pub read_batch_record : ReadIo → WalReader → ℕ → ReadResult
read_batch_record io reader record_offset =
    let rest = drop reader.position reader.contents in
    let size = batch_header_without_magic_size in
    let header = take size rest in
    let after = record reader { position = reader.position + size } in
    if ltb (gcount io.header_read size rest) size
    then short_read io.header_read (err (io_error "failed to read WAL batch header")) io reader
        record_offset
    else elim (check_header header) [
      | err e ↦ (after, err e)
      | ok u ↦ read_payload io after record_offset header
    ]

-- ReadNext on an open stream: the magic.
unfoldable pub read_record : ReadIo → WalReader → ReadResult
read_record io reader =
    let rest = drop reader.position reader.contents in
    let count = gcount io.prefix_read 4 rest in
    let after = record reader { position = reader.position + 4 } in
    if not io.has_position
    then (reader, err (io_error "failed to determine WAL record offset"))
    else if count == 0
    then (reader, ok none)
    else if ltb count 4
    then short_read io.prefix_read (err (io_error "failed to read WAL record prefix")) io reader
        reader.position
    else if not (decode_fixed32 rest == wal_batch_magic)
    then (after, err (corruption "invalid WAL batch magic"))
    else read_batch_record io after reader.position

-- ReadNext; `ok none` is the end of the log.
unfoldable pub read_next : ReadIo → WalReader → ReadResult
read_next io reader =
    let open_reader = record reader { opened = true; position = 0 } in
    if reader.opened
    then read_record io reader
    else if not io.inspected
    then (reader, err (io_error "failed to inspect WAL"))
    else if not io.exists
    then (reader, ok none)
    else if not io.can_open
    then (reader, err (io_error "failed to open WAL for read"))
    else read_record io open_reader
