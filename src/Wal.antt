-- ===== src/Wal.antt =====
-- include/wal.h and src/wal.cc: the write-ahead log. The children model the writer and the reader.
pub mod Writer
pub mod Reader
pub mod RoundTrip
pub mod TornTail
pub mod Atomic
pub mod Progress
use kv_mem.Prelude.{ℕ, ◌+◌, ◌%◌, ◌^◌, List, [], ◌∷◌, ◌++◌, length}
use kv_mem.Bytes.{Bytes}
use kv_mem.Format.Fixed.{encode_fixed32, encode_fixed64}
use kv_mem.Format.Crc.{crc32}
use kv_mem.WriteBatch.{WriteBatch, count}
use kv_mem.WriteBatch.Codec.{encode}

abbrev pub wal_batch_magic : ℕ
wal_batch_magic = 0x41574c4b

abbrev pub batch_header_without_magic_size : ℕ
batch_header_without_magic_size = 21

abbrev pub batch_checksum_offset : ℕ
batch_checksum_offset = 17

-- RecordType::kBatch
abbrev pub record_type_batch : ℕ
record_type_batch = 1

pub record WalBatchRecord : Type 0 where
  pub sequence : ℕ
  pub batch : WriteBatch

-- The header as AppendBatch builds it, without the magic and the checksum.
unfoldable pub wal_header : WriteBatch → ℕ → Bytes
wal_header batch sequence =
    record_type_batch
    ∷ (encode_fixed64 sequence
        ++ (encode_fixed32 (count batch % 2 ^ 32)
            ++ encode_fixed32 (length (encode batch) % 2 ^ 32)))

-- The four pieces that AppendBatch writes, one after the other.
unfoldable pub wal_record : WriteBatch → ℕ → Bytes
wal_record batch sequence =
    let header = wal_header batch sequence in
    let payload = encode batch in
    encode_fixed32 wal_batch_magic
    ++ (header ++ (encode_fixed32 (crc32 (header ++ payload)) ++ payload))
