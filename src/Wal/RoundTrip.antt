-- ===== src/Wal/RoundTrip.antt =====
-- ReadNext gives back the batch and the sequence of a record that AppendBatch wrote.
use kv_mem.Prelude.{
  ℕ, ◌+◌, ◌-◌, ◌%◌, ◌^◌, ◌<◌, ◌≤◌, ◌≡◌, refl, ap, sym, ◌∙◌, true, false, some, [], ◌++◌, length,
  length-append, take, drop, take_front, drop_front, drop-add, append_assoc, append-nil, get_or,
  arith, ltb, ◌==◌, ==_refl, not_of_true,
}
use kv_mem.Bytes.{Bytes, IsU32, IsU64}
use kv_mem.Status.{ok}
use kv_mem.Format.Fixed.{encode_fixed32, encode_fixed64, decode_fixed32, decode_fixed64}
use kv_mem.Format.Fixed.RoundTrip.{
  decode-encode_fixed32, decode-encode_fixed64, length-encode_fixed32,
}
use kv_mem.Format.Crc.{crc32, crc32-IsU32}
use kv_mem.Format.InternalKey.{max_sequence}
use kv_mem.WriteBatch.{WriteBatch, IsWellFormed, count, validate_encoding}
use kv_mem.WriteBatch.Codec.{encode}
use kv_mem.WriteBatch.Size.{validate_encoding_iff, count-le-encode}
use kv_mem.WriteBatch.RoundTrip.{decode-encode}
use kv_mem.Wal.{wal_header, wal_record, wal_batch_magic}
use kv_mem.Wal.Reader.{
  WalReader, ReadIo, ReadEvent, reads, gcount, check_payload, check_header, read_payload,
  read_batch_record, read_record, read_next,
}

-- Every call of the file system does what it is asked.
pub record IsHealthy (io : ReadIo) : Type 0 where
  pub inspected : io.inspected ≡ true
  pub exists : io.exists ≡ true
  pub can_open : io.can_open ≡ true
  pub has_position : io.has_position ≡ true
  pub prefix_read : io.prefix_read ≡ reads
  pub header_read : io.header_read ≡ reads
  pub has_size : io.has_size ≡ true
  pub payload_read : io.payload_read ≡ reads
  pub resized : io.resized ≡ true
  pub fsync_file : io.fsync_file ≡ ok tt
  pub fsync_directory : io.fsync_directory ≡ ok tt

-- What AppendBatch requires of a batch and its first sequence, and the batch's own invariant.
pub record IsRecordable (batch : WriteBatch) (sequence : ℕ) : Type 0 where
  pub valid : validate_encoding batch ≡ ok tt
  pub well_formed : IsWellFormed batch
  pub filled : 0 < count batch
  pub positive : 0 < sequence
  pub in_range : sequence + (count batch - 1) ≤ max_sequence

-- A read that does not fail is whole where the file holds enough.
pub whole_read :
    (event : ReadEvent) (n : ℕ) (rest : Bytes)
    → event ≡ reads
    → n ≤ length rest
    → ltb (gcount event n rest) n ≡ false
unfolding gcount
whole_read event n rest e h = rw e (ground arith)

pub nonzero_of_whole : (n : ℕ) → ltb n 4 ≡ false → (n == 0) ≡ false
nonzero_of_whole n h = ground arith

-- The header with its checksum, as ReadBatchRecord reads it.
abbrev pub full_header : WriteBatch → ℕ → Bytes
full_header batch sequence =
    wal_header batch sequence ++ encode_fixed32 (crc32 (wal_header batch sequence ++ encode batch))

pub length-wal_header :
    (batch : WriteBatch) (sequence : ℕ) → length (wal_header batch sequence) ≡ 17
unfolding wal_header encode_fixed64 encode_fixed32
length-wal_header batch sequence = refl

pub length-full_header :
    (batch : WriteBatch) (sequence : ℕ) → length (full_header batch sequence) ≡ 21
length-full_header batch sequence = omega (
  arith,
  length-append (wal_header batch sequence)
      (encode_fixed32 (crc32 (wal_header batch sequence ++ encode batch))),
  length-wal_header batch sequence,
  length-encode_fixed32 (crc32 (wal_header batch sequence ++ encode batch)),
)

pub wal_record-parts :
    (batch : WriteBatch) (sequence : ℕ) (rest : Bytes)
    → wal_record batch sequence ++ rest
      ≡ encode_fixed32 wal_batch_magic ++ (full_header batch sequence ++ (encode batch ++ rest))
unfolding wal_record
wal_record-parts batch sequence rest = simp append_assoc

pub length-wal_record :
    (batch : WriteBatch) (sequence : ℕ)
    → length (wal_record batch sequence) ≡ 25 + length (encode batch)
unfolding wal_record
length-wal_record batch sequence =
    let header : Bytes = wal_header batch sequence in
    let crc : ℕ = crc32 (header ++ encode batch) in
    omega (
      arith,
      length-append (encode_fixed32 wal_batch_magic)
          (header ++ (encode_fixed32 crc ++ encode batch)),
      length-append header (encode_fixed32 crc ++ encode batch),
      length-append (encode_fixed32 crc) (encode batch),
      length-encode_fixed32 wal_batch_magic,
      length-encode_fixed32 crc,
      length-wal_header batch sequence,
    )

module _ (batch : WriteBatch) (sequence : ℕ) (r : IsRecordable batch sequence) where
  pub sizes : IsU64 sequence × IsU32 (count batch) × IsU32 (length (encode batch))
  unfolding count encode
  sizes =
      omega (
        arith,
        r.in_range,
        count-le-encode batch.operations,
        (validate_encoding_iff batch).0 r.valid,
      )

  sequence_field : decode_fixed64 (drop 1 (full_header batch sequence)) ≡ sequence
  unfolding wal_header
  sequence_field =
      rw
        (append_assoc (encode_fixed64 sequence)
          (encode_fixed32 (count batch % 2 ^ 32) ++ encode_fixed32 (length (encode batch) % 2 ^ 32))
          _)
        (decode-encode_fixed64 sequence _ sizes.0)

  count_field : decode_fixed32 (drop 9 (full_header batch sequence)) ≡ count batch
  unfolding wal_header encode_fixed64
  count_field =
      let e : count batch % 2 ^ 32 ≡ count batch = omega (arith, sizes) in
      rw e (rw append_assoc (decode-encode_fixed32 (count batch) _ sizes.1))

  pub size_field : decode_fixed32 (drop 13 (full_header batch sequence)) ≡ length (encode batch)
  unfolding wal_header encode_fixed64 encode_fixed32
  size_field =
      let e : length (encode batch) % 2 ^ 32 ≡ length (encode batch) = omega (arith, sizes) in
      rw e (decode-encode_fixed32 (length (encode batch)) _ sizes.2)

  crc_field :
      decode_fixed32 (drop 17 (full_header batch sequence))
      ≡ crc32 (wal_header batch sequence ++ encode batch)
  crc_field =
      let crc : ℕ = crc32 (wal_header batch sequence ++ encode batch) in
      rw
        (drop_front 17 (wal_header batch sequence) (encode_fixed32 crc)
          (length-wal_header batch sequence))
        (ap decode_fixed32 (sym (append-nil (encode_fixed32 crc)))
          ∙ decode-encode_fixed32 crc [] (crc32-IsU32 _))

  type_field : get_or (full_header batch sequence) 0 0 ≡ 1
  unfolding wal_header
  type_field = refl

  pub check_header-record : check_header (full_header batch sequence) ≡ ok tt
  unfolding check_header
  check_header-record =
      rw (type_field, count_field, sequence_field)
        (ground (arith, r.in_range, r.filled, r.positive))

  check_payload-record :
      check_payload (full_header batch sequence) (encode batch)
      ≡ ok (some (record { sequence = sequence; batch = batch }))
  unfolding check_payload
  check_payload-record = rw (
    take_front 17 (wal_header batch sequence) _ (length-wal_header batch sequence),
    crc_field,
    ==_refl,
    decode-encode batch r.valid r.well_formed,
    count_field,
    ==_refl,
    sequence_field,
  )

  module _ (io : ReadIo) (healthy : IsHealthy io) (reader : WalReader) (rest : Bytes) where
    read_payload-record :
        (record_offset : ℕ)
        → drop reader.position reader.contents ≡ encode batch ++ rest
        → read_payload io reader record_offset (full_header batch sequence) ≡ (
          record reader { position = reader.position + length (encode batch) },
          ok (some (record { sequence = sequence; batch = batch })),
        )
    unfolding read_payload
    read_payload-record record_offset here =
        let n : ℕ = length (encode batch) in
        let size : length (encode batch ++ rest) ≡ n + length rest =
          length-append (encode batch) rest in
        let held : ltb (length (encode batch ++ rest)) n ≡ false = ground (arith, size) in
        let whole : ltb (gcount io.payload_read n (encode batch ++ rest)) n ≡ false =
          whole_read io.payload_read n _ healthy.payload_read (omega (arith, size)) in
        rw (
          not_of_true healthy.has_size,
          size_field,
          here,
          held,
          whole,
          take_front n (encode batch) rest refl,
          check_payload-record,
        )

    read_batch_record-record :
        (record_offset : ℕ)
        → drop reader.position reader.contents
          ≡ full_header batch sequence ++ (encode batch ++ rest)
        → read_batch_record io reader record_offset
          ≡ read_payload io
              (record reader { position = reader.position + 21 })
              record_offset
              (full_header batch sequence)
    unfolding read_batch_record
    read_batch_record-record record_offset here =
        let header : Bytes = full_header batch sequence in
        let size : length (header ++ (encode batch ++ rest)) ≡ 21 + length (encode batch ++ rest) =
          omega (
            arith,
            length-append header (encode batch ++ rest),
            length-full_header batch sequence,
          ) in
        let whole : ltb (gcount io.header_read 21 (header ++ (encode batch ++ rest))) 21 ≡ false =
          whole_read io.header_read 21 _ healthy.header_read (omega (arith, size)) in
        let front : take 21 (header ++ (encode batch ++ rest)) ≡ header =
          take_front 21 header (encode batch ++ rest) (length-full_header batch sequence) in
        rw (here, whole, front, check_header-record) (rw (here, front))

  module _ (io : ReadIo) (healthy : IsHealthy io) (reader : WalReader) (rest : Bytes) where
    read_record-record :
        drop reader.position reader.contents ≡ wal_record batch sequence ++ rest
        → read_record io reader ≡ (
          record reader { position = reader.position + 4 + 21 + length (encode batch) },
          ok (some (record { sequence = sequence; batch = batch })),
        )
    unfolding read_record
    read_record-record here =
        let m : Bytes = encode_fixed32 wal_batch_magic in
        let tail : Bytes = full_header batch sequence ++ (encode batch ++ rest) in
        let parts : drop reader.position reader.contents ≡ m ++ tail =
          here ∙ wal_record-parts batch sequence rest in
        let size : length (m ++ tail) ≡ 4 + length tail =
          omega (arith, length-append m tail, length-encode_fixed32 wal_batch_magic) in
        let after : WalReader = record reader { position = reader.position + 4 } in
        let next : drop after.position after.contents ≡ tail =
          drop-add reader.position 4 reader.contents
          ∙ ap (drop 4) parts
          ∙ drop_front 4 m tail (length-encode_fixed32 wal_batch_magic) in
        let payload : drop (reader.position + 4 + 21) reader.contents ≡ encode batch ++ rest =
          drop-add (reader.position + 4) 21 reader.contents
          ∙ ap (drop 21) next
          ∙ drop_front 21 (full_header batch sequence) _ (length-full_header batch sequence) in
        let whole : ltb (gcount io.prefix_read 4 (m ++ tail)) 4 ≡ false =
          whole_read io.prefix_read 4 _ healthy.prefix_read (omega (arith, size)) in
        rw
          (
            not_of_true healthy.has_position,
            parts,
            nonzero_of_whole (gcount io.prefix_read 4 (m ++ tail)) whole,
            whole,
            decode-encode_fixed32 wal_batch_magic tail (omega arith),
          )
          (read_batch_record-record io healthy after rest reader.position next
            ∙ read_payload-record io healthy (record reader { position = reader.position + 4 + 21 })
                rest reader.position payload)

pub read_next_opened :
    (io : ReadIo) (reader : WalReader)
    → reader.opened ≡ true
    → read_next io reader ≡ read_record io reader
unfolding read_next
read_next_opened io reader e = ground arith

-- The first call opens the file at its beginning.
pub read_next_first :
    (io : ReadIo) (contents : Bytes)
    → IsHealthy io
    → read_next io (record { opened = false; contents = contents; position = 0 })
      ≡ read_next io (record { opened = true; contents = contents; position = 0 })
unfolding read_next
read_next_first io contents healthy =
    rw (not_of_true healthy.inspected, not_of_true healthy.exists, not_of_true healthy.can_open)

-- The reader stands at a record that AppendBatch wrote, whatever follows it: ReadNext returns its
-- batch and sequence and moves on to what follows. The file stays as it is.
pub read_next-record :
    (io : ReadIo) (reader : WalReader) (batch : WriteBatch) (sequence : ℕ) (rest : Bytes)
    → IsHealthy io
    → IsRecordable batch sequence
    → reader.opened ≡ true
    → drop reader.position reader.contents ≡ wal_record batch sequence ++ rest
    → let (after, result) = read_next io reader in
      (result ≡ ok (some (record { sequence = sequence; batch = batch })))
      × (drop after.position after.contents ≡ rest)
      × (after.contents ≡ reader.contents)
      × (after.opened ≡ true)
read_next-record io reader batch sequence rest healthy r is_open here =
    let record_size : length (wal_record batch sequence) ≡ 25 + length (encode batch) =
      length-wal_record batch sequence in
    let next : drop (reader.position + 4 + 21 + length (encode batch)) reader.contents ≡ rest =
      ap (λ n. drop n reader.contents)
        (let e : reader.position + 4 + 21 + length (encode batch)
              ≡ reader.position + length (wal_record batch sequence) =
            omega (arith, record_size) in
          e)
      ∙ drop-add reader.position _ reader.contents
      ∙ ap (drop (length (wal_record batch sequence))) here
      ∙ drop_front _ (wal_record batch sequence) rest refl in
    rw
      (
        read_next_opened io reader is_open,
        read_record-record batch sequence r io healthy reader rest here,
      )
      (refl, next, refl, is_open)
