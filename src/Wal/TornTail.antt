-- ===== src/Wal/TornTail.antt =====
-- A log that ends inside a record, as after a crash: ReadNext answers end of log and cuts the file
-- back to the last whole record.
use kv_mem.Prelude.{
  ℕ, ◌+◌, ◌-◌, ◌<◌, ◌≤◌, ◌≡◌, refl, ap, ap₂, sym, ◌∙◌, true, false, none, [], ◌∷◌, ◌++◌, length,
  length-append, length-take, take, drop, take_front, drop_front, drop-add, take_past,
  take_of_drop-nil, append_assoc, arith, ltb, ◌==◌, not_of_true, lt→ltb, lt-or-ge, inl, inr,
}
use kv_mem.Bytes.{Bytes}
use kv_mem.Status.{Status, ok}
use kv_mem.Format.Fixed.{encode_fixed32, decode_fixed32}
use kv_mem.Format.Fixed.RoundTrip.{decode-encode_fixed32, length-encode_fixed32}
use kv_mem.WriteBatch.{WriteBatch}
use kv_mem.WriteBatch.Codec.{encode}
use kv_mem.Wal.{wal_record, wal_batch_magic}
use kv_mem.Wal.Reader.{
  WalReader, ReadIo, ReadEvent, reads, ReadResult, gcount, at_eof, truncate_torn_tail, short_read,
  read_payload, read_batch_record, read_record, read_next,
}
use kv_mem.Wal.RoundTrip.{
  IsHealthy, IsRecordable, full_header, length-full_header, length-wal_record, whole_read,
  nonzero_of_whole, check_header-record, size_field, read_next_opened,
}

-- The end of the log, with the file cut back to `offset`.
record IsCutAt (offset : ℕ) (contents : Bytes) (r : ReadResult) : Type 0 where
  ended : r.1 ≡ ok none
  cut : r.0.contents ≡ take offset contents

truncate-IsCutAt :
    (io : ReadIo) (reader : WalReader) (offset : ℕ)
    → IsHealthy io
    → IsCutAt offset reader.contents (truncate_torn_tail io reader offset)
unfolding truncate_torn_tail
truncate-IsCutAt io reader offset healthy =
    rw (not_of_true healthy.resized)
      (record { ended = rw (healthy.fsync_file, healthy.fsync_directory); cut = refl })

short_read-IsCutAt :
    (event : ReadEvent) (error : Status) (io : ReadIo) (reader : WalReader) (offset : ℕ)
    → event ≡ reads
    → IsHealthy io
    → IsCutAt offset reader.contents (short_read event error io reader offset)
unfolding short_read at_eof
short_read-IsCutAt event error io reader offset e healthy =
    rw e (truncate-IsCutAt io reader offset healthy)

short_count :
    (event : ReadEvent) (n : ℕ) (rest : Bytes)
    → event ≡ reads
    → length rest < n
    → (ltb (gcount event n rest) n ≡ true) × (gcount event n rest ≡ length rest)
unfolding gcount
short_count event n rest e h = rw e (ground arith, ground arith)

-- The file ends inside the payload.
torn_payload :
    (io : ReadIo) (reader : WalReader) (offset : ℕ) (header : Bytes)
    → IsHealthy io
    → length (drop reader.position reader.contents) < decode_fixed32 (drop 13 header)
    → IsCutAt offset reader.contents (read_payload io reader offset header)
unfolding read_payload
torn_payload io reader offset header healthy h =
    rw (not_of_true healthy.has_size, lt→ltb _ _ h) (truncate-IsCutAt io reader offset healthy)

-- The file ends inside the header.
torn_header :
    (io : ReadIo) (reader : WalReader) (offset : ℕ)
    → IsHealthy io
    → length (drop reader.position reader.contents) < 21
    → IsCutAt offset reader.contents (read_batch_record io reader offset)
unfolding read_batch_record
torn_header io reader offset healthy h =
    rw ((short_count io.header_read 21 _ healthy.header_read h).0)
      (short_read-IsCutAt io.header_read _ io reader offset healthy.header_read healthy)

nil_of_length : (xs : Bytes) → length xs ≤ 0 → xs ≡ []
nil_of_length [] h = refl
nil_of_length (x ∷ xs) h = absurd (omega arith)

-- The file ends before or inside the magic.
torn_prefix :
    (io : ReadIo) (reader : WalReader)
    → IsHealthy io
    → length (drop reader.position reader.contents) < 4
    → IsCutAt reader.position reader.contents (read_record io reader)
unfolding read_record
torn_prefix io reader healthy h =
    let rest : Bytes = drop reader.position reader.contents in
    let (short, number) = short_count io.prefix_read 4 rest healthy.prefix_read h in
    elim (lt-or-ge 0 (length rest)) [
      | inl some_left ↦
          let filled : (gcount io.prefix_read 4 rest == 0) ≡ false = rw number (ground arith) in
          rw (not_of_true healthy.has_position, filled, short)
            (short_read-IsCutAt io.prefix_read _ io reader reader.position healthy.prefix_read
              healthy)
      | inr none_left ↦
          let at_end : (gcount io.prefix_read 4 rest == 0) ≡ true = rw number (ground arith) in
          rw (not_of_true healthy.has_position, at_end)
            (record {
              ended = refl;
              cut =
                  sym (
                    take_of_drop-nil reader.position reader.contents
                      (nil_of_length rest none_left));
            })
    ]

whole_record :
    (batch : WriteBatch) (sequence : ℕ)
    → wal_record batch sequence
      ≡ encode_fixed32 wal_batch_magic ++ (full_header batch sequence ++ encode batch)
unfolding wal_record
whole_record batch sequence = simp append_assoc

module _ (batch : WriteBatch) (sequence : ℕ) (r : IsRecordable batch sequence) (io : ReadIo)
    (healthy : IsHealthy io) where
  -- The header is whole, and `j` bytes of the payload are there.
  torn_after_header :
      (reader : WalReader) (offset j : ℕ)
      → j < length (encode batch)
      → drop reader.position reader.contents ≡ full_header batch sequence ++ take j (encode batch)
      → IsCutAt offset reader.contents (read_batch_record io reader offset)
  unfolding read_batch_record
  torn_after_header reader offset j h here =
      let header : Bytes = full_header batch sequence in
      let part : Bytes = take j (encode batch) in
      let whole : ltb (gcount io.header_read 21 (header ++ part)) 21 ≡ false =
        whole_read io.header_read 21 _ healthy.header_read
          (omega (arith, length-append header part, length-full_header batch sequence)) in
      let front : take 21 (header ++ part) ≡ header =
        take_front 21 header part (length-full_header batch sequence) in
      let after : WalReader = record reader { position = reader.position + 21 } in
      let left : drop after.position after.contents ≡ part =
        drop-add reader.position 21 reader.contents
        ∙ ap (drop 21) here
        ∙ drop_front 21 header part (length-full_header batch sequence) in
      rw (here, whole, front, check_header-record batch sequence r)
        (rw (here, front)
          (torn_payload io after offset header healthy
            (rw (left, size_field batch sequence r) (omega (arith, length-take j (encode batch))))))

  -- Past the magic, `m` more bytes of the record are there.
  torn_after_magic :
      (reader : WalReader) (offset m : ℕ)
      → m < 21 + length (encode batch)
      → drop reader.position reader.contents ≡ take m (full_header batch sequence ++ encode batch)
      → IsCutAt offset reader.contents (read_batch_record io reader offset)
  torn_after_magic reader offset m h here = elim (lt-or-ge m 21) [
    | inl short ↦
        torn_header io reader offset healthy
          (rw here (omega (arith, length-take m (full_header batch sequence ++ encode batch))))
    | inr past ↦
        let e : m ≡ length (full_header batch sequence) + (m - 21) =
          omega (arith, length-full_header batch sequence) in
        torn_after_header reader offset (m - 21) (omega arith) (
          here
          ∙ ap (λ n. take n (full_header batch sequence ++ encode batch)) e
          ∙ take_past (m - 21) (full_header batch sequence) (encode batch))
  ]

  -- Fewer than four bytes are there, or the magic and `n - 4` bytes more.
  torn_record :
      (reader : WalReader) (n : ℕ)
      → n < length (wal_record batch sequence)
      → drop reader.position reader.contents ≡ take n (wal_record batch sequence)
      → IsCutAt reader.position reader.contents (read_record io reader)
  unfolding read_record
  torn_record reader n h here = elim (lt-or-ge n 4) [
    | inl short ↦
        torn_prefix io reader healthy
          (rw here (omega (arith, length-take n (wal_record batch sequence))))
    | inr past ↦
        let m : Bytes = encode_fixed32 wal_batch_magic in
        let tail : Bytes = take (n - 4) (full_header batch sequence ++ encode batch) in
        let e : n ≡ length m + (n - 4) = omega (arith, length-encode_fixed32 wal_batch_magic) in
        let parts : drop reader.position reader.contents ≡ m ++ tail =
          here
          ∙ ap₂ take e (whole_record batch sequence)
          ∙ take_past (n - 4) m (full_header batch sequence ++ encode batch) in
        let after : WalReader = record reader { position = reader.position + 4 } in
        let left : drop after.position after.contents ≡ tail =
          drop-add reader.position 4 reader.contents
          ∙ ap (drop 4) parts
          ∙ drop_front 4 m tail (length-encode_fixed32 wal_batch_magic) in
        let whole : ltb (gcount io.prefix_read 4 (m ++ tail)) 4 ≡ false =
          whole_read io.prefix_read 4 _ healthy.prefix_read
            (omega (arith, length-append m tail, length-encode_fixed32 wal_batch_magic)) in
        rw
          (
            not_of_true healthy.has_position,
            parts,
            nonzero_of_whole (gcount io.prefix_read 4 (m ++ tail)) whole,
            whole,
            decode-encode_fixed32 wal_batch_magic tail (omega arith),
          )
          (torn_after_magic after reader.position (n - 4)
            (omega (arith, length-wal_record batch sequence)) left)
  ]

-- Nothing is left: the end of the log, and the file stays.
pub read_next_end :
    (io : ReadIo) (reader : WalReader)
    → IsHealthy io
    → reader.opened ≡ true
    → drop reader.position reader.contents ≡ []
    → ((read_next io reader).1 ≡ ok none)
      × ((read_next io reader).0.contents ≡ take reader.position reader.contents)
read_next_end io reader healthy is_open here =
    let result : IsCutAt reader.position reader.contents (read_record io reader) =
      torn_prefix io reader healthy (rw here (omega arith)) in
    rw (read_next_opened io reader is_open) (result.ended, result.cut)

-- The rest of the file, from the reader's position on, is a part of a record that AppendBatch wrote,
-- short of the whole record and possibly empty. ReadNext answers OK with end of log, and the file is
-- cut back to the reader's position: the torn record is gone, and what precedes it is kept.
pub read_next_torn :
    (io : ReadIo) (reader : WalReader) (batch : WriteBatch) (sequence n : ℕ)
    → IsHealthy io
    → IsRecordable batch sequence
    → reader.opened ≡ true
    → n < length (wal_record batch sequence)
    → drop reader.position reader.contents ≡ take n (wal_record batch sequence)
    → ((read_next io reader).1 ≡ ok none)
      × ((read_next io reader).0.contents ≡ take reader.position reader.contents)
read_next_torn io reader batch sequence n healthy r is_open h here =
    let result : IsCutAt reader.position reader.contents (read_record io reader) =
      torn_record batch sequence r io healthy reader n h here in
    rw (read_next_opened io reader is_open) (result.ended, result.cut)
