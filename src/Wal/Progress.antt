-- ===== src/Wal/Progress.antt =====
-- What ReadNext of src/wal.cc does to the position of the stream when it returns a record: it moves
-- on inside the file, so a loop over the records ends.
use kv_mem.Prelude.{
  ℕ, ◌+◌, ◌<◌, ◌≤◌, ◌≡◌, ◌∙◌, refl, true, not, none, some, ◌⊎◌, inl, inr, length, take, drop, ltb,
  ◌==◌, length-drop, Bool-cases, arith,
}
use kv_mem.Bytes.{Bytes}
use kv_mem.Status.{Error, ok, err, ◌>>◌, >>=-eq-ok, Result-cases}
use kv_mem.Format.Fixed.{decode_fixed32}
use kv_mem.Wal.{WalBatchRecord, wal_batch_magic, batch_header_without_magic_size}
use kv_mem.Wal.Reader.{
  WalReader, ReadIo, ReadEvent, reads, fails_after, at_eof, check_header, gcount,
  truncate_torn_tail, short_read, read_payload, read_batch_record, read_record, read_next,
}

-- The stream is open on the same file, further on, and not behind its end.
pub record Moves (reader after : WalReader) : Type 0 where
  pub is_open : after.opened ≡ true
  pub same : after.contents ≡ reader.contents
  pub further : reader.position < after.position
  pub inside : after.position ≤ length reader.contents

gcount-le : (event : ReadEvent) (n : ℕ) (rest : Bytes) → gcount event n rest ≤ length rest
unfolding gcount
gcount-le reads n rest = omega arith
gcount-le (fails_after k) n rest = omega arith

-- A tail that is cut off and a read that came short return no record.
truncate_torn_tail-none :
    (io : ReadIo) (reader : WalReader) (offset : ℕ) (found : WalBatchRecord)
    → (truncate_torn_tail io reader offset).1 ≡ ok (some found)
    → ⊥
unfolding truncate_torn_tail
truncate_torn_tail-none io reader offset found h = elim (Bool-cases (not io.resized)) [
  | inl failed ↦ let e = simp failed at h in cc
  | inr resized ↦
      let cut : (io.fsync_file >> (io.fsync_directory >> ok none)) ≡ ok (some found) =
        simp resized at h in
      let (u, first, more) = >>=-eq-ok io.fsync_file _ cut in
      let (v, second, last) = >>=-eq-ok io.fsync_directory _ more in cc
]

short_read-none :
    (event : ReadEvent) (e : Error) (io : ReadIo) (reader : WalReader) (offset : ℕ)
    (found : WalBatchRecord)
    → (short_read event (err e) io reader offset).1 ≡ ok (some found)
    → ⊥
unfolding short_read
short_read-none event e io reader offset found h = elim (Bool-cases (not (at_eof event))) [
  | inl failed ↦ let shown = simp failed at h in cc
  | inr ended ↦ truncate_torn_tail-none io reader offset found (simp ended at h)
]

read_payload-Moves :
    (io : ReadIo) (reader : WalReader) (offset : ℕ) (header : Bytes) (found : WalBatchRecord)
    → (read_payload io reader offset header).1 ≡ ok (some found)
    → reader.position ≤ length reader.contents
    → let after = (read_payload io reader offset header).0 in
      (after.opened ≡ reader.opened)
      × (after.contents ≡ reader.contents)
      × (reader.position ≤ after.position)
      × (after.position ≤ length reader.contents)
unfolding read_payload
read_payload-Moves io reader offset header found h inside =
    let rest = drop reader.position reader.contents in
    let n = decode_fixed32 (drop 13 header) in
    elim (Bool-cases (not io.has_size)) [
      | inl failed ↦ let e = simp failed at h in cc
      | inr has_size ↦ elim (Bool-cases (ltb (length rest) n)) [
        | inl beyond ↦
            absurd (truncate_torn_tail-none io reader offset found (simp (has_size, beyond) at h))
        | inr room ↦ elim (Bool-cases (ltb (gcount io.payload_read n rest) n)) [
          | inl short ↦ absurd (
              short_read-none io.payload_read _ io reader offset found
                (simp (has_size, room, short) at h))
          | inr whole ↦
              let left = length-drop reader.position reader.contents in
              simp (has_size, room, whole) (refl, refl, omega arith, ground arith)
        ]
      ]
    ]

read_batch_record-Moves :
    (io : ReadIo) (reader : WalReader) (offset : ℕ) (found : WalBatchRecord)
    → (read_batch_record io reader offset).1 ≡ ok (some found)
    → reader.opened ≡ true
    → Moves reader (read_batch_record io reader offset).0
unfolding read_batch_record
read_batch_record-Moves io reader offset found h is_open =
    let size = batch_header_without_magic_size in
    let rest = drop reader.position reader.contents in
    let after = record reader { position = reader.position + size } in
    elim (Bool-cases (ltb (gcount io.header_read size rest) size)) [
      | inl short ↦
          absurd (short_read-none io.header_read _ io reader offset found (simp short at h))
      | inr whole ↦ elim (Result-cases (check_header (take size rest))) [
        | inr (e, bad) ↦ let shown = simp (whole, bad) at h in cc
        | inl (u, good) ↦
            let left = length-drop reader.position reader.contents in
            let read = gcount-le io.header_read size rest in
            let inside : reader.position + size ≤ length reader.contents = ground arith in
            let moved =
              read_payload-Moves io after offset (take size rest) found (simp (whole, good) at h)
                inside in
            simp (whole, good)
              (record {
                is_open = moved.0 ∙ is_open;
                same = moved.1;
                further = omega (arith, moved.2);
                inside = moved.3;
              })
      ]
    ]

read_record-Moves :
    (io : ReadIo) (reader : WalReader) (found : WalBatchRecord)
    → (read_record io reader).1 ≡ ok (some found)
    → reader.opened ≡ true
    → Moves reader (read_record io reader).0
unfolding read_record
read_record-Moves io reader found h is_open =
    let rest = drop reader.position reader.contents in
    let count = gcount io.prefix_read 4 rest in
    let after = record reader { position = reader.position + 4 } in
    elim (Bool-cases (not io.has_position)) [
      | inl failed ↦ let e = simp failed at h in cc
      | inr told ↦ elim (Bool-cases (count == 0)) [
        | inl ended ↦ let e = simp (told, ended) at h in cc
        | inr more ↦ elim (Bool-cases (ltb count 4)) [
          | inl short ↦ absurd (
              short_read-none io.prefix_read _ io reader reader.position found
                (simp (told, more, short) at h))
          | inr whole ↦ elim (Bool-cases (not (decode_fixed32 rest == wal_batch_magic))) [
            | inl wrong ↦ let e = simp (told, more, whole, wrong) at h in cc
            | inr right ↦
                let moved =
                  read_batch_record-Moves io after reader.position found
                    (simp (told, more, whole, right) at h) is_open in
                simp (told, more, whole, right)
                  (record {
                    is_open = moved.is_open;
                    same = moved.same;
                    further = omega (arith, moved.further);
                    inside = moved.inside;
                  })
          ]
        ]
      ]
    ]

-- ReadNext on an open stream, or on a new one.
pub read_next-Moves :
    (io : ReadIo) (reader : WalReader) (found : WalBatchRecord)
    → (read_next io reader).1 ≡ ok (some found)
    → ((reader.opened ≡ true) ⊎ (reader.position ≡ 0))
    → Moves reader (read_next io reader).0
unfolding read_next
read_next-Moves io reader found h start = elim (Bool-cases reader.opened) [
  | inl live ↦ simp live (read_record-Moves io reader found (simp live at h) live)
  | inr shut ↦
      let fresh = record reader { opened = true; position = 0 } in
      let at_zero : reader.position ≡ 0 = ground arith in
      elim (Bool-cases (not io.inspected)) [
        | inl failed ↦ let e = simp (shut, failed) at h in cc
        | inr looked ↦ elim (Bool-cases (not io.exists)) [
          | inl absent ↦ let e = simp (shut, looked, absent) at h in cc
          | inr there ↦ elim (Bool-cases (not io.can_open)) [
            | inl failed ↦ let e = simp (shut, looked, there, failed) at h in cc
            | inr opens ↦
                let moved =
                  read_record-Moves io fresh found (simp (shut, looked, there, opens) at h) refl in
                simp (shut, looked, there, opens)
                  (record {
                    is_open = moved.is_open;
                    same = moved.same;
                    further = omega (arith, at_zero, moved.further);
                    inside = moved.inside;
                  })
          ]
        ]
      ]
]
