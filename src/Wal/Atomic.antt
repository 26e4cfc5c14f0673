-- ===== src/Wal/Atomic.antt =====
-- One append, whatever the file system answers, followed by a crash and a restart: the log holds the
-- batch whole or not at all.
use kv_mem.Prelude.{
  ℕ, zero, suc, ◌<◌, ◌≤◌, ◌≡◌, refl, ap, sym, ◌∙◌, true, false, none, some, [], ◌∷◌, ◌++◌, length,
  take, drop, drop_front, take_front, append-nil, arith, ◌==◌, lt-or-ge, inl, inr, ◌⊎◌,
  Option-cases,
}
use kv_mem.Bytes.{Bytes, IsU64}
use kv_mem.Status.{Error, ok, err, Result-cases}
use kv_mem.WriteBatch.{WriteBatch, IsWellFormed, count}
use kv_mem.Wal.{wal_record}
use kv_mem.Wal.Writer.{WalWriter, AppendIo, check_append, write_record, append_batch}
use kv_mem.Wal.Reader.{WalReader, ReadIo, read_next}
use kv_mem.Wal.RoundTrip.{IsHealthy, IsRecordable, read_next-record}
use kv_mem.Wal.TornTail.{read_next_torn, read_next_end}

-- What the checks of AppendBatch establish.
pub check_append-IsRecordable :
    (writer : WalWriter) (batch : WriteBatch) (sequence : ℕ)
    → IsWellFormed batch
    → IsU64 sequence
    → (count batch == 0) ≡ false
    → check_append writer batch sequence ≡ ok tt
    → IsRecordable batch sequence
unfolding check_append
check_append-IsRecordable writer batch sequence w fits filled h = record {
  valid = ground arith;
  well_formed = w;
  filled = ground arith;
  positive = ground arith;
  in_range = ground arith;
}

-- A prefix of the record, at least, was put behind the old contents.
abbrev pub Landed : Bytes → Bytes → Bytes → Type 0
Landed old bytes new = (n : ℕ) × (new ≡ old ++ take n bytes)

take_all : (xs : Bytes) → take (length xs) xs ≡ xs
take_all [] = refl
take_all (x ∷ xs) = ap (◌∷◌ x) (take_all xs)

pub write_record-Landed :
    (io : AppendIo) (writer : WalWriter) (bytes : Bytes)
    → Landed writer.contents bytes (write_record io writer bytes).0.contents
unfolding write_record
write_record-Landed io writer bytes = elim (Option-cases io.failed_after) [
  | inl whole ↦ (length bytes, rw (whole, take_all bytes))
  | inr (n, cut) ↦ (n, rw cut)
]

-- A write that is not cut short leaves the whole record.
pub write_record_ok :
    (io : AppendIo) (writer : WalWriter) (bytes : Bytes)
    → (write_record io writer bytes).1 ≡ ok tt
    → (write_record io writer bytes).0.contents ≡ writer.contents ++ bytes
unfolding write_record
write_record_ok io writer bytes h = ground arith

pub take_beyond : (n : ℕ) (xs : Bytes) → length xs ≤ n → take n xs ≡ xs
take_beyond zero [] h = refl
take_beyond zero (x ∷ xs) h = absurd (omega arith)
take_beyond (suc n) [] h = refl
take_beyond (suc n) (x ∷ xs) h = ap (◌∷◌ x) (take_beyond n xs (omega arith))

-- A reader that stands where the old log ended.
abbrev pub at_old_end : Bytes → Bytes → WalReader
at_old_end old contents = record { opened = true; contents = contents; position = length old }

-- The batch is read back and the file stays, or the log ends and the file is the old one.
abbrev pub WholeOrNothing : ReadIo → WriteBatch → ℕ → Bytes → Bytes → Type 0
WholeOrNothing io batch sequence old new =
    let (after, result) = read_next io (at_old_end old new) in
    ((result ≡ ok (some (record { sequence = sequence; batch = batch }))) × (after.contents ≡ new))
    ⊎ ((result ≡ ok none) × (after.contents ≡ old))

take_old : (old bytes : Bytes) → take (length old) (old ++ bytes) ≡ old
take_old old bytes = take_front (length old) old bytes refl

drop_old : (old bytes : Bytes) → drop (length old) (old ++ bytes) ≡ bytes
drop_old old bytes = drop_front (length old) old bytes refl

whole_record :
    (io : ReadIo) (batch : WriteBatch) (sequence : ℕ) (old : Bytes)
    → IsHealthy io
    → IsRecordable batch sequence
    → let (after, result) = read_next io (at_old_end old (old ++ wal_record batch sequence)) in
      (result ≡ ok (some (record { sequence = sequence; batch = batch })))
      × (after.contents ≡ old ++ wal_record batch sequence)
whole_record io batch sequence old healthy r =
    let bytes : Bytes = wal_record batch sequence in
    let read =
      read_next-record io (at_old_end old (old ++ bytes)) batch sequence [] healthy r refl
        (drop_old old bytes ∙ sym (append-nil bytes)) in
    (read.0, read.2)

Landed-WholeOrNothing :
    (io : ReadIo) (batch : WriteBatch) (sequence : ℕ) (old new : Bytes)
    → IsHealthy io
    → IsRecordable batch sequence
    → Landed old (wal_record batch sequence) new
    → WholeOrNothing io batch sequence old new
Landed-WholeOrNothing io batch sequence old new healthy r (n, e) =
    let bytes : Bytes = wal_record batch sequence in
    elim (lt-or-ge n (length bytes)) [
      | inl short ↦ rw e (
          let torn =
            read_next_torn io (at_old_end old (old ++ take n bytes)) batch sequence n healthy r refl
              short (drop_old old (take n bytes)) in
          inr (torn.0, torn.1 ∙ take_old old (take n bytes)))
      | inr past ↦
          rw (e, take_beyond n bytes past) (inl (whole_record io batch sequence old healthy r))
    ]

nothing_landed :
    (io : ReadIo) (batch : WriteBatch) (sequence : ℕ) (old : Bytes)
    → IsHealthy io
    → WholeOrNothing io batch sequence old old
nothing_landed io batch sequence old healthy =
    let at_end : drop (length old) old ≡ [] =
      ap (drop (length old)) (sym (append-nil old)) ∙ drop_old old [] in
    let ended = read_next_end io (at_old_end old old) healthy refl at_end in
    inr (ended.0, ended.1 ∙ take_beyond (length old) old (omega arith))

pub append_batch_checked :
    (io : AppendIo) (writer : WalWriter) (batch : WriteBatch) (sequence : ℕ)
    → (count batch == 0) ≡ false
    → check_append writer batch sequence ≡ ok tt
    → append_batch io writer batch sequence ≡ write_record io writer (wal_record batch sequence)
unfolding append_batch
append_batch_checked io writer batch sequence filled h = rw (filled, h)

pub append_batch_refused :
    (io : AppendIo) (writer : WalWriter) (batch : WriteBatch) (sequence : ℕ) (e : Error)
    → (count batch == 0) ≡ false
    → check_append writer batch sequence ≡ err e
    → append_batch io writer batch sequence ≡ (writer, err e)
unfolding append_batch
append_batch_refused io writer batch sequence e filled h = rw (filled, h)

-- A batch that is not empty is appended to a log, and whatever the stream, the hook and fsync answer,
-- the file is then read from where the old log ended: the reader returns the batch whole with its
-- sequence, or it finds the end of the log and cuts the file back to the old one. Where the append
-- returned OK, the reader returns the batch.
pub append_batch_atomic :
    (io : AppendIo) (writer : WalWriter) (batch : WriteBatch) (sequence : ℕ) (rio : ReadIo)
    → IsHealthy rio
    → IsWellFormed batch
    → IsU64 sequence
    → 0 < count batch
    → let (after, status) = append_batch io writer batch sequence in
      WholeOrNothing rio batch sequence writer.contents after.contents
      × (status ≡ ok tt
          → (read_next rio (at_old_end writer.contents after.contents)).1
            ≡ ok (some (record { sequence = sequence; batch = batch })))
append_batch_atomic io writer batch sequence rio healthy w fits filled =
    let full : (count batch == 0) ≡ false = ground arith in
    let bytes : Bytes = wal_record batch sequence in
    elim (Result-cases (check_append writer batch sequence)) [
      | inr (e, refused) ↦
          rw (append_batch_refused io writer batch sequence e full refused)
            (nothing_landed rio batch sequence writer.contents healthy, λ h. cc)
      | inl (u, checked) ↦
          let r : IsRecordable batch sequence =
            check_append-IsRecordable writer batch sequence w fits full checked in
          rw (append_batch_checked io writer batch sequence full checked) (
            Landed-WholeOrNothing rio batch sequence writer.contents _ healthy r
                (write_record-Landed io writer bytes),
            λ h.
                rw (write_record_ok io writer bytes h)
                  (whole_record rio batch sequence writer.contents healthy r).0,
          )
    ]
