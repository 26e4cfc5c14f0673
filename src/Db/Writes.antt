-- ===== src/Db/Writes.antt =====
-- A run of calls of DB::Write in src/db.cc, and what it leaves in the log.
pub mod Append
pub mod Logging
pub mod Run
pub mod Recovered
use kv_mem.Prelude.{
  ℕ, suc, ◌+◌, ◌-◌, ◌<◌, ◌≤◌, Bool, true, false, ◌≡◌, refl, ap, ◌∙◌, ◌⊎◌, inl, inr, none, some,
  List, [], ◌∷◌, ◌++◌, length, take, ltb, ◌==◌, Bool-cases, if◌then◌else◌, arith,
}
use kv_mem.Bytes.{Bytes}
use kv_mem.Status.{Status, Result, Error, ok, err, io_error, is_invalid_argument, Result-cases}
use kv_mem.WriteBatch.{WriteBatch, Operation, IsWellFormed, count}
use kv_mem.Wal.{wal_record}
use kv_mem.Wal.Writer.{WalWriter}
use kv_mem.Wal.RoundTrip.{IsRecordable}
use kv_mem.Db.Store.{
  MemTableOps, Store, WriteIo, write, write_checked, check_write, validate_keys, apply_operation,
}
use kv_mem.Db.Recover.Log.{log_of, total, Acceptable, Ends, applied, apply_all}

-- An entry more is at most one more.
pub record MemTableLaws {M : Type 0} (ops : MemTableOps M) : Type 0 where
  pub size_empty : ops.size ops.empty ≡ 0
  pub size_put :
      (key : Bytes) (n : ℕ) (value : Bytes) (t : M)
      → ops.size (ops.put key n value t) ≤ ops.size t + 1
  pub size_delete :
      (key : Bytes) (n : ℕ) (t : M) → ops.size (ops.delete_key key n t) ≤ ops.size t + 1

-- The hook before the sync and fsync do not answer with InvalidArgument, which is kept for refused
-- requests.
pub record IsFair (io : WriteIo) : Type 0 where
  pub hook : is_invalid_argument io.append.before_sync ≡ false
  pub fsync : is_invalid_argument io.append.fsync_file ≡ false

abbrev pub Request : Type 0
Request = WriteIo × WriteBatch

-- What is asked of a request.
abbrev pub IsServed : Request → Type 0
IsServed (io, batch) = IsFair io × IsWellFormed batch

-- A batch that was not empty and whose write returned OK is acknowledged.
unfoldable pub acknowledge :
    {M : Type 0} → WriteBatch → Store M × List WriteBatch → Status → Store M × List WriteBatch
acknowledge batch (final, more) (err e) = (final, more)
acknowledge batch (final, more) (ok u) = (final, if count batch == 0 then more else batch ∷ more)

-- The requests in turn, and the acknowledged batches.
unfoldable pub write_all :
    {M : Type 0} → MemTableOps M → ℕ → List Request → Store M → Store M × List WriteBatch
unfolding acknowledge
write_all ops limit [] store = (store, [])
write_all ops limit ((io, batch) ∷ rest) store =
    let (after, status) = write ops io limit batch store in
    acknowledge batch (write_all ops limit rest after) status

-- The batches of requests.
unfoldable pub requested : List Request → ℕ
requested [] = 0
requested ((io, batch) ∷ rest) = count batch + requested rest

-- What the log may have behind the acknowledged batches: part of a record while no error is noted,
-- or one whole record whose write failed.
abbrev pub FailedRecord : Bytes → ℕ → Type 0
FailedRecord tail sequence =
    (batch : WriteBatch) × IsRecordable batch sequence
    × (validate_keys batch.operations ≡ ok tt)
    × (tail ≡ wal_record batch sequence)

-- The open store that logs from a sequence on: the log, the memtable and the manifest hold the same
-- batches, and something stands behind them only with a background error.
pub record IsLogging {M : Type 0} (ops : MemTableOps M) (first : ℕ) (store : Store M)
    (batches : List WriteBatch) (tail : Bytes) : Type 0 where
  pub logged : store.wal ≡ some (record { is_open = true; contents = log_of batches first ++ tail })
  pub table : store.active_memtable ≡ applied ops batches first ops.empty
  pub last : store.manifest.last_sequence + 1 ≡ first + total batches
  pub acceptable : Acceptable batches first
  pub clean : store.background_status ≡ ok tt → tail ≡ []
  pub behind : Ends tail (first + total batches) ⊎ FailedRecord tail (first + total batches)

-- Where a call of Write ends.
pub write-cases :
    {M : Type 0} (ops : MemTableOps M) (io : WriteIo) (limit : ℕ) (batch : WriteBatch)
    (store : Store M) (writer : WalWriter)
    → store.wal ≡ some writer
    → ((e : Error) × (write ops io limit batch store ≡ (store, err e)))
      ⊎ (((count batch == 0) ≡ true) × (write ops io limit batch store ≡ (store, ok tt)))
      ⊎ ((store.background_status ≡ ok tt)
          × ((count batch == 0) ≡ false)
          × (check_write ops batch store ≡ ok tt)
          × (write ops io limit batch store ≡ write_checked ops io limit batch writer store))
unfolding write
write-cases ops io limit batch store writer has = elim (Result-cases store.background_status) [
  | inr (e, noted) ↦ inl (e, simp (write, noted))
  | inl (u, healthy) ↦ elim (Bool-cases store.closed) [
    | inl shut ↦ inl (io_error "database is not open", simp (write, healthy, shut))
    | inr is_open ↦ elim (Bool-cases (count batch == 0)) [
      | inl nothing ↦ inr (inl (nothing, simp (write, healthy, is_open, has, nothing)))
      | inr filled ↦ elim (Result-cases (check_write ops batch store)) [
        | inr (e, refused) ↦ inl (e, simp (write, healthy, is_open, has, filled, refused))
        | inl (v, checked) ↦
            inr
              (inr (healthy, filled, checked, simp (write, healthy, is_open, has, filled, checked)))
      ]
    ]
  ]
]
