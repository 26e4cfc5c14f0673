-- ===== src/Db/Writes/Logging.antt =====
-- Each call of DB::Write keeps the log, the memtable and the manifest in step.
use kv_mem.Prelude.{
  ℕ, ◌+◌, ◌-◌, ◌<◌, ◌≤◌, true, false, ◌≡◌, refl, ap, ap₂, sym, ◌∙◌, ◌⊎◌, inl, inr, some, lt-or-ge,
  lt→ltb, Bool-cases, List, [], ◌∷◌, ◌++◌, append-nil, length, take, ltb, arith,
}
use kv_mem.Bytes.{Bytes}
use kv_mem.Status.{Error, ok, err, is_invalid_argument, Result-cases}
use kv_mem.WriteBatch.{WriteBatch, Operation, op_put, op_delete, count}
use kv_mem.Wal.{wal_record}
use kv_mem.Wal.Writer.{WalWriter}
use kv_mem.Wal.RoundTrip.{IsRecordable}
use kv_mem.Wal.Atomic.{take_beyond}
use kv_mem.Db.Store.{
  MemTableOps, Store, WriteIo, validate_keys, apply_operation, apply_operations,
  maybe_flush_mem_table, set_background_error, finish_write,
}
use kv_mem.Db.Recover.Log.{log_of, total, Ends, applied, apply_all}
use kv_mem.Db.Writes.{MemTableLaws, FailedRecord, IsLogging}
use kv_mem.Db.Writes.Append.{
  log_of-append, total-append, Acceptable-append, applied-append, apply_operations_ok,
}

-- What a failed append leaves of the store.
pub record IsNoted {M : Type 0} (store after : Store M) (written : WalWriter) : Type 0 where
  wal : after.wal ≡ some written
  table : after.active_memtable ≡ store.active_memtable
  manifest : after.manifest ≡ store.manifest

set_background_error-IsNoted :
    {M : Type 0} (e : Error) (store : Store M) (written : WalWriter)
    → IsNoted store (set_background_error (err e) (record store { wal = some written })) written
unfolding set_background_error
set_background_error-IsNoted e store written = elim (Result-cases store.background_status) [
  | inl (u, fine) ↦ record { wal = simp fine; table = simp fine; manifest = simp fine }
  | inr (old, noted) ↦ record { wal = simp noted; table = simp noted; manifest = simp noted }
]

set_background_error-noted :
    {M : Type 0} (e : Error) (store : Store M) (u : Unit {0})
    → (set_background_error (err e) store).background_status ≡ ok u
    → ⊥
unfolding set_background_error
set_background_error-noted e store u h = elim (Result-cases store.background_status) [
  | inl (v, fine) ↦ let k = simp (set_background_error, fine) at h in cc
  | inr (old, noted) ↦ let k = simp (set_background_error, noted) at h in cc
]

module _ {M : Type 0} (ops : MemTableOps M) (io : WriteIo) (limit : ℕ) (batch : WriteBatch)
    (store : Store M) where
  pub finish_write-IsNoted :
      (e : Error) (written : WalWriter)
      → IsNoted store (finish_write ops io limit batch store (written, err e)).0 written
  unfolding finish_write
  finish_write-IsNoted e written = elim (Bool-cases (is_invalid_argument {A = Unit {0}} (err e))) [
    | inl refused ↦ simp refused (record { wal = refl; table = refl; manifest = refl })
    | inr other ↦ simp other (set_background_error-IsNoted e store written)
  ]

  pub finish_write-err :
      (e : Error) (written : WalWriter)
      → (finish_write ops io limit batch store (written, err e)).1 ≡ err e
  unfolding finish_write
  finish_write-err e written = refl

  pub finish_write-noted :
      (e : Error) (written : WalWriter)
      → is_invalid_argument {A = Unit {0}} (err e) ≡ false
      → (finish_write ops io limit batch store (written, err e)).0.background_status ≡ ok tt
      → ⊥
  unfolding finish_write
  finish_write-noted e written other =
      simp other (set_background_error-noted e (record store { wal = some written }) tt)

module _ {M : Type 0} {ops : MemTableOps M} {first : ℕ} {batches : List WriteBatch}
    {store : Store M} where
  pub IsNoted-IsLogging :
      (after : Store M) (tail : Bytes)
      → IsLogging ops first store batches []
      → IsNoted store after (record { is_open = true; contents = log_of batches first ++ tail })
      → (after.background_status ≡ ok tt → tail ≡ [])
      → (Ends tail (first + total batches) ⊎ FailedRecord tail (first + total batches))
      → IsLogging ops first after batches tail
  IsNoted-IsLogging after tail l noted clean behind = record {
    logged = noted.wal;
    table = noted.table ∙ l.table;
    last = ap (λ m. m.last_sequence + 1) noted.manifest ∙ l.last;
    acceptable = l.acceptable;
    clean = clean;
    behind = behind;
  }

-- A part of the record, or all of it.
pub Ends-or-FailedRecord :
    (batch : WriteBatch) (n sequence : ℕ)
    → IsRecordable batch sequence
    → validate_keys batch.operations ≡ ok tt
    → let tail = take n (wal_record batch sequence) in
      Ends tail sequence ⊎ FailedRecord tail sequence
unfolding Ends
Ends-or-FailedRecord batch n sequence r valid =
    elim (lt-or-ge n (length (wal_record batch sequence))) [
      | inl short ↦ inl (inr (batch, n, r, short, refl))
      | inr past ↦ inr (batch, r, valid, take_beyond n (wal_record batch sequence) past)
    ]

pub Ends-nil : (sequence : ℕ) → Ends [] sequence
unfolding Ends
Ends-nil sequence = inl refl

size-apply_operation :
    {M : Type 0} (ops : MemTableOps M) (laws : MemTableLaws ops) (operation : Operation)
    (sequence : ℕ) (table : M)
    → ops.size (apply_operation ops operation sequence table) ≤ ops.size table + 1
unfolding apply_operation
size-apply_operation ops laws operation sequence table =
    elim operation.type
      as (λ t.
        ops.size (elim t [
          | op_put ↦ ops.put operation.key sequence operation.value table
          | op_delete ↦ ops.delete_key operation.key sequence table
        ])
        ≤ ops.size table + 1) [
          | op_put ↦ laws.size_put operation.key sequence operation.value table
          | op_delete ↦ laws.size_delete operation.key sequence table
        ]

size-apply_all :
    {M : Type 0} (ops : MemTableOps M) (laws : MemTableLaws ops) (operations : List Operation)
    (sequence : ℕ) (table : M)
    → ops.size (apply_all ops operations sequence table) ≤ ops.size table + length operations
unfolding apply_all
size-apply_all ops laws [] sequence table = omega arith
size-apply_all ops laws (operation ∷ rest) sequence table = omega (
  arith,
  size-apply_all ops laws rest (sequence + 1) (apply_operation ops operation sequence table),
  size-apply_operation ops laws operation sequence table,
)

size-applied :
    {M : Type 0} (ops : MemTableOps M) (laws : MemTableLaws ops) (batches : List WriteBatch)
    (sequence : ℕ) (table : M)
    → ops.size (applied ops batches sequence table) ≤ ops.size table + total batches
unfolding applied total count
size-applied ops laws [] sequence table = omega arith
size-applied ops laws (batch ∷ rest) sequence table = omega (
  arith,
  size-applied ops laws rest (sequence + length batch.operations)
      (apply_all ops batch.operations sequence table),
  size-apply_all ops laws batch.operations sequence table,
)

module _ {M : Type 0} (ops : MemTableOps M) (laws : MemTableLaws ops) (first : ℕ)
    (batches : List WriteBatch) (io : WriteIo) (limit : ℕ) (batch : WriteBatch) (store : Store M)
    (l : IsLogging ops first store batches []) (r : IsRecordable batch (first + total batches))
    (valid : validate_keys batch.operations ≡ ok tt) where
  unfoldable pub appended : Store M
  appended = record store {
    active_memtable = applied ops (batches ++ (batch ∷ [])) first ops.empty;
    manifest = record store.manifest { last_sequence = first + total batches + count batch - 1 };
    wal = some (record { is_open = true; contents = log_of (batches ++ (batch ∷ [])) first ++ [] });
  }

  pub appended-IsLogging : IsLogging ops first appended (batches ++ (batch ∷ [])) []
  unfolding appended
  appended-IsLogging =
      let filled = r.filled in
      let more = total-append batches batch in
      record {
        logged = refl;
        table = refl;
        last = omega arith;
        acceptable = Acceptable-append batches batch first l.acceptable r valid;
        clean = λ h. refl;
        behind = inl (Ends-nil _);
      }

  appended_by_operations :
      let bytes = wal_record batch (first + total batches) in
      let written : WalWriter = record {
        is_open = true;
        contents = log_of batches first ++ [] ++ bytes;
      } in
      apply_operations ops batch.operations
        (store.manifest.last_sequence + 1)
        (record store { wal = some written })
      ≡ appended
  unfolding appended count
  appended_by_operations =
      let bytes = wal_record batch (first + total batches) in
      let written : WalWriter = record {
        is_open = true;
        contents = log_of batches first ++ [] ++ bytes;
      } in
      let filled = r.filled in
      let room = r.in_range in
      let last = l.last in
      let next = store.manifest.last_sequence + 1 in
      apply_operations_ok ops batch.operations next (record store { wal = some written })
        (omega arith) refl
      ∙ ap
          (λ t. record store {
            active_memtable = t;
            manifest = record store.manifest { last_sequence = next + length batch.operations - 1 };
            wal = some written;
          })
          (ap₂ (apply_all ops batch.operations) l.last l.table
            ∙ sym (applied-append ops batches batch first ops.empty))
      ∙ ap₂
          (λ n c. record store {
            active_memtable = applied ops (batches ++ (batch ∷ [])) first ops.empty;
            manifest = record store.manifest { last_sequence = n };
            wal = some (record { is_open = true; contents = c });
          })
          (omega arith)
          (ap (λ (c : Bytes). c ++ bytes) (append-nil (log_of batches first))
            ∙ sym (log_of-append batches batch first)
            ∙ sym (append-nil (log_of (batches ++ (batch ∷ [])) first)))

  maybe_flush_below :
      (after : Store M)
      → ltb (ops.size after.active_memtable) limit ≡ true
      → maybe_flush_mem_table ops io limit after ≡ (after, ok tt)
  unfolding maybe_flush_mem_table
  maybe_flush_below after below = simp (maybe_flush_mem_table, below)

  pub finish_write-appended :
      total batches + count batch < limit
      → let bytes = wal_record batch (first + total batches) in
        let written : WalWriter = record {
          is_open = true;
          contents = log_of batches first ++ [] ++ bytes;
        } in
        finish_write ops io limit batch store (written, ok tt) ≡ (appended, ok tt)
  unfolding finish_write appended
  finish_write-appended room =
      let empty = laws.size_empty in
      let size = size-applied ops laws (batches ++ (batch ∷ [])) first ops.empty in
      let more = total-append batches batch in
      ap (maybe_flush_mem_table ops io limit) appended_by_operations
      ∙ maybe_flush_below appended (
          lt→ltb (ops.size (applied ops (batches ++ (batch ∷ [])) first ops.empty)) limit
            (omega arith))
