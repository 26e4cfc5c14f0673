-- ===== src/Db/Writes/Append.antt =====
-- One call of DB::Write that reaches the append.
use kv_mem.Prelude.{
  ℕ, ◌+◌, ◌-◌, ◌^◌, ◌<◌, ◌≤◌, false, ◌≡◌, refl, ap, sym, subst, ◌∙◌, ◌⊎◌, inl, inr, Option-cases,
  List, [], ◌∷◌, ◌++◌, append_assoc, append-nil, length, take, ◌==◌, arith,
}
use kv_mem.Bytes.{Bytes, IsU64}
use kv_mem.Status.{Status, Error, ok, err, io_error, is_invalid_argument, Result-cases}
use kv_mem.WriteBatch.{WriteBatch, Operation, IsWellFormed, count}
use kv_mem.Wal.{wal_record}
use kv_mem.Wal.Writer.{WalWriter, append_batch, check_append, write_record}
use kv_mem.Wal.RoundTrip.{IsRecordable}
use kv_mem.Wal.Atomic.{check_append-IsRecordable, append_batch_checked, append_batch_refused}
use kv_mem.Db.Store.{
  MemTableOps, Store, WriteIo, write_checked, check_write, validate_keys, apply_operation,
  apply_operations, finish_write,
}
use kv_mem.Db.Recover.Log.{log_of, total, Acceptable, applied, apply_all}
use kv_mem.Db.Writes.{IsFair}

-- One more batch behind the others.
pub log_of-append :
    (batches : List WriteBatch) (batch : WriteBatch) (first : ℕ)
    → log_of (batches ++ (batch ∷ [])) first
      ≡ log_of batches first ++ wal_record batch (first + total batches)
unfolding log_of total
log_of-append [] batch first = append-nil _ ∙ ap (wal_record batch) (omega arith)
log_of-append (b ∷ rest) batch first =
    ap (◌++◌ (wal_record b first)) (log_of-append rest batch (first + count b))
    ∙ sym (append_assoc (wal_record b first) (log_of rest (first + count b)) _)
    ∙ ap (λ n. wal_record b first ++ log_of rest (first + count b) ++ wal_record batch n)
        (omega arith)

pub total-append :
    (batches : List WriteBatch) (batch : WriteBatch)
    → total (batches ++ (batch ∷ [])) ≡ total batches + count batch
unfolding total
total-append [] batch = omega arith
total-append (b ∷ rest) batch = omega (arith, total-append rest batch)

pub Acceptable-append :
    (batches : List WriteBatch) (batch : WriteBatch) (first : ℕ)
    → Acceptable batches first
    → IsRecordable batch (first + total batches)
    → validate_keys batch.operations ≡ ok tt
    → Acceptable (batches ++ (batch ∷ [])) first
unfolding Acceptable total
Acceptable-append [] batch first a r valid = (subst (IsRecordable batch) (omega arith) r, valid, tt)
Acceptable-append (b ∷ rest) batch first a r valid = (
  a.0,
  a.1,
  Acceptable-append rest batch (first + count b) a.2 (subst (IsRecordable batch) (omega arith) r)
      valid,
)

module _ {M : Type 0} (ops : MemTableOps M) where
  pub applied-append :
      (batches : List WriteBatch) (batch : WriteBatch) (first : ℕ) (table : M)
      → applied ops (batches ++ (batch ∷ [])) first table
        ≡ apply_all ops batch.operations (first + total batches) (applied ops batches first table)
  unfolding applied total
  applied-append [] batch first table =
      ap (λ n. apply_all ops batch.operations n table) (omega arith)
  applied-append (b ∷ rest) batch first table =
      applied-append rest batch (first + count b) (apply_all ops b.operations first table)
      ∙ ap
          (λ n.
            apply_all ops batch.operations n
              (applied ops rest (first + count b) (apply_all ops b.operations first table)))
          (omega arith)

  pub apply_operations_ok :
      (operations : List Operation) (sequence : ℕ) (store : Store M)
      → sequence + length operations ≤ 2 ^ 64
      → sequence ≡ store.manifest.last_sequence + 1
      → apply_operations ops operations sequence store ≡ record store {
        active_memtable = apply_all ops operations sequence store.active_memtable;
        manifest = record store.manifest { last_sequence = sequence + length operations - 1 };
      }
  unfolding apply_operations apply_all
  apply_operations_ok [] sequence store fits next =
      ap (λ n. record store { manifest = record store.manifest { last_sequence = n } })
        (omega arith)
  apply_operations_ok (operation ∷ []) sequence store fits next =
      ap
        (λ n. record store {
          active_memtable = apply_operation ops operation sequence store.active_memtable;
          manifest = record store.manifest { last_sequence = n };
        })
        (omega arith)
  apply_operations_ok (operation ∷ second ∷ rest) sequence store fits next =
      let after = record store {
        active_memtable = apply_operation ops operation sequence store.active_memtable;
        manifest = record store.manifest { last_sequence = sequence };
      } in
      ap (λ n. apply_operations ops (second ∷ rest) n after) (omega arith)
      ∙ apply_operations_ok (second ∷ rest) (sequence + 1) after (omega arith) refl
      ∙ ap
          (λ n. record store {
            active_memtable =
                apply_all ops (operation ∷ second ∷ rest) sequence store.active_memtable;
            manifest = record store.manifest { last_sequence = n };
          })
          (omega arith)

take_all : (xs : Bytes) → take (length xs) xs ≡ xs
take_all [] = refl
take_all (x ∷ xs) = ap (◌∷◌ x) (take_all xs)

write_record-cases :
    (io : WriteIo) (writer : WalWriter) (bytes : Bytes)
    → IsFair io
    → ((n : ℕ) × (e : Error) × (is_invalid_argument {A = Unit {0}} (err e) ≡ false)
        × (write_record io.append writer bytes
            ≡ (record writer { contents = writer.contents ++ take n bytes }, err e)))
      ⊎ (write_record io.append writer bytes
          ≡ (record writer { contents = writer.contents ++ bytes }, ok tt))
unfolding write_record is_invalid_argument
write_record-cases io writer bytes fair = elim (Option-cases io.append.failed_after) [
  | inr (n, cut) ↦
      inl (n, io_error "failed to append WAL batch record", refl, rw (write_record, cut))
  | inl whole ↦ elim (Result-cases io.append.before_sync) [
    | inr (e, failed) ↦ inl (
      length bytes,
      e,
      subst (λ s. is_invalid_argument s ≡ false) failed fair.hook,
      rw (write_record, whole, failed, take_all bytes),
    )
    | inl (u, passed) ↦ elim (Result-cases io.append.fsync_file) [
      | inr (e, failed) ↦ inl (
        length bytes,
        e,
        subst (λ s. is_invalid_argument s ≡ false) failed fair.fsync,
        rw (write_record, whole, passed, failed, take_all bytes),
      )
      | inl (v, synced) ↦ inr (rw (write_record, whole, passed, synced))
    ]
  ]
]

-- How an append ends.
pub append-cases :
    (io : WriteIo) (writer : WalWriter) (batch : WriteBatch) (sequence : ℕ)
    → IsFair io
    → IsWellFormed batch
    → IsU64 sequence
    → (count batch == 0) ≡ false
    → let bytes = wal_record batch sequence in
      let result = append_batch io.append writer batch sequence in
      ((e : Error) × (result ≡ (writer, err e)))
      ⊎ (IsRecordable batch sequence
          × (((n : ℕ) × (e : Error) × (is_invalid_argument {A = Unit {0}} (err e) ≡ false)
                × (result ≡ (record writer { contents = writer.contents ++ take n bytes }, err e)))
              ⊎ (result ≡ (record writer { contents = writer.contents ++ bytes }, ok tt))))
append-cases io writer batch sequence fair w fits filled =
    let bytes = wal_record batch sequence in
    elim (Result-cases (check_append writer batch sequence)) [
      | inr (e, refused) ↦
          inl (e, append_batch_refused io.append writer batch sequence e filled refused)
      | inl (u, checked) ↦
          let made = append_batch_checked io.append writer batch sequence filled checked in
          inr (
            check_append-IsRecordable writer batch sequence w fits filled checked,
            elim (write_record-cases io writer bytes fair) [
              | inl (n, e, other, cut) ↦ inl (n, e, other, made ∙ cut)
              | inr whole ↦ inr (made ∙ whole)
            ],
          )
    ]

module _ {M : Type 0} (ops : MemTableOps M) (batch : WriteBatch) (store : Store M) where
  pub check_write-parts :
      check_write ops batch store ≡ ok tt
      → (count batch == 0) ≡ false
      → (validate_keys batch.operations ≡ ok tt)
        × (store.manifest.last_sequence + count batch < 2 ^ 64)
  unfolding check_write
  check_write-parts h filled = (ground arith, ground arith)

  pub after_append :
      (io : WriteIo) (limit : ℕ) (writer : WalWriter) (result : WalWriter × Status)
      → append_batch io.append writer batch (store.manifest.last_sequence + 1) ≡ result
      → write_checked ops io limit batch writer store ≡ finish_write ops io limit batch store result
  unfolding write_checked
  after_append io limit writer result h = ap (finish_write ops io limit batch store) h
