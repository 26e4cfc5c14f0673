-- ===== src/Db/Store.antt =====
-- The writes of DB in src/db.cc: ValidateKey, Write, MaybeFlushMemTable, FlushMemTable,
-- SaveManifest, AllocateFileNumber. A memtable is given by its operations; what the file system
-- answers is an argument.
use kv_mem.Prelude.{
  ℕ, ◌+◌, ◌-◌, ◌%◌, ◌^◌, Bool, true, false, ◌||◌, Option, none, some, List, [], ◌∷◌, ◌++◌, ltb,
  ◌==◌, if◌then◌else◌,
}
use kv_mem.Bytes.{Bytes}
use kv_mem.Status.{
  Status, Result, ok, err, io_error, invalid_argument, reject_if, is_invalid_argument, ◌>>◌,
}
use kv_mem.WriteBatch.{WriteBatch, Operation, op_put, op_delete, count, validate_encoding}
use kv_mem.Format.InternalKey.{max_sequence}
use kv_mem.Wal.Writer.{WalWriter, AppendIo, append_batch}

-- What DB uses of a MemTable; `put` and `delete` of the source return OK.
pub record MemTableOps (M : Type 0) : Type 0 where
  pub empty : M
  pub put : Bytes → ℕ → Bytes → M → M
  pub delete_key : Bytes → ℕ → M → M
  pub size : M → ℕ

-- The edit that the manifest holds in memory, without its tables.
pub record ManifestEdit : Type 0 where
  pub next_file_number : ℕ
  pub wal_file_number : ℕ
  pub last_sequence : ℕ

-- The fields of DB that a write reads or sets. `logs` are the files of the closed WAL writers.
pub record Store (M : Type 0) : Type 0 where
  pub background_status : Status
  pub closed : Bool
  pub wal : Option WalWriter
  pub logs : List (ℕ × Bytes)
  pub manifest : ManifestEdit
  pub active_memtable : M
  pub immutable_memtables : List (M × ℕ)
  pub active_wal_file_number : ℕ
  pub oldest_wal_file_number : ℕ
  pub background_work_pending : Bool

-- What the calls of one write answer: `open_wal` holds what the opened file contains.
pub record WriteIo : Type 0 where
  pub append : AppendIo
  pub open_wal : Result Bytes
  pub save : Status

-- Whether a key has a tab, a newline or a NUL.
unfoldable pub contains_invalid_key_byte : Bytes → Bool
contains_invalid_key_byte [] = false
contains_invalid_key_byte (b ∷ rest) =
    b == 9 || (b == 10 || b == 0) || contains_invalid_key_byte rest

unfoldable pub validate_key : Bytes → Status
validate_key [] = err (invalid_argument "key cannot be empty")
validate_key (b ∷ rest) =
    reject_if (contains_invalid_key_byte (b ∷ rest))
      (invalid_argument "key cannot contain tab, newline, or NUL")

-- The loop of Write over the keys.
unfoldable pub validate_keys : List Operation → Status
validate_keys [] = ok tt
validate_keys (operation ∷ rest) = validate_key operation.key >> validate_keys rest

module _ {M : Type 0} (ops : MemTableOps M) where
  -- The switch on the type of an operation.
  unfoldable pub apply_operation : Operation → ℕ → M → M
  apply_operation operation sequence table = elim operation.type [
    | op_put ↦ ops.put operation.key sequence operation.value table
    | op_delete ↦ ops.delete_key operation.key sequence table
  ]

-- SetBackgroundErrorLocked
unfoldable pub set_background_error : {M : Type 0} → Status → Store M → Store M
set_background_error status store = elim store.background_status [
  | ok u ↦ record store { background_status = status }
  | err e ↦ store
]

-- SaveManifest, with what Manifest::Save answers.
unfoldable pub save_manifest : {M : Type 0} → Status → Store M → Store M × Status
unfolding set_background_error
save_manifest saved store = elim saved [
  | ok u ↦ (store, ok u)
  | err e ↦ (set_background_error (err e) store, err e)
]

-- The next two are DB::AllocateFileNumber: its test, and the number's use.
abbrev pub max_file_number : ℕ
max_file_number = 2 ^ 64 - 1

unfoldable pub allocated : ManifestEdit → ManifestEdit
allocated edit = record edit { next_file_number = edit.next_file_number + 1 }

-- The old writer is closed, and its file stays.
unfoldable pub close_wal : {M : Type 0} → Store M → List (ℕ × Bytes)
close_wal store = elim store.wal [
  | none ↦ store.logs
  | some writer ↦ store.logs ++ ((store.active_wal_file_number, writer.contents) ∷ [])
]

module _ {M : Type 0} (ops : MemTableOps M) where
  -- FlushMemTable from the save of the manifest on.
  unfoldable pub switch_memtable : Status → Bytes → ManifestEdit → ℕ → Store M → Store M × Status
  unfolding save_manifest close_wal
  switch_memtable saved contents old_edit new_wal_number store =
      let (after, status) = save_manifest saved store in
      elim status [
        | err e ↦ (record after { manifest = old_edit }, err e)
        | ok u ↦ (
          record after {
            logs = close_wal after;
            immutable_memtables =
                after.immutable_memtables
                ++ ((after.active_memtable, after.oldest_wal_file_number) ∷ []);
            active_memtable = ops.empty;
            active_wal_file_number = new_wal_number;
            oldest_wal_file_number = new_wal_number;
            wal = some (record { is_open = true; contents = contents });
            background_work_pending = true;
          },
          ok tt,
        )
      ]

  unfoldable pub flush_mem_table : WriteIo → Store M → Store M × Status
  unfolding switch_memtable allocated
  flush_mem_table io store =
      let new_wal_number = store.manifest.next_file_number in
      let with_number = record store { manifest = allocated store.manifest } in
      if ops.size store.active_memtable == 0
      then (store, ok tt)
      else if new_wal_number == max_file_number
      then (store, err (io_error "file number range exhausted"))
      else elim io.open_wal [
        | err e ↦ (store, err e)
        | ok contents ↦ switch_memtable io.save contents store.manifest new_wal_number with_number
      ]

  unfoldable pub maybe_flush_mem_table : WriteIo → ℕ → Store M → Store M × Status
  unfolding flush_mem_table
  maybe_flush_mem_table io memtable_entries_limit store =
      if ltb (ops.size store.active_memtable) memtable_entries_limit
      then (store, ok tt)
      else flush_mem_table io store

  -- The loop of Write over the operations: the memtable, and the last sequence of the manifest.
  unfoldable pub apply_operations : List Operation → ℕ → Store M → Store M
  unfolding apply_operation
  apply_operations [] sequence store = store
  apply_operations (operation ∷ rest) sequence store =
      apply_operations rest ((sequence + 1) % 2 ^ 64) (record store {
        active_memtable = apply_operation ops operation sequence store.active_memtable;
        manifest = record store.manifest { last_sequence = sequence };
      })

  -- The checks of Write before the append, from the empty batch on.
  unfoldable pub check_write : WriteBatch → Store M → Status
  unfolding validate_keys
  check_write batch store = do
    reject_if (store.manifest.next_file_number == max_file_number)
        (invalid_argument "file number range exhausted")
    validate_encoding batch
    reject_if (ltb (max_sequence - store.manifest.last_sequence) (count batch))
        (invalid_argument "sequence number range exhausted")
    validate_keys batch.operations

  -- Write after the append, with what AppendBatch answered.
  unfoldable pub finish_write :
      WriteIo → ℕ → WriteBatch → Store M → WalWriter × Status → Store M × Status
  unfolding apply_operations maybe_flush_mem_table set_background_error
  finish_write io memtable_entries_limit batch store (written, err e) =
      let after = record store { wal = some written } in
      (
        if is_invalid_argument {A = Unit {0}} (err e)
            then after
            else set_background_error (err e) after,
        err e,
      )
  finish_write io memtable_entries_limit batch store (written, ok u) =
      maybe_flush_mem_table io memtable_entries_limit (
        apply_operations batch.operations (store.manifest.last_sequence + 1)
          (record store { wal = some written }))

  -- Write from the append on.
  unfoldable pub write_checked : WriteIo → ℕ → WriteBatch → WalWriter → Store M → Store M × Status
  unfolding finish_write
  write_checked io memtable_entries_limit batch writer store =
      finish_write io memtable_entries_limit batch store
        (append_batch io.append writer batch (store.manifest.last_sequence + 1))

  unfoldable pub write : WriteIo → ℕ → WriteBatch → Store M → Store M × Status
  unfolding check_write write_checked
  write io memtable_entries_limit batch store =
      let refused : Store M × Status = (store, err (io_error "database is not open")) in
      elim store.background_status [
        | err e ↦ (store, err e)
        | ok u ↦ if store.closed then refused else elim store.wal [
          | none ↦ refused
          | some writer ↦
              if count batch == 0 then (store, ok tt) else elim (check_write batch store) [
                | err e ↦ (store, err e)
                | ok u ↦ write_checked io memtable_entries_limit batch writer store
              ]
        ]
      ]
