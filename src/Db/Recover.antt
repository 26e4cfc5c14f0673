-- ===== src/Db/Recover.antt =====
-- Recover of DB in src/db.cc: the replay of the WAL files.
pub mod Log
pub mod Replayed
pub mod Scan
pub mod Enough
pub mod Fresh
pub mod Live
pub mod Whole
use kv_mem.Prelude.{
  ℕ, zero, suc, ◌+◌, ◌-◌, ◌%◌, ◌^◌, Bool, true, false, not, Option, none, some, List, [], ◌∷◌, max,
  ltb, ◌==◌, if◌then◌else◌,
}
use kv_mem.Bytes.{Bytes}
use kv_mem.Status.{Status, Result, ok, err, corruption, reject_if, ◌>>◌}
use kv_mem.WriteBatch.{WriteBatch, Operation, count}
use kv_mem.Wal.{WalBatchRecord}
use kv_mem.Wal.Reader.{WalReader, ReadIo, read_next}
use kv_mem.Db.Store.{MemTableOps, apply_operation, validate_key}

-- What the replay builds: the active memtable, the last sequence of the manifest, and the last
-- sequence that it met.
pub record Replay (M : Type 0) : Type 0 where
  pub active_memtable : M
  pub last_sequence : ℕ
  pub last_replayed : ℕ

module _ {M : Type 0} (ops : MemTableOps M) where
  -- for (const auto& operation : record.batch.Operations())
  unfoldable pub replay_operations : List Operation → ℕ → Replay M → Result (Replay M)
  replay_operations [] sequence state = ok state
  replay_operations (operation ∷ rest) sequence state =
      let more = replay_operations rest ((sequence + 1) % 2 ^ 64) (record state {
        active_memtable = apply_operation ops operation sequence state.active_memtable;
        last_sequence = max state.last_sequence sequence;
      }) in
      elim (validate_key operation.key) [
        | err e ↦ err (corruption "invalid key in WAL")
        | ok u ↦ more
      ]

  -- One record.
  unfoldable pub replay_record : WalBatchRecord → Replay M → Result (Replay M)
  unfolding replay_operations
  replay_record found state =
      reject_if (not (ltb state.last_replayed found.sequence))
        (corruption "WAL sequence ranges overlap or are out of order")
      >> replay_operations found.batch.operations found.sequence
          (record state { last_replayed = (found.sequence + count found.batch - 1) % 2 ^ 64 })

  -- The loop over the records of one file, with the file that it leaves; `none` is out of fuel.
  -- `io n` is what the calls answer when `n` rounds are left.
  unfoldable pub replay_file :
      ℕ → (ℕ → ReadIo) → WalReader → Replay M → Option (Bytes × Result (Replay M))
  unfolding replay_record
  replay_file zero io reader state = none
  replay_file (suc n) io reader state =
      let (after, result) = read_next (io n) reader in
      elim result [
        | err e ↦ some (after.contents, err e)
        | ok none ↦ some (after.contents, ok state)
        | ok (some found) ↦ elim (replay_record found state) [
          | err e ↦ some (after.contents, err e)
          | ok next ↦ replay_file n io after next
        ]
      ]
