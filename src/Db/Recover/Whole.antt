-- ===== src/Db/Recover/Whole.antt =====
-- Recover of src/db.cc on logs that hold whole records, with a torn record behind them or none.
use kv_mem.Prelude.{
  ℕ, ◌+◌, ◌-◌, ◌<◌, ◌≤◌, ◌≡◌, ◌==◌, refl, sym, ap, ap₂, ◌∙◌, max, false, some, List, [], ◌∷◌, ◌++◌,
  length, All, arith,
}
use kv_mem.Bytes.{Bytes}
use kv_mem.Status.{ok}
use kv_mem.WriteBatch.{WriteBatch, count}
use kv_mem.Wal.Reader.{ReadIo}
use kv_mem.Wal.RoundTrip.{IsHealthy}
use kv_mem.Db.Store.{MemTableOps, Store, max_file_number}
use kv_mem.Db.Recover.{Replay}
use kv_mem.Db.Recover.Log.{log_of, total, Acceptable, Ends, applied, apply_all}
use kv_mem.Db.Recover.Replayed.{ReplaysWithin-log, opened_reader, replay_file_first}
use kv_mem.Db.Recover.Scan.{
  DirectoryEntry, DirectoryScan, scan_directory, set_numbers, replay_files, recover,
}

-- A log: its number, its batches, and what stands behind the last whole record.
pub record WrittenLog : Type 0 where
  pub number : ℕ
  pub batches : List WriteBatch
  pub tail : Bytes

-- The files of some logs, whose batches take the sequences from one on.
unfoldable pub files_of : List WrittenLog → ℕ → List (ℕ × Bytes)
files_of [] sequence = []
files_of (log ∷ rest) sequence =
    (log.number, log_of log.batches sequence ++ log.tail)
    ∷ files_of rest (sequence + total log.batches)

-- Each log could be written so.
unfoldable pub AreWritten : List WrittenLog → ℕ → Type 0
AreWritten [] sequence = Unit {0}
AreWritten (log ∷ rest) sequence =
    Acceptable log.batches sequence
    × Ends log.tail (sequence + total log.batches)
    × AreWritten rest (sequence + total log.batches)

unfoldable pub batches_of : List WrittenLog → List WriteBatch
batches_of [] = []
batches_of (log ∷ rest) = log.batches ++ batches_of rest

total-append_all :
    (first second : List WriteBatch) → total (first ++ second) ≡ total first + total second
unfolding total
total-append_all [] second = omega arith
total-append_all (b ∷ rest) second = omega (arith, total-append_all rest second)

module _ {M : Type 0} (ops : MemTableOps M) where
  applied-append_all :
      (first second : List WriteBatch) (sequence : ℕ) (table : M)
      → applied ops (first ++ second) sequence table
        ≡ applied ops second (sequence + total first) (applied ops first sequence table)
  unfolding applied total
  applied-append_all [] second sequence table = ap (λ n. applied ops second n table) (omega arith)
  applied-append_all (b ∷ rest) second sequence table =
      applied-append_all rest second (sequence + count b)
        (apply_all ops b.operations sequence table)
      ∙ ap (λ n. applied ops second n (applied ops (b ∷ rest) sequence table)) (omega arith)

  module _ (fuel : ℕ) (io : ℕ → ℕ → ReadIo)
      (healthy : (number n : ℕ) → IsHealthy (io number n)) where
    replay_files_ok :
        (logs : List WrittenLog) (sequence : ℕ) (state : Replay M)
        → All (λ log. length log.batches < fuel) logs
        → AreWritten logs sequence
        → state.last_replayed < sequence
        → sequence ≤ state.last_sequence + 1
        → (last : ℕ) × (replay_files ops fuel io (files_of logs sequence) state
            ≡ some (
                ok (record {
                  active_memtable = applied ops (batches_of logs) sequence state.active_memtable;
                  last_sequence = max state.last_sequence (sequence + total (batches_of logs) - 1);
                  last_replayed = last;
                })))
    unfolding files_of AreWritten batches_of replay_files total applied
    replay_files_ok [] sequence state fits written later near = (
      state.last_replayed,
      ap (λ n. some (ok (record state { last_sequence = n }))) (omega arith),
    )
    replay_files_ok (log ∷ rest) sequence state fits written later near =
        let contents = log_of log.batches sequence ++ log.tail in
        let (last, within, opened) =
          ReplaysWithin-log ops (io log.number) (healthy log.number) log.batches sequence fuel
            (opened_reader contents) state [] log.tail fits.0 written.0 written.1 refl refl refl
            later near in
        let replayed =
          sym (replay_file_first ops (io log.number) (healthy log.number) fuel contents state)
          ∙ opened in
        let next : Replay M = record {
          active_memtable = applied ops log.batches sequence state.active_memtable;
          last_sequence = max state.last_sequence (sequence + total log.batches - 1);
          last_replayed = last;
        } in
        let (end, more) =
          replay_files_ok rest (sequence + total log.batches) next fits.1 written.2 within
            (omega arith) in
        let sizes = total-append_all log.batches (batches_of rest) in
        (
          end,
          rw (replay_files, replayed)
              (more
                ∙ ap₂
                    (λ table n. some (
                      ok (record {
                        active_memtable = table;
                        last_sequence = n;
                        last_replayed = end;
                      })))
                    (sym (
                      applied-append_all log.batches (batches_of rest) sequence
                        state.active_memtable))
                    (omega (arith, sizes))),
        )

set_numbers_ok :
    {M : Type 0} (scan : DirectoryScan) (store : Store M)
    → scan.max_seen_file_number < max_file_number
    → (numbered : Store M) × (set_numbers scan store ≡ ok numbered)
      × (numbered.active_memtable ≡ store.active_memtable)
      × (numbered.manifest.last_sequence ≡ store.manifest.last_sequence)
unfolding set_numbers
set_numbers_ok scan store free =
    let room : (scan.max_seen_file_number == max_file_number) ≡ false = ground arith in
    rw (set_numbers, room) (_, refl, refl, refl)

-- The scan of the directory finds the files of some logs, whose batches take consecutive sequences
-- from a positive one on that is at most one past the manifest's, and whose last record may be torn;
-- no file has the largest number; the calls of the file system succeed, and the fuel is more than the
-- batches of each log. Recover succeeds: the memtable holds the batches of all logs, applied in
-- order, and the last sequence is the manifest's or that of the last operation, whichever is larger.
pub recover-applied :
    {M : Type 0} (ops : MemTableOps M) (fuel : ℕ) (io : ℕ → ℕ → ReadIo)
    (healthy : (number n : ℕ) → IsHealthy (io number n)) (tables : List ℕ)
    (entries : List DirectoryEntry) (store : Store M) (logs : List WrittenLog) (first : ℕ)
    → let scan = scan_directory store.manifest.wal_file_number tables entries in
      scan.wal_files ≡ files_of logs first
      → scan.max_seen_file_number < max_file_number
      → All (λ log. length log.batches < fuel) logs
      → AreWritten logs first
      → 0 < first
      → first ≤ store.manifest.last_sequence + 1
      → (after : Store M) × (recover ops fuel io tables entries store ≡ some (ok after))
        × (after.active_memtable ≡ applied ops (batches_of logs) first store.active_memtable)
        × (after.manifest.last_sequence
            ≡ max store.manifest.last_sequence (first + total (batches_of logs) - 1))
unfolding recover
recover-applied {M = M} ops fuel io healthy tables entries store logs first found free fits written
      positive near =
    let scan = scan_directory store.manifest.wal_file_number tables entries in
    let (numbered, went, table, sequence) = set_numbers_ok scan store free in
    let state : Replay M = record {
      active_memtable = numbered.active_memtable;
      last_sequence = numbered.manifest.last_sequence;
      last_replayed = 0;
    } in
    let (last, replayed) =
      replay_files_ok ops fuel io healthy logs first state fits written positive (omega arith) in
    let here = ap (λ files. replay_files ops fuel io files state) found ∙ replayed in
    let batches = batches_of logs in
    (
      record numbered {
        active_memtable = applied ops batches first numbered.active_memtable;
        manifest = record numbered.manifest {
          last_sequence = max numbered.manifest.last_sequence (first + total batches - 1);
        };
      },
      rw (recover, went, here) refl,
      ap (applied ops batches first) table,
      ap (λ n. max n (first + total batches - 1)) sequence,
    )
