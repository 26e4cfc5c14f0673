-- ===== src/Db/Recover/Log.antt =====
-- The replay of a log of whole records, with a torn record behind them or none.
use kv_mem.Prelude.{
  ℕ, suc, ◌+◌, ◌-◌, ◌%◌, ◌^◌, ◌<◌, ◌≤◌, max, ◌≡◌, refl, ap, sym, ◌∙◌, true, false, not, none, some,
  List, [], ◌∷◌, ◌++◌, ◌⊎◌, inl, inr, length-append, take_front, length, take, drop, ltb, arith,
}
use kv_mem.Bytes.{Bytes}
use kv_mem.Status.{ok, >>=-eq-ok}
use kv_mem.WriteBatch.{WriteBatch, Operation, count}
use kv_mem.Wal.{WalBatchRecord, wal_record}
use kv_mem.Wal.Reader.{WalReader, ReadIo, read_next}
use kv_mem.Wal.RoundTrip.{IsHealthy, IsRecordable}
use kv_mem.Wal.TornTail.{read_next_torn, read_next_end}
use kv_mem.Db.Store.{MemTableOps, apply_operation, validate_key, validate_keys}
use kv_mem.Db.Recover.{Replay, replay_operations, replay_record, replay_file}

-- The log that holds some batches, one after the other, from a sequence on.
unfoldable pub log_of : List WriteBatch → ℕ → Bytes
log_of [] sequence = []
log_of (batch ∷ rest) sequence = wal_record batch sequence ++ log_of rest (sequence + count batch)

-- The sequences that some batches take.
unfoldable pub total : List WriteBatch → ℕ
total [] = 0
total (batch ∷ rest) = count batch + total rest

-- Each batch could be written to the log at its sequence, and its keys are valid.
unfoldable pub Acceptable : List WriteBatch → ℕ → Type 0
Acceptable [] sequence = Unit {0}
Acceptable (batch ∷ rest) sequence =
    IsRecordable batch sequence
    × (validate_keys batch.operations ≡ ok tt)
    × Acceptable rest (sequence + count batch)

module _ {M : Type 0} (ops : MemTableOps M) where
  unfoldable pub apply_all : List Operation → ℕ → M → M
  apply_all [] sequence table = table
  apply_all (operation ∷ rest) sequence table =
      apply_all rest (sequence + 1) (apply_operation ops operation sequence table)

  -- What some batches make of a memtable.
  unfoldable pub applied : List WriteBatch → ℕ → M → M
  unfolding apply_all
  applied [] sequence table = table
  applied (batch ∷ rest) sequence table =
      applied rest (sequence + count batch) (apply_all batch.operations sequence table)

validate_keys-parts :
    (operation : Operation) (rest : List Operation)
    → validate_keys (operation ∷ rest) ≡ ok tt
    → (validate_key operation.key ≡ ok tt) × (validate_keys rest ≡ ok tt)
unfolding validate_keys
validate_keys-parts operation rest h =
    let (u, first, second) = >>=-eq-ok (validate_key operation.key) _ h in (first, second)

module _ {M : Type 0} (ops : MemTableOps M) where
  replay_operations_step :
      (operation : Operation) (rest : List Operation) (sequence : ℕ) (state : Replay M)
      → validate_key operation.key ≡ ok tt
      → replay_operations ops (operation ∷ rest) sequence state
        ≡ replay_operations ops rest ((sequence + 1) % 2 ^ 64) (record state {
          active_memtable = apply_operation ops operation sequence state.active_memtable;
          last_sequence = max state.last_sequence sequence;
        })
  unfolding replay_operations
  replay_operations_step operation rest sequence state valid = rw (replay_operations, valid)

  replay_operations_any :
      (sequence : ℕ) (state : Replay M) → replay_operations ops [] sequence state ≡ ok state
  unfolding replay_operations
  replay_operations_any sequence state = refl

  replay_operations_nil :
      (sequence : ℕ) (state : Replay M)
      → sequence ≤ state.last_sequence + 1
      → replay_operations ops [] sequence state
        ≡ ok (record state { last_sequence = max state.last_sequence (sequence + 0 - 1) })
  unfolding replay_operations
  replay_operations_nil sequence state near =
      ap (λ n. ok (record state { last_sequence = n })) (omega arith)

  -- The state of the replay after some operations.
  abbrev pub after_operations : List Operation → ℕ → Replay M → Replay M
  after_operations operations sequence state = record state {
    active_memtable = apply_all ops operations sequence state.active_memtable;
    last_sequence = max state.last_sequence (sequence + length operations - 1);
  }

  replay_operations_ok :
      (operations : List Operation) (sequence : ℕ) (state : Replay M)
      → validate_keys operations ≡ ok tt
      → sequence + length operations ≤ 2 ^ 64
      → sequence ≤ state.last_sequence + 1
      → replay_operations ops operations sequence state
        ≡ ok (after_operations operations sequence state)
  unfolding apply_all
  replay_operations_ok [] sequence state valid fits near = replay_operations_nil sequence state near
  replay_operations_ok (operation ∷ []) sequence state valid fits near =
      let parts = validate_keys-parts operation [] valid in
      replay_operations_step operation [] sequence state parts.0
      ∙ replay_operations_any ((sequence + 1) % 2 ^ 64) _
      ∙ ap
          (λ n. ok (record state {
            active_memtable = apply_operation ops operation sequence state.active_memtable;
            last_sequence = max state.last_sequence n;
          }))
          (omega arith)
  replay_operations_ok (operation ∷ second ∷ rest) sequence state valid fits near =
      let parts = validate_keys-parts operation (second ∷ rest) valid in
      let next = record state {
        active_memtable = apply_operation ops operation sequence state.active_memtable;
        last_sequence = max state.last_sequence sequence;
      } in
      replay_operations_step operation (second ∷ rest) sequence state parts.0
      ∙ ap (λ n. replay_operations ops (second ∷ rest) n next) (omega arith)
      ∙ replay_operations_ok (second ∷ rest) (sequence + 1) next parts.1 (omega arith) (omega arith)
      ∙ ap
          (λ n. ok (record state {
            active_memtable =
                apply_all ops (operation ∷ second ∷ rest) sequence state.active_memtable;
            last_sequence = n;
          }))
          (omega arith)

  pub replay_record_ok :
      (batch : WriteBatch) (sequence : ℕ) (state : Replay M)
      → IsRecordable batch sequence
      → validate_keys batch.operations ≡ ok tt
      → state.last_replayed < sequence
      → sequence ≤ state.last_sequence + 1
      → replay_record ops (record { sequence = sequence; batch = batch }) state
        ≡ ok (
            after_operations batch.operations sequence
              (record state { last_replayed = sequence + count batch - 1 }))
  unfolding replay_record count
  replay_record_ok batch sequence state r valid later near =
      let room = r.in_range in
      let filled = r.filled in
      let newer : not (ltb state.last_replayed sequence) ≡ false = ground arith in
      let last : (sequence + length batch.operations - 1) % 2 ^ 64
          ≡ sequence + length batch.operations - 1 =
        omega arith in
      rw (newer, last)
        (replay_operations_ok batch.operations sequence
          (record state { last_replayed = sequence + length batch.operations - 1 }) valid
          (omega arith) near)

  pub replay_file_next :
      (n : ℕ) (io : ℕ → ReadIo) (reader : WalReader) (state next : Replay M)
      (found : WalBatchRecord)
      → (read_next (io n) reader).1 ≡ ok (some found)
      → replay_record ops found state ≡ ok next
      → replay_file ops (suc n) io reader state
        ≡ replay_file ops n io (read_next (io n) reader).0 next
  unfolding replay_file
  replay_file_next n io reader state next found read replayed = rw (replay_file, read, replayed)

  pub replay_file_end :
      (n : ℕ) (io : ℕ → ReadIo) (reader : WalReader) (state : Replay M)
      → (read_next (io n) reader).1 ≡ ok none
      → replay_file ops (suc n) io reader state
        ≡ some ((read_next (io n) reader).0.contents, ok state)
  unfolding replay_file
  replay_file_end n io reader state read = rw (replay_file, read)

  -- The replay answers with the batches applied, and leaves the file as `kept`.
  abbrev pub Replays :
      ℕ → (ℕ → ReadIo) → WalReader → Replay M → List WriteBatch → ℕ → Bytes → Type 0
  Replays n io reader state batches sequence kept =
      (last : ℕ) × (replay_file ops n io reader state
        ≡ some (
          kept,
          ok (record {
            active_memtable = applied ops batches sequence state.active_memtable;
            last_sequence = max state.last_sequence (sequence + total batches - 1);
            last_replayed = last;
          }),
        ))

-- What may stand behind the last whole record: nothing, or a part of a record.
unfoldable pub Ends : Bytes → ℕ → Type 0
Ends tail sequence =
    (tail ≡ [])
    ⊎ ((batch : WriteBatch) × (n : ℕ) × IsRecordable batch sequence
        × (n < length (wal_record batch sequence))
        × (tail ≡ take n (wal_record batch sequence)))

pub read_next-Ends :
    (io : ReadIo) (reader : WalReader) (tail : Bytes) (sequence : ℕ)
    → IsHealthy io
    → reader.opened ≡ true
    → Ends tail sequence
    → drop reader.position reader.contents ≡ tail
    → ((read_next io reader).1 ≡ ok none)
      × ((read_next io reader).0.contents ≡ take reader.position reader.contents)
unfolding Ends
read_next-Ends io reader tail sequence healthy is_open (inl empty) here =
    read_next_end io reader healthy is_open (here ∙ empty)
read_next-Ends io reader tail sequence healthy is_open (inr (batch, n, r, short, cut)) here =
    read_next_torn io reader batch sequence n healthy r is_open short (here ∙ cut)

pub append-cancel : (xs ys zs : Bytes) → xs ++ zs ≡ ys ++ zs → xs ≡ ys
append-cancel xs ys zs e =
    let lengths : length xs ≡ length ys =
      omega (arith, length-append xs zs, length-append ys zs, ap length e) in
    sym (take_front (length xs) xs zs refl)
    ∙ ap (take (length xs)) e
    ∙ take_front (length xs) ys zs (sym lengths)
