-- ===== src/Db/Recover/Replayed.antt =====
-- The replay of one WAL file in Recover of src/db.cc: the batches of the whole records are applied
-- in order, and what stands behind them is cut off.
use kv_mem.Prelude.{
  ℕ, zero, suc, ◌+◌, ◌-◌, ◌<◌, ◌≤◌, ◌≡◌, refl, false, max, Option, none, ap, ap₂, sym, ◌∙◌, true,
  some, List, [], ◌∷◌, ◌++◌, append_assoc, append-nil, subst, take-append-drop, length, take, drop,
  arith,
}
use kv_mem.Bytes.{Bytes}
use kv_mem.Status.{Result, ok, err}
use kv_mem.WriteBatch.{WriteBatch, count}
use kv_mem.Wal.{wal_record}
use kv_mem.Wal.Reader.{WalReader, ReadIo, ReadResult, read_next}
use kv_mem.Wal.RoundTrip.{IsHealthy, read_next-record, read_next_first}
use kv_mem.Db.Store.{MemTableOps}
use kv_mem.Db.Recover.{Replay, replay_record, replay_file}
use kv_mem.Db.Recover.Log.{
  log_of, total, Acceptable, Ends, Replays, applied, after_operations, replay_record_ok,
  replay_file_next, replay_file_end, read_next-Ends, append-cancel,
}

-- What is left in front of the position, when the rest is known.
whole_here :
    (reader after : WalReader) (old bytes rest : Bytes)
    → drop after.position after.contents ≡ rest
    → after.contents ≡ reader.contents
    → take reader.position reader.contents ≡ old
    → drop reader.position reader.contents ≡ bytes ++ rest
    → take after.position after.contents ++ rest ≡ old ++ bytes ++ rest
whole_here reader after old bytes rest behind same before here =
    ap (◌++◌ (take after.position after.contents)) (sym behind)
    ∙ take-append-drop after.position after.contents
    ∙ same
    ∙ sym (take-append-drop reader.position reader.contents)
    ∙ ap₂ (◌++◌) before here
    ∙ sym (append_assoc old bytes rest)

-- A reader of a file, before its first call.
abbrev pub new_reader : Bytes → WalReader
new_reader contents = record { opened = false; contents = contents; position = 0 }

abbrev pub opened_reader : Bytes → WalReader
opened_reader contents = record { opened = true; contents = contents; position = 0 }

module _ {M : Type 0} (ops : MemTableOps M) (io : ℕ → ReadIo)
    (healthy : (n : ℕ) → IsHealthy (io n)) where
  continue : ℕ → Replay M → ReadResult → Option (Bytes × Result (Replay M))
  continue n state (after, result) = elim result [
    | err e ↦ some (after.contents, err e)
    | ok none ↦ some (after.contents, ok state)
    | ok (some found) ↦ elim (replay_record ops found state) [
      | err e ↦ some (after.contents, err e)
      | ok next ↦ replay_file ops n io after next
    ]
  ]

  pub replay_file_first :
      (n : ℕ) (contents : Bytes) (state : Replay M)
      → replay_file ops n io (opened_reader contents) state
        ≡ replay_file ops n io (new_reader contents) state
  unfolding replay_file continue
  replay_file_first zero contents state = refl
  replay_file_first (suc n) contents state =
      sym (ap (continue n state) (read_next_first (io n) contents (healthy n)))

  -- The same as `Replays`, and the last sequence met is one of the batches'.
  abbrev ReplaysWithin : ℕ → WalReader → Replay M → List WriteBatch → ℕ → Bytes → Type 0
  ReplaysWithin n reader state batches sequence kept =
      (last : ℕ) × (last < sequence + total batches)
      × (replay_file ops n io reader state
          ≡ some (
            kept,
            ok (record {
              active_memtable = applied ops batches sequence state.active_memtable;
              last_sequence = max state.last_sequence (sequence + total batches - 1);
              last_replayed = last;
            }),
          ))

  pub ReplaysWithin-log :
      (batches : List WriteBatch) (sequence n : ℕ) (reader : WalReader) (state : Replay M)
      (old tail : Bytes)
      → length batches < n
      → Acceptable batches sequence
      → Ends tail (sequence + total batches)
      → reader.opened ≡ true
      → take reader.position reader.contents ≡ old
      → drop reader.position reader.contents ≡ log_of batches sequence ++ tail
      → state.last_replayed < sequence
      → sequence ≤ state.last_sequence + 1
      → ReplaysWithin n reader state batches sequence (old ++ log_of batches sequence)
  unfolding log_of total Acceptable applied count
  ReplaysWithin-log batches sequence zero reader state old tail fuel acceptable ends is_open before
        here later near =
      absurd (omega arith)
  ReplaysWithin-log [] sequence (suc n) reader state old tail fuel acceptable ends is_open before
        here later near =
      let read = read_next-Ends (io n) reader tail _ (healthy n) is_open ends here in
      (
        state.last_replayed,
        omega arith,
        replay_file_end ops n io reader state read.0
            ∙ ap₂ (λ c m. some (c, ok (record state { last_sequence = m })))
                (read.1 ∙ before ∙ sym (append-nil old)) (omega arith),
      )
  ReplaysWithin-log (batch ∷ rest) sequence (suc n) reader state old tail fuel acceptable ends
        is_open before here later near =
      let bytes = wal_record batch sequence in
      let (r, valid, others) = acceptable in
      let more = log_of rest (sequence + count batch) in
      let filled = r.filled in
      let positive = r.positive in
      let split = here ∙ append_assoc bytes more tail in
      let read =
        read_next-record (io n) reader batch sequence (more ++ tail) (healthy n) r is_open split in
      let after = (read_next (io n) reader).0 in
      let next =
        after_operations ops batch.operations sequence
          (record state { last_replayed = sequence + count batch - 1 }) in
      let whole : take after.position after.contents ≡ old ++ bytes =
        append-cancel _ (old ++ bytes) (more ++ tail)
          (whole_here reader after old bytes (more ++ tail) read.1 read.2 before split) in
      let (last, within, replayed) =
        ReplaysWithin-log rest (sequence + count batch) n after next (old ++ bytes) tail
          (omega arith) others (subst (Ends tail) (omega arith) ends) read.3 whole read.1
          (omega arith) (omega arith) in
      (
        last,
        omega (arith, within),
        replay_file_next ops n io reader state next _ read.0
              (replay_record_ok ops batch sequence state r valid later near)
            ∙ replayed
            ∙ ap₂
                (λ c m. some (
                  c,
                  ok (record {
                    active_memtable = applied ops (batch ∷ rest) sequence state.active_memtable;
                    last_sequence = m;
                    last_replayed = last;
                  }),
                ))
                (append_assoc old bytes more) (omega arith),
      )

  pub Replays-log :
      (batches : List WriteBatch) (sequence n : ℕ) (reader : WalReader) (state : Replay M)
      (old tail : Bytes)
      → length batches < n
      → Acceptable batches sequence
      → Ends tail (sequence + total batches)
      → reader.opened ≡ true
      → take reader.position reader.contents ≡ old
      → drop reader.position reader.contents ≡ log_of batches sequence ++ tail
      → state.last_replayed < sequence
      → sequence ≤ state.last_sequence + 1
      → Replays ops n io reader state batches sequence (old ++ log_of batches sequence)
  Replays-log batches sequence n reader state old tail fuel acceptable ends is_open before here
        later near =
      let (last, within, replayed) =
        ReplaysWithin-log batches sequence n reader state old tail fuel acceptable ends is_open
          before here later near in
      (last, replayed)
