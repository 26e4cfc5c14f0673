-- ===== src/Db/Writes/Recovered.antt =====
-- A crash after a run of DB::Write, and the replay of the log by Recover: src/db.cc.
use kv_mem.Prelude.{
  ℕ, ◌+◌, ◌<◌, ◌≤◌, true, ◌≡◌, refl, ap, sym, subst, ◌∙◌, ◌⊎◌, inl, inr, some, List, [], ◌∷◌, ◌++◌,
  append-nil, length, length-append, All, arith,
}
use kv_mem.Bytes.{Bytes}
use kv_mem.WriteBatch.{WriteBatch}
use kv_mem.Wal.Reader.{ReadIo}
use kv_mem.Wal.RoundTrip.{IsHealthy}
use kv_mem.Db.Store.{MemTableOps, Store}
use kv_mem.Db.Recover.{Replay}
use kv_mem.Db.Recover.Log.{log_of, total, Acceptable, Ends, Replays, applied}
use kv_mem.Db.Recover.Replayed.{Replays-log, new_reader, opened_reader, replay_file_first}
use kv_mem.Db.Writes.{MemTableLaws, IsLogging, Request, IsServed, write_all, requested}
use kv_mem.Db.Writes.Append.{log_of-append, Acceptable-append}
use kv_mem.Db.Writes.Logging.{Ends-nil}
use kv_mem.Db.Writes.Run.{write_all-IsLogging, length-write_all}

module _ {M : Type 0} (ops : MemTableOps M) (io : ℕ → ReadIo)
    (healthy : (n : ℕ) → IsHealthy (io n)) where
  module _ (first n : ℕ) (state : Replay M) (new : state.last_replayed < first)
      (near : first ≤ state.last_sequence + 1) where
    Replays-whole :
        (batches : List WriteBatch) (tail : Bytes)
        → length batches < n
        → Acceptable batches first
        → Ends tail (first + total batches)
        → Replays ops n io
            (new_reader (log_of batches first ++ tail))
            state
            batches
            first
            (log_of batches first)
    Replays-whole batches tail fuel acceptable ends =
        let contents = log_of batches first ++ tail in
        let (last, replayed) =
          Replays-log ops io healthy batches first n (opened_reader contents) state [] tail fuel
            acceptable ends refl refl refl new near in
        (last, sym (replay_file_first ops io healthy n contents state) ∙ replayed)

    -- The recovered batches: those of the log, and perhaps one more.
    abbrev pub RecoversFrom : List WriteBatch → Bytes → Type 0
    RecoversFrom acknowledged contents =
        (recovered : List WriteBatch) × ((recovered ≡ acknowledged)
          ⊎ ((batch : WriteBatch) × (recovered ≡ acknowledged ++ (batch ∷ []))))
        × Replays ops n io (new_reader contents) state recovered first (log_of recovered first)

    IsLogging-RecoversFrom :
        (store : Store M) (batches : List WriteBatch) (tail : Bytes)
        → length batches + 1 < n
        → IsLogging ops first store batches tail
        → RecoversFrom batches (log_of batches first ++ tail)
    IsLogging-RecoversFrom store batches tail fuel l = elim l.behind [
      | inl ends ↦ (batches, inl refl, Replays-whole batches tail (omega arith) l.acceptable ends)
      | inr (batch, r, valid, whole) ↦
          let more = batches ++ (batch ∷ []) in
          let contents : log_of more first ++ [] ≡ log_of batches first ++ tail =
            append-nil (log_of more first)
            ∙ log_of-append batches batch first
            ∙ ap (◌++◌ (log_of batches first)) (sym whole) in
          let size = length-append batches (batch ∷ []) in
          (
            more,
            inr (batch, refl),
            subst (λ c. Replays ops n io (new_reader c) state more first (log_of more first))
                contents
                (Replays-whole more [] (omega arith)
                  (Acceptable-append batches batch first l.acceptable r valid) (Ends-nil _)),
          )
    ]

-- The store is open, has no background error, an empty log and an empty memtable; each request's
-- batch has no delete that carries a value, the hook and fsync do not answer InvalidArgument, the
-- requests have fewer operations than the limit of the memtable, and an entry more makes the
-- memtable at most one larger. Whatever else the file system answers, after the run of the
-- requests the memtable holds exactly the acknowledged batches, applied in order, and a replay of
-- the log with enough fuel, by calls that succeed, from a state that has met only earlier
-- sequences and whose manifest is not older than the log, ends without an error: it applies
-- exactly the acknowledged batches in order, or these and one more, and leaves the file with their
-- records and nothing else.
pub write_all-RecoversFrom :
    {M : Type 0} (ops : MemTableOps M) (laws : MemTableLaws ops) (io : ℕ → ReadIo)
    (healthy : (n : ℕ) → IsHealthy (io n)) (limit first n : ℕ) (requests : List Request)
    (store : Store M) (state : Replay M)
    → IsLogging ops first store [] []
    → All IsServed requests
    → requested requests < limit
    → (new : state.last_replayed < first) → (near : first ≤ state.last_sequence + 1)
    → length requests + 1 < n
    → let (final, acknowledged) = write_all ops limit requests store in
      (contents : Bytes) × (final.wal ≡ some (record { is_open = true; contents = contents }))
      × (final.active_memtable ≡ applied ops acknowledged first ops.empty)
      × RecoversFrom ops io healthy first n state new near acknowledged contents
unfolding total
write_all-RecoversFrom ops laws io healthy limit first n requests store state l served room new near
      fuel =
    let (end, done) =
      write_all-IsLogging ops laws first limit requests store [] [] served (omega arith) l in
    (
      _,
      done.logged,
      done.table,
      IsLogging-RecoversFrom ops io healthy first n state new near
          (write_all ops limit requests store).0 (write_all ops limit requests store).1 end
          (omega (arith, length-write_all ops limit requests store)) done,
    )
