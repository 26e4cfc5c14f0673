-- ===== src/Db/Writes/Run.antt =====
-- Runs of DB::Write in src/db.cc keep the log in step.
use kv_mem.Prelude.{
  ℕ, ◌+◌, ◌<◌, ◌≤◌, true, false, ◌≡◌, refl, ap, sym, subst, ◌∙◌, ◌⊎◌, inl, inr, List, [], ◌∷◌, ◌++◌,
  append_assoc, append-nil, length, All, take, ◌==◌, arith,
}
use kv_mem.Bytes.{Bytes}
use kv_mem.Status.{Status, Error, ok, err}
use kv_mem.WriteBatch.{WriteBatch, IsWellFormed, count}
use kv_mem.Wal.{wal_record}
use kv_mem.Wal.Writer.{WalWriter, append_batch}
use kv_mem.Db.Store.{MemTableOps, Store, WriteIo, write, write_checked, check_write, finish_write}
use kv_mem.Db.Recover.Log.{log_of, total}
use kv_mem.Db.Writes.{
  MemTableLaws, IsFair, IsLogging, Request, IsServed, acknowledge, write_all, requested,
  write-cases,
}
use kv_mem.Db.Writes.Append.{total-append, append-cases, check_write-parts, after_append}
use kv_mem.Db.Writes.Logging.{
  IsNoted, finish_write-IsNoted, finish_write-noted, finish_write-err, IsNoted-IsLogging,
  Ends-or-FailedRecord, Ends-nil, appended-IsLogging, finish_write-appended,
}

-- How a call of Write ends, on a store that logs some batches.
abbrev Outcome :
    {M : Type 0} → MemTableOps M → ℕ → List WriteBatch → WriteBatch → Store M × Status → Type 0
Outcome ops first batches batch (after, status) =
    ((e : Error) × (status ≡ err e) × (tail : Bytes) × IsLogging ops first after batches tail)
    ⊎ ((status ≡ ok tt)
        × ((count batch == 0) ≡ true)
        × (tail : Bytes) × IsLogging ops first after batches tail)
    ⊎ ((status ≡ ok tt)
        × ((count batch == 0) ≡ false)
        × IsLogging ops first after (batches ++ (batch ∷ [])) [])

module _ {M : Type 0} (ops : MemTableOps M) (laws : MemTableLaws ops) (first : ℕ) (limit : ℕ) where
  finish_write-Outcome :
      (batches : List WriteBatch) (io : WriteIo) (batch : WriteBatch) (store : Store M)
      → IsLogging ops first store batches []
      → IsFair io
      → IsWellFormed batch
      → total batches + count batch < limit
      → (count batch == 0) ≡ false
      → check_write ops batch store ≡ ok tt
      → Outcome ops first batches batch (
          write_checked ops io limit batch
            (record { is_open = true; contents = log_of batches first ++ [] })
            store)
  finish_write-Outcome batches io batch store l fair w room filled checked =
      let writer : WalWriter = record { is_open = true; contents = log_of batches first ++ [] } in
      let parts = check_write-parts ops batch store checked filled in
      let at = l.last in
      let positive : 0 < count batch = ground arith in
      let q = first + total batches in
      let start : append_batch io.append writer batch (store.manifest.last_sequence + 1)
          ≡ append_batch io.append writer batch q =
        ap (append_batch io.append writer batch) l.last in
      let step = after_append ops batch store io limit writer in
      elim (append-cases io writer batch q fair w (omega arith) filled) [
        | inl (e, refused) ↦
            subst (Outcome ops first batches batch) (sym (step _ (start ∙ refused))) (
              inl (
                e,
                finish_write-err ops io limit batch store e writer,
                [],
                IsNoted-IsLogging (finish_write ops io limit batch store (writer, err e)).0 [] l
                    (finish_write-IsNoted ops io limit batch store e writer) (λ h. refl)
                    (inl (Ends-nil q)),
              ))
        | inr (r, inl (n, e, other, cut)) ↦
            let tail = take n (wal_record batch q) in
            let written : WalWriter = record {
              is_open = true;
              contents = log_of batches first ++ [] ++ tail;
            } in
            subst (Outcome ops first batches batch) (sym (step (written, err e) (start ∙ cut))) (
              inl (
                e,
                finish_write-err ops io limit batch store e written,
                tail,
                IsNoted-IsLogging (finish_write ops io limit batch store (written, err e)).0 tail l
                    (subst
                      (λ (c : Bytes).
                        IsNoted store (finish_write ops io limit batch store (written, err e)).0
                          (record { is_open = true; contents = c ++ tail }))
                      (append-nil (log_of batches first))
                      (finish_write-IsNoted ops io limit batch store e written))
                    (λ h. absurd (finish_write-noted ops io limit batch store e written other h))
                    (Ends-or-FailedRecord batch n q r parts.0),
              ))
        | inr (r, inr whole) ↦
            subst (Outcome ops first batches batch)
              (sym (
                step _ (start ∙ whole)
                ∙ finish_write-appended ops laws first batches io limit batch store l r parts.0
                    room))
              (inr (
                inr (
                  refl,
                  filled,
                  appended-IsLogging ops laws first batches io limit batch store l r parts.0,
                )))
      ]

  write-Outcome :
      (batches : List WriteBatch) (tail : Bytes) (io : WriteIo) (batch : WriteBatch)
      (store : Store M)
      → IsLogging ops first store batches tail
      → IsFair io
      → IsWellFormed batch
      → total batches + count batch < limit
      → Outcome ops first batches batch (write ops io limit batch store)
  write-Outcome batches tail io batch store l fair w room =
      elim (write-cases ops io limit batch store _ l.logged) [
        | inl (e, same) ↦
            subst (Outcome ops first batches batch) (sym same) (inl (e, refl, tail, l))
        | inr (inl (nothing, same)) ↦
            subst (Outcome ops first batches batch) (sym same) (inr (inl (refl, nothing, tail, l)))
        | inr (inr (healthy, filled, checked, goes)) ↦
            let none_behind = l.clean healthy in
            let l' : IsLogging ops first store batches [] =
              subst (IsLogging ops first store batches) none_behind l in
            subst (Outcome ops first batches batch)
              (ap
                  (λ (t : Bytes).
                    write_checked ops io limit batch
                      (record { is_open = true; contents = log_of batches first ++ t }) store)
                  (sym none_behind)
                ∙ sym goes)
              (finish_write-Outcome batches io batch store l' fair w room filled checked)
      ]

  pub write_all-IsLogging :
      (requests : List Request) (store : Store M) (batches : List WriteBatch) (tail : Bytes)
      → All IsServed requests
      → total batches + requested requests < limit
      → IsLogging ops first store batches tail
      → (end : Bytes) × IsLogging ops first
          (write_all ops limit requests store).0
          (batches ++ (write_all ops limit requests store).1)
          end
  unfolding write_all requested acknowledge
  write_all-IsLogging [] store batches tail served room l =
      (tail, subst (λ bs. IsLogging ops first store bs tail) (sym (append-nil batches)) l)
  write_all-IsLogging ((io, batch) ∷ rest) store batches tail served room l =
      let after = (write ops io limit batch store).0 in
      let (final, more) = write_all ops limit rest after in
      let size = total-append batches batch in
      let goal : Status → Type 0 = λ status.
        let result = acknowledge batch (final, more) status in
        (end : Bytes) × IsLogging ops first result.0 (batches ++ result.1) end in
      let next : (bs : List WriteBatch) (t : Bytes)
          → total bs + requested rest < limit
          → IsLogging ops first after bs t
          → _ =
        λ bs t room' k. write_all-IsLogging rest after bs t served.1 room' k in
      elim (write-Outcome batches tail io batch store l served.0.0 served.0.1 (omega arith)) [
        | inl (e, failed, t, k) ↦ subst goal (sym failed) (next batches t (omega arith) k)
        | inr (inl (done, nothing, t, k)) ↦
            subst goal (sym done) (simp nothing (next batches t (omega arith) k))
        | inr (inr (done, filled, k)) ↦
            let (end, m) = next (batches ++ (batch ∷ [])) [] (omega arith) k in
            subst goal (sym done) (
              simp filled (
                end,
                subst (λ bs. IsLogging ops first final bs end)
                    (append_assoc batches (batch ∷ []) more) m,
              ))
      ]

module _ {M : Type 0} (ops : MemTableOps M) (limit : ℕ) where
  length-acknowledge :
      (batch : WriteBatch) (run : Store M × List WriteBatch) (status : Status)
      → length (acknowledge batch run status).1 ≤ length run.1 + 1
  unfolding acknowledge
  length-acknowledge batch run (err e) = omega arith
  length-acknowledge batch run (ok u) = ground arith

  pub length-write_all :
      (requests : List Request) (store : Store M)
      → length (write_all ops limit requests store).1 ≤ length requests
  unfolding write_all
  length-write_all [] store = omega arith
  length-write_all ((io, batch) ∷ rest) store =
      let (after, status) = write ops io limit batch store in
      omega (
        arith,
        length-write_all rest after,
        length-acknowledge batch (write_all ops limit rest after) status,
      )
