-- ===== src/Db/Recover/Enough.antt =====
-- How much fuel the replay of the logs in Recover of src/db.cc needs.
use kv_mem.Prelude.{
  ℕ, zero, suc, ◌+◌, ◌<◌, ◌≡◌, refl, ap, subst, sym, ◌∙◌, ◌⊎◌, inl, inr, true, false, Option, some,
  List, [], ◌∷◌, All, All-append, length, ltb, Bool-cases, Option-cases, arith,
}
use kv_mem.Bytes.{Bytes}
use kv_mem.Status.{ok, Result-cases}
use kv_mem.Format.FileName.{parse_wal_file_name}
use kv_mem.Wal.Reader.{WalReader, ReadIo, read_next}
use kv_mem.Wal.Progress.{read_next-Moves}
use kv_mem.Db.Store.{MemTableOps, Store}
use kv_mem.Db.Recover.{Replay, replay_record, replay_file}
use kv_mem.Db.Recover.Live.{scan_sstable_name-wal_files}
use kv_mem.Db.Recover.Scan.{
  DirectoryEntry, DirectoryScan, scan_wal_name, scan_entries, scan_directory, insert_wal, sort_wals,
  set_numbers, replay_files, recover,
}

-- The answer is a result.
abbrev pub Answers {ℓ} : {A : Type ℓ} → Option A → Type ℓ
Answers {A = A} answer = (result : A) × (answer ≡ some result)

module _ {M : Type 0} (ops : MemTableOps M) where
  pub replay_file-Answers :
      (n : ℕ) (io : ℕ → ReadIo) (reader : WalReader) (state : Replay M)
      → ((reader.opened ≡ true) ⊎ (reader.position ≡ 0))
      → length reader.contents < reader.position + n
      → 0 < n
      → Answers (replay_file ops n io reader state)
  unfolding replay_file
  replay_file-Answers zero io reader state start fuel pos = absurd (omega arith)
  replay_file-Answers (suc n) io reader state start fuel pos =
      elim (Result-cases (read_next (io n) reader).1) [
        | inr (e, failed) ↦ simp (replay_file, failed) (_, refl)
        | inl (answer, read) ↦ elim (Option-cases answer) [
          | inl ended ↦ simp (replay_file, read, ended) (_, refl)
          | inr (found, is_found) ↦ elim (Result-cases (replay_record ops found state)) [
            | inr (e, failed) ↦ simp (replay_file, read, is_found, failed) (_, refl)
            | inl (next, replayed) ↦
                let after = (read_next (io n) reader).0 in
                let moved = read_next-Moves (io n) reader found (read ∙ ap ok is_found) start in
                let sizes = ap length moved.same in
                let more =
                  replay_file-Answers n io after next (inl moved.is_open)
                    (omega (arith, sizes, moved.further))
                    (omega (arith, moved.further, moved.inside)) in
                simp (replay_file, read, is_found, replayed) more
          ]
        ]
      ]

-- Each log is smaller than the fuel.
abbrev FitWithin : ℕ → List (ℕ × Bytes) → Type 0
FitWithin fuel = All (λ file. length file.1 < fuel)

insert_wal-FitWithin :
    (fuel : ℕ) (file : ℕ × Bytes) (files : List (ℕ × Bytes))
    → length file.1 < fuel
    → FitWithin fuel files
    → FitWithin fuel (insert_wal file files)
unfolding insert_wal
insert_wal-FitWithin fuel file [] h k = (h, tt)
insert_wal-FitWithin fuel file (first ∷ rest) h k = elim (Bool-cases (ltb first.0 file.0)) [
  | inl less ↦ simp less (k.0, insert_wal-FitWithin fuel file rest h k.1)
  | inr more ↦ simp more (h, k)
]

sort_wals-FitWithin :
    (fuel : ℕ) (files : List (ℕ × Bytes)) → FitWithin fuel files → FitWithin fuel (sort_wals files)
unfolding sort_wals
sort_wals-FitWithin fuel [] h = tt
sort_wals-FitWithin fuel (file ∷ rest) h =
    insert_wal-FitWithin fuel file (sort_wals rest) h.0 (sort_wals-FitWithin fuel rest h.1)

scan_wal_name-FitWithin :
    (fuel oldest : ℕ) (name contents : Bytes) (scan : DirectoryScan)
    → length contents < fuel
    → FitWithin fuel scan.wal_files
    → FitWithin fuel (scan_wal_name oldest name contents scan).wal_files
unfolding scan_wal_name
scan_wal_name-FitWithin fuel oldest name contents scan h k =
    elim (Option-cases (parse_wal_file_name name)) [
      | inl none_found ↦ simp (scan_wal_name, none_found) k
      | inr (n, found) ↦ elim (Bool-cases (ltb n oldest)) [
        | inl dead ↦ simp (scan_wal_name, found, dead) k
        | inr live ↦
            simp (scan_wal_name, found, live)
              (All-append (λ file. length file.1 < fuel) scan.wal_files _ k (h, tt))
      ]
    ]

-- The fuel is beyond the size of each file of the directory.
abbrev pub Outlasts : ℕ → List DirectoryEntry → Type 0
Outlasts fuel = All (λ entry. length entry.contents < fuel)

scan_entries-FitWithin :
    (fuel oldest : ℕ) (entries : List DirectoryEntry) (scan : DirectoryScan)
    → Outlasts fuel entries
    → FitWithin fuel scan.wal_files
    → FitWithin fuel (scan_entries oldest entries scan).wal_files
unfolding scan_entries
scan_entries-FitWithin fuel oldest [] scan h k = k
scan_entries-FitWithin fuel oldest (entry ∷ rest) scan h k =
    elim (Bool-cases entry.is_regular_file) [
      | inl regular ↦ simp regular (
          scan_entries-FitWithin fuel oldest rest _ h.1 (
            scan_wal_name-FitWithin fuel oldest entry.name entry.contents _ h.0
              (subst (FitWithin fuel) (sym (scan_sstable_name-wal_files entry.name scan)) k)))
      | inr other ↦ simp other (scan_entries-FitWithin fuel oldest rest scan h.1 k)
    ]

scan_directory-FitWithin :
    (fuel oldest : ℕ) (tables : List ℕ) (entries : List DirectoryEntry)
    → Outlasts fuel entries
    → FitWithin fuel (scan_directory oldest tables entries).wal_files
unfolding scan_directory
scan_directory-FitWithin fuel oldest tables entries h =
    sort_wals-FitWithin fuel _ (scan_entries-FitWithin fuel oldest entries _ h tt)

module _ {M : Type 0} (ops : MemTableOps M) (fuel : ℕ) (io : ℕ → ℕ → ReadIo) where
  replay_files-Answers :
      (files : List (ℕ × Bytes)) (state : Replay M)
      → FitWithin fuel files
      → Answers (replay_files ops fuel io files state)
  unfolding replay_files
  replay_files-Answers [] state h = (_, refl)
  replay_files-Answers (file ∷ rest) state h =
      let ((left, result), replayed) =
        replay_file-Answers ops fuel (io file.0)
          (record { opened = false; contents = file.1; position = 0 }) state (inr refl)
          (omega (arith, h.0)) (omega (arith, h.0)) in
      elim (Result-cases result) [
        | inr (e, failed) ↦ simp (replay_files, replayed, failed) (_, refl)
        | inl (next, went) ↦
            let more = replay_files-Answers rest next h.1 in
            simp (replay_files, replayed, went) more
      ]

  pub recover-Answers :
      (tables : List ℕ) (entries : List DirectoryEntry) (store : Store M)
      → Outlasts fuel entries
      → Answers (recover ops fuel io tables entries store)
  unfolding recover
  recover-Answers tables entries store h =
      let scan = scan_directory store.manifest.wal_file_number tables entries in
      elim (Result-cases (set_numbers scan store)) [
        | inr (e, failed) ↦ simp (recover, failed) (_, refl)
        | inl (numbered, went) ↦
            let (result, replayed) =
              replay_files-Answers scan.wal_files
                (record {
                  active_memtable = numbered.active_memtable;
                  last_sequence = numbered.manifest.last_sequence;
                  last_replayed = 0;
                })
                (scan_directory-FitWithin fuel _ tables entries h) in
            elim (Result-cases result) [
              | inr (e, bad) ↦ simp (recover, went, replayed, bad) (_, refl)
              | inl (state, good) ↦ simp (recover, went, replayed, good) (_, refl)
            ]
      ]
