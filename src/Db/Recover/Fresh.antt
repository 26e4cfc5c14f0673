-- ===== src/Db/Recover/Fresh.antt =====
-- The end of Recover in src/db.cc, and the file numbers that it leaves to be allocated.
use kv_mem.Prelude.{
  ℕ, ◌<◌, ◌≤◌, ◌≡◌, ap, sym, subst, ◌∙◌, ◌⊎◌, inl, inr, true, some, List, [], ◌∷◌, Memᴰ, max,
  Bool-cases, arith,
}
use kv_mem.Bytes.{Bytes}
use kv_mem.Status.{Result, ok, err, Result-cases}
use kv_mem.Format.FileName.{parse_sstable_file_name, parse_wal_file_name}
use kv_mem.Wal.Reader.{ReadIo}
use kv_mem.Db.Store.{MemTableOps, Store}
use kv_mem.Db.Recover.Enough.{Outlasts, recover-Answers}
use kv_mem.Db.Recover.Scan.{
  DirectoryEntry, DirectoryScan, max_table_number, scan_sstable_name, scan_wal_name, scan_entries,
  scan_directory, set_numbers, recover,
}

max_table_number-le : (seen : ℕ) (tables : List ℕ) → seen ≤ max_table_number seen tables
unfolding max_table_number
max_table_number-le seen [] = omega arith
max_table_number-le seen (number ∷ rest) = omega (arith, max_table_number-le (max seen number) rest)

max_table_number-Memᴰ :
    (seen : ℕ) (tables : List ℕ) (number : ℕ)
    → Memᴰ number tables
    → number ≤ max_table_number seen tables
unfolding max_table_number
max_table_number-Memᴰ seen [] number at = elim at [ ]
max_table_number-Memᴰ seen (first ∷ rest) number (Memᴰ.head e) =
    omega (arith, e, max_table_number-le (max seen first) rest)
max_table_number-Memᴰ seen (first ∷ rest) number (Memᴰ.tail at) =
    max_table_number-Memᴰ (max seen first) rest number at

-- A name of a table or of a log, with its number.
abbrev pub HasNumber : Bytes → ℕ → Type 0
HasNumber name number =
    (parse_sstable_file_name name ≡ some number) ⊎ (parse_wal_file_name name ≡ some number)

scan_sstable_name-le :
    (name : Bytes) (scan : DirectoryScan)
    → scan.max_seen_file_number ≤ (scan_sstable_name name scan).max_seen_file_number
unfolding scan_sstable_name
scan_sstable_name-le name scan = ground arith

scan_wal_name-le :
    (oldest : ℕ) (name contents : Bytes) (scan : DirectoryScan)
    → scan.max_seen_file_number ≤ (scan_wal_name oldest name contents scan).max_seen_file_number
unfolding scan_wal_name
scan_wal_name-le oldest name contents scan = ground arith

scan_sstable_name-HasNumber :
    (name : Bytes) (scan : DirectoryScan) (number : ℕ)
    → parse_sstable_file_name name ≡ some number
    → number ≤ (scan_sstable_name name scan).max_seen_file_number
unfolding scan_sstable_name
scan_sstable_name-HasNumber name scan number table = rw (scan_sstable_name, table) (omega arith)

scan_name-HasNumber :
    (oldest : ℕ) (name contents : Bytes) (scan : DirectoryScan) (number : ℕ)
    → HasNumber name number
    → number
      ≤ (scan_wal_name oldest name contents (scan_sstable_name name scan)).max_seen_file_number
unfolding scan_wal_name
scan_name-HasNumber oldest name contents scan number (inl table) = omega (
  arith,
  scan_sstable_name-HasNumber name scan number table,
  scan_wal_name-le oldest name contents (scan_sstable_name name scan),
)
scan_name-HasNumber oldest name contents scan number (inr log) =
    rw (scan_wal_name, log) (omega arith)

scan_entries-le :
    (oldest : ℕ) (entries : List DirectoryEntry) (scan : DirectoryScan)
    → scan.max_seen_file_number ≤ (scan_entries oldest entries scan).max_seen_file_number
unfolding scan_entries
scan_entries-le oldest [] scan = omega arith
scan_entries-le oldest (entry ∷ rest) scan = elim (Bool-cases entry.is_regular_file) [
  | inl regular ↦ simp regular (
      omega (
        arith,
        scan_sstable_name-le entry.name scan,
        scan_wal_name-le oldest entry.name entry.contents (scan_sstable_name entry.name scan),
        scan_entries-le oldest rest
            (scan_wal_name oldest entry.name entry.contents (scan_sstable_name entry.name scan)),
      ))
  | inr other ↦ simp other (scan_entries-le oldest rest scan)
]

scan_entries-HasNumber :
    (oldest : ℕ) (entries : List DirectoryEntry) (scan : DirectoryScan) (entry : DirectoryEntry)
    (number : ℕ)
    → Memᴰ entry entries
    → entry.is_regular_file ≡ true
    → HasNumber entry.name number
    → number ≤ (scan_entries oldest entries scan).max_seen_file_number
unfolding scan_entries
scan_entries-HasNumber oldest [] scan entry number at regular has = elim at [ ]
scan_entries-HasNumber oldest (first ∷ rest) scan entry number (Memᴰ.head e) regular has =
    let is_regular : first.is_regular_file ≡ true = ap (λ x. x.is_regular_file) (sym e) ∙ regular in
    let named : HasNumber first.name number = subst (λ x. HasNumber x.name number) e has in
    simp is_regular (
      omega (
        arith,
        scan_name-HasNumber oldest first.name first.contents scan number named,
        scan_entries-le oldest rest
            (scan_wal_name oldest first.name first.contents (scan_sstable_name first.name scan)),
      ))
scan_entries-HasNumber oldest (first ∷ rest) scan entry number (Memᴰ.tail at) regular has =
    scan_entries-HasNumber oldest rest _ entry number at regular has

-- A number that a table of the manifest or a file of the directory has.
unfoldable pub Taken : List ℕ → List DirectoryEntry → ℕ → Type 0
Taken tables entries number =
    Memᴰ number tables
    ⊎ ((entry : DirectoryEntry) × Memᴰ entry entries
        × (entry.is_regular_file ≡ true)
        × HasNumber entry.name number)

module _ (oldest : ℕ) (tables : List ℕ) (entries : List DirectoryEntry) where
  scan_directory-Taken :
      (number : ℕ)
      → Taken tables entries number
      → number ≤ (scan_directory oldest tables entries).max_seen_file_number
  unfolding scan_directory Taken
  scan_directory-Taken number (inl at) = omega (
    arith,
    max_table_number-Memᴰ 0 tables number at,
    scan_entries-le oldest entries
        (record { max_seen_file_number = max_table_number 0 tables; wal_files = [] }),
  )
  scan_directory-Taken number (inr (entry, at, regular, has)) =
      scan_entries-HasNumber oldest entries _ entry number at regular has

set_numbers-next :
    {M : Type 0} (scan : DirectoryScan) (store numbered : Store M)
    → set_numbers scan store ≡ ok numbered
    → scan.max_seen_file_number < numbered.manifest.next_file_number
unfolding set_numbers
set_numbers-next scan store numbered h = ground arith

recovered-next :
    {M : Type 0} (ops : MemTableOps M) (fuel : ℕ) (io : ℕ → ℕ → ReadIo) (tables : List ℕ)
    (entries : List DirectoryEntry) (store after : Store M) (number : ℕ)
    → recover ops fuel io tables entries store ≡ some (ok after)
    → Taken tables entries number
    → number < after.manifest.next_file_number
unfolding recover
recovered-next ops fuel io tables entries store after number h taken =
    let below = scan_directory-Taken store.manifest.wal_file_number tables entries number taken in
    ground
      (arith, set_numbers-next (scan_directory store.manifest.wal_file_number tables entries) store)

-- An error, or a store whose next number to allocate is above this one.
abbrev pub AllocatesAbove : {M : Type 0} → ℕ → Result (Store M) → Type 0
AllocatesAbove number (err e) = Unit {0}
AllocatesAbove number (ok after) = number < after.manifest.next_file_number

-- With fuel beyond the size of each file of the directory, Recover ends, whatever the files hold and
-- the file system answers: with an error, or with a store whose next number to allocate is larger
-- than the number of each table of the manifest, and than each number in the name of a table or a
-- log among the directory's regular files.
pub recover-Fresh :
    {M : Type 0} (ops : MemTableOps M) (fuel : ℕ) (io : ℕ → ℕ → ReadIo) (tables : List ℕ)
    (entries : List DirectoryEntry) (store : Store M) (number : ℕ)
    → Outlasts fuel entries
    → Taken tables entries number
    → (result : Result (Store M)) × (recover ops fuel io tables entries store ≡ some result)
      × AllocatesAbove number result
recover-Fresh ops fuel io tables entries store number fits taken =
    let (result, answered) = recover-Answers ops fuel io tables entries store fits in
    elim (Result-cases result) [
      | inl (after, good) ↦
          let ended = answered ∙ ap some good in
          (
            ok after,
            ended,
            recovered-next ops fuel io tables entries store after number ended taken,
          )
      | inr (e, bad) ↦ (err e, answered ∙ ap some bad, tt)
    ]
