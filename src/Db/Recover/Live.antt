-- ===== src/Db/Recover/Live.antt =====
-- The WAL files that Recover of src/db.cc replays, and their order.
use kv_mem.Prelude.{
  ℕ, ◌≤◌, ◌≡◌, refl, ap, sym, subst, ◌∙◌, ◌⊎◌, inl, inr, true, false, some, List, [], ◌∷◌, ◌++◌,
  Memᴰ, ltb, Bool-cases, Option-cases, arith,
}
use kv_mem.Bytes.{Bytes}
use kv_mem.Format.FileName.{parse_sstable_file_name, parse_wal_file_name}
use kv_mem.Db.Recover.Scan.{
  DirectoryEntry, DirectoryScan, scan_sstable_name, scan_wal_name, scan_entries, scan_directory,
  insert_wal, sort_wals, max_table_number,
}

-- Each number is at most the next one.
pub IsAscending : List (ℕ × Bytes) → Type 0
IsAscending [] = Unit {0}
IsAscending (file ∷ []) = Unit {0}
IsAscending (file ∷ next ∷ rest) = (file.0 ≤ next.0) × IsAscending (next ∷ rest)

insert_wal-IsAscending :
    (file : ℕ × Bytes) (files : List (ℕ × Bytes))
    → IsAscending files
    → IsAscending (insert_wal file files)
unfolding insert_wal IsAscending
insert_wal-IsAscending file [] h = tt
insert_wal-IsAscending file (first ∷ []) h = elim (Bool-cases (ltb first.0 file.0)) [
  | inl less ↦ simp less (ground arith, tt)
  | inr more ↦ simp more (ground arith, tt)
]
insert_wal-IsAscending file (first ∷ next ∷ rest) h =
    let ih = insert_wal-IsAscending file (next ∷ rest) h.1 in
    elim (Bool-cases (ltb first.0 file.0)) [
      | inl less ↦ elim (Bool-cases (ltb next.0 file.0)) [
        | inl further ↦ simp (less, further) (h.0, simp further at ih)
        | inr here ↦ simp (less, here) (ground arith, (ground arith, h.1))
      ]
      | inr more ↦ simp more (ground arith, h)
    ]

sort_wals-IsAscending : (files : List (ℕ × Bytes)) → IsAscending (sort_wals files)
unfolding sort_wals IsAscending
sort_wals-IsAscending [] = tt
sort_wals-IsAscending (file ∷ rest) =
    insert_wal-IsAscending file (sort_wals rest) (sort_wals-IsAscending rest)

-- A file is still there after an insertion, and so is the inserted one.
insert_wal-Memᴰ :
    (file wanted : ℕ × Bytes) (files : List (ℕ × Bytes))
    → ((wanted ≡ file) ⊎ Memᴰ wanted files)
    → Memᴰ wanted (insert_wal file files)
unfolding insert_wal
insert_wal-Memᴰ file wanted [] (inl e) = Memᴰ.head e
insert_wal-Memᴰ file wanted [] (inr at) = elim at [ ]
insert_wal-Memᴰ file wanted (first ∷ rest) (inl e) = elim (Bool-cases (ltb first.0 file.0)) [
  | inl less ↦ simp less (Memᴰ.tail (insert_wal-Memᴰ file wanted rest (inl e)))
  | inr more ↦ simp more (Memᴰ.head e)
]
insert_wal-Memᴰ file wanted (first ∷ rest) (inr (Memᴰ.head e)) =
    elim (Bool-cases (ltb first.0 file.0)) [
      | inl less ↦ simp less (Memᴰ.head e)
      | inr more ↦ simp more (Memᴰ.tail (Memᴰ.head e))
    ]
insert_wal-Memᴰ file wanted (first ∷ rest) (inr (Memᴰ.tail at)) =
    elim (Bool-cases (ltb first.0 file.0)) [
      | inl less ↦ simp less (Memᴰ.tail (insert_wal-Memᴰ file wanted rest (inr at)))
      | inr more ↦ simp more (Memᴰ.tail (Memᴰ.tail at))
    ]

sort_wals-Memᴰ :
    (files : List (ℕ × Bytes)) (wanted : ℕ × Bytes)
    → Memᴰ wanted files
    → Memᴰ wanted (sort_wals files)
unfolding sort_wals
sort_wals-Memᴰ [] wanted at = elim at [ ]
sort_wals-Memᴰ (file ∷ rest) wanted (Memᴰ.head e) =
    insert_wal-Memᴰ file wanted (sort_wals rest) (inl e)
sort_wals-Memᴰ (file ∷ rest) wanted (Memᴰ.tail at) =
    insert_wal-Memᴰ file wanted (sort_wals rest) (inr (sort_wals-Memᴰ rest wanted at))

Memᴰ-append :
    (wanted : ℕ × Bytes) (files more : List (ℕ × Bytes))
    → (Memᴰ wanted files ⊎ Memᴰ wanted more)
    → Memᴰ wanted (files ++ more)
Memᴰ-append wanted [] more (inl at) = elim at [ ]
Memᴰ-append wanted [] more (inr at) = at
Memᴰ-append wanted (file ∷ rest) more (inl (Memᴰ.head e)) = Memᴰ.head e
Memᴰ-append wanted (file ∷ rest) more (inl (Memᴰ.tail at)) =
    Memᴰ.tail (Memᴰ-append wanted rest more (inl at))
Memᴰ-append wanted (file ∷ rest) more (inr at) = Memᴰ.tail (Memᴰ-append wanted rest more (inr at))

pub scan_sstable_name-wal_files :
    (name : Bytes) (scan : DirectoryScan) → (scan_sstable_name name scan).wal_files ≡ scan.wal_files
unfolding scan_sstable_name
scan_sstable_name-wal_files name scan = elim (Option-cases (parse_sstable_file_name name)) [
  | inl none_found ↦ rw (scan_sstable_name, none_found)
  | inr (n, found) ↦ rw (scan_sstable_name, found)
]

scan_wal_name-keeps :
    (oldest : ℕ) (name contents : Bytes) (scan : DirectoryScan) (wanted : ℕ × Bytes)
    → Memᴰ wanted scan.wal_files
    → Memᴰ wanted (scan_wal_name oldest name contents scan).wal_files
unfolding scan_wal_name
scan_wal_name-keeps oldest name contents scan wanted at =
    elim (Option-cases (parse_wal_file_name name)) [
      | inl none_found ↦ simp (scan_wal_name, none_found) at
      | inr (n, found) ↦ elim (Bool-cases (ltb n oldest)) [
        | inl dead ↦ simp (scan_wal_name, found, dead) at
        | inr live ↦
            simp (scan_wal_name, found, live) (Memᴰ-append wanted scan.wal_files _ (inl at))
      ]
    ]

scan_wal_name-adds :
    (oldest : ℕ) (name contents : Bytes) (scan : DirectoryScan) (number : ℕ)
    → parse_wal_file_name name ≡ some number
    → ltb number oldest ≡ false
    → Memᴰ (number, contents) (scan_wal_name oldest name contents scan).wal_files
unfolding scan_wal_name
scan_wal_name-adds oldest name contents scan number found live =
    simp (scan_wal_name, found, live)
      (Memᴰ-append (number, contents) scan.wal_files _ (inr (Memᴰ.head refl)))

module _ (oldest : ℕ) where
  scan_entries-keeps :
      (entries : List DirectoryEntry) (scan : DirectoryScan) (wanted : ℕ × Bytes)
      → Memᴰ wanted scan.wal_files
      → Memᴰ wanted (scan_entries oldest entries scan).wal_files
  unfolding scan_entries
  scan_entries-keeps [] scan wanted at = at
  scan_entries-keeps (entry ∷ rest) scan wanted at = elim (Bool-cases entry.is_regular_file) [
    | inl regular ↦ simp regular (
        scan_entries-keeps rest
          (scan_wal_name oldest entry.name entry.contents (scan_sstable_name entry.name scan))
          wanted
          (scan_wal_name-keeps oldest entry.name entry.contents (scan_sstable_name entry.name scan)
            wanted (subst (Memᴰ wanted) (sym (scan_sstable_name-wal_files entry.name scan)) at)))
    | inr other ↦ simp other (scan_entries-keeps rest scan wanted at)
  ]

  scan_entries-adds :
      (entries : List DirectoryEntry) (scan : DirectoryScan) (entry : DirectoryEntry) (number : ℕ)
      → Memᴰ entry entries
      → entry.is_regular_file ≡ true
      → parse_wal_file_name entry.name ≡ some number
      → ltb number oldest ≡ false
      → Memᴰ (number, entry.contents) (scan_entries oldest entries scan).wal_files
  unfolding scan_entries
  scan_entries-adds [] scan entry number at regular found live = elim at [ ]
  scan_entries-adds (first ∷ rest) scan entry number (Memᴰ.head e) regular found live =
      subst (λ x. Memᴰ (number, x.contents) (scan_entries oldest (first ∷ rest) scan).wal_files)
        (sym e)
        (let is_regular : first.is_regular_file ≡ true =
            ap (λ x. x.is_regular_file) (sym e) ∙ regular in
          let named : parse_wal_file_name first.name ≡ some number =
            ap (λ x. parse_wal_file_name x.name) (sym e) ∙ found in
          simp is_regular (
            scan_entries-keeps rest _ (number, first.contents)
              (scan_wal_name-adds oldest first.name first.contents
                (scan_sstable_name first.name scan) number named live)))
  scan_entries-adds (first ∷ rest) scan entry number (Memᴰ.tail at) regular found live =
      scan_entries-adds rest _ entry number at regular found live

-- A regular file of the directory has the name of a log with a number from the oldest live one on:
-- the files that Recover replays are in ascending order of their numbers, and the file is among them
-- with its contents.
pub scan_directory-IsAscending :
    (oldest : ℕ) (tables : List ℕ) (entries : List DirectoryEntry) (entry : DirectoryEntry)
    (number : ℕ)
    → Memᴰ entry entries
    → entry.is_regular_file ≡ true
    → parse_wal_file_name entry.name ≡ some number
    → oldest ≤ number
    → let files = (scan_directory oldest tables entries).wal_files in
      IsAscending files × Memᴰ (number, entry.contents) files
unfolding scan_directory
scan_directory-IsAscending oldest tables entries entry number at regular found live =
    let scan : DirectoryScan = record {
      max_seen_file_number = max_table_number 0 tables;
      wal_files = [];
    } in
    (
      sort_wals-IsAscending (scan_entries oldest entries scan).wal_files,
      sort_wals-Memᴰ (scan_entries oldest entries scan).wal_files (number, entry.contents)
          (scan_entries-adds oldest entries scan entry number at regular found (ground arith)),
    )
