-- ===== src/Sstable/Iterator/Walk.antt =====
-- SkipUntilVisible of SSTableInternalIterator in src/sstable.cpp, and the walk to the end.
use kv_mem.Prelude.{
  ℕ, zero, suc, ◌<◌, ◌≤◌, ◌≡◌, refl, ap, sym, ◌∙◌, subst, Bool, true, false, not, Bool-cases, ◌⊎◌,
  inl, inr, List, [], ◌∷◌, length, All, ltb, leb, if◌then◌else◌, arith,
}
use kv_mem.Bytes.{Bytes, bytes_ltb}
use kv_mem.Types.{VersionedEntry}
use kv_mem.Status.{ok}
use kv_mem.Sstable.Block.RoundTrip.{IsBlock}
use kv_mem.Sstable.Table.{SsTable}
use kv_mem.Sstable.Table.Blocks.{Indexed}
use kv_mem.Sstable.Table.Serve.{Ascending, AnyServes}
use kv_mem.Sstable.Iterator.{
  TableIterator, advance_raw, is_skipped, skip_until_visible, valid, next, skip_behind, walk,
}
use kv_mem.Sstable.Iterator.Place.{
  entries_from, IsInside, IsBetween, IsFine, Stands, advance_raw-rest, ensure_inside,
  ensure_between, no_inside,
}

-- What SkipUntilVisible leaves.
unfoldable pub drop_skipped : ℕ → Bytes → List VersionedEntry → List VersionedEntry
drop_skipped read_sequence target [] = []
drop_skipped read_sequence target (entry ∷ rest) =
    let more = drop_skipped read_sequence target rest in
    if is_skipped target read_sequence entry then more else entry ∷ rest

-- The entries that the read sees.
unfoldable pub keep_visible : ℕ → List VersionedEntry → List VersionedEntry
keep_visible read_sequence [] = []
keep_visible read_sequence (entry ∷ rest) =
    let more = keep_visible read_sequence rest in
    if leb entry.sequence read_sequence then entry ∷ more else more

module _ (table : SsTable) (blocks : List (List VersionedEntry)) (up : Ascending table.index)
    (indexed : Indexed table.file blocks table.index) (fits : All IsBlock blocks)
    (read_sequence : ℕ) where
  skip_inside :
      (target : Bytes) (loaded more : TableIterator) (rest : List VersionedEntry)
      → IsFine table blocks up indexed fits loaded
      → IsInside table blocks up indexed fits loaded rest
      → ((first : VersionedEntry) (others : List VersionedEntry)
          → rest ≡ first ∷ others
          → Stands table blocks up indexed fits more (drop_skipped read_sequence target others))
      → Stands table blocks up indexed fits
          (skip_behind read_sequence target (true, loaded) more)
          (drop_skipped read_sequence target rest)
  unfolding skip_behind drop_skipped
  skip_inside target loaded more [] f inside later =
      absurd (no_inside table blocks up indexed fits loaded inside)
  skip_inside target loaded more (first ∷ others) f inside later =
      let here = (advance_raw-rest table blocks up indexed fits loaded first others f inside).0 in
      elim (Bool-cases (is_skipped target read_sequence first)) [
        | inl skipped ↦ rw (skip_behind, here, skipped) (later first others refl)
        | inr kept ↦ rw (skip_behind, here, kept) (record { is_fine = f; place = inl inside })
      ]

  skip_until_visible-Stands :
      (n : ℕ) (target : Bytes) (it : TableIterator) (rest : List VersionedEntry)
      → length rest < n
      → IsFine table blocks up indexed fits it
      → IsInside table blocks up indexed fits it rest
        ⊎ IsBetween table blocks up indexed fits it rest
      → Stands table blocks up indexed fits
          (skip_until_visible n table read_sequence target it)
          (drop_skipped read_sequence target rest)
  unfolding skip_until_visible skip_behind drop_skipped
  skip_until_visible-Stands zero target it rest enough f place = absurd (omega arith)
  skip_until_visible-Stands (suc n) target it rest enough f place =
      let step : Bool × TableIterator → TableIterator = λ loaded.
        skip_behind read_sequence target loaded
          (skip_until_visible n table read_sequence target (advance_raw loaded.1)) in
      let from_inside : (loaded : TableIterator)
          → IsFine table blocks up indexed fits loaded
          → IsInside table blocks up indexed fits loaded rest
          → Stands table blocks up indexed fits (step (true, loaded))
              (drop_skipped read_sequence target rest) =
        λ loaded g inside.
          skip_inside target loaded
            (skip_until_visible n table read_sequence target (advance_raw loaded)) rest g inside
            (λ first others e.
              let (here, h, p) =
                advance_raw-rest table blocks up indexed fits loaded first others g
                  (subst (IsInside table blocks up indexed fits loaded) e inside) in
              let size = ap (λ es. length es) e in
              skip_until_visible-Stands n target (advance_raw loaded) others (omega arith) h p) in
      elim place [
        | inl inside ↦
            subst
              (λ p.
                Stands table blocks up indexed fits (step p)
                  (drop_skipped read_sequence target rest))
              (sym (ensure_inside table blocks up indexed fits (length table.index) it rest inside))
              (from_inside it f inside)
        | inr between ↦
            elim (ensure_between table blocks up indexed fits (length table.index) it rest f
              between) [
                | inl end ↦
                    subst
                      (λ p.
                        Stands table blocks up indexed fits (step p)
                          (drop_skipped read_sequence target rest))
                      (sym end.0)
                      (subst
                        (λ es.
                          Stands table blocks up indexed fits it
                            (drop_skipped read_sequence target es))
                        (sym end.1)
                        (record {
                          is_fine = f;
                          place = inr (
                            subst (IsBetween table blocks up indexed fits it) end.1 between,
                            refl,
                          );
                        }))
                | inr (loaded, e, g, inside) ↦
                    subst
                      (λ p.
                        Stands table blocks up indexed fits (step p)
                          (drop_skipped read_sequence target rest))
                      (sym e) (from_inside loaded g inside)
              ]
      ]

  pub keep_visible-drop_skipped :
      (rest : List VersionedEntry)
      → keep_visible read_sequence (drop_skipped read_sequence [] rest)
        ≡ keep_visible read_sequence rest
  unfolding keep_visible drop_skipped is_skipped
  keep_visible-drop_skipped [] = refl
  keep_visible-drop_skipped (entry ∷ rest) = elim (Bool-cases (ltb read_sequence entry.sequence)) [
    | inl hidden ↦
        let h : leb entry.sequence read_sequence ≡ false = ground arith in
        rw (hidden, h) (keep_visible-drop_skipped rest)
    | inr seen ↦ rw seen
  ]

  length-drop_skipped :
      (target : Bytes) (rest : List VersionedEntry)
      → length (drop_skipped read_sequence target rest) ≤ length rest
  unfolding drop_skipped
  length-drop_skipped target [] = omega arith
  length-drop_skipped target (entry ∷ rest) =
      elim (Bool-cases (is_skipped target read_sequence entry)) [
        | inl skipped ↦ simp skipped (omega (arith, length-drop_skipped target rest))
        | inr kept ↦ simp kept (omega arith)
      ]

  -- What is left begins with an entry that the read sees, or is empty.
  unfoldable Begins : List VersionedEntry → Type 0
  Begins [] = Unit {0}
  Begins (entry ∷ rest) = leb entry.sequence read_sequence ≡ true

  seen_of_kept :
      (target : Bytes) (entry : VersionedEntry)
      → is_skipped target read_sequence entry ≡ false
      → leb entry.sequence read_sequence ≡ true
  unfolding is_skipped
  seen_of_kept [] entry kept = ground arith
  seen_of_kept (b ∷ target) entry kept = elim (Bool-cases (bytes_ltb entry.key (b ∷ target))) [
    | inl below ↦ absurd (let h = simp below at kept in cc)
    | inr above ↦ (let h = simp above at kept in ground arith)
  ]

  drop_skipped-Begins :
      (target : Bytes) (rest : List VersionedEntry)
      → Begins (drop_skipped read_sequence target rest)
  unfolding drop_skipped Begins
  drop_skipped-Begins target [] = tt
  drop_skipped-Begins target (entry ∷ rest) =
      elim (Bool-cases (is_skipped target read_sequence entry)) [
        | inl skipped ↦ rw skipped (drop_skipped-Begins target rest)
        | inr kept ↦ rw kept (seen_of_kept target entry kept)
      ]

  valid_inside :
      (it : TableIterator) (rest : List VersionedEntry)
      → IsFine table blocks up indexed fits it
      → IsInside table blocks up indexed fits it rest
      → valid it ≡ true
  unfolding valid
  valid_inside it rest f inside =
      let within : ltb it.entry_index (length it.block_entries) ≡ true =
        (let h = inside.within in ground arith) in
      rw (f.fine, inside.loaded, within)

  valid_end :
      (it : TableIterator)
      → IsFine table blocks up indexed fits it
      → IsBetween table blocks up indexed fits it []
      → valid it ≡ false
  unfolding valid
  valid_end it f between = rw (f.fine, between.unloaded)

  walk-keep_visible :
      (m n : ℕ) (it : TableIterator) (rest : List VersionedEntry)
      → length rest ≤ m
      → length rest < n
      → Begins rest
      → Stands table blocks up indexed fits it rest
      → walk m n table read_sequence it ≡ keep_visible read_sequence rest
  unfolding walk keep_visible next Begins
  walk-keep_visible zero n it [] few enough begins s = refl
  walk-keep_visible zero n it (first ∷ others) few enough begins s = absurd (omega arith)
  walk-keep_visible (suc m) n it [] few enough begins s = elim s.place [
    | inl inside ↦ absurd (no_inside table blocks up indexed fits it inside)
    | inr end ↦ rw (walk, valid_end it s.is_fine end.0) refl
  ]
  walk-keep_visible (suc m) n it (first ∷ others) few enough begins s = elim s.place [
    | inr end ↦ absurd (let h = end.1 in cc)
    | inl inside ↦
        let v = valid_inside it (first ∷ others) s.is_fine inside in
        let (here, f, p) =
          advance_raw-rest table blocks up indexed fits it first others s.is_fine inside in
        let moved = skip_until_visible n table read_sequence [] (advance_raw it) in
        let shorter = length-drop_skipped [] others in
        let to_next : next n table read_sequence it ≡ moved =
          ap (λ c. if not c then it else moved) v in
        let more =
          walk-keep_visible m n moved (drop_skipped read_sequence [] others) (omega arith)
            (omega arith) (drop_skipped-Begins [] others)
            (skip_until_visible-Stands n [] (advance_raw it) others (omega arith) f p) in
        rw (v, here, begins)
          (ap (◌∷◌ first)
            (ap (walk m n table read_sequence) to_next ∙ more ∙ keep_visible-drop_skipped others))
  ]

  -- From the entries of a block on, where the iterator is between blocks.
  pub walk-between :
      (m n : ℕ) (target : Bytes) (it : TableIterator)
      → length (entries_from table blocks up indexed fits it.block_index) ≤ m
      → length (entries_from table blocks up indexed fits it.block_index) < n
      → it.status ≡ ok tt
      → it.loaded_block ≡ false
      → AnyServes table it.reader.block_cache
      → walk m n table read_sequence (skip_until_visible n table read_sequence target it)
        ≡ keep_visible read_sequence (
            drop_skipped read_sequence target
              (entries_from table blocks up indexed fits it.block_index))
  walk-between m n target it few enough fine unloaded serves =
      let rest = entries_from table blocks up indexed fits it.block_index in
      let shorter = length-drop_skipped target rest in
      walk-keep_visible m n (skip_until_visible n table read_sequence target it)
        (drop_skipped read_sequence target rest) (omega arith) (omega arith)
        (drop_skipped-Begins target rest)
        (skip_until_visible-Stands n target it rest enough (record { fine = fine; serves = serves })
          (inr (record { unloaded = unloaded; left = refl })))
