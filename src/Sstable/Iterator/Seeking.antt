-- ===== src/Sstable/Iterator/Seeking.antt =====
-- What a caller reads from SSTableInternalIterator of src/sstable.cpp.
use kv_mem.Prelude.{
  ℕ, zero, suc, ◌<◌, ◌≤◌, ◌≡◌, refl, ap, sym, ◌∙◌, subst, true, false, not, ◌&&◌, Bool-cases, inl,
  inr, List, [], ◌∷◌, ◌++◌, append_assoc, map, length, length-append, drop, All, leb, arith,
}
use kv_mem.Bytes.{Bytes, IsU64, bytes_ltb, bytes_eq}
use kv_mem.Types.{VersionedEntry}
use kv_mem.Format.InternalKey.{encode_internal_key, HasNoNul}
use kv_mem.Format.InternalKey.Laws.{bytes_ltb-encode_internal_key}
use kv_mem.Sstable.Block.Record.{stored}
use kv_mem.Sstable.Lookup.Sorted.{internal_key, IsSorted, IsPlain}
use kv_mem.Sstable.Create.{IndexEntry}
use kv_mem.Sstable.Create.Split.{concat}
use kv_mem.Sstable.Table.{SsTable}
use kv_mem.Sstable.Table.Blocks.{Indexed, All_front, All_back, IsSorted-append, below_last}
use kv_mem.Sstable.Table.Serve.{AnyServes}
use kv_mem.Sstable.Table.Entries.{map-append}
use kv_mem.Sstable.Table.Get.{IsTable}
use kv_mem.Sstable.Iterator.{TableIterator, lower_bound_index, seek_to_first, seek, walk}
use kv_mem.Sstable.Iterator.Walk.{keep_visible, walk-between, keep_visible-drop_skipped}
use kv_mem.Sstable.Iterator.Keep.{
  keep_from, keep_from-append, IsSorted-IsOrdered, hidden, keep_from-drop_skipped,
}

length-map : (es : List VersionedEntry) → length (map stored es) ≡ length es
length-map [] = refl
length-map (e ∷ es) = ap suc (length-map es)

-- From SeekToFirst on, Next gives the entries of a table that the read sees, in their order, a
-- deletion without its value; the loops take no more rounds than there are entries.
pub seek_to_first-walk :
    (table : SsTable) (entries : List VersionedEntry) (read_sequence m n : ℕ) (it : TableIterator)
    → IsTable table entries
    → AnyServes table it.reader.block_cache
    → length entries ≤ m
    → length entries < n
    → walk m n table read_sequence (seek_to_first n table read_sequence it)
      ≡ keep_visible read_sequence (map stored entries)
unfolding seek_to_first
seek_to_first-walk table entries read_sequence m n it t serves few enough =
    let size = ap (λ es. length (map stored es)) t.whole ∙ length-map entries in
    walk-between table t.blocks t.ascending t.indexed t.fits read_sequence m n [] _ (omega arith)
      (omega arith) refl refl serves
    ∙ keep_visible-drop_skipped table t.blocks t.ascending t.indexed t.fits read_sequence
        (map stored (concat t.blocks))
    ∙ ap (λ es. keep_visible read_sequence (map stored es)) t.whole

module _ (target : Bytes) (read_sequence : ℕ) (clean : HasNoNul target)
    (small : IsU64 read_sequence) where
  -- What is below the internal target is not kept.
  keep_from-below :
      (block : List VersionedEntry)
      → All IsPlain block
      → All
          (λ entry.
            bytes_ltb (internal_key entry) (encode_internal_key target read_sequence) ≡ true)
          block
      → keep_from target read_sequence (map stored block) ≡ []
  unfolding keep_from
  keep_from-below [] plain below = refl
  keep_from-below (entry ∷ rest) plain below =
      let order =
        bytes_ltb-encode_internal_key entry.key target entry.sequence read_sequence plain.0.0 clean
          plain.0.1 small in
      let either = sym order ∙ below.0 in
      let gone : (not (bytes_ltb entry.key target) && leb entry.sequence read_sequence) ≡ false =
        hidden (bytes_ltb entry.key target) (bytes_eq entry.key target) read_sequence entry.sequence
          either in
      rw (gone, keep_from-below rest plain.1 below.1)

  keep_from-lower_bound_index :
      (file : Bytes) (blocks : List (List VersionedEntry)) (items : List IndexEntry)
      → Indexed file blocks items
      → All IsPlain (concat blocks)
      → IsSorted (concat blocks)
      → keep_from target read_sequence (
          map stored (
            concat
              (drop (lower_bound_index (encode_internal_key target read_sequence) items) blocks)))
        ≡ keep_from target read_sequence (map stored (concat blocks))
  unfolding Indexed concat lower_bound_index
  keep_from-lower_bound_index file [] [] indexed plain sorted = refl
  keep_from-lower_bound_index file [] (item ∷ items) indexed plain sorted = elim indexed [ ]
  keep_from-lower_bound_index file (block ∷ blocks) [] indexed plain sorted = elim indexed [ ]
  keep_from-lower_bound_index file (block ∷ blocks) (item ∷ items) (read, last, indexed) plain
        sorted =
      let rest = concat blocks in
      let plain_block = All_front IsPlain block rest plain in
      let (sorted_block, sorted_rest) = IsSorted-append block rest sorted in
      elim (Bool-cases
        (bytes_ltb item.last_internal_key (encode_internal_key target read_sequence))) [
          | inr reached ↦ simp reached refl
          | inl below ↦
              let under = below_last target read_sequence clean small block sorted_block (
                ap (λ k. bytes_ltb k (encode_internal_key target read_sequence)) (sym last)
                ∙ below) in
              simp below (
                keep_from-lower_bound_index file blocks items indexed
                  (All_back IsPlain block rest plain) sorted_rest
                ∙ sym (
                    ap (λ xs. xs ++ keep_from target read_sequence (map stored rest))
                      (keep_from-below block plain_block under))
                ∙ sym (keep_from-append target read_sequence (map stored block) (map stored rest))
                ∙ ap (keep_from target read_sequence) (sym (map-append block rest)))
        ]

-- The blocks from an index on are the back of the entries.
concat-drop :
    (k : ℕ) (blocks : List (List VersionedEntry))
    → (front : List VersionedEntry) × (front ++ concat (drop k blocks) ≡ concat blocks)
unfolding concat
concat-drop zero blocks = ([], refl)
concat-drop (suc k) [] = ([], refl)
concat-drop (suc k) (block ∷ rest) =
    let (front, e) = concat-drop k rest in
    (block ++ front, append_assoc block front (concat (drop k rest)) ∙ ap (λ es. block ++ es) e)

-- From Seek on, Next gives the entries of a table whose keys are not below the target and that the
-- read sees, in their order, a deletion without its value; the loops take no more rounds than there
-- are entries. The entries are sorted, and no key holds a NUL.
pub seek-walk :
    (table : SsTable) (entries : List VersionedEntry) (target : Bytes) (read_sequence m n : ℕ)
    (it : TableIterator)
    → IsTable table entries
    → All IsPlain entries
    → IsSorted entries
    → HasNoNul target
    → IsU64 read_sequence
    → AnyServes table it.reader.block_cache
    → length entries ≤ m
    → length entries < n
    → walk m n table read_sequence (seek n table read_sequence target it)
      ≡ keep_from target read_sequence (map stored entries)
unfolding seek
seek-walk table entries target read_sequence m n it t plain sorted clean small serves few enough =
    let k = lower_bound_index (encode_internal_key target read_sequence) table.index in
    let back = concat (drop k t.blocks) in
    let (front, parts) = concat-drop k t.blocks in
    let whole = parts ∙ t.whole in
    let size = length-append front back in
    let sizes = ap (λ es. length es) whole in
    let stored_size = length-map back in
    let plain_blocks = subst (All IsPlain) (sym t.whole) plain in
    let sorted_blocks = subst IsSorted (sym t.whole) sorted in
    let plain_back = All_back IsPlain front back (subst (All IsPlain) (sym whole) plain) in
    let (sorted_front, sorted_back) =
      IsSorted-append front back (subst IsSorted (sym whole) sorted) in
    walk-between table t.blocks t.ascending t.indexed t.fits read_sequence m n target _
      (omega arith) (omega arith) refl refl serves
    ∙ keep_from-drop_skipped target read_sequence (map stored back)
        (IsSorted-IsOrdered back plain_back sorted_back)
    ∙ keep_from-lower_bound_index target read_sequence clean small table.file t.blocks table.index
        t.indexed plain_blocks sorted_blocks
    ∙ ap (λ es. keep_from target read_sequence (map stored es)) t.whole
