-- ===== src/Sstable/Create/Split.antt =====
-- The blocks that SSTable::CreateFromEntries of src/sstable.cpp cuts the entries into.
use kv_mem.Prelude.{
  ℕ, zero, suc, ◌+◌, ◌≤◌, ◌<◌, ◌≡◌, refl, ap, ◌∙◌, Bool-cases, inl, inr, List, [], ◌∷◌, ◌++◌,
  length, ltb, All, arith,
}
use kv_mem.Bytes.{bytes_eq}
use kv_mem.Types.{VersionedEntry}
use kv_mem.Sstable.Create.{take_versions, take_block, split_blocks}

-- The entries of some blocks.
unfoldable pub concat : List (List VersionedEntry) → List VersionedEntry
concat [] = []
concat (block ∷ rest) = block ++ concat rest

-- A block that was taken is a front of the entries, and has its first one.
pub record IsFront (entry : VersionedEntry) (entries : List VersionedEntry)
    (taken : List VersionedEntry × List VersionedEntry) : Type 0 where
  pub front : taken.0 ++ taken.1 ≡ entries
  pub filled : 0 < length taken.0
  pub fewer : length taken.1 < length entries

next-IsFront :
    (entry next : VersionedEntry) (rest : List VersionedEntry)
    (more : List VersionedEntry × List VersionedEntry)
    → IsFront next (next ∷ rest) more
    → IsFront entry (entry ∷ next ∷ rest) (entry ∷ more.0, more.1)
next-IsFront entry next rest more f =
    let fewer = f.fewer in
    record { front = ap (◌∷◌ entry) f.front; filled = omega arith; fewer = omega arith }

take_versions-IsFront :
    (entry : VersionedEntry) (rest : List VersionedEntry)
    → IsFront entry (entry ∷ rest) (take_versions entry rest)
unfolding take_versions
take_versions-IsFront entry [] = record { front = refl; filled = omega arith; fewer = omega arith }
take_versions-IsFront entry (next ∷ rest) = elim (Bool-cases (bytes_eq next.key entry.key)) [
  | inl same ↦
      simp same
        (next-IsFront entry next rest (take_versions next rest) (take_versions-IsFront next rest))
  | inr other ↦ simp other (record { front = refl; filled = omega arith; fewer = omega arith })
]

take_block-IsFront :
    (block_size approx_size : ℕ) (entry : VersionedEntry) (rest : List VersionedEntry)
    → IsFront entry (entry ∷ rest) (take_block block_size approx_size entry rest)
unfolding take_block
take_block-IsFront block_size approx_size entry [] = record {
  front = refl;
  filled = omega arith;
  fewer = omega arith;
}
take_block-IsFront block_size approx_size entry (next ∷ rest) =
    let approx_size' = approx_size + (17 + length entry.key + length entry.value) in
    elim (Bool-cases (ltb approx_size' block_size)) [
      | inl room ↦ simp room (
          next-IsFront entry next rest (take_block block_size approx_size' next rest)
            (take_block-IsFront block_size approx_size' next rest))
      | inr full ↦ simp full (take_versions-IsFront entry (next ∷ rest))
    ]

-- With a round for each entry, the blocks, one after the other, are the entries: none is lost, and
-- the loop ends.
pub concat-split_blocks :
    (n block_size : ℕ) (entries : List VersionedEntry)
    → length entries ≤ n
    → concat (split_blocks n block_size entries) ≡ entries
unfolding concat split_blocks
concat-split_blocks zero block_size [] enough = refl
concat-split_blocks zero block_size (entry ∷ rest) enough = absurd (omega arith)
concat-split_blocks (suc n) block_size [] enough = refl
concat-split_blocks (suc n) block_size (entry ∷ rest) enough =
    let taken = take_block block_size 8 entry rest in
    let f = take_block-IsFront block_size 8 entry rest in
    let fewer = f.fewer in
    ap (λ es. taken.0 ++ es) (concat-split_blocks n block_size taken.1 (omega arith)) ∙ f.front

-- No block is empty.
pub split_blocks-filled :
    (n block_size : ℕ) (entries : List VersionedEntry)
    → All (λ block. 0 < length block) (split_blocks n block_size entries)
unfolding split_blocks
split_blocks-filled zero block_size entries = tt
split_blocks-filled (suc n) block_size [] = tt
split_blocks-filled (suc n) block_size (entry ∷ rest) =
    let taken = take_block block_size 8 entry rest in
    ((take_block-IsFront block_size 8 entry rest).filled, split_blocks-filled n block_size taken.1)
