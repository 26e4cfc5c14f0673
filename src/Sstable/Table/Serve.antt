-- ===== src/Sstable/Table/Serve.antt =====
-- SSTable::ReadRawBlock and SSTable::Get of src/sstable.cpp, through the cache.
use kv_mem.Prelude.{
  ◌<◌, ◌≡◌, refl, ap, sym, ◌∙◌, subst, Bool-cases, inl, inr, Option, none, some, Option-cases, List,
  [], ◌∷◌, All, Memᴰ, arith,
}
use kv_mem.Bytes.{Bytes, bytes_ltb}
use kv_mem.Status.{Result, ok, Result-cases}
use kv_mem.BlockCache.{BlockCache, Key, node_block, get, put}
use kv_mem.BlockCache.Bounded.{IsCache, eq_of_same_key, get-IsCache, put-IsCache}
use kv_mem.BlockCache.Forgets.{get-node_block, get-keeps, put-keeps}
use kv_mem.Sstable.Create.{IndexEntry}
use kv_mem.Sstable.Table.{
  SsTable, Reader, read_exact_at, block_key, cached, remember, look_up, read_behind, read_raw_block,
  lower_bound,
}

-- The blocks follow one another in the file.
unfoldable pub Ascending : List IndexEntry → Type 0
Ascending [] = Unit {0}
Ascending (item ∷ rest) =
    All (λ later. item.block_offset < later.block_offset) rest × Ascending rest

All-Mem :
    (P : IndexEntry → Type 0) (item : IndexEntry) (items : List IndexEntry)
    → Memᴰ item items
    → All P items
    → P item
All-Mem P item [] m all = elim m [ ]
All-Mem P item (x ∷ rest) (Memᴰ.head e) all = subst P (sym e) all.0
All-Mem P item (x ∷ rest) (Memᴰ.tail m) all = All-Mem P item rest m all.1

-- An offset has one item.
Ascending-unique :
    (a b : IndexEntry) (items : List IndexEntry)
    → Ascending items
    → Memᴰ a items
    → Memᴰ b items
    → a.block_offset ≡ b.block_offset
    → a ≡ b
unfolding Ascending
Ascending-unique a b [] up m n same = elim m [ ]
Ascending-unique a b (x ∷ rest) up (Memᴰ.head e) (Memᴰ.head f) same = e ∙ sym f
Ascending-unique a b (x ∷ rest) up (Memᴰ.head e) (Memᴰ.tail n) same =
    let later = All-Mem _ b rest n up.0 in
    let first = ap (λ i. i.block_offset) e in absurd (omega arith)
Ascending-unique a b (x ∷ rest) up (Memᴰ.tail m) (Memᴰ.head f) same =
    let later = All-Mem _ a rest m up.0 in
    let first = ap (λ i. i.block_offset) f in absurd (omega arith)
Ascending-unique a b (x ∷ rest) up (Memᴰ.tail m) (Memᴰ.tail n) same =
    Ascending-unique a b rest up.1 m n same

pub lower_bound-Mem :
    (target : Bytes) (items : List IndexEntry) (item : IndexEntry)
    → lower_bound target items ≡ some item
    → Memᴰ item items
unfolding lower_bound
lower_bound-Mem target [] item found = absurd cc
lower_bound-Mem target (x ∷ rest) item found =
    elim (Bool-cases (bytes_ltb x.last_internal_key target)) [
      | inl below ↦ Memᴰ.tail (lower_bound-Mem target rest item (simp below at found))
      | inr reached ↦ Memᴰ.head (let e = simp reached at found in cc)
    ]

-- What a cache holds of a table's blocks is what the file has there.
pub record Serves (table : SsTable) (cache : BlockCache) : Type 0 where
  pub is_cache : IsCache cache
  pub same :
      (item : IndexEntry) (block : Bytes)
      → Memᴰ item table.index
      → node_block (block_key table item) cache.entries ≡ some block
      → read_exact_at table.file item.block_offset item.block_size ≡ ok block

-- The same of an optional cache.
unfoldable pub AnyServes : SsTable → Option BlockCache → Type 0
AnyServes table none = Unit {0}
AnyServes table (some cache) = Serves table cache

module _ (table : SsTable) (up : Ascending table.index) where
  get-Serves :
      (key : Key) (cache : BlockCache) → Serves table cache → Serves table ((get key cache).1)
  get-Serves key cache s = record {
    is_cache = get-IsCache key cache s.is_cache;
    same = λ item block m h.
        s.same item block m (sym (get-keeps key (block_key table item) cache s.is_cache) ∙ h);
  }

  put-Serves :
      (item : IndexEntry) (block : Bytes) (cache : BlockCache)
      → Memᴰ item table.index
      → read_exact_at table.file item.block_offset item.block_size ≡ ok block
      → Serves table cache
      → Serves table (put (block_key table item) block cache)
  put-Serves item block cache m read s = record {
    is_cache = put-IsCache (block_key table item) block cache s.is_cache;
    same = λ other found n h.
        elim (put-keeps (block_key table item) (block_key table other) block found cache s.is_cache
          h) [
            | inl new ↦
                let offset =
                  ap (λ k. k.block_offset)
                    (eq_of_same_key (block_key table item) (block_key table other) new.0) in
                let e = Ascending-unique item other table.index up m n offset in
                ap (λ i. read_exact_at table.file i.block_offset i.block_size) (sym e)
                ∙ read
                ∙ ap ok new.1
            | inr old ↦ s.same other found n old.1
          ];
  }

  -- A block comes from the file, whether the cache has it or not, and the cache stays as good.
  pub record IsRead (item : IndexEntry) (answer : Result Bytes × Reader) : Type 0 where
    pub from_file : answer.0 ≡ read_exact_at table.file item.block_offset item.block_size
    pub serves : AnyServes table (answer.1.block_cache)

  hit-IsRead :
      (item : IndexEntry) (block : Bytes) (reader after : Reader)
      → cached (block_key table item) reader ≡ (some block, after)
      → read_exact_at table.file item.block_offset item.block_size ≡ ok block
      → AnyServes table after.block_cache
      → IsRead item (read_raw_block table item reader)
  unfolding read_raw_block read_behind
  hit-IsRead item block reader after found read s =
      subst (λ p. IsRead item (read_behind table item p)) (sym found)
        (record { from_file = sym read; serves = s })

  miss-IsRead :
      (item : IndexEntry) (reader after : Reader)
      → cached (block_key table item) reader ≡ (none, after)
      → AnyServes table after.block_cache
      → ((block : Bytes)
          → read_exact_at table.file item.block_offset item.block_size ≡ ok block
          → AnyServes table ((remember (block_key table item) block after).block_cache))
      → IsRead item (read_raw_block table item reader)
  unfolding read_raw_block read_behind
  miss-IsRead item reader after missing s put_in =
      subst (λ p. IsRead item (read_behind table item p)) (sym missing)
        (elim (Result-cases (read_exact_at table.file item.block_offset item.block_size)) [
          | inl (block, e) ↦
              rw (read_behind, e) (record { from_file = sym e; serves = put_in block e })
          | inr (error, e) ↦ rw (read_behind, e) (record { from_file = sym e; serves = s })
        ])

  by_cache :
      (item : IndexEntry) (reader : Reader) (cache : Option BlockCache)
      → reader.block_cache ≡ cache
      → Memᴰ item table.index
      → AnyServes table cache
      → IsRead item (read_raw_block table item reader)
  unfolding cached look_up remember AnyServes
  by_cache item reader none e m s =
      miss-IsRead item reader reader (ap (λ c. look_up (block_key table item) reader c) e)
        (simp e tt) (λ block read. simp e tt)
  by_cache item reader (some cache) e m s =
      let key = block_key table item in
      let answer = get-node_block key cache s.is_cache in
      let kept = get-Serves key cache s in
      let after = record reader { block_cache = some ((get key cache).1) } in
      elim (Option-cases (node_block key cache.entries)) [
        | inr (block, found) ↦
            hit-IsRead item block reader after
              (ap (λ c. look_up key reader c) e ∙ ap (λ o. (o, after)) (answer ∙ found))
              (s.same item block m found) kept
        | inl missing ↦
            miss-IsRead item reader after
              (ap (λ c. look_up key reader c) e ∙ ap (λ o. (o, after)) (answer ∙ missing)) kept
              (λ block read. put-Serves item block ((get key cache).1) m read kept)
      ]

  pub read_raw_block-IsRead :
      (item : IndexEntry) (reader : Reader)
      → Memᴰ item table.index
      → AnyServes table reader.block_cache
      → IsRead item (read_raw_block table item reader)
  read_raw_block-IsRead item reader m s = by_cache item reader reader.block_cache refl m s
