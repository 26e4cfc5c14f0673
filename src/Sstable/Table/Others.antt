-- ===== src/Sstable/Table/Others.antt =====
-- A lookup in one table of src/sstable.cpp and the other tables that share its cache.
use kv_mem.Prelude.{
  ℕ, ◌≡◌, refl, ap, sym, ◌∙◌, subst, Bool-cases, inl, inr, Option, none, some, Option-cases,
}
use kv_mem.Bytes.{Bytes}
use kv_mem.Status.{Result-cases}
use kv_mem.Format.InternalKey.{encode_internal_key}
use kv_mem.BloomFilter.{may_contain}
use kv_mem.BlockCache.{BlockCache, Key, get, put}
use kv_mem.BlockCache.Bounded.{eq_of_same_key, get-IsCache, put-IsCache}
use kv_mem.BlockCache.Forgets.{get-keeps, put-keeps}
use kv_mem.Sstable.Create.{IndexEntry}
use kv_mem.Sstable.Table.{
  SsTable, Reader, read_exact_at, block_key, look_up, cached, remember, read_behind, read_raw_block,
  get_from_item, lower_bound, table_get,
}
use kv_mem.Sstable.Table.Serve.{Serves, AnyServes}
use kv_mem.Sstable.Table.Get.{get_behind-cache}

module _ (table other : SsTable) (apart : table.file_number ≡ other.file_number → ⊥) where
  get_other :
      (key : Key) (cache : BlockCache) → Serves other cache → Serves other ((get key cache).1)
  get_other key cache s = record {
    is_cache = get-IsCache key cache s.is_cache;
    same = λ item block m h.
        s.same item block m (sym (get-keeps key (block_key other item) cache s.is_cache) ∙ h);
  }

  put_other :
      (item : IndexEntry) (block : Bytes) (cache : BlockCache)
      → Serves other cache
      → Serves other (put (block_key table item) block cache)
  put_other item block cache s = record {
    is_cache = put-IsCache (block_key table item) block cache s.is_cache;
    same = λ i found m h.
        elim (put-keeps (block_key table item) (block_key other i) block found cache s.is_cache h) [
          | inl new ↦ absurd (
              apart (
                ap (λ k. k.file_number)
                  (eq_of_same_key (block_key table item) (block_key other i) new.0)))
          | inr old ↦ s.same i found m old.1
        ];
  }

  put_any :
      (item : IndexEntry) (block : Bytes) (cache : Option BlockCache)
      → AnyServes other cache
      → AnyServes other
          (elim cache [ none ↦ none | some c ↦ some (put (block_key table item) block c) ])
  unfolding AnyServes
  put_any item block none s = tt
  put_any item block (some cache) s = put_other item block cache s

  look_up-AnyServes :
      (key : Key) (reader : Reader) (cache : Option BlockCache)
      → reader.block_cache ≡ cache
      → AnyServes other cache
      → AnyServes other ((look_up key reader cache).1.block_cache)
  unfolding AnyServes look_up
  look_up-AnyServes key reader none e s = subst (AnyServes other) (sym e) tt
  look_up-AnyServes key reader (some cache) e s = get_other key cache s

  read_behind-AnyServes :
      (item : IndexEntry) (read : Option Bytes × Reader)
      → AnyServes other (read.1.block_cache)
      → AnyServes other ((read_behind table item read).1.block_cache)
  unfolding read_behind remember
  read_behind-AnyServes item (some block, reader) s = s
  read_behind-AnyServes item (none, reader) s =
      elim (Result-cases (read_exact_at table.file item.block_offset item.block_size)) [
        | inl (block, e) ↦ rw (read_behind, e) (put_any item block reader.block_cache s)
        | inr (error, e) ↦ rw (read_behind, e) s
      ]

  -- The cache stays as good for another table's blocks.
  pub table_get-others :
      (key : Bytes) (read_sequence : ℕ) (reader : Reader)
      → AnyServes other reader.block_cache
      → AnyServes other ((table_get table key read_sequence reader).1.block_cache)
  unfolding table_get get_from_item read_raw_block cached
  table_get-others key read_sequence reader s = elim (Bool-cases (may_contain table.filter key)) [
    | inr stopped ↦ simp stopped s
    | inl passed ↦
        elim (Option-cases (lower_bound (encode_internal_key key read_sequence) table.index)) [
          | inl past ↦ simp (passed, past) s
          | inr (item, found) ↦
              simp (passed, found)
                (subst (AnyServes other)
                  (sym (get_behind-cache key read_sequence (read_raw_block table item reader)))
                  (read_behind-AnyServes item (cached (block_key table item) reader)
                    (look_up-AnyServes (block_key table item) reader reader.block_cache refl s)))
        ]
  ]
