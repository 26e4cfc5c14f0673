-- ===== src/Sstable/Iterator/Place.antt =====
-- Where SSTableInternalIterator of src/sstable.cpp stands: EnsureBlockLoaded and AdvanceRaw.
use kv_mem.Prelude.{
  ℕ, zero, suc, ◌+◌, ◌<◌, ◌≤◌, ◌≡◌, refl, ap, sym, ◌∙◌, subst, Bool, true, false, Bool-cases, ◌⊎◌,
  inl, inr, none, some, List, [], ◌∷◌, ◌++◌, map, length, drop, drop-add, get_elem?, All, Memᴰ, leb,
  if◌then◌else◌, arith,
}
use kv_mem.Bytes.{Bytes}
use kv_mem.Types.{VersionedEntry}
use kv_mem.Status.{Result, ok, ◌>>=◌}
use kv_mem.Sstable.Block.{encode_block}
use kv_mem.Sstable.Block.Decode.{decode_block}
use kv_mem.Sstable.Block.Record.{stored}
use kv_mem.Sstable.Block.RoundTrip.{IsBlock, decode_block-encode_block}
use kv_mem.Sstable.Create.{IndexEntry}
use kv_mem.Sstable.Create.Split.{concat}
use kv_mem.Sstable.Table.{SsTable, Reader, read_exact_at, read_raw_block, read_block}
use kv_mem.Sstable.Table.Blocks.{Indexed}
use kv_mem.Sstable.Table.Serve.{Ascending, AnyServes, read_raw_block-IsRead}
use kv_mem.Sstable.Table.Entries.{map-append}
use kv_mem.Sstable.Iterator.{
  TableIterator, load_behind, load_at, ensure_block_loaded, advance_raw, current,
}

-- The item at an index and its block, if there is one.
record HasBlock (file : Bytes) (blocks : List (List VersionedEntry)) (items : List IndexEntry)
    (k : ℕ) : Type 0 where
  pub item : IndexEntry
  pub block : List VersionedEntry
  pub rest : List (List VersionedEntry)
  pub at_index : get_elem? items k ≡ some item
  pub from : drop k blocks ≡ block ∷ rest
  pub read : read_exact_at file item.block_offset item.block_size ≡ ok (encode_block block)
  pub member : Memᴰ item items
  pub fits : IsBlock block

block_at :
    (file : Bytes) (blocks : List (List VersionedEntry)) (items : List IndexEntry) (k : ℕ)
    → Indexed file blocks items
    → All IsBlock blocks
    → ((get_elem? items k ≡ none) × (drop k blocks ≡ [])) ⊎ HasBlock file blocks items k
unfolding Indexed
block_at file [] [] zero indexed fits = inl (refl, refl)
block_at file [] [] (suc k) indexed fits = inl (refl, refl)
block_at file [] (item ∷ items) k indexed fits = elim indexed [ ]
block_at file (block ∷ blocks) [] k indexed fits = elim indexed [ ]
block_at file (block ∷ blocks) (item ∷ items) zero (read, last, indexed) fits = inr (record {
  item = item;
  block = block;
  rest = blocks;
  at_index = refl;
  from = refl;
  read = read;
  member = Memᴰ.head refl;
  fits = fits.0;
})
block_at file (block ∷ blocks) (item ∷ items) (suc k) (read, last, indexed) fits =
    elim (block_at file blocks items k indexed fits.1) [
      | inl past ↦ inl past
      | inr h ↦ inr (record {
        item = h.item;
        block = h.block;
        rest = h.rest;
        at_index = h.at_index;
        from = h.from;
        read = h.read;
        member = Memᴰ.tail h.member;
        fits = h.fits;
      })
    ]

-- The element at an index, and what follows it.
drop_at :
    (es : List VersionedEntry) (i : ℕ)
    → i < length es
    → (e : VersionedEntry) × (get_elem? es i ≡ some e) × (drop i es ≡ e ∷ drop (suc i) es)
drop_at [] i h = absurd (omega arith)
drop_at (e ∷ es) zero h = (e, refl, refl)
drop_at (e ∷ es) (suc i) h = drop_at es i (omega arith)

drop_past : (i : ℕ) (es : List VersionedEntry) → length es ≤ i → drop i es ≡ []
drop_past zero [] h = refl
drop_past zero (e ∷ es) h = absurd (omega arith)
drop_past (suc i) [] h = refl
drop_past (suc i) (e ∷ es) h = drop_past i es (omega arith)

module _ (table : SsTable) (blocks : List (List VersionedEntry)) (up : Ascending table.index)
    (indexed : Indexed table.file blocks table.index) (fits : All IsBlock blocks) where
  -- The entries from a block on, as a reader sees them.
  abbrev pub entries_from : ℕ → List VersionedEntry
  entries_from k = map stored (concat (drop k blocks))

  -- The iterator stands at an entry of a block, or before a block.
  pub record IsInside (it : TableIterator) (rest : List VersionedEntry) : Type 0 where
    pub loaded : it.loaded_block ≡ true
    pub within : it.entry_index < length it.block_entries
    pub left : drop it.entry_index it.block_entries ++ entries_from (it.block_index + 1) ≡ rest

  pub record IsBetween (it : TableIterator) (rest : List VersionedEntry) : Type 0 where
    pub unloaded : it.loaded_block ≡ false
    pub left : entries_from it.block_index ≡ rest

  pub record IsFine (it : TableIterator) : Type 0 where
    pub fine : it.status ≡ ok tt
    pub serves : AnyServes table it.reader.block_cache

  -- Before the first entry of what is left: the iterator stands at it, or at the end.
  pub record Stands (it : TableIterator) (rest : List VersionedEntry) : Type 0 where
    pub is_fine : IsFine it
    pub place : IsInside it rest ⊎ (IsBetween it rest × (rest ≡ []))

  entries_from_next :
      (k : ℕ) (block : List VersionedEntry) (rest : List (List VersionedEntry))
      → drop k blocks ≡ block ∷ rest
      → drop (k + 1) blocks ≡ rest
  entries_from_next k block rest from = drop-add k 1 blocks ∙ ap (drop 1) from

  open_block :
      (again : TableIterator → Bool × TableIterator) (it : TableIterator)
      (answer : Result (List VersionedEntry)) (reader : Reader) (block : List VersionedEntry)
      (rest : List (List VersionedEntry))
      → 0 < length block
      → answer ≡ ok (map stored block)
      → AnyServes table reader.block_cache
      → drop it.block_index blocks ≡ block ∷ rest
      → (loaded : TableIterator) × (load_behind again (answer, reader) it ≡ (true, loaded))
        × IsFine loaded
        × IsInside loaded (entries_from it.block_index)
  unfolding load_behind concat
  open_block again it answer reader [] rest filled e s from = absurd (omega arith)
  open_block again it answer reader (first ∷ more) rest filled e s from = (
    record it {
      block_entries = map stored (first ∷ more);
      status = ok tt;
      entry_index = 0;
      loaded_block = true;
      reader = reader;
    },
    ap (λ r. load_behind again (r, reader) it) e,
    record { fine = refl; serves = s },
    record {
      loaded = refl;
      within = omega arith;
      left =
          ap (λ bs. map stored (first ∷ more) ++ map stored (concat bs))
            (entries_from_next it.block_index (first ∷ more) rest from)
          ∙ sym (map-append (first ∷ more) (concat rest))
          ∙ ap (λ bs. map stored (concat bs)) (sym from);
    },
  )

  load_block :
      (again : TableIterator → Bool × TableIterator) (it : TableIterator)
      → IsFine it
      → IsBetween it (entries_from it.block_index)
      → ((load_at again table (get_elem? table.index it.block_index) it ≡ (false, it))
          × (entries_from it.block_index ≡ []))
        ⊎ ((loaded : TableIterator) × (load_at again table (get_elem? table.index it.block_index) it
              ≡ (true, loaded))
            × IsFine loaded
            × IsInside loaded (entries_from it.block_index))
  unfolding load_at load_behind read_block concat
  load_block again it f b =
      elim (block_at table.file blocks table.index it.block_index indexed fits) [
        | inl past ↦
            inl (
              (ap (λ o. load_at again table o it) past.0),
              ap (λ bs. map stored (concat bs)) past.1,
            )
        | inr h ↦
            let read = read_raw_block-IsRead table up h.item it.reader h.member f.serves in
            let raw = read_raw_block table h.item it.reader in
            let decoded : (raw.0 >>= decode_block) ≡ ok (map stored h.block) =
              ap (λ r. r >>= decode_block) (read.from_file ∙ h.read)
              ∙ decode_block-encode_block h.block h.fits in
            let (loaded, e, g, inside) =
              open_block again it (raw.0 >>= decode_block) raw.1 h.block h.rest h.fits.filled
                decoded read.serves h.from in
            inr (loaded, ap (λ o. load_at again table o it) h.at_index ∙ e, g, inside)
      ]

  -- EnsureBlockLoaded of an iterator between blocks.
  pub ensure_between :
      (n : ℕ) (it : TableIterator) (rest : List VersionedEntry)
      → IsFine it
      → IsBetween it rest
      → ((ensure_block_loaded (suc n) table it ≡ (false, it)) × (rest ≡ []))
        ⊎ ((loaded : TableIterator) × (ensure_block_loaded (suc n) table it ≡ (true, loaded))
            × IsFine loaded
            × IsInside loaded rest)
  unfolding ensure_block_loaded
  ensure_between n it rest f b =
      let unloaded = b.unloaded in
      let loading =
        load_at (ensure_block_loaded n table) table (get_elem? table.index it.block_index) it in
      let opened : ensure_block_loaded (suc n) table it ≡ loading =
        ap (λ c. if c then (true, it) else loading) unloaded in
      elim (load_block (ensure_block_loaded n table) it f
        (record { unloaded = unloaded; left = refl })) [
          | inl past ↦ inl ((opened ∙ past.0), sym b.left ∙ past.1)
          | inr (loaded, e, g, inside) ↦
              inr (loaded, (opened ∙ e), g, subst (IsInside loaded) b.left inside)
        ]

  -- AdvanceRaw leaves the first entry behind.
  pub advance_raw-rest :
      (it : TableIterator) (first : VersionedEntry) (rest : List VersionedEntry)
      → IsFine it
      → IsInside it (first ∷ rest)
      → (current it ≡ some first)
        × IsFine (advance_raw it)
        × (IsInside (advance_raw it) rest ⊎ IsBetween (advance_raw it) rest)
  unfolding advance_raw
  advance_raw-rest it first rest f inside =
      let within = inside.within in
      let loaded = inside.loaded in
      let (e, at_index, cut) = drop_at it.block_entries it.entry_index within in
      let whole : e
            ∷ (drop (suc it.entry_index) it.block_entries ++ entries_from (it.block_index + 1))
          ≡ first ∷ rest =
        ap (λ es. es ++ entries_from (it.block_index + 1)) (sym cut) ∙ inside.left in
      let same : e ≡ first = cc in
      let others : drop (suc it.entry_index) it.block_entries ++ entries_from (it.block_index + 1)
          ≡ rest =
        cc in
      let plus : suc it.entry_index ≡ it.entry_index + 1 = omega arith in
      elim (Bool-cases (leb (length it.block_entries) (it.entry_index + 1))) [
        | inl last ↦
            let none_left : drop (suc it.entry_index) it.block_entries ≡ [] =
              drop_past (suc it.entry_index) it.block_entries (ground arith) in
            (
              at_index ∙ ap some same,
              simp (loaded, last) (record { fine = f.fine; serves = f.serves }),
              simp (loaded, last)
                  (inr (record {
                    unloaded = refl;
                    left =
                        ap (λ es. es ++ entries_from (it.block_index + 1)) (sym none_left) ∙ others;
                  })),
            )
        | inr more ↦ (
          at_index ∙ ap some same,
          simp (loaded, more) (record { fine = f.fine; serves = f.serves }),
          simp (loaded, more)
              (inl (record {
                loaded = refl;
                within = ground arith;
                left =
                    ap (λ n. drop n it.block_entries ++ entries_from (it.block_index + 1))
                      (sym plus)
                    ∙ others;
              })),
        )
      ]

  pub ensure_inside :
      (n : ℕ) (it : TableIterator) (rest : List VersionedEntry)
      → IsInside it rest
      → ensure_block_loaded (suc n) table it ≡ (true, it)
  unfolding ensure_block_loaded
  ensure_inside n it rest inside =
      let loading =
        load_at (ensure_block_loaded n table) table (get_elem? table.index it.block_index) it in
      ap (λ c. if c then (true, it) else loading) inside.loaded

  pub no_inside : (it : TableIterator) → IsInside it [] → ⊥
  no_inside it inside =
      let (e, at_index, cut) = drop_at it.block_entries it.entry_index inside.within in
      let h = ap (λ es. es ++ entries_from (it.block_index + 1)) (sym cut) ∙ inside.left in cc
