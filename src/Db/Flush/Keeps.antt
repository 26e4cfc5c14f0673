-- ===== src/Db/Flush/Keeps.antt =====
-- A flush of src/db.cc changes no read.
use mathlib.Core.List.{reverse, reverse-cons, reverse-append}
use kv_mem.Prelude.{
  ℕ, ◌≤◌, ◌≡◌, refl, ap, sym, ◌∙◌, subst, Bool, false, ==_refl, Bool-cases, ◌⊎◌, inl, inr, Option,
  none, some, List, [], ◌∷◌, ◌++◌, append_assoc, map, All,
}
use kv_mem.Bytes.{Bytes, IsU64}
use kv_mem.Types.{Entry, VersionedEntry}
use kv_mem.Status.{Status, Result, ok, err, Result-cases}
use kv_mem.Compaction.Ranges.{SstableMeta}
use kv_mem.BlockCache.{BlockCache, node_block}
use kv_mem.BlockCache.Bounded.{IsCache}
use kv_mem.Sstable.Lookup.Sorted.{IsSorted, IsPlain}
use kv_mem.Sstable.Create.{create_from_entries}
use kv_mem.Sstable.Create.Split.{concat}
use kv_mem.Sstable.Table.{SsTable, Reader}
use kv_mem.Sstable.Table.Serve.{AnyServes}
use kv_mem.Sstable.Table.Created.{FitsFile, loaded, loaded-IsTable, load_index-created}
use kv_mem.Db.Store.{validate_key}
use kv_mem.Db.Snapshots.{Readers, validate_read_options, read_sequence}
use kv_mem.Db.Get.{Version, memtables, get, final_answer}
use kv_mem.Db.Get.Newest.{newest_match}
use kv_mem.Db.Get.Tables.{HoldAll, AllServes}
use kv_mem.Db.Get.Layers.{MemTableReads, IsLayered, get-newest_match}
use kv_mem.Db.Flush.{
  Flushing, meta_of, flush_immutable_mem_table, publish_front, publish_flush, version_of,
}

-- The cache has no block of a file that is not written yet.
unfoldable pub IsFresh : ℕ → Option BlockCache → Type 0
IsFresh number none = Unit {0}
IsFresh number (some cache) =
    IsCache cache
    × ((offset : ℕ)
        → node_block (record { file_number = number; block_offset = offset }) cache.entries ≡ none)

IsFresh-AnyServes :
    (table : SsTable) (cache : Option BlockCache)
    → IsFresh table.file_number cache
    → AnyServes table cache
unfolding IsFresh AnyServes
IsFresh-AnyServes table none fresh = tt
IsFresh-AnyServes table (some cache) fresh = record {
  is_cache = fresh.0;
  same = λ item block m h. absurd (let e = fresh.1 item.block_offset in cc);
}

-- The last layer joins what is behind the layers.
concat-last :
    (layers : List (List VersionedEntry)) (last base : List VersionedEntry)
    → concat (layers ++ (last ∷ [])) ++ base ≡ concat layers ++ (last ++ base)
unfolding concat
concat-last [] last base = append_assoc last [] base
concat-last (layer ∷ layers) last base =
    append_assoc layer (concat (layers ++ (last ∷ []))) base
    ∙ ap (λ es. layer ++ es) (concat-last layers last base)
    ∙ sym (append_assoc layer (concat layers) (last ++ base))

IsLayered-last :
    (layers : List (List VersionedEntry)) (last base : List VersionedEntry)
    → IsLayered (layers ++ (last ∷ [])) base
    → IsLayered layers (last ++ base)
unfolding IsLayered
IsLayered-last [] last base layered = tt
IsLayered-last (layer ∷ layers) last base layered = (
  subst
      (λ behind.
        All (λ entry. All (λ later. entry.key ≡ later.key → later.sequence ≤ entry.sequence) behind)
          layer)
      (concat-last layers last base) layered.0,
  IsLayered-last layers last base layered.1,
)

map-last :
    {M : Type 0} (f : M → List VersionedEntry) (xs : List M) (x : M)
    → map f (xs ++ (x ∷ [])) ≡ map f xs ++ (f x ∷ [])
map-last f [] x = refl
map-last f (y ∷ xs) x = ap (◌∷◌ (f y)) (map-last f xs x)

module _ {M : Type 0} (memtable_get : Bytes → ℕ → M → Option Entry)
    (reads : MemTableReads memtable_get) (readers : Readers) (key : Bytes) (options : Option ℕ)
    (reader : Reader) (valid : validate_key key ≡ ok tt)
    (allowed : validate_read_options readers options ≡ ok tt)
    (small : IsU64 (read_sequence readers options)) where
  -- A table with the entries of the oldest memtable, in its place.
  get-moved :
      (active memtable : M) (rest : List M) (sstables : List SsTable) (table : SsTable)
      (entries : List (List VersionedEntry))
      → HoldAll (reverse sstables) entries
      → AllServes (reverse sstables) reader.block_cache
      → IsLayered (map reads.entries (active ∷ reverse (memtable ∷ rest))) (concat entries)
      → HoldAll (table ∷ reverse sstables) (reads.entries memtable ∷ entries)
      → AnyServes table reader.block_cache
      → (get memtable_get
          (record {
            readers = readers;
            active_memtable = active;
            immutable_memtables = rest;
            sstables = sstables ++ (table ∷ []);
          })
          key
          options
          reader).0
        ≡ (get memtable_get
            (record {
              readers = readers;
              active_memtable = active;
              immutable_memtables = memtable ∷ rest;
              sstables = sstables;
            })
            key
            options
            reader).0
  unfolding concat
  get-moved active memtable rest sstables table entries holds serves layered holds' serves' =
      let base = concat entries in
      let es = reads.entries memtable in
      let layers = map reads.entries (active ∷ reverse rest) in
      let flipped : reverse (sstables ++ (table ∷ [])) ≡ table ∷ reverse sstables =
        reverse-append sstables (table ∷ []) in
      let queue : map reads.entries (active ∷ reverse (memtable ∷ rest)) ≡ layers ++ (es ∷ []) =
        ap (λ ms. map reads.entries (active ∷ ms)) (reverse-cons memtable rest)
        ∙ map-last reads.entries (active ∷ reverse rest) memtable in
      let before =
        get-newest_match memtable_get reads
          (record {
            readers = readers;
            active_memtable = active;
            immutable_memtables = memtable ∷ rest;
            sstables = sstables;
          })
          key options reader entries valid allowed small holds serves layered in
      let after =
        get-newest_match memtable_get reads
          (record {
            readers = readers;
            active_memtable = active;
            immutable_memtables = rest;
            sstables = sstables ++ (table ∷ []);
          })
          key options reader (es ∷ entries) valid allowed small
          (subst (λ ts. HoldAll ts (es ∷ entries)) (sym flipped) holds')
          (subst (λ ts. AllServes ts reader.block_cache) (sym flipped) (serves', serves))
          (IsLayered-last layers es base (subst (λ ls. IsLayered ls base) queue layered)) in
      after
      ∙ ap (λ all. final_answer (newest_match key (read_sequence readers options) all))
          (sym (concat-last layers es base) ∙ ap (λ ls. concat ls ++ base) (sym queue))
      ∙ sym before

-- The step behind a flush that gave a table: its version is the old one, or the one with the table.
publish_front-version :
    {M : Type 0} (readers : Readers) (wal : ℕ) (table : SsTable) (meta : SstableMeta)
    (saved : Status) (db : Flushing M) (memtable : M) (rest : List (M × ℕ))
    → (version_of readers (publish_front wal (table, meta) saved ((memtable, wal) ∷ rest) db)
        ≡ version_of readers db)
      ⊎ (version_of readers (publish_front wal (table, meta) saved ((memtable, wal) ∷ rest) db)
          ≡ record {
            readers = readers;
            active_memtable = db.active_memtable;
            immutable_memtables = map (λ p. p.0) rest;
            sstables = db.sstables ++ (table ∷ []);
          })
unfolding publish_front
publish_front-version readers wal table meta (ok u) db memtable rest = inr (rw (==_refl wal))
publish_front-version readers wal table meta (err e) db memtable rest = inl (rw (==_refl wal))

-- What a flush gives, where the file was created.
flush-loaded :
    (block_size bloom_bits_per_key number : ℕ) (entries : List VersionedEntry) (file : Bytes)
    (fits : FitsFile entries block_size bloom_bits_per_key)
    (created : create_from_entries entries block_size bloom_bits_per_key ≡ ok file)
    → flush_immutable_mem_table false block_size bloom_bits_per_key entries number
      ≡ ok (
        loaded entries block_size bloom_bits_per_key file fits created number,
        meta_of number entries,
      )
unfolding flush_immutable_mem_table loaded
flush-loaded block_size bloom_bits_per_key number entries file fits created =
    rw (created, load_index-created entries block_size bloom_bits_per_key file fits created number)

-- What is asked of the flush of a memtable's entries: they are sorted and fit a file, whose number is
-- new to the tables and to the cache.
pub record IsFlushable (entries : List VersionedEntry) (block_size bloom_bits_per_key number : ℕ)
    (sstables : List SsTable) (cache : Option BlockCache) : Type 0 where
  pub fits : FitsFile entries block_size bloom_bits_per_key
  pub plain : All IsPlain entries
  pub sorted : IsSorted entries
  pub new_number : All (λ other. number ≡ other.file_number → ⊥) sstables
  pub fresh : IsFresh number cache

-- The background worker flushes the oldest immutable memtable, and the flush succeeds or fails at any
-- step, or the save of the manifest does. Under the conditions on which Get answers the newest
-- version, and where the memtable's entries are sorted, fit a file and get a new number, Get answers
-- after the publishing step what it answered before.
pub get-publish_flush :
    {M : Type 0} (memtable_get : Bytes → ℕ → M → Option Entry) (reads : MemTableReads memtable_get)
    (readers : Readers) (db : Flushing M) (memtable : M) (wal : ℕ) (rest : List (M × ℕ))
    (testing_fail_flush : Bool) (block_size bloom_bits_per_key number : ℕ) (saved : Status)
    (key : Bytes) (options : Option ℕ) (reader : Reader) (entries : List (List VersionedEntry))
    → db.immutable_memtables ≡ (memtable, wal) ∷ rest
    → validate_key key ≡ ok tt
    → validate_read_options readers options ≡ ok tt
    → IsU64 (read_sequence readers options)
    → HoldAll (reverse db.sstables) entries
    → AllServes (reverse db.sstables) reader.block_cache
    → IsLayered (map reads.entries (memtables (version_of readers db))) (concat entries)
    → IsFlushable
        (reads.entries memtable)
        block_size
        bloom_bits_per_key
        number
        (reverse db.sstables)
        reader.block_cache
    → (get memtable_get
        (version_of readers (
          publish_flush wal
            (flush_immutable_mem_table testing_fail_flush block_size bloom_bits_per_key
              (reads.entries memtable)
              number)
            saved
            db))
        key
        options
        reader).0
      ≡ (get memtable_get (version_of readers db) key options reader).0
unfolding publish_flush flush_immutable_mem_table HoldAll loaded
get-publish_flush memtable_get reads readers db memtable wal rest testing_fail_flush block_size
      bloom_bits_per_key number saved key options reader entries queue valid allowed small holds
      serves layered f =
    let es = reads.entries memtable in
    let read : Version _ → Result Bytes = λ v. (get memtable_get v key options reader).0 in
    let step : Result (SsTable × SstableMeta) → Result Bytes =
      λ flushed. read (version_of readers (publish_flush wal flushed saved db)) in
    elim (Bool-cases testing_fail_flush) [
      | inl injected ↦
          ap (λ b. step (flush_immutable_mem_table b block_size bloom_bits_per_key es number))
            injected
      | inr going ↦
          ap (λ b. step (flush_immutable_mem_table b block_size bloom_bits_per_key es number)) going
          ∙ elim (Result-cases (create_from_entries es block_size bloom_bits_per_key)) [
            | inr (e, refused) ↦ rw refused
            | inl (file, created) ↦
                let t = loaded es block_size bloom_bits_per_key file f.fits created number in
                let holds_new : HoldAll (t ∷ reverse db.sstables) (es ∷ entries) = (
                  record {
                    is_table =
                        loaded-IsTable es block_size bloom_bits_per_key file f.fits created number;
                    plain = f.plain;
                    sorted = f.sorted;
                  },
                  f.new_number,
                  holds,
                ) in
                ap step (flush-loaded block_size bloom_bits_per_key number es file f.fits created)
                ∙ ap
                    (λ q.
                      read
                        (version_of readers (publish_front wal (t, meta_of number es) saved q db)))
                    queue
                ∙ elim (publish_front-version readers wal t (meta_of number es) saved db memtable
                    rest) [
                      | inl same ↦ ap read same
                      | inr new ↦
                          ap read new
                          ∙ get-moved memtable_get reads readers key options reader valid allowed
                              small db.active_memtable memtable (map (λ p. p.0) rest) db.sstables t
                              entries holds serves
                              (subst
                                (λ q.
                                  IsLayered
                                    (map reads.entries
                                      (db.active_memtable ∷ reverse (map (λ p. p.0) q)))
                                    (concat entries))
                                queue layered)
                              holds_new (IsFresh-AnyServes t reader.block_cache f.fresh)
                          ∙ ap
                              (λ q. read (record {
                                readers = readers;
                                active_memtable = db.active_memtable;
                                immutable_memtables = map (λ p. p.0) q;
                                sstables = db.sstables;
                              }))
                              (sym queue)
                    ]
          ]
    ]
