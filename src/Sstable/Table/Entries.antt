-- ===== src/Sstable/Table/Entries.antt =====
-- SSTable::Entries of src/sstable.cpp.
use kv_mem.Prelude.{◌≡◌, refl, ap, sym, ◌∙◌, List, [], ◌∷◌, ◌++◌, map, All, Memᴰ}
use kv_mem.Types.{VersionedEntry}
use kv_mem.Status.{ok, ◌>>=◌}
use kv_mem.Sstable.Block.Decode.{decode_block}
use kv_mem.Sstable.Block.Record.{stored}
use kv_mem.Sstable.Block.RoundTrip.{IsBlock, decode_block-encode_block}
use kv_mem.Sstable.Create.{IndexEntry}
use kv_mem.Sstable.Create.Split.{concat}
use kv_mem.Sstable.Table.{SsTable, Reader, read_raw_block, read_block, read_items, table_entries}
use kv_mem.Sstable.Table.Blocks.{Indexed}
use kv_mem.Sstable.Table.Serve.{Ascending, AnyServes, read_raw_block-IsRead}
use kv_mem.Sstable.Table.Get.{IsTable}

pub map-append :
    (xs ys : List VersionedEntry) → map stored (xs ++ ys) ≡ map stored xs ++ map stored ys
map-append [] ys = refl
map-append (x ∷ xs) ys = ap (◌∷◌ (stored x)) (map-append xs ys)

module _ (table : SsTable) (up : Ascending table.index) where
  abbrev AreItems : List IndexEntry → Type 0
  AreItems items = All (λ item. Memᴰ item table.index) items

  read_items-concat :
      (blocks : List (List VersionedEntry)) (items : List IndexEntry) (reader : Reader)
      → Indexed table.file blocks items
      → All IsBlock blocks
      → AreItems items
      → AnyServes table reader.block_cache
      → ((read_items table items reader).0 ≡ ok (map stored (concat blocks)))
        × AnyServes table ((read_items table items reader).1.block_cache)
  unfolding Indexed concat read_items read_block
  read_items-concat [] [] reader indexed fits members s = (refl, s)
  read_items-concat [] (item ∷ items) reader indexed fits members s = elim indexed [ ]
  read_items-concat (block ∷ blocks) [] reader indexed fits members s = elim indexed [ ]
  read_items-concat (block ∷ blocks) (item ∷ items) reader (file, last, indexed) fits members s =
      let read = read_raw_block-IsRead table up item reader members.0 s in
      let raw = read_raw_block table item reader in
      let (more, kept) =
        read_items-concat blocks items raw.1 indexed fits.1 members.1 read.serves in
      let decoded : (raw.0 >>= decode_block) ≡ ok (map stored block) =
        ap (λ r. r >>= decode_block) (read.from_file ∙ file)
        ∙ decode_block-encode_block block fits.0 in
      rw (read_items, decoded, more) (ap ok (sym (map-append block (concat blocks))), kept)

-- What all members of a list have.
within :
    {P : IndexEntry → Type 0} (items : List IndexEntry)
    → ((item : IndexEntry) → Memᴰ item items → P item)
    → All P items
within [] each = tt
within (item ∷ rest) each = (each item (Memᴰ.head refl), within rest (λ i m. each i (Memᴰ.tail m)))

all_members : (items : List IndexEntry) → All (λ item. Memᴰ item items) items
all_members items = within items (λ item m. m)

-- Entries of a table, through a cache that is good for its blocks, answers all its entries, a
-- deletion without its value, and the cache stays good.
pub table_entries-IsTable :
    (table : SsTable) (entries : List VersionedEntry) (reader : Reader)
    → IsTable table entries
    → AnyServes table reader.block_cache
    → ((table_entries table reader).0 ≡ ok (map stored entries))
      × AnyServes table ((table_entries table reader).1.block_cache)
unfolding table_entries
table_entries-IsTable table entries reader t s =
    let (read, kept) =
      read_items-concat table t.ascending t.blocks table.index reader t.indexed t.fits
        (all_members table.index) s in
    (read ∙ ap (λ es. ok (map stored es)) t.whole, kept)
