-- ===== src/Sstable/Table/Get.antt =====
-- SSTable::Get of src/sstable.cpp on a table whose blocks hold sorted entries.
use kv_mem.Prelude.{
  ℕ, ◌≡◌, refl, ap, sym, ◌∙◌, subst, true, Bool-cases, inl, inr, Option-cases, List, All,
}
use kv_mem.Bytes.{Bytes, IsU64}
use kv_mem.Types.{VersionedEntry}
use kv_mem.Status.{Result, ok, err, ◌>>=◌, Result-cases}
use kv_mem.Format.InternalKey.{encode_internal_key, HasNoNul}
use kv_mem.BloomFilter.{may_contain}
use kv_mem.Sstable.Block.Decode.{decode_block_payload, parse_prefix_block_layout}
use kv_mem.Sstable.Block.RoundTrip.{IsBlock}
use kv_mem.Sstable.Lookup.{get_from_block}
use kv_mem.Sstable.Lookup.Sorted.{IsSorted, IsPlain, find_visible}
use kv_mem.Sstable.Create.Split.{concat}
use kv_mem.Sstable.Table.{
  SsTable, Reader, read_exact_at, read_raw_block, get_behind, get_from_item, lower_bound,
  found_or_not, table_get,
}
use kv_mem.Sstable.Table.Blocks.{Indexed, item_answer, item_answer-find_visible}
use kv_mem.Sstable.Table.Filtered.{find_visible-filtered}
use kv_mem.Sstable.Table.Serve.{Ascending, lower_bound-Mem, AnyServes, read_raw_block-IsRead}

-- A table of some entries: its items lead to blocks of them, and its filter lets their keys pass.
pub record IsTable (table : SsTable) (entries : List VersionedEntry) : Type 0 where
  pub blocks : List (List VersionedEntry)
  pub whole : concat blocks ≡ entries
  pub indexed : Indexed table.file blocks table.index
  pub fits : All IsBlock blocks
  pub ascending : Ascending table.index
  pub passes : All (λ entry. may_contain table.filter entry.key ≡ true) entries

get_behind-answer :
    (key : Bytes) (read_sequence : ℕ) (read : Result Bytes × Reader)
    → (get_behind key read_sequence read).0
      ≡ (read.0 >>= λ block. get_from_block block key read_sequence)
unfolding get_behind get_from_block
get_behind-answer key read_sequence (err e, reader) = refl
get_behind-answer key read_sequence (ok block, reader) =
    elim (Result-cases (decode_block_payload block)) [
      | inr (e, h) ↦ rw (get_behind, h)
      | inl (payload, h) ↦ elim (Result-cases (parse_prefix_block_layout payload)) [
        | inr (e, k) ↦ rw (get_behind, h, k)
        | inl (layout, k) ↦ rw (get_behind, h, k)
      ]
    ]

pub get_behind-cache :
    (key : Bytes) (read_sequence : ℕ) (read : Result Bytes × Reader)
    → (get_behind key read_sequence read).1.block_cache ≡ read.1.block_cache
unfolding get_behind
get_behind-cache key read_sequence (err e, reader) = refl
get_behind-cache key read_sequence (ok block, reader) =
    elim (Result-cases (decode_block_payload block >>= parse_prefix_block_layout)) [
      | inr (e, h) ↦ rw (get_behind, h)
      | inl (layout, h) ↦ rw (get_behind, h)
    ]

-- Get of a table of sorted entries, with keys that hold no NUL, answers the first visible version of
-- the key among the entries, or NotFound; whether the filter, the cache or the file decides. A cache
-- that holds blocks of the file holds such blocks behind it too.
pub table_get-find_visible :
    (table : SsTable) (entries : List VersionedEntry) (key : Bytes) (read_sequence : ℕ)
    (reader : Reader)
    → IsTable table entries
    → All IsPlain entries
    → IsSorted entries
    → HasNoNul key
    → IsU64 read_sequence
    → AnyServes table reader.block_cache
    → ((table_get table key read_sequence reader).0
        ≡ found_or_not (find_visible key read_sequence entries))
      × AnyServes table ((table_get table key read_sequence reader).1.block_cache)
unfolding table_get get_from_item item_answer
table_get-find_visible table entries key read_sequence reader t plain sorted clean small s =
    let answer : item_answer key read_sequence clean small table.file
          (lower_bound (encode_internal_key key read_sequence) table.index)
        ≡ ok (find_visible key read_sequence entries) =
      item_answer-find_visible key read_sequence clean small table.file t.blocks table.index
        t.indexed t.fits (subst (All IsPlain) (sym t.whole) plain)
        (subst IsSorted (sym t.whole) sorted)
      ∙ ap (λ es. ok (find_visible key read_sequence es)) t.whole in
    elim (Bool-cases (may_contain table.filter key)) [
      | inr stopped ↦
          let nothing =
            find_visible-filtered (may_contain table.filter) key read_sequence entries t.passes
              stopped in
          simp (stopped, nothing) (refl, s)
      | inl passed ↦
          elim (Option-cases (lower_bound (encode_internal_key key read_sequence) table.index)) [
            | inl past ↦ simp (passed, past) (ap (λ r. r >>= found_or_not) (simp past at answer), s)
            | inr (item, found) ↦
                let read =
                  read_raw_block-IsRead table t.ascending item reader
                    (lower_bound-Mem _ table.index item found) s in
                let raw = read_raw_block table item reader in
                let item_is : (read_exact_at table.file item.block_offset item.block_size
                      >>= λ block. get_from_block block key read_sequence)
                    ≡ ok (find_visible key read_sequence entries) =
                  simp found at answer in
                simp (passed, found)
                  (
                    ap (λ r. r >>= found_or_not)
                        (get_behind-answer key read_sequence raw
                          ∙ ap (λ b. b >>= λ block. get_from_block block key read_sequence)
                              read.from_file
                          ∙ item_is),
                    subst (AnyServes table) (sym (get_behind-cache key read_sequence raw))
                        read.serves,
                  )
          ]
    ]
