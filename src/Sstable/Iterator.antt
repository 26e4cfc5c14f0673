-- ===== src/Sstable/Iterator.antt =====
-- SSTableInternalIterator of src/sstable.cpp. What the reads of its table change is a part of the
-- iterator here. Where a block cannot be read, `block_entries_` is given as empty: Valid tests the
-- status first.
pub mod Place
pub mod Walk
pub mod Keep
pub mod Seeking
use kv_mem.Prelude.{
  ℕ, zero, suc, ◌+◌, Bool, true, false, not, ◌&&◌, Option, none, some, List, [], ◌∷◌, length, drop,
  get_elem?, ltb, leb, if◌then◌else◌,
}
use kv_mem.Bytes.{Bytes, bytes_ltb}
use kv_mem.Types.{VersionedEntry}
use kv_mem.Status.{Status, Result, ok, err}
use kv_mem.Format.InternalKey.{encode_internal_key}
use kv_mem.Sstable.Create.{IndexEntry}
use kv_mem.Sstable.Table.{SsTable, Reader, read_block}

pub record TableIterator : Type 0 where
  pub block_index : ℕ
  pub entry_index : ℕ
  pub loaded_block : Bool
  pub block_entries : List VersionedEntry
  pub status : Status
  pub reader : Reader

-- What EnsureBlockLoaded does with a block that was read; an empty one is passed over.
unfoldable pub load_behind :
    (TableIterator → Bool × TableIterator)
    → Result (List VersionedEntry) × Reader
    → TableIterator
    → Bool × TableIterator
load_behind again (err e, reader) it =
    (false, record it { block_entries = []; status = err e; reader = reader })
load_behind again (ok [], reader) it = again (record it {
  block_entries = [];
  status = ok tt;
  entry_index = 0;
  block_index = it.block_index + 1;
  reader = reader;
})
load_behind again (ok (entry ∷ rest), reader) it = (
  true,
  record it {
    block_entries = entry ∷ rest;
    status = ok tt;
    entry_index = 0;
    loaded_block = true;
    reader = reader;
  },
)

-- The test of the block's index.
unfoldable pub load_at :
    (TableIterator → Bool × TableIterator)
    → SsTable
    → Option IndexEntry
    → TableIterator
    → Bool × TableIterator
load_at again table none it = (false, it)
load_at again table (some item) it = load_behind again (read_block table item it.reader) it

-- EnsureBlockLoaded; a round ends the loop or passes over a block.
unfoldable pub ensure_block_loaded : ℕ → SsTable → TableIterator → Bool × TableIterator
ensure_block_loaded zero table it = (false, it)
ensure_block_loaded (suc n) table it =
    let loaded =
      load_at (ensure_block_loaded n table) table (get_elem? table.index it.block_index) it in
    if it.loaded_block then (true, it) else loaded

unfoldable pub advance_raw : TableIterator → TableIterator
advance_raw it =
    let entry_index = it.entry_index + 1 in
    if not it.loaded_block
    then it
    else if leb (length it.block_entries) entry_index
    then record it {
      loaded_block = false;
      block_entries = [];
      block_index = it.block_index + 1;
      entry_index = 0;
    }
    else record it { entry_index = entry_index }

-- `!target.empty() && entry.key < target`, or a sequence that the read does not see.
unfoldable pub is_skipped : Bytes → ℕ → VersionedEntry → Bool
is_skipped [] read_sequence entry = ltb read_sequence entry.sequence
is_skipped (b ∷ target) read_sequence entry =
    if bytes_ltb entry.key (b ∷ target) then true else ltb read_sequence entry.sequence

-- The entry that the iterator stands at.
abbrev pub current : TableIterator → Option VersionedEntry
current it = get_elem? it.block_entries it.entry_index

abbrev pub rounds : SsTable → ℕ
rounds table = suc (length table.index)

-- A round of SkipUntilVisible behind EnsureBlockLoaded.
unfoldable pub skip_behind : ℕ → Bytes → Bool × TableIterator → TableIterator → TableIterator
skip_behind read_sequence target (false, it) more = it
skip_behind read_sequence target (true, it) more = elim (current it) [
  | none ↦ it
  | some entry ↦ if is_skipped target read_sequence entry then more else it
]

-- The loop of SkipUntilVisible, which passes over an entry in each round.
unfoldable pub skip_until_visible : ℕ → SsTable → ℕ → Bytes → TableIterator → TableIterator
skip_until_visible zero table read_sequence target it = it
skip_until_visible (suc n) table read_sequence target it =
    let loaded = ensure_block_loaded (rounds table) table it in
    skip_behind read_sequence target loaded
      (skip_until_visible n table read_sequence target (advance_raw loaded.1))

unfoldable pub valid : TableIterator → Bool
valid it = elim it.status [
  | err e ↦ false
  | ok u ↦ it.loaded_block && ltb it.entry_index (length it.block_entries)
]

unfoldable pub seek_to_first : ℕ → SsTable → ℕ → TableIterator → TableIterator
seek_to_first n table read_sequence it = skip_until_visible n table read_sequence [] (record it {
  status = ok tt;
  block_index = 0;
  entry_index = 0;
  block_entries = [];
  loaded_block = false;
})

-- it - index_.begin(), for std::lower_bound.
unfoldable pub lower_bound_index : Bytes → List IndexEntry → ℕ
lower_bound_index target [] = 0
lower_bound_index target (item ∷ rest) =
    let later = lower_bound_index target rest in
    if bytes_ltb item.last_internal_key target then suc later else 0

unfoldable pub seek : ℕ → SsTable → ℕ → Bytes → TableIterator → TableIterator
seek n table read_sequence target it = skip_until_visible n table read_sequence target (record it {
  status = ok tt;
  block_entries = [];
  loaded_block = false;
  entry_index = 0;
  block_index = lower_bound_index (encode_internal_key target read_sequence) table.index;
})

unfoldable pub next : ℕ → SsTable → ℕ → TableIterator → TableIterator
next n table read_sequence it =
    let moved = skip_until_visible n table read_sequence [] (advance_raw it) in
    if not (valid it) then it else moved

-- What a caller reads, from the entry that the iterator stands at on.
unfoldable pub walk : ℕ → ℕ → SsTable → ℕ → TableIterator → List VersionedEntry
walk zero n table read_sequence it = []
walk (suc m) n table read_sequence it =
    let rest = walk m n table read_sequence (next n table read_sequence it) in
    if not (valid it) then [] else elim (current it) [ none ↦ rest | some entry ↦ entry ∷ rest ]
