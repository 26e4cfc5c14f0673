-- ===== src/BlockCache.antt =====
-- BlockCache of src/block_cache.cc, whose mutex makes each call one step. An iterator of `index_`
-- is given by the key of the list node that it stands at, so `index_` is the list of its keys.
pub mod Bounded
pub mod Forgets
pub mod Runs
use kv_mem.Prelude.{
  ℕ, zero, suc, ◌+◌, Bool, true, false, ◌&&◌, ◌||◌, not, Option, none, some, List, [], ◌∷◌, length,
  map, ltb, ◌==◌, if◌then◌else◌,
}
use kv_mem.Bytes.{Bytes}

pub record Key : Type 0 where
  pub file_number : ℕ
  pub block_offset : ℕ

-- operator==
unfoldable pub same_key : Key → Key → Bool
same_key a b = a.file_number == b.file_number && a.block_offset == b.block_offset

pub record BlockCacheStats : Type 0 where
  pub hits : ℕ
  pub misses : ℕ

pub record BlockCache : Type 0 where
  pub capacity : ℕ
  pub entries : List (Key × Bytes)
  pub index : List Key
  pub stats : BlockCacheStats

abbrev pub new_block_cache : ℕ → BlockCache
new_block_cache capacity = record {
  capacity = capacity;
  entries = [];
  index = [];
  stats = record { hits = 0; misses = 0 };
}

-- index_.find(key) != index_.end()
unfoldable pub is_indexed : Key → List Key → Bool
is_indexed key [] = false
is_indexed key (k ∷ rest) = same_key k key || is_indexed key rest

-- The block of the list node with a key.
unfoldable pub node_block : Key → List (Key × Bytes) → Option Bytes
node_block key [] = none
node_block key ((k, block) ∷ rest) =
    let more = node_block key rest in if same_key k key then some block else more

-- The list without the node with a key.
unfoldable pub unlink : Key → List (Key × Bytes) → List (Key × Bytes)
unlink key [] = []
unlink key ((k, block) ∷ rest) =
    let more = unlink key rest in if same_key k key then rest else (k, block) ∷ more

-- index_.erase(key)
unfoldable pub erase : Key → List Key → List Key
erase key [] = []
erase key (k ∷ rest) = let more = erase key rest in if same_key k key then more else k ∷ more

-- The clock of the statistics: a hit, or a miss.
abbrev pub hit : BlockCacheStats → BlockCacheStats
hit stats = record stats { hits = stats.hits + 1 }

abbrev pub miss : BlockCacheStats → BlockCacheStats
miss stats = record stats { misses = stats.misses + 1 }

-- BlockCache::Get; splice moves the node to the front.
unfoldable pub get : Key → BlockCache → Option Bytes × BlockCache
get key cache =
    if cache.capacity == 0 || not (is_indexed key cache.index)
    then (none, record cache { stats = miss cache.stats })
    else elim (node_block key cache.entries) [
      | none ↦ (none, cache)
      | some block ↦ (
        some block,
        record cache { entries = (key, block) ∷ unlink key cache.entries; stats = hit cache.stats },
      )
    ]

-- entries_.back() and entries_.pop_back() on the list (node ∷ rest).
unfoldable pub back_key : Key → List (Key × Bytes) → Key
back_key key [] = key
back_key key ((k, block) ∷ rest) = back_key k rest

unfoldable pub pop_back : Key × Bytes → List (Key × Bytes) → List (Key × Bytes)
pop_back node [] = []
pop_back node (next ∷ rest) = node ∷ pop_back next rest

-- while (entries_.size() > capacity_); each round drops one node.
unfoldable pub evict : ℕ → BlockCache → BlockCache
evict zero cache = cache
evict (suc n) cache = elim cache.entries [
  | [] ↦ cache
  | node ∷ rest ↦
      let evicted = evict n (record cache {
        entries = pop_back node rest;
        index = erase (back_key node.0 rest) cache.index;
      }) in
      if ltb cache.capacity (length (node ∷ rest)) then evicted else cache
]

-- BlockCache::Put
unfoldable pub put : Key → Bytes → BlockCache → BlockCache
put key block cache =
    let inserted =
      evict (suc (length cache.entries))
        (record cache { entries = (key, block) ∷ cache.entries; index = key ∷ cache.index }) in
    if cache.capacity == 0
    then cache
    else if is_indexed key cache.index
    then record cache { entries = (key, block) ∷ unlink key cache.entries }
    else inserted
