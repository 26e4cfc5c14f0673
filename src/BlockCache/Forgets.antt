-- ===== src/BlockCache/Forgets.antt =====
-- BlockCache of src/block_cache.cc holds what was put into it last, or has forgotten it.
use kv_mem.Prelude.{
  ℕ, zero, suc, ◌<◌, ◌≤◌, ◌≡◌, refl, ap, sym, ◌∙◌, true, false, ◌||◌, not, Bool-cases, ◌⊎◌, inl,
  inr, none, some, Option-cases, List, [], ◌∷◌, length, ltb, ◌==◌, if◌then◌else◌, arith,
}
use kv_mem.Bytes.{Bytes}
use kv_mem.BlockCache.{
  Key, same_key, BlockCache, BlockCacheStats, is_indexed, node_block, unlink, erase, get, back_key,
  pop_back, evict, put,
}
use kv_mem.BlockCache.Bounded.{
  IsCache, Distinct, has_node, same_key_refl, eq_of_same_key, apart_of, put-IsCache,
}

-- A node with the key is what the search finds.
node_block-absent :
    (key : Key) (entries : List (Key × Bytes))
    → has_node key entries ≡ false
    → node_block key entries ≡ none
unfolding is_indexed node_block
node_block-absent key [] absent = refl
node_block-absent key ((k, block) ∷ rest) absent = elim (Bool-cases (same_key k key)) [
  | inl same ↦ absurd (let h = simp same at absent in cc)
  | inr other ↦ rw other (node_block-absent key rest (simp other at absent))
]

node_block-unlink :
    (key k : Key) (entries : List (Key × Bytes))
    → Distinct entries
    → node_block k (unlink key entries) ≡ (if same_key key k then none else node_block k entries)
unfolding unlink node_block Distinct
node_block-unlink key k [] distinct = elim (Bool-cases (same_key key k)) [
  | inl same ↦ rw same
  | inr other ↦ rw other
]
node_block-unlink key k ((x, block) ∷ rest) distinct = elim (Bool-cases (same_key x key)) [
  | inl same ↦
      let e = ap (λ j. same_key j k) (eq_of_same_key x key same) in
      elim (Bool-cases (same_key key k)) [
        | inl found ↦
            rw (same, found)
              (node_block-absent k rest
                (ap (λ j. has_node j rest) (sym (eq_of_same_key x k (e ∙ found))) ∙ distinct.0))
        | inr other ↦ rw (same, other, e ∙ other)
      ]
  | inr other ↦ elim (Bool-cases (same_key x k)) [
    | inl found ↦
        let h : same_key key k ≡ false = apart_of x key k other found in rw (other, found, h)
    | inr away ↦ rw (other, away) (node_block-unlink key k rest distinct.1)
  ]
]

unlink-keeps :
    (key k : Key) (found : Bytes) (entries : List (Key × Bytes))
    → Distinct entries
    → node_block k (unlink key entries) ≡ some found
    → node_block k entries ≡ some found
unlink-keeps key k found entries distinct h = elim (Bool-cases (same_key key k)) [
  | inl same ↦
      absurd (let e = simp same at (sym (node_block-unlink key k entries distinct) ∙ h) in cc)
  | inr other ↦ simp other at (sym (node_block-unlink key k entries distinct) ∙ h)
]

no_nodes :
    (key : Key) (entries : List (Key × Bytes)) → length entries ≤ 0 → has_node key entries ≡ false
unfolding is_indexed
no_nodes key [] none_there = refl
no_nodes key (node ∷ rest) none_there = absurd (omega arith)

-- A cache that has no capacity has no nodes.
absent_of :
    (key : Key) (cache : BlockCache)
    → IsCache cache
    → (cache.capacity == 0 || not (is_indexed key cache.index)) ≡ true
    → has_node key cache.entries ≡ false
absent_of key cache c h = elim (Bool-cases (is_indexed key cache.index)) [
  | inr new ↦ sym (c.mirrored key) ∙ new
  | inl indexed ↦
      let off : (cache.capacity == 0) ≡ true = ground (arith, indexed) in
      let bounded = c.bounded in no_nodes key cache.entries (ground arith)
]

-- The last node is forgotten, the others stay.
node_block-pop_back :
    (k : Key) (node : Key × Bytes) (rest : List (Key × Bytes)) (block : Bytes)
    → node_block k (pop_back node rest) ≡ some block
    → node_block k (node ∷ rest) ≡ some block
unfolding node_block pop_back
node_block-pop_back k node [] block found = cc
node_block-pop_back k (key, b) (next ∷ rest) block found = elim (Bool-cases (same_key key k)) [
  | inl same ↦ rw same (simp same at found)
  | inr other ↦ rw other (node_block-pop_back k next rest block (simp other at found))
]

node_block-evict :
    (n capacity : ℕ) (entries : List (Key × Bytes)) (index : List Key) (stats : BlockCacheStats)
    (k : Key) (block : Bytes)
    → node_block k (
        (evict n (record {
          capacity = capacity;
          entries = entries;
          index = index;
          stats = stats;
        })).entries)
      ≡ some block
    → node_block k entries ≡ some block
unfolding evict
node_block-evict zero capacity entries index stats k block found = found
node_block-evict (suc n) capacity [] index stats k block found = found
node_block-evict (suc n) capacity ((j, b) ∷ rest) index stats k block found =
    elim (Bool-cases (ltb capacity (suc (length rest)))) [
      | inr fits ↦ simp (evict, fits) at found
      | inl full ↦
          node_block-pop_back k (j, b) rest block
            (node_block-evict n capacity (pop_back (j, b) rest) (erase (back_key j rest) index)
              stats k block (simp (evict, full) at found))
    ]

-- The node at the front is not evicted.
node_block-evict_front :
    (n capacity : ℕ) (key : Key) (block : Bytes) (rest : List (Key × Bytes)) (index : List Key)
    (stats : BlockCacheStats)
    → 0 < capacity
    → node_block key (
        (evict n (record {
          capacity = capacity;
          entries = (key, block) ∷ rest;
          index = index;
          stats = stats;
        })).entries)
      ≡ some block
unfolding evict node_block pop_back
node_block-evict_front zero capacity key block rest index stats room = rw (same_key_refl key)
node_block-evict_front (suc n) capacity key block [] index stats room =
    let fits : ltb capacity 1 ≡ false = ground arith in rw (evict, fits, same_key_refl key)
node_block-evict_front (suc n) capacity key block (next ∷ rest) index stats room =
    elim (Bool-cases (ltb capacity (suc (suc (length rest))))) [
      | inr fits ↦ rw (evict, fits, same_key_refl key)
      | inl full ↦
          rw (evict, full)
            (node_block-evict_front n capacity key block (pop_back next rest)
              (erase (back_key key (next ∷ rest)) index) stats room)
    ]

-- What Get of a cache in the invariant answers is the block of the node with the key.
pub get-node_block :
    (key : Key) (cache : BlockCache)
    → IsCache cache
    → (get key cache).0 ≡ node_block key cache.entries
unfolding get
get-node_block key cache c =
    elim (Bool-cases (cache.capacity == 0 || not (is_indexed key cache.index))) [
      | inl absent ↦
          simp absent (sym (node_block-absent key cache.entries (absent_of key cache c absent)))
      | inr there ↦ elim (Option-cases (node_block key cache.entries)) [
        | inl e ↦ simp (there, e) refl
        | inr (block, e) ↦ simp (there, e) refl
      ]
    ]

moved :
    (key k : Key) (block : Bytes) (entries : List (Key × Bytes))
    → Distinct entries
    → node_block key entries ≡ some block
    → node_block k ((key, block) ∷ unlink key entries) ≡ node_block k entries
unfolding node_block
moved key k block entries distinct there = elim (Bool-cases (same_key key k)) [
  | inl same ↦ rw same (sym there ∙ ap (λ j. node_block j entries) (eq_of_same_key key k same))
  | inr other ↦ rw (other, node_block-unlink key k entries distinct, other)
]

-- A lookup keeps each block, the one that it moves too.
pub get-keeps :
    (key k : Key) (cache : BlockCache)
    → IsCache cache
    → node_block k ((get key cache).1.entries) ≡ node_block k cache.entries
unfolding get node_block
get-keeps key k cache c =
    elim (Bool-cases (cache.capacity == 0 || not (is_indexed key cache.index))) [
      | inl absent ↦ simp absent refl
      | inr there ↦ elim (Option-cases (node_block key cache.entries)) [
        | inl e ↦ simp (there, e) refl
        | inr (block, e) ↦ simp (there, e) (moved key k block cache.entries c.distinct e)
      ]
    ]

front :
    (key k : Key) (block found : Bytes) (rest entries : List (Key × Bytes))
    → (node_block k rest ≡ some found → node_block k entries ≡ some found)
    → node_block k ((key, block) ∷ rest) ≡ some found
    → ((same_key key k ≡ true) × (block ≡ found))
      ⊎ ((same_key key k ≡ false) × (node_block k entries ≡ some found))
unfolding node_block
front key k block found rest entries keeps h = elim (Bool-cases (same_key key k)) [
  | inl same ↦ inl (same, (let e = simp same at h in cc))
  | inr other ↦ inr (other, keeps (simp other at h))
]

-- A store of one key brings in its block and no other.
pub put-keeps :
    (key k : Key) (block found : Bytes) (cache : BlockCache)
    → IsCache cache
    → node_block k ((put key block cache).entries) ≡ some found
    → ((same_key key k ≡ true) × (block ≡ found))
      ⊎ ((same_key key k ≡ false) × (node_block k cache.entries ≡ some found))
unfolding put node_block
put-keeps key k block found cache c h = elim (Bool-cases (cache.capacity == 0)) [
  | inl off ↦ elim (Bool-cases (same_key key k)) [
    | inl same ↦ absurd (
        let bounded = c.bounded in
        let empty = node_block-absent k cache.entries (no_nodes k cache.entries (ground arith)) in
        let found_there : node_block k cache.entries ≡ some found = simp off at h in cc)
    | inr other ↦ inr (other, simp off at h)
  ]
  | inr on ↦ elim (Bool-cases (is_indexed key cache.index)) [
    | inl indexed ↦
        front key k block found (unlink key cache.entries) cache.entries
          (unlink-keeps key k found cache.entries c.distinct) (simp (on, indexed) at h)
    | inr new ↦
        front key k block found cache.entries cache.entries (λ e. e)
          (node_block-evict (suc (length cache.entries)) cache.capacity
            ((key, block) ∷ cache.entries) (key ∷ cache.index) cache.stats k found
            (simp (on, new) at h))
  ]
]

put-node_block :
    (key : Key) (block : Bytes) (cache : BlockCache)
    → 0 < cache.capacity
    → node_block key ((put key block cache).entries) ≡ some block
unfolding put node_block
put-node_block key block cache room = elim (Bool-cases (cache.capacity == 0)) [
  | inl off ↦ absurd (ground arith)
  | inr on ↦ elim (Bool-cases (is_indexed key cache.index)) [
    | inl indexed ↦ simp (on, indexed, same_key_refl key) refl
    | inr new ↦
        simp (on, new)
          (node_block-evict_front (suc (length cache.entries)) cache.capacity key block
            cache.entries (key ∷ cache.index) cache.stats room)
  ]
]

-- With a capacity, Get of a key right after Put answers the block that was put.
pub get-put :
    (key : Key) (block : Bytes) (cache : BlockCache)
    → IsCache cache
    → 0 < cache.capacity
    → (get key (put key block cache)).0 ≡ some block
get-put key block cache c room =
    get-node_block key (put key block cache) (put-IsCache key block cache c)
    ∙ put-node_block key block cache room
