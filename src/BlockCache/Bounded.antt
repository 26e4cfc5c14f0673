-- ===== src/BlockCache/Bounded.antt =====
-- The invariant of BlockCache of src/block_cache.cc.
use kv_mem.Prelude.{
  ℕ, zero, suc, ◌+◌, ◌≤◌, ◌≡◌, refl, ap, sym, ◌∙◌, Bool, true, false, ◌&&◌, ◌||◌, not, Bool-cases,
  inl, inr, Option-cases, List, [], ◌∷◌, length, map, ltb, ◌==◌, arith,
}
use kv_mem.Bytes.{Bytes}
use kv_mem.BlockCache.{
  Key, same_key, BlockCache, BlockCacheStats, hit, is_indexed, node_block, unlink, erase, get,
  back_key, pop_back, evict, put,
}

-- Whether a node has a key.
abbrev pub has_node : Key → List (Key × Bytes) → Bool
has_node key entries = is_indexed key (map (λ node. node.0) entries)

-- No two nodes have one key.
unfoldable pub Distinct : List (Key × Bytes) → Type 0
Distinct [] = Unit {0}
Distinct ((k, block) ∷ rest) = (has_node k rest ≡ false) × Distinct rest

-- The index holds the keys of the nodes, each node has a key of its own, and the nodes are no more
-- than the capacity.
pub record IsCache (cache : BlockCache) : Type 0 where
  pub mirrored : (key : Key) → is_indexed key cache.index ≡ has_node key cache.entries
  pub distinct : Distinct cache.entries
  pub bounded : length cache.entries ≤ cache.capacity

pub same_key_refl : (key : Key) → same_key key key ≡ true
unfolding same_key
same_key_refl key = ground arith

pub eq_of_same_key : (a b : Key) → same_key a b ≡ true → a ≡ b
unfolding same_key
eq_of_same_key a b h =
    let e : a.file_number ≡ b.file_number = ground arith in
    let f : a.block_offset ≡ b.block_offset = ground arith in
    λ i. record { file_number = e i; block_offset = f i }

same_key-chain : (a b c : Key) → same_key a b ≡ true → same_key a c ≡ same_key b c
same_key-chain a b c h = ap (λ k. same_key k c) (eq_of_same_key a b h)

same_key-chain_right : (a b c : Key) → same_key a b ≡ true → same_key c a ≡ same_key c b
same_key-chain_right a b c h = ap (same_key c) (eq_of_same_key a b h)

pub same_key-sym : (a b : Key) → same_key a b ≡ same_key b a
unfolding same_key
same_key-sym a b = ground arith

or_and_not : (a b : Bool) → (b && not a) ≡ ((a || b) && not a)
or_and_not true true = refl
or_and_not true false = refl
or_and_not false true = refl
or_and_not false false = refl

-- A key that is another one's is not taken away with a third.
or_and_apart : (s r q : Bool) → (s ≡ true → q ≡ false) → (s || (r && not q)) ≡ ((s || r) && not q)
or_and_apart true r true apart = absurd (let h = apart refl in cc)
or_and_apart true r false apart = refl
or_and_apart false r q apart = refl

pub apart_of :
    (x key k : Key) → same_key x key ≡ false → same_key x k ≡ true → same_key key k ≡ false
apart_of x key k other same = sym (same_key-chain_right x k key same) ∙ same_key-sym key x ∙ other

is_indexed-erase :
    (key k : Key) (index : List Key)
    → is_indexed k (erase key index) ≡ (is_indexed k index && not (same_key key k))
unfolding is_indexed erase
is_indexed-erase key k [] = refl
is_indexed-erase key k (x ∷ rest) = elim (Bool-cases (same_key x key)) [
  | inl same ↦
      rw (same, is_indexed-erase key k rest, same_key-chain x key k same)
        (or_and_not (same_key key k) (is_indexed k rest))
  | inr other ↦
      rw (other, is_indexed-erase key k rest)
        (or_and_apart (same_key x k) (is_indexed k rest) (same_key key k) (apart_of x key k other))
]

-- Where no node has the key, nothing is taken away.
and_not_absent : (r q : Bool) → (q ≡ true → r ≡ false) → r ≡ (r && not q)
and_not_absent true true absent = absurd (let h = absent refl in cc)
and_not_absent true false absent = refl
and_not_absent false q absent = refl

-- The nodes without the one with a key.
has_node-unlink :
    (key k : Key) (entries : List (Key × Bytes))
    → Distinct entries
    → has_node k (unlink key entries) ≡ (has_node k entries && not (same_key key k))
unfolding is_indexed unlink Distinct
has_node-unlink key k [] distinct = refl
has_node-unlink key k ((x, block) ∷ rest) distinct = elim (Bool-cases (same_key x key)) [
  | inl same ↦
      let absent : same_key key k ≡ true → has_node k rest ≡ false = λ h.
        ap (λ j. has_node j rest) (sym (eq_of_same_key x k (same_key-chain x key k same ∙ h)))
        ∙ distinct.0 in
      rw (same, same_key-chain x key k same)
        (and_not_absent (has_node k rest) (same_key key k) absent
          ∙ or_and_not (same_key key k) (has_node k rest))
  | inr other ↦
      rw (other, has_node-unlink key k rest distinct.1)
        (or_and_apart (same_key x k) (has_node k rest) (same_key key k) (apart_of x key k other))
]

Distinct-unlink :
    (key : Key) (entries : List (Key × Bytes)) → Distinct entries → Distinct (unlink key entries)
unfolding unlink Distinct
Distinct-unlink key [] distinct = tt
Distinct-unlink key ((x, block) ∷ rest) distinct = elim (Bool-cases (same_key x key)) [
  | inl same ↦ rw same distinct.1
  | inr other ↦ rw other (
    has_node-unlink key x rest distinct.1 ∙ ap (λ b. b && not (same_key key x)) distinct.0,
    Distinct-unlink key rest distinct.1,
  )
]

length-unlink :
    (key : Key) (entries : List (Key × Bytes))
    → has_node key entries ≡ true
    → suc (length (unlink key entries)) ≡ length entries
unfolding is_indexed unlink
length-unlink key [] found = cc
length-unlink key ((x, block) ∷ rest) found = elim (Bool-cases (same_key x key)) [
  | inl same ↦ rw same
  | inr other ↦ rw other (ap suc (length-unlink key rest (simp other at found)))
]

or_true : (b : Bool) → (b || true) ≡ true
or_true true = refl
or_true false = refl

and_true : (b : Bool) → b ≡ (b && true)
and_true true = refl
and_true false = refl

and_false : (b : Bool) → (b && false) ≡ false
and_false true = refl
and_false false = refl

pub indexed_of : (capacity : ℕ) (b : Bool) → (capacity == 0 || not b) ≡ false → b ≡ true
indexed_of capacity b h = ground arith

-- The last node and the ones before it.
length-pop_back :
    (node : Key × Bytes) (rest : List (Key × Bytes)) → length (pop_back node rest) ≡ length rest
unfolding pop_back
length-pop_back node [] = refl
length-pop_back node (next ∷ rest) = ap suc (length-pop_back next rest)

has_node-back_key :
    (key : Key) (block : Bytes) (rest : List (Key × Bytes))
    → has_node (back_key key rest) ((key, block) ∷ rest) ≡ true
unfolding is_indexed back_key
has_node-back_key key block [] = rw (same_key_refl key)
has_node-back_key key block ((k, b) ∷ rest) =
    rw (has_node-back_key k b rest) (or_true (same_key key (back_key k rest)))

present_absent :
    (a b : Key) (entries : List (Key × Bytes))
    → has_node a entries ≡ true
    → has_node b entries ≡ false
    → same_key a b ≡ false
present_absent a b entries present absent = elim (Bool-cases (same_key a b)) [
  | inr other ↦ other
  | inl same ↦ absurd (let h = ap (λ k. has_node k entries) (eq_of_same_key a b same) in cc)
]

has_node-pop_back :
    (k key : Key) (block : Bytes) (rest : List (Key × Bytes))
    → Distinct ((key, block) ∷ rest)
    → has_node k (pop_back (key, block) rest)
      ≡ (has_node k ((key, block) ∷ rest) && not (same_key (back_key key rest) k))
unfolding is_indexed back_key pop_back Distinct
has_node-pop_back k key block [] distinct = or_and_not (same_key key k) false
has_node-pop_back k key block ((j, b) ∷ rest) distinct =
    let apart : same_key key k ≡ true → same_key (back_key j rest) k ≡ false = λ h.
      present_absent (back_key j rest) k ((j, b) ∷ rest) (has_node-back_key j b rest)
        (ap (λ x. has_node x ((j, b) ∷ rest)) (sym (eq_of_same_key key k h)) ∙ distinct.0) in
    rw (has_node-pop_back k j b rest distinct.1) (
      or_and_apart (same_key key k) (has_node k ((j, b) ∷ rest)) (same_key (back_key j rest) k)
        apart)

Distinct-pop_back :
    (key : Key) (block : Bytes) (rest : List (Key × Bytes))
    → Distinct ((key, block) ∷ rest)
    → Distinct (pop_back (key, block) rest)
unfolding pop_back Distinct
Distinct-pop_back key block [] distinct = tt
Distinct-pop_back key block ((j, b) ∷ rest) distinct = (
  has_node-pop_back key j b rest distinct.1
      ∙ ap (λ x. x && not (same_key (back_key j rest) key)) distinct.0,
  Distinct-pop_back j b rest distinct.1,
)

-- The node moved to the front is the one that was taken away.
has_node-moved :
    (key k : Key) (block : Bytes) (entries : List (Key × Bytes))
    → Distinct entries
    → has_node key entries ≡ true
    → has_node k entries ≡ has_node k ((key, block) ∷ unlink key entries)
unfolding is_indexed
has_node-moved key k block entries distinct present = elim (Bool-cases (same_key key k)) [
  | inl same ↦ rw same (ap (λ x. has_node x entries) (sym (eq_of_same_key key k same)) ∙ present)
  | inr other ↦
      rw (other, has_node-unlink key k entries distinct, other) (and_true (has_node k entries))
]

moved-Distinct :
    (key : Key) (block : Bytes) (entries : List (Key × Bytes))
    → Distinct entries
    → Distinct ((key, block) ∷ unlink key entries)
unfolding Distinct
moved-Distinct key block entries distinct = (
  rw (has_node-unlink key key entries distinct, same_key_refl key)
      (and_false (has_node key entries)),
  Distinct-unlink key entries distinct,
)

-- The cache with a node moved to the front, under whatever statistics.
moved-IsCache :
    (key : Key) (block : Bytes) (cache : BlockCache) (stats : BlockCacheStats)
    → IsCache cache
    → is_indexed key cache.index ≡ true
    → IsCache (record cache { entries = (key, block) ∷ unlink key cache.entries; stats = stats })
moved-IsCache key block cache stats c indexed =
    let present : has_node key cache.entries ≡ true = sym (c.mirrored key) ∙ indexed in
    let shorter = length-unlink key cache.entries present in
    let bounded = c.bounded in
    record {
      mirrored = λ k. c.mirrored k ∙ has_node-moved key k block cache.entries c.distinct present;
      distinct = moved-Distinct key block cache.entries c.distinct;
      bounded = omega arith;
    }

-- Whatever the cache holds, a lookup leaves the invariant.
pub get-IsCache : (key : Key) (cache : BlockCache) → IsCache cache → IsCache ((get key cache).1)
unfolding get
get-IsCache key cache c =
    elim (Bool-cases (cache.capacity == 0 || not (is_indexed key cache.index))) [
      | inl absent ↦
          simp absent (record { mirrored = c.mirrored; distinct = c.distinct; bounded = c.bounded })
      | inr there ↦ elim (Option-cases (node_block key cache.entries)) [
        | inl e ↦ simp (there, e) c
        | inr (block, e) ↦
            simp (there, e)
              (moved-IsCache key block cache (hit cache.stats) c
                (indexed_of cache.capacity (is_indexed key cache.index) there))
      ]
    ]

-- Rounds enough bring the nodes down to the capacity.
evict-IsCache :
    (n capacity : ℕ) (entries : List (Key × Bytes)) (index : List Key) (stats : BlockCacheStats)
    → ((key : Key) → is_indexed key index ≡ has_node key entries)
    → Distinct entries
    → length entries ≤ capacity + n
    → IsCache
        (evict n (record { capacity = capacity; entries = entries; index = index; stats = stats }))
unfolding evict
evict-IsCache zero capacity entries index stats mirrored distinct few = record {
  mirrored = mirrored;
  distinct = distinct;
  bounded = omega arith;
}
evict-IsCache (suc n) capacity [] index stats mirrored distinct few = record {
  mirrored = mirrored;
  distinct = distinct;
  bounded = omega arith;
}
evict-IsCache (suc n) capacity ((k, block) ∷ rest) index stats mirrored distinct few =
    elim (Bool-cases (ltb capacity (suc (length rest)))) [
      | inr fits ↦
          let few' : suc (length rest) ≤ capacity = ground arith in
          rw (evict, fits) (record { mirrored = mirrored; distinct = distinct; bounded = few' })
      | inl full ↦
          let shorter = length-pop_back (k, block) rest in
          rw (evict, full)
            (evict-IsCache n capacity (pop_back (k, block) rest) (erase (back_key k rest) index)
              stats
              (λ j.
                is_indexed-erase (back_key k rest) j index
                ∙ ap (λ b. b && not (same_key (back_key k rest) j)) (mirrored j)
                ∙ sym (has_node-pop_back j k block rest distinct))
              (Distinct-pop_back k block rest distinct) (omega arith))
    ]

-- A store leaves the invariant: the cache has no more blocks than its capacity, and its index holds
-- the keys of its blocks.
pub put-IsCache :
    (key : Key) (block : Bytes) (cache : BlockCache) → IsCache cache → IsCache (put key block cache)
unfolding put is_indexed Distinct
put-IsCache key block cache c = elim (Bool-cases (cache.capacity == 0)) [
  | inl off ↦ simp off c
  | inr on ↦ elim (Bool-cases (is_indexed key cache.index)) [
    | inl indexed ↦ simp (on, indexed) (moved-IsCache key block cache cache.stats c indexed)
    | inr new ↦
        let bounded = c.bounded in
        let absent = sym (c.mirrored key) ∙ new in
        simp (on, new)
          (evict-IsCache (suc (length cache.entries)) cache.capacity ((key, block) ∷ cache.entries)
            (key ∷ cache.index) cache.stats (λ k. ap (λ b. same_key key k || b) (c.mirrored k))
            (absent, c.distinct) (omega arith))
  ]
]
