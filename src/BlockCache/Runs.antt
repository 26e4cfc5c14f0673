-- ===== src/BlockCache/Runs.antt =====
-- BlockCache of src/block_cache.cc through any calls, against a map that forgets nothing.
use kv_mem.Prelude.{
  ℕ, ◌≤◌, ◌≡◌, refl, sym, ◌∙◌, ◌⊎◌, inl, inr, Option, none, some, Option-cases, List, [], ◌∷◌,
  length, if◌then◌else◌, arith,
}
use kv_mem.Bytes.{Bytes}
use kv_mem.BlockCache.{Key, same_key, BlockCache, new_block_cache, node_block, is_indexed, get, put}
use kv_mem.BlockCache.Bounded.{IsCache, Distinct, get-IsCache, put-IsCache}
use kv_mem.BlockCache.Forgets.{get-node_block, get-keeps, put-keeps}

pub data Call : Type 0 where
  get_call : Key → Call
  put_call : Key → Bytes → Call

-- The cache behind a call.
unfoldable pub after_call : Call → BlockCache → BlockCache
after_call (get_call key) cache = (get key cache).1
after_call (put_call key block) cache = put key block cache

unfoldable pub after_calls : List Call → BlockCache → BlockCache
after_calls [] cache = cache
after_calls (call ∷ rest) cache = after_calls rest (after_call call cache)

-- The block that a key was given last.
abbrev pub update : Call → (Key → Option Bytes) → Key → Option Bytes
update (get_call key) blocks k = blocks k
update (put_call key block) blocks k =
    let before = blocks k in if same_key key k then some block else before

unfoldable pub last_put : List Call → (Key → Option Bytes) → Key → Option Bytes
last_put [] blocks k = blocks k
last_put (call ∷ rest) blocks k = last_put rest (update call blocks) k

-- A cache of some blocks, in the invariant.
pub record Caches (blocks : Key → Option Bytes) (cache : BlockCache) : Type 0 where
  pub is_cache : IsCache cache
  pub holds :
      (key : Key) (block : Bytes)
      → node_block key cache.entries ≡ some block
      → blocks key ≡ some block

after_call-Caches :
    (call : Call) (blocks : Key → Option Bytes) (cache : BlockCache)
    → Caches blocks cache
    → Caches (update call blocks) (after_call call cache)
unfolding after_call
after_call-Caches (get_call key) blocks cache c = record {
  is_cache = get-IsCache key cache c.is_cache;
  holds = λ k block h. c.holds k block (sym (get-keeps key k cache c.is_cache) ∙ h);
}
after_call-Caches (put_call key block) blocks cache c = record {
  is_cache = put-IsCache key block cache c.is_cache;
  holds = λ k found h. elim (put-keeps key k block found cache c.is_cache h) [
    | inl new ↦ rw (new.0, new.1)
    | inr old ↦ rw old.0 (c.holds k found old.1)
  ];
}

after_calls-Caches :
    (calls : List Call) (blocks : Key → Option Bytes) (cache : BlockCache)
    → Caches blocks cache
    → Caches (last_put calls blocks) (after_calls calls cache)
unfolding after_calls last_put
after_calls-Caches [] blocks cache c = c
after_calls-Caches (call ∷ rest) blocks cache c =
    after_calls-Caches rest (update call blocks) (after_call call cache)
      (after_call-Caches call blocks cache c)

pub new-Caches : (capacity : ℕ) → Caches (λ key. none) (new_block_cache capacity)
unfolding node_block Distinct is_indexed
new-Caches capacity = record {
  is_cache = record { mirrored = λ key. refl; distinct = tt; bounded = omega arith };
  holds = λ key block h. absurd cc;
}

-- After any calls on a new cache, Get misses a key or answers the block that Put stored last for it;
-- the cache has no more blocks than its capacity.
pub after_calls-last_put :
    (capacity : ℕ) (calls : List Call) (key : Key)
    → (((get key (after_calls calls (new_block_cache capacity))).0 ≡ none)
        ⊎ ((get key (after_calls calls (new_block_cache capacity))).0
            ≡ last_put calls (λ k. none) key))
      × (length (after_calls calls (new_block_cache capacity)).entries
          ≤ (after_calls calls (new_block_cache capacity)).capacity)
after_calls-last_put capacity calls key =
    let cache = after_calls calls (new_block_cache capacity) in
    let c = after_calls-Caches calls (λ k. none) (new_block_cache capacity) (new-Caches capacity) in
    let answer = get-node_block key cache c.is_cache in
    (
      elim (Option-cases (node_block key cache.entries)) [
        | inl missing ↦ inl (answer ∙ missing)
        | inr (block, found) ↦ inr (answer ∙ found ∙ sym (c.holds key block found))
      ],
      c.is_cache.bounded,
    )
