-- ===== src/Sstable/Table/Filtered.antt =====
-- The keys that SSTable::CreateFromEntries of src/sstable.cpp gives the filter.
use kv_mem.Prelude.{
  ℕ, ◌+◌, ◌*◌, ◌^◌, ◌<◌, ◌≡◌, refl, ap, sym, ◌∙◌, max, Bool, true, false, Bool-cases, inl, inr,
  none, List, [], ◌∷◌, length, All, Memᴰ,
}
use kv_mem.Bytes.{Bytes, bytes_ltb, bytes_eq}
use kv_mem.Bytes.Order.{bytes_ltb_connex, eq_of_bytes_eq}
use kv_mem.Types.{VersionedEntry}
use kv_mem.BloomFilter.{build, may_contain}
use kv_mem.BloomFilter.NoFalseNegative.{may_contain-build}
use kv_mem.Sstable.Lookup.Sorted.{find_visible}
use kv_mem.Sstable.Create.{insert_key, insert_keys}

insert_key-has : (key : Bytes) (keys : List Bytes) → Memᴰ key (insert_key key keys)
unfolding insert_key
insert_key-has key [] = Memᴰ.head refl
insert_key-has key (k ∷ rest) = elim (Bool-cases (bytes_ltb key k)) [
  | inl before ↦ rw before (Memᴰ.head refl)
  | inr not_before ↦ elim (Bool-cases (bytes_ltb k key)) [
    | inl behind ↦ rw (not_before, behind) (Memᴰ.tail (insert_key-has key rest))
    | inr not_behind ↦
        rw (not_before, not_behind) (Memᴰ.head (bytes_ltb_connex key k not_before not_behind))
  ]
]

insert_key-keeps : (key j : Bytes) (keys : List Bytes) → Memᴰ j keys → Memᴰ j (insert_key key keys)
unfolding insert_key
insert_key-keeps key j [] m = elim m [ ]
insert_key-keeps key j (k ∷ rest) (Memᴰ.head e) = elim (Bool-cases (bytes_ltb key k)) [
  | inl before ↦ rw before (Memᴰ.tail (Memᴰ.head e))
  | inr not_before ↦ elim (Bool-cases (bytes_ltb k key)) [
    | inl behind ↦ rw (not_before, behind) (Memᴰ.head e)
    | inr not_behind ↦ rw (not_before, not_behind) (Memᴰ.head e)
  ]
]
insert_key-keeps key j (k ∷ rest) (Memᴰ.tail m) = elim (Bool-cases (bytes_ltb key k)) [
  | inl before ↦ rw before (Memᴰ.tail (Memᴰ.tail m))
  | inr not_before ↦ elim (Bool-cases (bytes_ltb k key)) [
    | inl behind ↦ rw (not_before, behind) (Memᴰ.tail (insert_key-keeps key j rest m))
    | inr not_behind ↦ rw (not_before, not_behind) (Memᴰ.tail m)
  ]
]

insert_keys-keeps :
    (entries : List VersionedEntry) (j : Bytes) (keys : List Bytes)
    → Memᴰ j keys
    → Memᴰ j (insert_keys entries keys)
unfolding insert_keys
insert_keys-keeps [] j keys m = m
insert_keys-keeps (entry ∷ rest) j keys m =
    insert_keys-keeps rest j (insert_key entry.key keys) (insert_key-keeps entry.key j keys m)

-- Each entry's key is among the unique keys.
insert_keys-has :
    (entries : List VersionedEntry) (keys : List Bytes)
    → All (λ entry. Memᴰ entry.key (insert_keys entries keys)) entries
unfolding insert_keys
insert_keys-has [] keys = tt
insert_keys-has (entry ∷ rest) keys = (
  insert_keys-keeps rest entry.key (insert_key entry.key keys) (insert_key-has entry.key keys),
  insert_keys-has rest (insert_key entry.key keys),
)

among :
    (entries : List VersionedEntry) (keys : List Bytes) (bloom_bits_per_key : ℕ)
    → length keys * max 1 bloom_bits_per_key + 7 < 2 ^ 32
    → All (λ entry. Memᴰ entry.key keys) entries
    → All (λ entry. may_contain (build keys bloom_bits_per_key) entry.key ≡ true) entries
among [] keys bloom_bits_per_key fits members = tt
among (entry ∷ rest) keys bloom_bits_per_key fits members = (
  may_contain-build keys bloom_bits_per_key entry.key fits members.0,
  among rest keys bloom_bits_per_key fits members.1,
)

-- The filter of the unique keys lets each entry's key pass.
pub filter-passes :
    (entries : List VersionedEntry) (bloom_bits_per_key : ℕ)
    → length (insert_keys entries []) * max 1 bloom_bits_per_key + 7 < 2 ^ 32
    → All
        (λ entry. may_contain (build (insert_keys entries []) bloom_bits_per_key) entry.key ≡ true)
        entries
filter-passes entries bloom_bits_per_key fits =
    among entries (insert_keys entries []) bloom_bits_per_key fits (insert_keys-has entries [])

-- Where a key does not pass, no entry has it.
pub find_visible-filtered :
    (test : Bytes → Bool) (key : Bytes) (read_sequence : ℕ) (entries : List VersionedEntry)
    → All (λ entry. test entry.key ≡ true) entries
    → test key ≡ false
    → find_visible key read_sequence entries ≡ none
unfolding find_visible
find_visible-filtered test key read_sequence [] passes stopped = refl
find_visible-filtered test key read_sequence (entry ∷ rest) passes stopped =
    elim (Bool-cases (bytes_eq entry.key key)) [
      | inl same ↦
          absurd
            (let h = sym (passes.0) ∙ ap test (eq_of_bytes_eq entry.key key same) ∙ stopped in cc)
      | inr other ↦ rw other (find_visible-filtered test key read_sequence rest passes.1 stopped)
    ]
