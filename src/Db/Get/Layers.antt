-- ===== src/Db/Get/Layers.antt =====
-- DB::Get of src/db.cc over memtables and tables.
use mathlib.Core.List.{reverse}
use kv_mem.Prelude.{
  ℕ, ◌≤◌, ◌≡◌, refl, ap, sym, ◌∙◌, subst, Bool, true, false, ◌||◌, Bool-cases, ◌⊎◌, inl, inr,
  Option, none, some, Option-cases, List, [], ◌∷◌, ◌++◌, append_assoc, map, All, ltb, ◌==◌,
  if◌then◌else◌, arith,
}
use kv_mem.Bytes.{Bytes, IsU64}
use kv_mem.Types.{Entry, VersionedEntry}
use kv_mem.Status.{ok, reject_if-eq-ok}
use kv_mem.Format.InternalKey.{HasNoNul}
use kv_mem.Db.Store.{contains_invalid_key_byte, validate_key}
use kv_mem.Db.Snapshots.{validate_read_options, read_sequence}
use kv_mem.Sstable.Lookup.{Match, match_of, is_visible}
use kv_mem.Sstable.Create.Split.{concat}
use kv_mem.Sstable.Table.{Reader}
use kv_mem.Db.Get.{
  search_memtables, search_version, entry_answer, final_answer, Version, memtables, get,
}
use kv_mem.Db.Get.Newest.{
  newer, newest_match, newest_match-append, IsAtMost, newest_match-IsAtMost, newer_of_IsAtMost,
  visible_parts,
}
use kv_mem.Db.Get.Tables.{HoldAll, AllServes, search_tables-newest_match}

-- What an entry of a memtable is to a read.
abbrev pub as_match : Option Entry → Option Match
as_match none = none
as_match (some entry) = some (record {
  matched_sequence = entry.sequence;
  value = if entry.deleted then none else some entry.value;
})

-- What the database relies on: MemTable::Get answers the newest visible version among the entries.
pub record MemTableReads {M : Type 0} (memtable_get : Bytes → ℕ → M → Option Entry) : Type 0 where
  pub entries : M → List VersionedEntry
  pub newest :
      (key : Bytes) (n : ℕ) (table : M)
      → as_match (memtable_get key n table) ≡ newest_match key n (entries table)

-- Versions of a key in a layer are not older than those in the layers behind it, the last of which
-- is the tables.
unfoldable pub IsLayered : List (List VersionedEntry) → List VersionedEntry → Type 0
IsLayered [] base = Unit {0}
IsLayered (entries ∷ more) base =
    All
      (λ entry.
        All (λ later. entry.key ≡ later.key → later.sequence ≤ entry.sequence)
          (concat more ++ base))
      entries
    × IsLayered more base

-- A match is one of the versions.
newest_match-member :
    (P : VersionedEntry → Type 0) (key : Bytes) (n : ℕ) (entries : List VersionedEntry) (m : Match)
    → All P entries
    → newest_match key n entries ≡ some m
    → (entry : VersionedEntry) × P entry × (is_visible key n entry ≡ true) × (match_of entry ≡ m)
unfolding newest_match newer
newest_match-member P key n [] m all found = absurd cc
newest_match-member P key n (entry ∷ rest) m all found =
    elim (Bool-cases (is_visible key n entry)) [
      | inr unseen ↦ newest_match-member P key n rest m all.1 (simp unseen at found)
      | inl seen ↦ elim (Option-cases (newest_match key n rest)) [
        | inl nothing ↦ (entry, all.0, seen, (let h = simp (seen, nothing) at found in cc))
        | inr (k, later) ↦ elim (Bool-cases (ltb entry.sequence k.matched_sequence)) [
          | inl behind ↦
              newest_match-member P key n rest m all.1
                (later ∙ (simp (seen, later, behind) at found))
          | inr not_behind ↦
              (entry, all.0, seen, (let h = simp (seen, later, not_behind) at found in cc))
        ]
      ]
    ]

bounds_of :
    (key : Bytes) (n : ℕ) (entry : VersionedEntry) (behind : List VersionedEntry)
    → entry.key ≡ key
    → All (λ later. entry.key ≡ later.key → later.sequence ≤ entry.sequence) behind
    → All (λ later. is_visible key n later ≡ true → later.sequence ≤ entry.sequence) behind
bounds_of key n entry [] same all = tt
bounds_of key n entry (later ∷ rest) same all = (
  (λ seen. all.0 (same ∙ sym ((visible_parts key n later seen).0))),
  bounds_of key n entry rest same all.1,
)

-- A version in a layer hides what is behind the layer.
newest_match-layer :
    (key : Bytes) (n : ℕ) (entries behind : List VersionedEntry) (m : Match)
    → All
        (λ entry. All (λ later. entry.key ≡ later.key → later.sequence ≤ entry.sequence) behind)
        entries
    → newest_match key n entries ≡ some m
    → newest_match key n (entries ++ behind) ≡ some m
newest_match-layer key n entries behind m layered found =
    let (entry, bounds, seen, is) = newest_match-member _ key n entries m layered found in
    let older =
      newest_match-IsAtMost key n entry.sequence behind
        (bounds_of key n entry behind ((visible_parts key n entry seen).0) bounds) in
    newest_match-append key n entries behind
    ∙ ap (λ x. newer x (newest_match key n behind)) found
    ∙ newer_of_IsAtMost m (newest_match key n behind)
        (subst (λ k. IsAtMost k.matched_sequence (newest_match key n behind)) is older)

entry-final_answer : (entry : Entry) → entry_answer entry ≡ final_answer (as_match (some entry))
unfolding entry_answer final_answer
entry-final_answer entry = elim (Bool-cases entry.deleted) [
  | inl gone ↦ simp gone refl
  | inr kept ↦ simp kept refl
]

-- A key that ValidateKey accepts has no NUL.
rest_clean : (a c : Bool) → (a || c) ≡ false → c ≡ false
rest_clean true c h = absurd cc
rest_clean false c h = h

clean_bytes : (bytes : Bytes) → contains_invalid_key_byte bytes ≡ false → HasNoNul bytes
unfolding contains_invalid_key_byte
clean_bytes [] h = tt
clean_bytes (b ∷ rest) h = (
  ground arith,
  clean_bytes rest (rest_clean (b == 9 || (b == 10 || b == 0)) (contains_invalid_key_byte rest) h),
)

validate_key-HasNoNul : (key : Bytes) → validate_key key ≡ ok tt → HasNoNul key
unfolding validate_key
validate_key-HasNoNul [] valid = tt
validate_key-HasNoNul (b ∷ rest) valid = clean_bytes (b ∷ rest) (reject_if-eq-ok _ _ valid)

module _ {M : Type 0} (memtable_get : Bytes → ℕ → M → Option Entry)
    (reads : MemTableReads memtable_get) (key : Bytes) (n : ℕ) where
  -- The first memtable with a version decides, and where none has one, the tables do.
  search_memtables-newest_match :
      (tables : List M) (base : List VersionedEntry)
      → IsLayered (map reads.entries tables) base
      → ((search_memtables memtable_get key n tables ≡ none)
          × (newest_match key n (concat (map reads.entries tables) ++ base)
              ≡ newest_match key n base))
        ⊎ ((entry : Entry) × (search_memtables memtable_get key n tables ≡ some entry)
            × (newest_match key n (concat (map reads.entries tables) ++ base)
                ≡ as_match (some entry)))
  unfolding search_memtables IsLayered concat newer
  search_memtables-newest_match [] base layered = inl (refl, refl)
  search_memtables-newest_match (table ∷ rest) base layered =
      let es = reads.entries table in
      let behind = concat (map reads.entries rest) ++ base in
      let split =
        ap (newest_match key n) (append_assoc es (concat (map reads.entries rest)) base) in
      let answer = reads.newest key n table in
      elim (Option-cases (memtable_get key n table)) [
        | inr (entry, found) ↦ inr (
          entry,
          (rw (search_memtables, found)),
          split ∙ newest_match-layer key n es behind _ layered.0 (sym answer ∙ ap as_match found),
        )
        | inl missing ↦
            let none_here : newest_match key n es ≡ none = sym answer ∙ ap as_match missing in
            let pass : newest_match key n (es ++ behind) ≡ newest_match key n behind =
              newest_match-append key n es behind
              ∙ ap (λ x. newer x (newest_match key n behind)) none_here in
            elim (search_memtables-newest_match rest base layered.1) [
              | inl (nothing, e) ↦ inl ((rw (search_memtables, missing) nothing), split ∙ pass ∙ e)
              | inr (entry, found, e) ↦
                  inr (entry, (rw (search_memtables, missing) found), split ∙ pass ∙ e)
            ]
      ]

-- The key and the options are valid, the memtables answer by their entries, the tables hold sorted
-- entries, the cache is good for their blocks, and no version of the key is newer than one in a layer
-- before it. Get answers the value of the newest version that the read sees among all entries, and
-- NotFound where there is none or it is a deletion.
pub get-newest_match :
    {M : Type 0} (memtable_get : Bytes → ℕ → M → Option Entry) (reads : MemTableReads memtable_get)
    (version : Version M) (key : Bytes) (options : Option ℕ) (reader : Reader)
    (entries : List (List VersionedEntry))
    → validate_key key ≡ ok tt
    → validate_read_options version.readers options ≡ ok tt
    → IsU64 (read_sequence version.readers options)
    → HoldAll (reverse version.sstables) entries
    → AllServes (reverse version.sstables) reader.block_cache
    → IsLayered (map reads.entries (memtables version)) (concat entries)
    → (get memtable_get version key options reader).0
      ≡ final_answer (
          newest_match key
            (read_sequence version.readers options)
            (concat (map reads.entries (memtables version)) ++ concat entries))
unfolding get search_version newer
get-newest_match memtable_get reads version key options reader entries valid allowed small holds
      serves layered =
    let n = read_sequence version.readers options in
    let searched =
      search_tables-newest_match key n (validate_key-HasNoNul key valid) small
        (reverse version.sstables) entries none reader holds serves in
    elim (search_memtables-newest_match memtable_get reads key n (memtables version)
      (concat entries) layered) [
        | inl (nothing, e) ↦
            rw (get, valid, allowed, search_version, nothing, searched) (ap final_answer (sym e))
        | inr (entry, found, e) ↦
            rw (get, valid, allowed, search_version, found)
              (entry-final_answer entry ∙ ap final_answer (sym e))
      ]
