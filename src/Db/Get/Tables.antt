-- ===== src/Db/Get/Tables.antt =====
-- The loop of DB::Get of src/db.cc over the tables.
use kv_mem.Prelude.{
  ℕ, ◌≡◌, refl, ap, sym, ◌∙◌, subst, Bool, true, ◌&&◌, Bool-cases, inl, inr, Option, none, some,
  Option-cases, List, [], ◌∷◌, ◌++◌, All, ltb, ◌==◌, arith,
}
use kv_mem.Bytes.{Bytes, IsU64}
use kv_mem.Types.{VersionedEntry}
use kv_mem.Status.{Result, ok}
use kv_mem.Format.InternalKey.{HasNoNul}
use kv_mem.BlockCache.{BlockCache}
use kv_mem.Sstable.Lookup.{Match}
use kv_mem.Sstable.Lookup.Sorted.{IsSorted, IsPlain}
use kv_mem.Sstable.Create.Split.{concat}
use kv_mem.Sstable.Table.{
  SsTable, Reader, TableAnswer, value_answer, found_or_not, table_get, table_get_value,
}
use kv_mem.Sstable.Table.Serve.{AnyServes}
use kv_mem.Sstable.Table.Get.{IsTable, table_get-find_visible}
use kv_mem.Sstable.Table.Others.{table_get-others}
use kv_mem.Db.Get.{failure, improves, consider, search_behind, search_tables, value_in}
use kv_mem.Db.Get.Newest.{
  newer, newest_match, newer-none, newer_assoc, newest_match-append, IsAtMost, newer_of_IsAtMost,
  newest_match-read, find_visible-newest_match,
}

-- Tables with their entries, sorted and with plain keys; each has a file number of its own.
pub record Holds (table : SsTable) (entries : List VersionedEntry) : Type 0 where
  pub is_table : IsTable table entries
  pub plain : All IsPlain entries
  pub sorted : IsSorted entries

unfoldable pub HoldAll : List SsTable → List (List VersionedEntry) → Type 0
HoldAll [] [] = Unit {0}
HoldAll (table ∷ tables) (entries ∷ more) =
    Holds table entries
    × All (λ other. table.file_number ≡ other.file_number → ⊥) tables
    × HoldAll tables more
HoldAll _ _ = ⊥

-- The cache is good for the blocks of each table.
abbrev pub AllServes : List SsTable → Option BlockCache → Type 0
AllServes tables cache = All (λ table. AnyServes table cache) tables

failure-answer : (f : Option Match) → failure ((value_answer (found_or_not f)).status) ≡ none
unfolding failure value_answer
failure-answer none = refl
failure-answer (some m) = elim (Option-cases m.value) [
  | inl gone ↦ simp gone refl
  | inr (value, here) ↦ simp here refl
]

value_in-answer : (m : Match) → value_in ((value_answer (ok m)).status) ≡ m.value
unfolding value_answer
value_in-answer m = elim (Option-cases m.value) [
  | inl gone ↦ simp gone refl
  | inr (value, here) ↦ simp here refl
]

-- The loop keeps the newer of what it had and the table's match.
consider-answer :
    (seen f : Option Match) → consider (value_answer (found_or_not f)) seen ≡ newer seen f
unfolding consider improves newer value_answer
consider-answer none none = refl
consider-answer (some s) none = refl
consider-answer none (some m) =
    ap (λ v. some (record { matched_sequence = m.matched_sequence; value = v })) (value_in-answer m)
consider-answer (some s) (some m) = elim (Bool-cases (ltb s.matched_sequence m.matched_sequence)) [
  | inl later ↦ rw later (
      ap (λ v. some (record { matched_sequence = m.matched_sequence; value = v }))
        (value_in-answer m))
  | inr not_later ↦ rw not_later
]

-- Whether the loop ends at a table.
abbrev ends : ℕ → Option Match → Option Match → Bool
ends read_sequence seen f =
    let answer = value_answer (found_or_not f) in
    answer.found && (improves seen answer.sequence && answer.sequence == read_sequence)

-- Where it ends, nothing newer follows.
ends-newer :
    (read_sequence : ℕ) (seen f rest : Option Match)
    → ends read_sequence seen f ≡ true
    → IsAtMost read_sequence rest
    → newer (newer seen f) rest ≡ newer seen f
unfolding value_answer improves newer
ends-newer read_sequence seen none rest h bound = absurd cc
ends-newer read_sequence none (some m) rest h bound =
    let e : m.matched_sequence ≡ read_sequence = ground arith in
    newer_of_IsAtMost m rest (subst (λ s. IsAtMost s rest) (sym e) bound)
ends-newer read_sequence (some s) (some m) rest h bound =
    let e : m.matched_sequence ≡ read_sequence = ground arith in
    let later : ltb s.matched_sequence m.matched_sequence ≡ true = ground arith in
    rw later (newer_of_IsAtMost m rest (subst (λ s. IsAtMost s rest) (sym e) bound))

module _ (key : Bytes) (read_sequence : ℕ) (clean : HasNoNul key)
    (small : IsU64 read_sequence) where
  others :
      (table : SsTable) (tables : List SsTable) (reader : Reader)
      → All (λ other. table.file_number ≡ other.file_number → ⊥) tables
      → AllServes tables reader.block_cache
      → AllServes tables ((table_get table key read_sequence reader).1.block_cache)
  others table [] reader apart s = tt
  others table (other ∷ rest) reader apart s = (
    table_get-others table other apart.0 key read_sequence reader s.0,
    others table rest reader apart.1 s.1,
  )

  search_behind-newer :
      (seen f g : Option Match) (reader : Reader) (more : Result (Option Match) × Reader)
      → IsAtMost read_sequence g
      → more.0 ≡ ok (newer (newer seen f) g)
      → (search_behind read_sequence seen (value_answer (found_or_not f), reader) more).0
        ≡ ok (newer (newer seen f) g)
  unfolding search_behind
  search_behind-newer seen f g reader more bound rest =
      elim (Bool-cases (ends read_sequence seen f)) [
        | inl stop ↦
            rw (search_behind, failure-answer f, stop, consider-answer seen f)
              (ap ok (sym (ends-newer read_sequence seen f g stop bound)))
        | inr on ↦ rw (search_behind, failure-answer f, on) rest
      ]

  pub search_tables-newest_match :
      (tables : List SsTable) (entries : List (List VersionedEntry)) (seen : Option Match)
      (reader : Reader)
      → HoldAll tables entries
      → AllServes tables reader.block_cache
      → (search_tables key read_sequence tables seen reader).0
        ≡ ok (newer seen (newest_match key read_sequence (concat entries)))
  unfolding search_tables HoldAll concat table_get_value newest_match
  search_tables-newest_match [] [] seen reader h s = ap ok (sym (newer-none seen))
  search_tables-newest_match [] (es ∷ more) seen reader h s = elim h [ ]
  search_tables-newest_match (table ∷ tables) [] seen reader h s = elim h [ ]
  search_tables-newest_match (table ∷ tables) (es ∷ more) seen reader (holds, apart, rest) s =
      let f = newest_match key read_sequence es in
      let g = newest_match key read_sequence (concat more) in
      let read : (table_get table key read_sequence reader).0 ≡ found_or_not f =
        (table_get-find_visible table es key read_sequence reader holds.is_table holds.plain
          holds.sorted clean small s.0).0
        ∙ ap found_or_not
            (find_visible-newest_match key read_sequence es holds.plain holds.sorted) in
      let goal : newer (newer seen f) g
          ≡ newer seen (newest_match key read_sequence (es ++ concat more)) =
        newer_assoc seen f g
        ∙ ap (newer seen) (sym (newest_match-append key read_sequence es (concat more))) in
      let next =
        search_tables-newest_match tables more (newer seen f)
          ((table_get table key read_sequence reader).1) rest
          (others table tables reader apart s.1) in
      let after = (table_get table key read_sequence reader).1 in
      let round : TableAnswer × Reader → Result (Option Match) = λ a.
        (search_behind read_sequence seen a
          (search_tables key read_sequence tables (consider a.0 seen) a.1)).0 in
      ap (λ x. round (value_answer x, after)) read
      ∙ search_behind-newer seen f g after
          (search_tables key read_sequence tables (consider (value_answer (found_or_not f)) seen)
            after)
          (newest_match-read key read_sequence (concat more))
          (ap (λ n. (search_tables key read_sequence tables n after).0) (consider-answer seen f)
            ∙ next)
      ∙ ap ok goal
