-- ===== src/Sstable/Table/Blocks.antt =====
-- The block that std::lower_bound leads SSTable::Get of src/sstable.cpp to.
use kv_mem.Prelude.{
  ℕ, ◌^◌, ◌<◌, ◌≡◌, refl, ap, sym, ◌∙◌, subst, inl, inr, Bool-cases, Bool, true, false, ◌&&◌, ◌||◌,
  Option, none, some, Option-cases, List, [], ◌∷◌, ◌++◌, append_assoc, length, length-append, All,
  ltb, arith,
}
use kv_mem.Bytes.{Bytes, IsU64, bytes_ltb, bytes_eq}
use kv_mem.Bytes.Order.{bytes_ltb_trans, bytes_ltb_connex, bytes_eq_refl}
use kv_mem.Types.{VersionedEntry}
use kv_mem.Status.{Result, ok, ◌>>=◌}
use kv_mem.Format.InternalKey.{encode_internal_key, HasNoNul}
use kv_mem.Format.InternalKey.Laws.{bytes_ltb-encode_internal_key}
use kv_mem.Sstable.Block.{encode_block}
use kv_mem.Sstable.Block.RoundTrip.{IsBlock}
use kv_mem.Sstable.Lookup.{Match, is_visible, get_from_block}
use kv_mem.Sstable.Lookup.Sorted.{
  internal_key, IsSorted, IsPlain, find_visible, find_visible-skip, find_visible-past,
}
use kv_mem.Sstable.Lookup.Correct.{get_from_block-find_visible}
use kv_mem.Sstable.Create.{IndexEntry, last_key, write_blocks, index_of}
use kv_mem.Sstable.Create.Split.{concat}
use kv_mem.Sstable.Table.{read_exact_at, lower_bound}
use kv_mem.Sstable.Table.Load.{read_exact_at-part}

-- Each item leads to its block.
unfoldable pub Indexed : Bytes → List (List VersionedEntry) → List IndexEntry → Type 0
Indexed file [] [] = Unit {0}
Indexed file (block ∷ blocks) (item ∷ items) =
    (read_exact_at file item.block_offset item.block_size ≡ ok (encode_block block))
    × (item.last_internal_key ≡ last_key block)
    × Indexed file blocks items
Indexed file _ _ = ⊥

pub index_of-Indexed :
    (blocks : List (List VersionedEntry)) (before after : Bytes)
    → length (before ++ (write_blocks blocks ++ after)) < 2 ^ 63
    → Indexed (before ++ (write_blocks blocks ++ after)) blocks (index_of (length before) blocks)
unfolding Indexed write_blocks index_of
index_of-Indexed [] before after small = tt
index_of-Indexed (block ∷ rest) before after small =
    let bytes = encode_block block in
    let split : before ++ ((bytes ++ write_blocks rest) ++ after)
        ≡ before ++ (bytes ++ (write_blocks rest ++ after)) =
      ap (λ xs. before ++ xs) (append_assoc bytes (write_blocks rest) after) in
    let moved : before ++ ((bytes ++ write_blocks rest) ++ after)
        ≡ (before ++ bytes) ++ (write_blocks rest ++ after) =
      split ∙ sym (append_assoc before bytes (write_blocks rest ++ after)) in
    (
      subst (λ f. read_exact_at f (length before) (length bytes) ≡ ok bytes) (sym split)
          (read_exact_at-part before bytes (write_blocks rest ++ after)
            (subst (λ f. length f < 2 ^ 63) split small)),
      refl,
      subst
          (λ n. Indexed (before ++ ((bytes ++ write_blocks rest) ++ after)) rest (index_of n rest))
          (length-append before bytes)
          (subst (λ f. Indexed f rest (index_of (length (before ++ bytes)) rest)) (sym moved)
            (index_of-Indexed rest (before ++ bytes) after
              (subst (λ f. length f < 2 ^ 63) moved small))),
    )

pub All_front :
    (P : VersionedEntry → Type 0) (xs ys : List VersionedEntry) → All P (xs ++ ys) → All P xs
All_front P [] ys all = tt
All_front P (x ∷ xs) ys all = (all.0, All_front P xs ys all.1)

pub All_back :
    (P : VersionedEntry → Type 0) (xs ys : List VersionedEntry) → All P (xs ++ ys) → All P ys
All_back P [] ys all = all
All_back P (x ∷ xs) ys all = All_back P xs ys all.1

pub IsSorted-append :
    (xs ys : List VersionedEntry) → IsSorted (xs ++ ys) → IsSorted xs × IsSorted ys
unfolding IsSorted
IsSorted-append [] ys sorted = (tt, sorted)
IsSorted-append (x ∷ xs) ys sorted =
    let (left, right) = IsSorted-append xs ys sorted.1 in
    ((All_front _ xs ys sorted.0, left), right)

or_false : (a b : Bool) → (a || b) ≡ false → (a ≡ false) × (b ≡ false)
or_false true b h = cc
or_false false b h = (refl, h)

module _ (key : Bytes) (read_sequence : ℕ) (clean : HasNoNul key)
    (small : IsU64 read_sequence) where
  abbrev target : Bytes
  target = encode_internal_key key read_sequence

  -- A version that is not below the target and not visible is past the key.
  past_of_not_below :
      (entry : VersionedEntry)
      → IsPlain entry
      → bytes_ltb (internal_key entry) target ≡ false
      → is_visible key read_sequence entry ≡ false
      → bytes_ltb key entry.key ≡ true
  past_of_not_below entry plain low unseen =
      let order =
        bytes_ltb-encode_internal_key entry.key key entry.sequence read_sequence plain.0 clean
          plain.1 small in
      let neither = sym order ∙ low in
      elim (Bool-cases (bytes_ltb key entry.key)) [
        | inl past ↦ past
        | inr not_past ↦
            let not_before : bytes_ltb entry.key key ≡ false =
              (or_false (bytes_ltb entry.key key) _ neither).0 in
            let same = bytes_ltb_connex entry.key key not_before not_past in
            let equal : bytes_eq entry.key key ≡ true =
              ap (λ k. bytes_eq k key) same ∙ bytes_eq_refl key in
            let not_newer : (bytes_eq entry.key key && ltb read_sequence entry.sequence) ≡ false =
              (or_false (bytes_ltb entry.key key) _ neither).1 in
            absurd (
              let newer = simp equal at not_newer in
              let older = simp equal at unseen in ground arith)
      ]

  -- All versions of a block are below what its last one is below.
  pub below_last :
      (block : List VersionedEntry)
      → IsSorted block
      → bytes_ltb (last_key block) target ≡ true
      → All (λ entry. bytes_ltb (internal_key entry) target ≡ true) block
  unfolding IsSorted last_key
  below_last [] sorted below = tt
  below_last (entry ∷ []) sorted below = (below, tt)
  below_last (entry ∷ next ∷ rest) sorted below =
      let later = below_last (next ∷ rest) sorted.1 below in
      (bytes_ltb_trans (internal_key entry) (internal_key next) target sorted.0.0 later.0, later)

  find_visible-append :
      (xs ys : List VersionedEntry) (m : Match)
      → find_visible key read_sequence xs ≡ some m
      → find_visible key read_sequence (xs ++ ys) ≡ some m
  unfolding find_visible
  find_visible-append [] ys m found = cc
  find_visible-append (x ∷ xs) ys m found = elim (Bool-cases (is_visible key read_sequence x)) [
    | inl seen ↦ rw seen (simp seen at found)
    | inr unseen ↦ rw unseen (find_visible-append xs ys m (simp unseen at found))
  ]

  -- Where a block that reaches the target has no visible version, the blocks behind it have none.
  find_visible-behind :
      (block ys : List VersionedEntry)
      → 0 < length block
      → All IsPlain block
      → All IsPlain ys
      → IsSorted (block ++ ys)
      → bytes_ltb (last_key block) target ≡ false
      → find_visible key read_sequence block ≡ none
      → find_visible key read_sequence (block ++ ys) ≡ none
  unfolding find_visible IsSorted last_key
  find_visible-behind [] ys filled plain plains sorted reached nothing = absurd (omega arith)
  find_visible-behind (entry ∷ []) ys filled plain plains sorted reached nothing =
      elim (Bool-cases (is_visible key read_sequence entry)) [
        | inl seen ↦ absurd (let h = simp seen at nothing in cc)
        | inr unseen ↦ rw unseen (
            find_visible-past key read_sequence clean small entry ys plain.0 plains
              (past_of_not_below entry plain.0 reached unseen) sorted.0)
      ]
  find_visible-behind (entry ∷ next ∷ rest) ys filled plain plains sorted reached nothing =
      elim (Bool-cases (is_visible key read_sequence entry)) [
        | inl seen ↦ absurd (let h = simp seen at nothing in cc)
        | inr unseen ↦ rw unseen (
            find_visible-behind (next ∷ rest) ys (omega arith) plain.1 plains sorted.1 reached
              (simp unseen at nothing))
      ]

  -- What Get reads at the item that the search answers.
  unfoldable pub item_answer : Bytes → Option IndexEntry → Result (Option Match)
  item_answer file none = ok none
  item_answer file (some item) = read_exact_at file item.block_offset item.block_size >>= λ block.
      get_from_block block key read_sequence

  pub item_answer-find_visible :
      (file : Bytes) (blocks : List (List VersionedEntry)) (items : List IndexEntry)
      → Indexed file blocks items
      → All IsBlock blocks
      → All IsPlain (concat blocks)
      → IsSorted (concat blocks)
      → item_answer file (lower_bound target items)
        ≡ ok (find_visible key read_sequence (concat blocks))
  unfolding Indexed concat lower_bound item_answer find_visible
  item_answer-find_visible file [] [] indexed fits plain sorted = refl
  item_answer-find_visible file [] (item ∷ items) indexed fits plain sorted = elim indexed [ ]
  item_answer-find_visible file (block ∷ blocks) [] indexed fits plain sorted = elim indexed [ ]
  item_answer-find_visible file (block ∷ blocks) (item ∷ items) (read, last, indexed) fits plain
        sorted =
      let rest = concat blocks in
      let plain_block = All_front IsPlain block rest plain in
      let plain_rest = All_back IsPlain block rest plain in
      let (sorted_block, sorted_rest) = IsSorted-append block rest sorted in
      let reach : (b : Bool)
          → bytes_ltb (last_key block) target ≡ b
          → bytes_ltb item.last_internal_key target ≡ b =
        λ b h. ap (λ k. bytes_ltb k target) last ∙ h in
      elim (Bool-cases (bytes_ltb (last_key block) target)) [
        | inl below ↦ rw (reach true below) (
            item_answer-find_visible file blocks items indexed fits.1 plain_rest sorted_rest
            ∙ ap ok (
                sym (
                  find_visible-skip key read_sequence clean small block rest plain_block
                    (below_last block sorted_block below))))
        | inr reached ↦
            let looked =
              get_from_block-find_visible block key read_sequence fits.0 plain_block sorted_block
                clean small in
            elim (Option-cases (find_visible key read_sequence block)) [
              | inl nothing ↦
                  rw (reach false reached, read)
                    (looked
                      ∙ ap ok (
                          nothing
                          ∙ sym (
                              find_visible-behind block rest fits.0.filled plain_block plain_rest
                                sorted reached nothing)))
              | inr (m, found) ↦
                  rw (reach false reached, read)
                    (looked ∙ ap ok (found ∙ sym (find_visible-append block rest m found)))
            ]
      ]
