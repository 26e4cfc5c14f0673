-- ===== src/Compaction/Ranges.antt =====
-- RangesOverlap of src/db.cc, by which a compaction chooses its inputs.
use kv_mem.Prelude.{
  ℕ, ◌≡◌, ◌↔◌, ◌⊎◌, inl, inr, Bool, true, false, not, ◌&&◌, ◌||◌, sym, ◌∙◌, [], ◌∷◌, Bool-cases,
  if◌then◌else◌, arith,
}
use kv_mem.Bytes.{Bytes, bytes_ltb}
use kv_mem.Bytes.Order.{bytes_ltb_trans, bytes_ltb_connex, bytes_ltb_irrefl, bytes_ltb_asymm}

-- The fields of an SSTableMeta that the choice reads.
pub record SstableMeta : Type 0 where
  pub file_number : ℕ
  pub level : ℕ
  pub smallest_key : Bytes
  pub largest_key : Bytes

-- std::string::empty
abbrev pub is_empty : Bytes → Bool
is_empty [] = true
is_empty (b ∷ rest) = false

-- std::string::operator<=
abbrev pub bytes_leb : Bytes → Bytes → Bool
bytes_leb xs ys = not (bytes_ltb ys xs)

unfoldable pub ranges_overlap : SstableMeta → SstableMeta → Bool
ranges_overlap lhs rhs =
    if is_empty lhs.smallest_key
      || (is_empty lhs.largest_key || (is_empty rhs.smallest_key || is_empty rhs.largest_key))
    then true
    else bytes_leb lhs.smallest_key rhs.largest_key && bytes_leb rhs.smallest_key lhs.largest_key

-- Both bounds are known, and in order.
pub record HasRange (meta : SstableMeta) : Type 0 where
  pub some_smallest : is_empty meta.smallest_key ≡ false
  pub some_largest : is_empty meta.largest_key ≡ false
  pub in_order : bytes_leb meta.smallest_key meta.largest_key ≡ true

-- A key that a table may hold.
abbrev pub Covers : SstableMeta → Bytes → Type 0
Covers meta key = (bytes_leb meta.smallest_key key ≡ true) × (bytes_leb key meta.largest_key ≡ true)

bytes_leb_trans :
    (a b c : Bytes) → bytes_leb a b ≡ true → bytes_leb b c ≡ true → bytes_leb a c ≡ true
bytes_leb_trans a b c h k = ground (arith, bytes_ltb_trans b c a, bytes_ltb_connex b c)

bytes_leb_refl : (a : Bytes) → bytes_leb a a ≡ true
bytes_leb_refl a = rw (bytes_ltb_irrefl a)

bytes_leb_total : (a b : Bytes) → (bytes_leb a b ≡ true) ⊎ (bytes_leb b a ≡ true)
bytes_leb_total a b = elim (Bool-cases (bytes_ltb b a)) [
  | inl less ↦ inr (rw (bytes_ltb_asymm b a less))
  | inr other ↦ inl (rw other)
]

module _ (lhs rhs : SstableMeta) (left : HasRange lhs) (right : HasRange rhs) where
  ranges_overlap-HasRange :
      ranges_overlap lhs rhs
      ≡ bytes_leb lhs.smallest_key rhs.largest_key && bytes_leb rhs.smallest_key lhs.largest_key
  unfolding ranges_overlap
  ranges_overlap-HasRange =
      simp (left.some_smallest, left.some_largest, right.some_smallest, right.some_largest)

  common_key : ranges_overlap lhs rhs ≡ true → (key : Bytes) × Covers lhs key × Covers rhs key
  common_key overlap =
      let both = sym ranges_overlap-HasRange ∙ overlap in
      let first : bytes_leb lhs.smallest_key rhs.largest_key ≡ true = ground (arith, both) in
      let second : bytes_leb rhs.smallest_key lhs.largest_key ≡ true = ground (arith, both) in
      elim (bytes_leb_total lhs.smallest_key rhs.smallest_key) [
        | inl less ↦
            (rhs.smallest_key, (less, second), (bytes_leb_refl rhs.smallest_key, right.in_order))
        | inr more ↦
            (lhs.smallest_key, (bytes_leb_refl lhs.smallest_key, left.in_order), (more, first))
      ]

  overlap_of_common :
      ((key : Bytes) × Covers lhs key × Covers rhs key) → ranges_overlap lhs rhs ≡ true
  overlap_of_common (key, (above_left, below_left), (above_right, below_right)) =
      let first = bytes_leb_trans lhs.smallest_key key rhs.largest_key above_left below_right in
      let second = bytes_leb_trans rhs.smallest_key key lhs.largest_key above_right below_left in
      ranges_overlap-HasRange ∙ ground (arith, first, second)

-- For two tables whose smallest and largest keys are known and in order, RangesOverlap answers true
-- exactly when some key lies in both ranges.
pub ranges_overlap_iff :
    (lhs rhs : SstableMeta)
    → HasRange lhs
    → HasRange rhs
    → (ranges_overlap lhs rhs ≡ true) ↔ ((key : Bytes) × Covers lhs key × Covers rhs key)
ranges_overlap_iff lhs rhs left right =
    (common_key lhs rhs left right, overlap_of_common lhs rhs left right)
