-- ===== src/Sstable/Lookup/Sorted.antt =====
-- Entries in the order of their internal keys, and the first visible version of a key among them.
use kv_mem.Prelude.{
  ℕ, ◌≡◌, refl, ap, sym, ◌∙◌, subst, inl, inr, Bool-cases, Bool, true, false, ◌&&◌, ◌||◌, Option,
  none, some, List, [], ◌∷◌, ◌++◌, All, ltb, if◌then◌else◌, arith,
}
use kv_mem.Bytes.{Bytes, IsU64, bytes_ltb, bytes_eq}
use kv_mem.Bytes.Order.{bytes_ltb_irrefl, bytes_ltb_asymm, eq_of_bytes_eq}
use kv_mem.Types.{VersionedEntry}
use kv_mem.Format.InternalKey.{encode_internal_key, HasNoNul}
use kv_mem.Format.InternalKey.Laws.{bytes_ltb-encode_internal_key}
use kv_mem.Sstable.Lookup.{Match, match_of, is_visible}

abbrev pub internal_key : VersionedEntry → Bytes
internal_key entry = encode_internal_key entry.key entry.sequence

-- Each internal key is below the later ones.
unfoldable pub IsSorted : List VersionedEntry → Type 0
IsSorted [] = Unit {0}
IsSorted (entry ∷ rest) =
    All (λ later. bytes_ltb (internal_key entry) (internal_key later) ≡ true) rest × IsSorted rest

-- The first version of a key that a read at a sequence sees, by a walk over the entries.
unfoldable pub find_visible : Bytes → ℕ → List VersionedEntry → Option Match
find_visible key read_sequence [] = none
find_visible key read_sequence (entry ∷ rest) =
    let more = find_visible key read_sequence rest in
    if is_visible key read_sequence entry then some (match_of entry) else more

-- Keys as ValidateKey has them, and sequences of 64 bits.
abbrev pub IsPlain : VersionedEntry → Type 0
IsPlain entry = HasNoNul entry.key × IsU64 entry.sequence

-- A key that is not below another one is above what is below that one.
past_key :
    (key k j : Bytes) (b : Bool)
    → bytes_ltb key k ≡ true
    → (bytes_ltb k j || (bytes_eq k j && b)) ≡ true
    → bytes_eq j key ≡ false
past_key key k j b past either = elim (Bool-cases (bytes_eq j key)) [
  | inr other ↦ other
  | inl same ↦
      let e = eq_of_bytes_eq j key same in
      let back : (bytes_ltb k key || (bytes_eq k key && b)) ≡ true =
        subst (λ x. (bytes_ltb k x || (bytes_eq k x && b)) ≡ true) e either in
      let first = bytes_ltb_asymm key k past in
      elim (Bool-cases (bytes_eq k key)) [
        | inl equal ↦
            let irr = subst (λ x. bytes_ltb key x ≡ true) (eq_of_bytes_eq k key equal) past in
            absurd (let h = bytes_ltb_irrefl key in cc)
        | inr unequal ↦ absurd (let h = simp (first, unequal) at back in cc)
      ]
]

module _ (key : Bytes) (read_sequence : ℕ) (clean : HasNoNul key)
    (small : IsU64 read_sequence) where
  abbrev target : Bytes
  target = encode_internal_key key read_sequence

  -- A version below the target is not the one that is looked for.
  below-not_visible :
      (entry : VersionedEntry)
      → IsPlain entry
      → bytes_ltb (internal_key entry) target ≡ true
      → is_visible key read_sequence entry ≡ false
  below-not_visible entry plain below =
      let order =
        bytes_ltb-encode_internal_key entry.key key entry.sequence read_sequence plain.0 clean
          plain.1 small in
      let either = sym order ∙ below in
      elim (Bool-cases (bytes_eq entry.key key)) [
        | inr other ↦ rw other
        | inl same ↦
            let e = eq_of_bytes_eq entry.key key same in
            let irr : bytes_ltb entry.key key ≡ false =
              ap (λ k. bytes_ltb k key) e ∙ bytes_ltb_irrefl key in
            let newer : ltb read_sequence entry.sequence ≡ true = simp (irr, same) at either in
            rw same (ground (arith, newer))
      ]

  pub find_visible-skip :
      (pre rest : List VersionedEntry)
      → All IsPlain pre
      → All (λ entry. bytes_ltb (internal_key entry) target ≡ true) pre
      → find_visible key read_sequence (pre ++ rest) ≡ find_visible key read_sequence rest
  unfolding find_visible
  find_visible-skip [] rest plain below = refl
  find_visible-skip (entry ∷ pre) rest plain below =
      rw (below-not_visible entry plain.0 below.0) (find_visible-skip pre rest plain.1 below.1)

  -- Past the key there is nothing.
  pub find_visible-past :
      (entry : VersionedEntry) (rest : List VersionedEntry)
      → IsPlain entry
      → All IsPlain rest
      → bytes_ltb key entry.key ≡ true
      → All (λ later. bytes_ltb (internal_key entry) (internal_key later) ≡ true) rest
      → find_visible key read_sequence rest ≡ none
  unfolding find_visible
  find_visible-past entry [] plain plains past above = refl
  find_visible-past entry (later ∷ rest) plain plains past above =
      let order =
        bytes_ltb-encode_internal_key entry.key later.key entry.sequence later.sequence plain.0
          plains.0.0 plain.1 plains.0.1 in
      let other : bytes_eq later.key key ≡ false =
        past_key key entry.key later.key _ past (sym order ∙ above.0) in
      rw other (find_visible-past entry rest plain plains.1 past above.1)
