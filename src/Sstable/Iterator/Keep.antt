-- ===== src/Sstable/Iterator/Keep.antt =====
-- The entries that SkipUntilVisible of src/sstable.cpp keeps of a sorted list, from a key on.
use kv_mem.Prelude.{
  ℕ, ◌≡◌, refl, ap, sym, ◌∙◌, Bool, true, false, not, ◌&&◌, ◌||◌, Bool-cases, inl, inr, List, [],
  ◌∷◌, ◌++◌, map, All, ltb, leb, if◌then◌else◌, arith,
}
use kv_mem.Bytes.{Bytes, bytes_ltb, bytes_eq}
use kv_mem.Bytes.Order.{
  bytes_ltb_trans, bytes_ltb_connex, bytes_ltb_asymm, bytes_ltb_irrefl, eq_of_bytes_eq,
}
use kv_mem.Types.{VersionedEntry}
use kv_mem.Format.InternalKey.Laws.{bytes_ltb-encode_internal_key}
use kv_mem.Sstable.Block.Record.{stored}
use kv_mem.Sstable.Lookup.Sorted.{internal_key, IsSorted, IsPlain}
use kv_mem.Sstable.Iterator.{is_skipped}
use kv_mem.Sstable.Iterator.Walk.{keep_visible, drop_skipped}

-- The entries from a key on that the read sees.
unfoldable pub keep_from : Bytes → ℕ → List VersionedEntry → List VersionedEntry
keep_from target read_sequence [] = []
keep_from target read_sequence (entry ∷ rest) =
    let more = keep_from target read_sequence rest in
    if not (bytes_ltb entry.key target) && leb entry.sequence read_sequence
    then entry ∷ more
    else more

pub keep_from-append :
    (target : Bytes) (read_sequence : ℕ) (xs ys : List VersionedEntry)
    → keep_from target read_sequence (xs ++ ys)
      ≡ keep_from target read_sequence xs ++ keep_from target read_sequence ys
unfolding keep_from
keep_from-append target read_sequence [] ys = refl
keep_from-append target read_sequence (x ∷ xs) ys =
    elim (Bool-cases (not (bytes_ltb x.key target) && leb x.sequence read_sequence)) [
      | inl kept ↦ rw (kept, keep_from-append target read_sequence xs ys)
      | inr skipped ↦ rw (skipped, keep_from-append target read_sequence xs ys)
    ]

-- Keys in their order, as internal keys have them.
unfoldable pub IsOrdered : List VersionedEntry → Type 0
IsOrdered [] = Unit {0}
IsOrdered (entry ∷ rest) =
    All (λ later. bytes_ltb later.key entry.key ≡ false) rest × IsOrdered rest

not_below :
    (a b : Bytes) (c : Bool) → (bytes_ltb a b || (bytes_eq a b && c)) ≡ true → bytes_ltb b a ≡ false
not_below a b c h = elim (Bool-cases (bytes_ltb a b)) [
  | inl less ↦ bytes_ltb_asymm a b less
  | inr not_less ↦ elim (Bool-cases (bytes_eq a b)) [
    | inl same ↦ ap (λ k. bytes_ltb b k) (eq_of_bytes_eq a b same) ∙ bytes_ltb_irrefl b
    | inr other ↦ absurd (let k = simp (not_less, other) at h in cc)
  ]
]

key_order :
    (entry : VersionedEntry) (rest : List VersionedEntry)
    → IsPlain entry
    → All IsPlain rest
    → All (λ later. bytes_ltb (internal_key entry) (internal_key later) ≡ true) rest
    → All (λ later. bytes_ltb later.key entry.key ≡ false) (map stored rest)
key_order entry [] plain plains above = tt
key_order entry (later ∷ rest) plain plains above =
    let order =
      bytes_ltb-encode_internal_key entry.key later.key entry.sequence later.sequence plain.0
        plains.0.0 plain.1 plains.0.1 in
    (
      not_below entry.key later.key _ (sym order ∙ above.0),
      key_order entry rest plain plains.1 above.1,
    )

pub IsSorted-IsOrdered :
    (entries : List VersionedEntry)
    → All IsPlain entries
    → IsSorted entries
    → IsOrdered (map stored entries)
unfolding IsSorted IsOrdered
IsSorted-IsOrdered [] plain sorted = tt
IsSorted-IsOrdered (entry ∷ rest) plain sorted =
    (key_order entry rest plain.0 plain.1 sorted.0, IsSorted-IsOrdered rest plain.1 sorted.1)

not_below_target :
    (key later target : Bytes)
    → bytes_ltb key target ≡ false
    → bytes_ltb later key ≡ false
    → bytes_ltb later target ≡ false
not_below_target key later target above order = elim (Bool-cases (bytes_ltb later target)) [
  | inr not_less ↦ not_less
  | inl less ↦ elim (Bool-cases (bytes_ltb target key)) [
    | inl past ↦ absurd (let h = bytes_ltb_trans later target key less past in cc)
    | inr not_past ↦ ap (bytes_ltb later) (sym (bytes_ltb_connex key target above not_past)) ∙ order
  ]
]

-- Behind a key that is not below the target, none is.
keep_from-keep_visible :
    (target : Bytes) (read_sequence : ℕ) (key : Bytes) (rest : List VersionedEntry)
    → bytes_ltb key target ≡ false
    → All (λ later. bytes_ltb later.key key ≡ false) rest
    → keep_visible read_sequence rest ≡ keep_from target read_sequence rest
unfolding keep_visible keep_from
keep_from-keep_visible target read_sequence key [] above order = refl
keep_from-keep_visible target read_sequence key (later ∷ rest) above order =
    let e = not_below_target key later.key target above order.0 in
    rw (e, keep_from-keep_visible target read_sequence key rest above order.1)

is_skipped-cases :
    (target : Bytes) (read_sequence : ℕ) (entry : VersionedEntry)
    → (not (bytes_ltb entry.key target) && leb entry.sequence read_sequence)
      ≡ not (is_skipped target read_sequence entry)
unfolding is_skipped bytes_ltb
is_skipped-cases [] read_sequence entry = ground arith
is_skipped-cases (b ∷ target) read_sequence entry = ground arith

and_true : (a b : Bool) → (not a && b) ≡ true → (a ≡ false) × (b ≡ true)
and_true true b h = absurd cc
and_true false b h = (refl, h)

pub hidden :
    (below same : Bool) (read_sequence sequence : ℕ)
    → (below || (same && ltb read_sequence sequence)) ≡ true
    → (not below && leb sequence read_sequence) ≡ false
hidden true same read_sequence sequence h = refl
hidden false same read_sequence sequence h = ground arith

-- Once one entry is kept, all later ones have keys that are not below the target.
pub keep_from-drop_skipped :
    (target : Bytes) (read_sequence : ℕ) (es : List VersionedEntry)
    → IsOrdered es
    → keep_visible read_sequence (drop_skipped read_sequence target es)
      ≡ keep_from target read_sequence es
unfolding keep_visible drop_skipped keep_from IsOrdered
keep_from-drop_skipped target read_sequence [] ordered = refl
keep_from-drop_skipped target read_sequence (entry ∷ rest) ordered =
    let test = is_skipped-cases target read_sequence entry in
    elim (Bool-cases (is_skipped target read_sequence entry)) [
      | inl skipped ↦
          rw (test, skipped) (keep_from-drop_skipped target read_sequence rest ordered.1)
      | inr kept ↦
          let both : (not (bytes_ltb entry.key target) && leb entry.sequence read_sequence) ≡ true =
            test ∙ ap not kept in
          let (above, seen) =
            and_true (bytes_ltb entry.key target) (leb entry.sequence read_sequence) both in
          rw (kept, seen, above)
            (ap (◌∷◌ entry)
              (keep_from-keep_visible target read_sequence entry.key rest above ordered.0))
    ]
