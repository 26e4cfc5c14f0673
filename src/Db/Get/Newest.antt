-- ===== src/Db/Get/Newest.antt =====
-- The newest version of a key that a read sees, whatever the order of the entries: what DB::Get of
-- src/db.cc looks for.
use kv_mem.Prelude.{
  ℕ, ◌≤◌, ◌≡◌, refl, ap, sym, ◌∙◌, true, false, Bool-cases, inl, inr, Option, none, some, List, [],
  ◌∷◌, ◌++◌, All, ltb, if◌then◌else◌, arith,
}
use kv_mem.Bytes.{Bytes, bytes_ltb, bytes_eq}
use kv_mem.Bytes.Order.{eq_of_bytes_eq, bytes_ltb_irrefl}
use kv_mem.Types.{VersionedEntry}
use kv_mem.Format.InternalKey.Laws.{bytes_ltb-encode_internal_key}
use kv_mem.Sstable.Lookup.{Match, match_of, is_visible}
use kv_mem.Sstable.Lookup.Sorted.{internal_key, IsSorted, IsPlain, find_visible}

-- The newer of two; the first, where they are of one sequence.
unfoldable pub newer : Option Match → Option Match → Option Match
newer none b = b
newer (some m) none = some m
newer (some m) (some n) = if ltb m.matched_sequence n.matched_sequence then some n else some m

unfoldable pub newest_match : Bytes → ℕ → List VersionedEntry → Option Match
newest_match key read_sequence [] = none
newest_match key read_sequence (entry ∷ rest) =
    let more = newest_match key read_sequence rest in
    if is_visible key read_sequence entry then newer (some (match_of entry)) more else more

pub newer-none : (a : Option Match) → newer a none ≡ a
unfolding newer
newer-none none = refl
newer-none (some m) = refl

pub newer_assoc : (a b c : Option Match) → newer (newer a b) c ≡ newer a (newer b c)
unfolding newer
newer_assoc none b c = refl
newer_assoc (some m) none c = refl
newer_assoc (some m) (some n) none =
    newer-none (if ltb m.matched_sequence n.matched_sequence then some n else some m)
newer_assoc (some m) (some n) (some k) = ground arith

pub newest_match-append :
    (key : Bytes) (read_sequence : ℕ) (xs ys : List VersionedEntry)
    → newest_match key read_sequence (xs ++ ys)
      ≡ newer (newest_match key read_sequence xs) (newest_match key read_sequence ys)
unfolding newest_match newer
newest_match-append key read_sequence [] ys = refl
newest_match-append key read_sequence (x ∷ xs) ys =
    elim (Bool-cases (is_visible key read_sequence x)) [
      | inl seen ↦
          rw (seen, newest_match-append key read_sequence xs ys)
            (sym (
              newer_assoc (some (match_of x)) (newest_match key read_sequence xs)
                (newest_match key read_sequence ys)))
      | inr unseen ↦ rw (unseen, newest_match-append key read_sequence xs ys)
    ]

-- A match, if there is one, is not newer than a sequence.
unfoldable pub IsAtMost : ℕ → Option Match → Type 0
IsAtMost sequence none = Unit {0}
IsAtMost sequence (some m) = m.matched_sequence ≤ sequence

pub newer-IsAtMost :
    (sequence : ℕ) (a b : Option Match)
    → IsAtMost sequence a
    → IsAtMost sequence b
    → IsAtMost sequence (newer a b)
unfolding newer IsAtMost
newer-IsAtMost sequence none b h k = k
newer-IsAtMost sequence (some m) none h k = h
newer-IsAtMost sequence (some m) (some n) h k =
    elim (Bool-cases (ltb m.matched_sequence n.matched_sequence)) [
      | inl later ↦ rw later k
      | inr not_later ↦ rw not_later h
    ]

-- One that is not newer changes nothing behind another.
pub newer_of_IsAtMost :
    (m : Match) (b : Option Match) → IsAtMost m.matched_sequence b → newer (some m) b ≡ some m
unfolding newer IsAtMost
newer_of_IsAtMost m none h = refl
newer_of_IsAtMost m (some n) h =
    let e : ltb m.matched_sequence n.matched_sequence ≡ false = ground arith in rw e

-- Where the visible versions are at most as new, so is the match.
pub newest_match-IsAtMost :
    (key : Bytes) (read_sequence sequence : ℕ) (entries : List VersionedEntry)
    → All (λ entry. is_visible key read_sequence entry ≡ true → entry.sequence ≤ sequence) entries
    → IsAtMost sequence (newest_match key read_sequence entries)
unfolding newest_match IsAtMost
newest_match-IsAtMost key read_sequence sequence [] bounds = tt
newest_match-IsAtMost key read_sequence sequence (entry ∷ rest) bounds =
    elim (Bool-cases (is_visible key read_sequence entry)) [
      | inl seen ↦ rw seen (
          newer-IsAtMost sequence (some (match_of entry)) (newest_match key read_sequence rest)
            (bounds.0 seen) (newest_match-IsAtMost key read_sequence sequence rest bounds.1))
      | inr unseen ↦ rw unseen (newest_match-IsAtMost key read_sequence sequence rest bounds.1)
    ]

pub visible_parts :
    (key : Bytes) (read_sequence : ℕ) (entry : VersionedEntry)
    → is_visible key read_sequence entry ≡ true
    → (entry.key ≡ key) × (entry.sequence ≤ read_sequence)
visible_parts key read_sequence entry seen = elim (Bool-cases (bytes_eq entry.key key)) [
  | inl same ↦ (eq_of_bytes_eq entry.key key same, (let h = simp same at seen in ground arith))
  | inr other ↦ absurd (let h = simp other at seen in cc)
]

each_visible :
    (key : Bytes) (read_sequence : ℕ) (entries : List VersionedEntry)
    → All
        (λ entry. is_visible key read_sequence entry ≡ true → entry.sequence ≤ read_sequence)
        entries
each_visible key read_sequence [] = tt
each_visible key read_sequence (entry ∷ rest) =
    ((λ seen. (visible_parts key read_sequence entry seen).1), each_visible key read_sequence rest)

-- No match is newer than the read.
pub newest_match-read :
    (key : Bytes) (read_sequence : ℕ) (entries : List VersionedEntry)
    → IsAtMost read_sequence (newest_match key read_sequence entries)
newest_match-read key read_sequence entries =
    newest_match-IsAtMost key read_sequence read_sequence entries
      (each_visible key read_sequence entries)

-- Behind a version of the key, in the order of internal keys, the versions are older.
older_behind :
    (key : Bytes) (read_sequence : ℕ) (entry : VersionedEntry) (rest : List VersionedEntry)
    → entry.key ≡ key
    → IsPlain entry
    → All IsPlain rest
    → All (λ later. bytes_ltb (internal_key entry) (internal_key later) ≡ true) rest
    → All
        (λ later. is_visible key read_sequence later ≡ true → later.sequence ≤ entry.sequence)
        rest
older_behind key read_sequence entry [] same plain plains above = tt
older_behind key read_sequence entry (later ∷ rest) same plain plains above = (
  (λ seen.
      let equal = same ∙ sym ((visible_parts key read_sequence later seen).0) in
      let order =
        bytes_ltb-encode_internal_key entry.key later.key entry.sequence later.sequence plain.0
          plains.0.0 plain.1 plains.0.1 in
      let either = sym order ∙ above.0 in
      let irr : bytes_ltb entry.key later.key ≡ false =
        ap (bytes_ltb entry.key) (sym equal) ∙ bytes_ltb_irrefl entry.key in
      let newer_first = simp irr at either in ground (arith, newer_first)),
  older_behind key read_sequence entry rest same plain plains.1 above.1,
)

-- The first visible version of sorted entries is the newest.
pub find_visible-newest_match :
    (key : Bytes) (read_sequence : ℕ) (entries : List VersionedEntry)
    → All IsPlain entries
    → IsSorted entries
    → find_visible key read_sequence entries ≡ newest_match key read_sequence entries
unfolding find_visible newest_match IsSorted
find_visible-newest_match key read_sequence [] plain sorted = refl
find_visible-newest_match key read_sequence (entry ∷ rest) plain sorted =
    elim (Bool-cases (is_visible key read_sequence entry)) [
      | inl seen ↦
          let same = (visible_parts key read_sequence entry seen).0 in
          let bound =
            newest_match-IsAtMost key read_sequence entry.sequence rest
              (older_behind key read_sequence entry rest same plain.0 plain.1 sorted.0) in
          rw seen
            (sym (newer_of_IsAtMost (match_of entry) (newest_match key read_sequence rest) bound))
      | inr unseen ↦ rw unseen (find_visible-newest_match key read_sequence rest plain.1 sorted.1)
    ]
