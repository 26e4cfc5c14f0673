-- ===== src/Sstable/Lookup/Correct.antt =====
-- SSTable::GetFromBlock of src/sstable.cpp on a block that EncodeBlock wrote.
use kv_mem.Prelude.{
  ℕ, zero, suc, ◌+◌, ◌-◌, ◌*◌, ◌<◌, ◌≤◌, ◌≡◌, refl, ap, sym, ◌∙◌, subst, true, false, Bool-cases,
  inl, inr, List, [], ◌∷◌, ◌++◌, append_assoc, length, length-append, length-drop, drop-add, take,
  take-append-drop, All, All-drop, All-take, drop, drop_front, ltb, ◌==◌, if◌then◌else◌, arith,
}
use kv_mem.Bytes.{Bytes, IsU64, bytes_ltb}
use kv_mem.Bytes.Order.{bytes_ltb_trans, bytes_ltb_connex}
use kv_mem.Types.{VersionedEntry}
use kv_mem.Status.{ok}
use kv_mem.Format.InternalKey.{encode_internal_key, HasNoNul}
use kv_mem.Sstable.Block.{shared_size, encode_record, encode_records, restart_offsets, encode_block}
use kv_mem.Sstable.Block.Decode.{PrefixBlockLayout, restart_offset}
use kv_mem.Sstable.Block.Record.{
  FitsEntry, stored, shared_size-IsShared, decode-encode_record, length-encode_record,
}
use kv_mem.Sstable.Block.Layout.{record-encode_records-le, length-restart_offsets}
use kv_mem.Sstable.Block.RoundTrip.{
  layout_of, IsBlock, parse_prefix_block_layout_ok, decode_block_payload_ok,
}
use kv_mem.Sstable.Lookup.{match_of, is_visible, scan_records, get_from_layout, get_from_block}
use kv_mem.Sstable.Lookup.Sorted.{
  internal_key, IsSorted, IsPlain, find_visible, find_visible-skip, find_visible-past,
}
use kv_mem.Sstable.Lookup.Search.{
  first_key, restart_offset-IsRestart, search_restarts-IsFound, IsFound,
}

-- A deletion has no value either way.
match-stored : (entry : VersionedEntry) → match_of (stored entry) ≡ match_of entry
match-stored entry = elim (Bool-cases entry.deleted) [
  | inl gone ↦ simp gone refl
  | inr kept ↦ simp kept refl
]

IsSorted-drop :
    (n : ℕ) (entries : List VersionedEntry) → IsSorted entries → IsSorted (drop n entries)
unfolding IsSorted
IsSorted-drop zero entries sorted = sorted
IsSorted-drop (suc n) [] sorted = tt
IsSorted-drop (suc n) (entry ∷ rest) sorted = IsSorted-drop n rest sorted.1

first_of_drop :
    (P : VersionedEntry → Type 0) (n : ℕ) (entries : List VersionedEntry) (Q : Bytes → Type 0)
    → ((entry : VersionedEntry) → P entry → Q (internal_key entry))
    → All P entries
    → 0 < length (drop n entries)
    → Q (first_key (drop n entries))
first_of_drop P zero [] Q each all more = absurd (omega arith)
first_of_drop P zero (entry ∷ rest) Q each all more = each entry all.0
first_of_drop P (suc n) [] Q each all more = absurd (omega arith)
first_of_drop P (suc n) (entry ∷ rest) Q each all more = first_of_drop P n rest Q each all.1 more

-- What stands before an index is below what stands at it.
take-below :
    (n : ℕ) (entries : List VersionedEntry)
    → IsSorted entries
    → 0 < length (drop n entries)
    → All
        (λ entry. bytes_ltb (internal_key entry) (first_key (drop n entries)) ≡ true)
        (take n entries)
unfolding IsSorted
take-below zero entries sorted more = tt
take-below (suc n) [] sorted more = tt
take-below (suc n) (entry ∷ rest) sorted more = (
  first_of_drop _ n rest (λ k. bytes_ltb (internal_key entry) k ≡ true) (λ later below. below)
      sorted.0 more,
  take-below n rest sorted.1 more,
)

below_not_above :
    (x first target : Bytes)
    → bytes_ltb x first ≡ true
    → bytes_ltb target first ≡ false
    → bytes_ltb x target ≡ true
below_not_above x first target below low = elim (Bool-cases (bytes_ltb first target)) [
  | inl less ↦ bytes_ltb_trans x first target below less
  | inr not_less ↦
      subst (λ k. bytes_ltb x k ≡ true) (bytes_ltb_connex first target not_less low) below
]

All-map :
    {P Q : VersionedEntry → Type 0} (entries : List VersionedEntry)
    → ((entry : VersionedEntry) → P entry → Q entry)
    → All P entries
    → All Q entries
All-map [] each all = tt
All-map (entry ∷ rest) each all = (each entry all.0, All-map rest each all.1)

module _ (key : Bytes) (read_sequence : ℕ) (clean : HasNoNul key)
    (small : IsU64 read_sequence) where
  -- The scan of the records from a pointer on finds the first visible version among their entries.
  scan_records-find_visible :
      (layout : PrefixBlockLayout) (fuel i ptr : ℕ) (previous_key : Bytes)
      (entries : List VersionedEntry) (tail : Bytes)
      → length entries ≤ fuel
      → All FitsEntry entries
      → All IsPlain entries
      → IsSorted entries
      → 16 ≤ ptr
      → ptr + length (encode_records i previous_key entries) ≡ layout.records_end
      → drop ptr layout.payload ≡ encode_records i previous_key entries ++ tail
      → scan_records layout key read_sequence fuel ptr previous_key
        ≡ ok (find_visible key read_sequence entries)
  unfolding encode_records scan_records find_visible IsSorted
  scan_records-find_visible layout zero i ptr previous_key [] tail enough fits plain sorted low end
        here =
      refl
  scan_records-find_visible layout (suc n) i ptr previous_key [] tail enough fits plain sorted low
        end here =
      let done : ltb ptr layout.records_end ≡ false = ground arith in rw (scan_records, done)
  scan_records-find_visible layout zero i ptr previous_key (entry ∷ rest) tail enough fits plain
        sorted low end here =
      absurd (omega arith)
  scan_records-find_visible layout (suc n) i ptr previous_key (entry ∷ rest) tail enough fits plain
        sorted low end here =
      let shared = shared_size i previous_key entry in
      let bytes = encode_record shared entry in
      let after = encode_records (i + 1) entry.key rest in
      let size = length-encode_record shared entry in
      let both = length-append bytes after in
      let split = here ∙ append_assoc bytes after tail in
      let next : drop (ptr + length bytes) layout.payload ≡ after ++ tail =
        drop-add ptr (length bytes) layout.payload
        ∙ ap (drop (length bytes)) split
        ∙ drop_front (length bytes) bytes (after ++ tail) refl in
      let read =
        decode-encode_record layout ptr shared previous_key entry (after ++ tail) low (omega arith)
          fits.0 (shared_size-IsShared i previous_key entry) split in
      let going : ltb ptr layout.records_end ≡ true = ground arith in
      let ih =
        scan_records-find_visible layout n (i + 1) (ptr + length bytes) entry.key rest tail
          (omega arith) fits.1 plain.1 sorted.1 (omega arith) (omega arith) next in
      elim (Bool-cases (is_visible key read_sequence entry)) [
        | inl seen ↦ rw (scan_records, going, read, seen, match-stored entry)
        | inr unseen ↦ elim (Bool-cases (bytes_ltb key entry.key)) [
          | inl past ↦
              let nothing =
                find_visible-past key read_sequence clean small entry rest plain.0 plain.1 past
                  sorted.0 in
              rw (scan_records, going, read, unseen, past, nothing)
          | inr before ↦ rw (scan_records, going, read, unseen, before, ih)
        ]
      ]

  -- The entries before a restart that is not above the target are passed over.
  find_visible-drop :
      (n : ℕ) (entries : List VersionedEntry)
      → All IsPlain entries
      → IsSorted entries
      → 0 < length (drop n entries)
      → bytes_ltb (encode_internal_key key read_sequence) (first_key (drop n entries)) ≡ false
      → find_visible key read_sequence (drop n entries) ≡ find_visible key read_sequence entries
  find_visible-drop n entries plain sorted more low =
      sym (
        find_visible-skip key read_sequence clean small (take n entries) (drop n entries)
          (All-take IsPlain n entries plain)
          (All-map (take n entries)
            (λ entry below.
              below_not_above (internal_key entry) (first_key (drop n entries))
                (encode_internal_key key read_sequence) below low)
            (take-below n entries sorted more)))
      ∙ ap (find_visible key read_sequence) (take-append-drop n entries)

  module _ (entries : List VersionedEntry) (b : IsBlock entries) (plain : All IsPlain entries)
      (sorted : IsSorted entries) where
    -- The scan from the restart with an index finds what the walk from its first entry finds.
    scan_from_restart :
        (j : ℕ)
        → j < length (restart_offsets 0 [] 16 entries)
        → scan_records
            (layout_of entries)
            key
            read_sequence
            (16 + length (encode_records 0 [] entries))
            (restart_offset (layout_of entries) j)
            []
          ≡ ok (find_visible key read_sequence (drop (16 * j) entries))
    scan_from_restart j inside =
        let p = restart_offset-IsRestart entries b j inside in
        let at_least = record-encode_records-le 0 [] entries in
        let fewer = length-drop (16 * j) entries in
        scan_records-find_visible (layout_of entries) (16 + length (encode_records 0 [] entries))
          (16 * j) (restart_offset (layout_of entries) j) [] (drop (16 * j) entries) _ (omega arith)
          (All-drop FitsEntry (16 * j) entries b.fits) (All-drop IsPlain (16 * j) entries plain)
          (IsSorted-drop (16 * j) entries sorted) p.starts p.ends p.here

    found_from :
        (left : ℕ)
        → IsFound entries b (encode_internal_key key read_sequence) left
        → scan_records
            (layout_of entries)
            key
            read_sequence
            (16 + length (encode_records 0 [] entries))
            (restart_offset (layout_of entries) (if left == 0 then 0 else left - 1))
            []
          ≡ ok (find_visible key read_sequence entries)
    found_from zero found =
        let restarts = length-restart_offsets 0 [] 16 entries in
        let filled = b.filled in scan_from_restart 0 (omega arith)
    found_from (suc j) found =
        let at_most = found.at_most in
        let one : (if suc j == 0 then 0 else suc j - 1) ≡ j = ground arith in
        let more = (restart_offset-IsRestart entries b j (omega arith)).more in
        ap
          (λ n.
            scan_records (layout_of entries) key read_sequence
              (16 + length (encode_records 0 [] entries)) (restart_offset (layout_of entries) n) [])
          one
        ∙ scan_from_restart j (omega arith)
        ∙ ap ok (find_visible-drop (16 * j) entries plain sorted more (found.not_above j refl))

    get_from_layout-find_visible :
        get_from_layout (layout_of entries) key read_sequence
        ≡ ok (find_visible key read_sequence entries)
    unfolding get_from_layout
    get_from_layout-find_visible =
        let (left, searched, found) =
          search_restarts-IsFound entries b (encode_internal_key key read_sequence)
            (length (restart_offsets 0 [] 16 entries)) 0 (length (restart_offsets 0 [] 16 entries))
            (omega arith) (omega arith) (omega arith)
            (record { at_most = omega arith; not_above = λ j h. absurd (omega arith) }) in
        rw searched (found_from left found)

-- A lookup in an encoded block of sorted entries, whose keys hold no NUL, finds the version that a
-- walk over all its entries finds first: the binary search over the restarts skips nothing that is
-- visible, and the scan ends in time.
pub get_from_block-find_visible :
    (entries : List VersionedEntry) (key : Bytes) (read_sequence : ℕ)
    → IsBlock entries
    → All IsPlain entries
    → IsSorted entries
    → HasNoNul key
    → IsU64 read_sequence
    → get_from_block (encode_block entries) key read_sequence
      ≡ ok (find_visible key read_sequence entries)
unfolding get_from_block
get_from_block-find_visible entries key read_sequence b plain sorted clean small = rw (
  decode_block_payload_ok entries b,
  parse_prefix_block_layout_ok entries b,
  get_from_layout-find_visible key read_sequence clean small entries b plain sorted,
)
