-- ===== src/Sstable/Lookup/Search.antt =====
-- The binary search of SSTable::GetFromBlock of src/sstable.cpp over the restarts of a block that
-- EncodeBlock wrote.
use kv_mem.Prelude.{
  ℕ, zero, suc, ◌+◌, ◌-◌, ◌*◌, ◌/◌, ◌%◌, ◌^◌, ◌<◌, ◌≤◌, ◌≡◌, refl, ap, sym, ◌∙◌, subst, true, false,
  Bool-cases, inl, inr, List, [], ◌∷◌, ◌++◌, append_assoc, length, length-append, drop-add, All,
  All-drop, drop, get_or, ltb, leb, ◌==◌, arith,
}
use kv_mem.Bytes.{Bytes, IsU32, bytes_ltb}
use kv_mem.Types.{VersionedEntry}
use kv_mem.Status.{ok}
use kv_mem.Format.Fixed.{encode_fixed32, decode_fixed32}
use kv_mem.Format.Fixed.RoundTrip.{decode-encode_fixed32}
use kv_mem.Sstable.Block.{
  shared_size, encode_record, encode_records, restart_offsets, encode_offsets, encode_payload,
}
use kv_mem.Sstable.Block.Decode.{PrefixBlockLayout, restart_offset, restart_key}
use kv_mem.Sstable.Block.Record.{FitsEntry, decode-encode_record}
use kv_mem.Sstable.Block.Layout.{shared_size_restart}
use kv_mem.Sstable.Block.RoundTrip.{
  layout_of, IsBlock, drop-payload, drop-payload_offsets, length-payload,
}
use kv_mem.Sstable.Lookup.{search_restarts}
use kv_mem.Sstable.Lookup.Sorted.{internal_key}
use kv_mem.Sstable.Lookup.Restarts.{restart_point}

restart_offsets-IsU32 :
    (i : ℕ) (previous_key : Bytes) (size : ℕ) (entries : List VersionedEntry)
    → All IsU32 (restart_offsets i previous_key size entries)
unfolding restart_offsets
restart_offsets-IsU32 i previous_key size [] = tt
restart_offsets-IsU32 i previous_key size (entry ∷ rest) =
    let more =
      restart_offsets-IsU32 (i + 1) entry.key
        (size + length (encode_record (shared_size i previous_key entry) entry)) rest in
    elim (Bool-cases (i % 16 == 0)) [
      | inl restart ↦ simp restart (omega arith, more)
      | inr inner ↦ simp inner more
    ]

-- An offset is read back by its index.
decode-encode_offsets :
    (offsets : List ℕ) (tail : Bytes) (j : ℕ)
    → All IsU32 offsets
    → j < length offsets
    → decode_fixed32 (drop (j * 4) (encode_offsets offsets ++ tail)) ≡ get_or offsets j 0
unfolding encode_offsets encode_fixed32
decode-encode_offsets [] tail j small inside = absurd (omega arith)
decode-encode_offsets (offset ∷ rest) tail zero small inside =
    ap decode_fixed32 (append_assoc (encode_fixed32 offset) (encode_offsets rest) tail)
    ∙ decode-encode_fixed32 offset (encode_offsets rest ++ tail) small.0
decode-encode_offsets (offset ∷ rest) tail (suc j) small inside =
    let four : suc j * 4 ≡ 4 + j * 4 = omega arith in
    ap (λ n. decode_fixed32 (drop n (encode_offsets (offset ∷ rest) ++ tail))) four
    ∙ ap (λ xs. decode_fixed32 (drop (4 + j * 4) xs))
        (append_assoc (encode_fixed32 offset) (encode_offsets rest) tail)
    ∙ ap decode_fixed32
        (drop-add 4 (j * 4) (encode_fixed32 offset ++ (encode_offsets rest ++ tail)))
    ∙ decode-encode_offsets rest tail j small.1 (omega arith)

-- The internal key that a list of entries begins with.
abbrev pub first_key : List VersionedEntry → Bytes
first_key [] = []
first_key (entry ∷ rest) = internal_key entry

-- The prefix of a restart's record is empty, whatever key was before it.
restart_records :
    (i : ℕ) (previous_key : Bytes) (entries : List VersionedEntry)
    → (i % 16 == 0) ≡ true
    → encode_records i previous_key entries ≡ encode_records i [] entries
unfolding encode_records
restart_records i previous_key [] restart = refl
restart_records i previous_key (entry ∷ rest) restart =
    rw (shared_size_restart i previous_key entry restart, shared_size_restart i [] entry restart)

-- RestartKey on the records at a restart.
restart_key-records :
    (layout : PrefixBlockLayout) (j i : ℕ) (entries : List VersionedEntry) (tail : Bytes)
    → j < layout.restart_count
    → 16 ≤ restart_offset layout j
    → restart_offset layout j + length (encode_records i [] entries) ≤ layout.records_end
    → All FitsEntry entries
    → (i % 16 == 0) ≡ true
    → 0 < length entries
    → drop (restart_offset layout j) layout.payload ≡ encode_records i [] entries ++ tail
    → restart_key layout j ≡ ok (first_key entries)
unfolding restart_key encode_records
restart_key-records layout j i [] tail inside low room fits restart filled here =
    absurd (omega arith)
restart_key-records layout j i (entry ∷ rest) tail inside low room fits restart filled here =
    let none_shared = shared_size_restart i [] entry restart in
    let bytes = encode_record 0 entry in
    let after = encode_records (i + 1) entry.key rest in
    let both = length-append bytes after in
    let room' : restart_offset layout j + length (bytes ++ after) ≤ layout.records_end =
      subst
        (λ n.
          restart_offset layout j + length (encode_record n entry ++ after) ≤ layout.records_end)
        none_shared room in
    let here' : drop (restart_offset layout j) layout.payload ≡ bytes ++ (after ++ tail) =
      here
      ∙ ap (λ n. (encode_record n entry ++ after) ++ tail) none_shared
      ∙ append_assoc bytes after tail in
    let within : leb layout.restart_count j ≡ false = ground arith in
    rw (
      within,
      decode-encode_record layout (restart_offset layout j) 0 [] entry (after ++ tail) low
          (omega arith) fits.0
          (record { in_previous = omega arith; in_key = omega arith; same = refl }) here',
    )

-- One round of the search.
module _ (layout : PrefixBlockLayout) (target key : Bytes) (n left right : ℕ)
    (going : ltb left right ≡ true)
    (read : restart_key layout (left + (right - left) / 2) ≡ ok key) where
  abbrev mid : ℕ
  mid = left + (right - left) / 2

  round_above :
      bytes_ltb target key ≡ true
      → search_restarts layout target (suc n) left right ≡ search_restarts layout target n left mid
  unfolding search_restarts
  round_above above = rw (search_restarts, going, read, above) refl

  round_not_above :
      bytes_ltb target key ≡ false
      → search_restarts layout target (suc n) left right
        ≡ search_restarts layout target n (mid + 1) right
  unfolding search_restarts
  round_not_above low = rw (search_restarts, going, read, low) refl

module _ (entries : List VersionedEntry) (b : IsBlock entries) where
  abbrev restarts : ℕ
  restarts = length (restart_offsets 0 [] 16 entries)

  abbrev tail : Bytes
  tail = encode_offsets (restart_offsets 0 [] 16 entries) ++ encode_fixed32 (restarts % 2 ^ 32)

  abbrev key_at : ℕ → Bytes
  key_at j = first_key (drop (16 * j) entries)

  offset_at :
      (j : ℕ)
      → j < restarts
      → restart_offset (layout_of entries) j ≡ get_or (restart_offsets 0 [] 16 entries) j 0
  offset_at j inside =
      ap decode_fixed32 (
        drop-add (16 + length (encode_records 0 [] entries)) (j * 4) (encode_payload entries)
        ∙ ap (drop (j * 4)) (drop-payload_offsets entries b))
      ∙ decode-encode_offsets (restart_offsets 0 [] 16 entries) (encode_fixed32 (restarts % 2 ^ 32))
          j (restart_offsets-IsU32 0 [] 16 entries) inside

  -- What stands at the offset with an index: the entries from sixteen times the index on.
  pub record IsRestart (j offset : ℕ) : Type 0 where
    pub more : 0 < length (drop (16 * j) entries)
    pub here :
        drop offset (encode_payload entries)
        ≡ encode_records (16 * j) [] (drop (16 * j) entries) ++ tail
    pub ends :
        offset + length (encode_records (16 * j) [] (drop (16 * j) entries))
        ≡ 16 + length (encode_records 0 [] entries)
    pub starts : 16 ≤ offset

  pub restart_offset-IsRestart :
      (j : ℕ) → j < restarts → IsRestart j (restart_offset (layout_of entries) j)
  restart_offset-IsRestart j inside =
      let size = length-payload entries b in
      let small = b.small in
      let p =
        restart_point (encode_payload entries) 0 [] 16 entries tail j (drop-payload entries b)
          (omega arith) (omega arith) inside in
      let sixteenth = p.sixteenth in
      let skipped : p.skipped ≡ 16 * j = omega arith in
      let same =
        restart_records (0 + p.skipped) p.previous_key (drop p.skipped entries) (ground arith) in
      let moved =
        same
        ∙ ap (λ n. encode_records n [] (drop p.skipped entries))
            (let z : 0 + p.skipped ≡ p.skipped = omega arith in z)
        ∙ ap (λ n. encode_records n [] (drop n entries)) skipped in
      subst (IsRestart j) (sym (offset_at j inside)) (record {
        more = subst (λ n. 0 < length (drop n entries)) skipped p.more;
        here = p.here ∙ ap (λ xs. xs ++ tail) moved;
        ends =
            ap (λ xs. get_or (restart_offsets 0 [] 16 entries) j 0 + length xs) (sym moved)
            ∙ p.ends;
        starts = p.starts;
      })

  restart_key-key_at : (j : ℕ) → j < restarts → restart_key (layout_of entries) j ≡ ok (key_at j)
  restart_key-key_at j inside =
      let p = restart_offset-IsRestart j inside in
      let ends = p.ends in
      let at_restart : (16 * j % 16 == 0) ≡ true = ground arith in
      restart_key-records (layout_of entries) j (16 * j) (drop (16 * j) entries) tail inside
        p.starts (omega arith) (All-drop FitsEntry (16 * j) entries b.fits) at_restart p.more p.here

  -- The search ends at a restart whose predecessor is not above the target.
  pub record IsFound (target : Bytes) (restart : ℕ) : Type 0 where
    pub at_most : restart ≤ restarts
    pub not_above : (j : ℕ) → restart ≡ suc j → bytes_ltb target (key_at j) ≡ false

  pub search_restarts-IsFound :
      (target : Bytes) (fuel left right : ℕ)
      → right - left ≤ fuel
      → left ≤ right
      → right ≤ restarts
      → IsFound target left
      → (restart : ℕ) × (search_restarts (layout_of entries) target fuel left right ≡ ok restart)
        × IsFound target restart
  unfolding search_restarts
  search_restarts-IsFound target zero left right enough ordered inside found = (left, refl, found)
  search_restarts-IsFound target (suc n) left right enough ordered inside found =
      elim (Bool-cases (ltb left right)) [
        | inr done ↦ (left, rw (search_restarts, done), found)
        | inl going ↦
            let less : left < right = ground arith in
            let mid = left + (right - left) / 2 in
            let key = restart_key-key_at mid (omega arith) in
            elim (Bool-cases (bytes_ltb target (key_at mid))) [
              | inl above ↦
                  let (restart, e, f) =
                    search_restarts-IsFound target n left mid (omega arith) (omega arith)
                      (omega arith) found in
                  (
                    restart,
                    round_above (layout_of entries) target (key_at mid) n left right going key above
                        ∙ e,
                    f,
                  )
              | inr low ↦
                  let (restart, e, f) =
                    search_restarts-IsFound target n (mid + 1) right (omega arith) (omega arith)
                      inside
                      (record {
                        at_most = omega arith;
                        not_above = λ j h.
                            ap (λ k. bytes_ltb target (key_at k))
                              (let m : j ≡ mid = omega arith in m)
                            ∙ low;
                      }) in
                  (
                    restart,
                    round_not_above (layout_of entries) target (key_at mid) n left right going key
                          low
                        ∙ e,
                    f,
                  )
            ]
      ]
