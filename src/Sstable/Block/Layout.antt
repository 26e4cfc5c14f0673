-- ===== src/Sstable/Block/Layout.antt =====
-- The layout of a block that EncodeBlock of src/sstable.cpp wrote is accepted by
-- ParsePrefixBlockLayout.
use kv_mem.Prelude.{
  ℕ, ◌+◌, ◌-◌, ◌*◌, ◌/◌, ◌%◌, ◌^◌, ◌<◌, ◌≤◌, ◌≡◌, ◌≢◌, ==_iff, refl, ap, ◌∙◌, true, false, not,
  Bool-cases, inl, inr, List, [], ◌∷◌, ◌++◌, append_assoc, length, length-append, drop-add, drop,
  drop_front, ◌||◌, ◌&&◌, ltb, leb, ◌==◌, arith,
}
use kv_mem.Bytes.{Bytes, IsU32}
use kv_mem.Types.{VersionedEntry}
use kv_mem.Status.{ok}
use kv_mem.Format.Fixed.{encode_fixed32, decode_fixed32}
use kv_mem.Format.Fixed.RoundTrip.{decode-encode_fixed32, length-encode_fixed32}
use kv_mem.Sstable.Block.{
  shared_size, encode_record, encode_records, restart_offsets, encode_offsets,
}
use kv_mem.Sstable.Block.Decode.{check_restarts}
use kv_mem.Sstable.Block.Record.{length-encode_record}

pub length-encode_offsets :
    (offsets : List ℕ) → length (encode_offsets offsets) ≡ length offsets * 4
unfolding encode_offsets encode_fixed32
length-encode_offsets [] = refl
length-encode_offsets (offset ∷ rest) = omega (arith, length-encode_offsets rest)

pub ==→≡ : (a b : ℕ) → (a == b) ≡ true → a ≡ b
==→≡ a b h = (==_iff a b).0 h

pub ==→≢ : (a b : ℕ) → (a == b) ≡ false → a ≢ b
==→≢ a b h e = ground arith

-- A restart shares nothing.
pub shared_size_restart :
    (i : ℕ) (previous_key : Bytes) (entry : VersionedEntry)
    → (i % 16 == 0) ≡ true
    → shared_size i previous_key entry ≡ 0
unfolding shared_size
shared_size_restart i previous_key entry restart = rw restart

encode_record_restart :
    (entry : VersionedEntry) (rest : Bytes) → decode_fixed32 (encode_record 0 entry ++ rest) ≡ 0
unfolding encode_record
encode_record_restart entry rest =
    ap decode_fixed32 (append_assoc (encode_fixed32 0) _ rest)
    ∙ decode-encode_fixed32 0 _ (omega arith)

-- A restart at each sixteenth entry.
pub length-restart_offsets :
    (i : ℕ) (previous_key : Bytes) (size : ℕ) (entries : List VersionedEntry)
    → length (restart_offsets i previous_key size entries) + (i + 15) / 16
      ≡ (i + length entries + 15) / 16
unfolding restart_offsets
length-restart_offsets i previous_key size [] = omega arith
length-restart_offsets i previous_key size (entry ∷ rest) =
    let more =
      length-restart_offsets (i + 1) entry.key
        (size + length (encode_record (shared_size i previous_key entry) entry)) rest in
    elim (Bool-cases (i % 16 == 0)) [
      | inl restart ↦ simp restart (let r = ==→≡ (i % 16) 0 restart in omega arith)
      | inr inner ↦ simp inner (let r = ==→≢ (i % 16) 0 inner in omega arith)
    ]

pub record-encode_records-le :
    (i : ℕ) (previous_key : Bytes) (entries : List VersionedEntry)
    → length entries * 21 ≤ length (encode_records i previous_key entries)
unfolding encode_records
record-encode_records-le i previous_key [] = omega arith
record-encode_records-le i previous_key (entry ∷ rest) =
    let shared = shared_size i previous_key entry in
    omega (
      arith,
      length-append (encode_record shared entry) (encode_records (i + 1) entry.key rest),
      length-encode_record shared entry,
      record-encode_records-le (i + 1) entry.key rest,
    )

module _ (payload : Bytes) (records_end : ℕ) where
  -- What ParsePrefixBlockLayout asks of the offsets from the one with index `j` on.
  unfoldable pub Valid : ℕ → ℕ → List ℕ → Type 0
  Valid j previous [] = Unit {0}
  Valid j previous (offset ∷ rest) =
      (16 ≤ offset)
      × (offset + 21 ≤ records_end)
      × IsU32 offset
      × (j ≡ 0 → offset ≡ 16)
      × (0 < j → previous < offset)
      × (decode_fixed32 (drop offset payload) ≡ 0)
      × Valid (j + 1) offset rest

  pub check_restarts-Valid :
      (j previous : ℕ) (offsets : List ℕ) (tail : Bytes)
      → drop (records_end + j * 4) payload ≡ encode_offsets offsets ++ tail
      → Valid j previous offsets
      → check_restarts payload records_end (length offsets) j previous ≡ ok tt
  unfolding check_restarts encode_offsets Valid
  check_restarts-Valid j previous [] tail here v = refl
  check_restarts-Valid j previous (offset ∷ rest) tail here
        (low, high, small, first, later, zero_shared, more) =
      let read : decode_fixed32 (drop (records_end + j * 4) payload) ≡ offset =
        ap decode_fixed32 (here ∙ append_assoc (encode_fixed32 offset) (encode_offsets rest) tail)
        ∙ decode-encode_fixed32 offset (encode_offsets rest ++ tail) small in
      let next : drop (records_end + (j + 1) * 4) payload ≡ encode_offsets rest ++ tail =
        ap (λ n. drop n payload) (omega arith)
        ∙ drop-add (records_end + j * 4) 4 payload
        ∙ ap (drop 4) (here ∙ append_assoc (encode_fixed32 offset) (encode_offsets rest) tail)
        ∙ drop_front 4 (encode_fixed32 offset) (encode_offsets rest ++ tail)
            (length-encode_fixed32 offset) in
      let good : (ltb offset 16
            || (ltb (records_end - 16 - 21) (offset - 16)
                || ((j == 0 && not (offset == 16))
                    || ((ltb 0 j && leb offset previous)
                        || not (decode_fixed32 (drop offset payload) == 0)))))
          ≡ false =
        ground arith in
      rw (read, good) (check_restarts-Valid (j + 1) offset rest tail next more)

  pub restart_offsets-Valid :
      (j previous i : ℕ) (previous_key : Bytes) (size : ℕ) (entries : List VersionedEntry)
      (tail : Bytes)
      → 16 ≤ size
      → records_end < 2 ^ 32
      → size + length (encode_records i previous_key entries) ≤ records_end
      → drop size payload ≡ encode_records i previous_key entries ++ tail
      → (0 < j → previous < size)
      → (j ≡ 0 → (size ≡ 16) × (i % 16 ≡ 0))
      → Valid j previous (restart_offsets i previous_key size entries)
  unfolding restart_offsets encode_records Valid
  restart_offsets-Valid j previous i previous_key size [] tail low small room here later first = tt
  restart_offsets-Valid j previous i previous_key size (entry ∷ rest) tail low small room here later
        first =
      let shared = shared_size i previous_key entry in
      let bytes = encode_record shared entry in
      let after = encode_records (i + 1) entry.key rest in
      let size_record = length-encode_record shared entry in
      let size_both = length-append bytes after in
      let split = here ∙ append_assoc bytes after tail in
      let next : drop (size + length bytes) payload ≡ after ++ tail =
        drop-add size (length bytes) payload
        ∙ ap (drop (length bytes)) split
        ∙ drop_front (length bytes) bytes (after ++ tail) refl in
      elim (Bool-cases (i % 16 == 0)) [
        | inl restart ↦
            let whole : size % 2 ^ 32 ≡ size = omega arith in
            let ih =
              restart_offsets-Valid (j + 1) size (i + 1) entry.key (size + length bytes) rest tail
                (omega arith) small (omega arith) next (λ h. omega arith)
                (λ h. absurd (omega arith)) in
            simp (restart, whole)
              (
                low,
                omega arith,
                omega arith,
                (λ h. (first h).0),
                later,
                (ap decode_fixed32 split
                    ∙ ap (λ n. decode_fixed32 (encode_record n entry ++ (after ++ tail)))
                        (shared_size_restart i previous_key entry restart)
                    ∙ encode_record_restart entry (after ++ tail)),
                ih,
              )
        | inr inner ↦ simp inner (
            restart_offsets-Valid j previous (i + 1) entry.key (size + length bytes) rest tail
              (omega arith) small (omega arith) next (λ h. omega (arith, later h))
              (λ h. absurd (==→≢ (i % 16) 0 inner (first h).1)))
      ]
