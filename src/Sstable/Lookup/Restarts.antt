-- ===== src/Sstable/Lookup/Restarts.antt =====
-- Where the restart offsets of an encoded block lead, and the keys that RestartKey of
-- src/sstable.cpp reads there.
use kv_mem.Prelude.{
  ℕ, zero, suc, ◌+◌, ◌*◌, ◌/◌, ◌%◌, ◌^◌, ◌<◌, ◌≤◌, ◌≡◌, refl, ap, sym, ◌∙◌, Bool-cases, inl, inr,
  List, [], ◌∷◌, ◌++◌, append_assoc, length, length-append, drop-add, drop, drop_front, get_or,
  ◌==◌, arith,
}
use kv_mem.Bytes.{Bytes}
use kv_mem.Types.{VersionedEntry}
use kv_mem.Sstable.Block.{shared_size, encode_record, encode_records, restart_offsets}
use kv_mem.Sstable.Block.Layout.{==→≡, ==→≢}

-- The offset with an index leads to the records of the entries from sixteen times the index on,
-- which are not all.
pub record RestartPoint (payload tail : Bytes) (end i offset j : ℕ) (entries : List VersionedEntry)
    : Type 0 where
  pub skipped : ℕ
  pub previous_key : Bytes
  pub sixteenth : i + skipped ≡ 16 * (j + (i + 15) / 16)
  pub more : 0 < length (drop skipped entries)
  pub here :
      drop offset payload ≡ encode_records (i + skipped) previous_key (drop skipped entries) ++ tail
  pub ends :
      offset + length (encode_records (i + skipped) previous_key (drop skipped entries)) ≡ end
  pub starts : 16 ≤ offset

-- The same offset, seen from one entry earlier.
earlier :
    (payload tail : Bytes) (offset : ℕ) (rest : List VersionedEntry) (end end' i j j' : ℕ)
    (entry : VersionedEntry)
    → end ≡ end'
    → j + (i + 1 + 15) / 16 ≡ j' + (i + 15) / 16
    → RestartPoint payload tail end (i + 1) offset j rest
    → RestartPoint payload tail end' i offset j' (entry ∷ rest)
earlier payload tail offset rest end end' i j j' entry e f p =
    let shift : i + 1 + p.skipped ≡ i + suc p.skipped = omega arith in
    let sixteenth = p.sixteenth in
    let left = drop p.skipped rest in
    record {
      skipped = suc p.skipped;
      previous_key = p.previous_key;
      sixteenth = omega arith;
      more = p.more;
      here = p.here ∙ ap (λ n. encode_records n p.previous_key left ++ tail) shift;
      ends =
          ap (λ n. offset + length (encode_records n p.previous_key left)) (sym shift) ∙ p.ends ∙ e;
      starts = p.starts;
    }

-- The first offset, or a later one.
first_or_later :
    (payload tail : Bytes) (end i size : ℕ) (offsets : List ℕ) (entries : List VersionedEntry)
    (j : ℕ)
    → j < suc (length offsets)
    → RestartPoint payload tail end i size 0 entries
    → ((k : ℕ)
        → k < length offsets
        → RestartPoint payload tail end i (get_or offsets k 0) (suc k) entries)
    → RestartPoint payload tail end i (get_or (size ∷ offsets) j 0) j entries
first_or_later payload tail end i size offsets entries zero h first later = first
first_or_later payload tail end i size offsets entries (suc k) h first later = later k (omega arith)

pub restart_point :
    (payload : Bytes) (i : ℕ) (previous_key : Bytes) (size : ℕ) (entries : List VersionedEntry)
    (tail : Bytes) (j : ℕ)
    → drop size payload ≡ encode_records i previous_key entries ++ tail
    → 16 ≤ size
    → size + length (encode_records i previous_key entries) < 2 ^ 32
    → j < length (restart_offsets i previous_key size entries)
    → RestartPoint payload tail
        (size + length (encode_records i previous_key entries))
        i
        (get_or (restart_offsets i previous_key size entries) j 0)
        j
        entries
unfolding restart_offsets encode_records
restart_point payload i previous_key size [] tail j here low small inside = absurd (omega arith)
restart_point payload i previous_key size (entry ∷ rest) tail j here low small inside =
    let bytes = encode_record (shared_size i previous_key entry) entry in
    let after = encode_records (i + 1) entry.key rest in
    let both = length-append bytes after in
    let next : drop (size + length bytes) payload ≡ after ++ tail =
      drop-add size (length bytes) payload
      ∙ ap (drop (length bytes)) (here ∙ append_assoc bytes after tail)
      ∙ drop_front (length bytes) bytes (after ++ tail) refl in
    let later : (k : ℕ)
        → k < length (restart_offsets (i + 1) entry.key (size + length bytes) rest)
        → _ =
      λ k h.
        restart_point payload (i + 1) entry.key (size + length bytes) rest tail k next (omega arith)
          (omega arith) h in
    let plain : i + 0 ≡ i = omega arith in
    let whole : size % 2 ^ 32 ≡ size = omega arith in
    elim (Bool-cases (i % 16 == 0)) [
      | inr inner ↦
          let r = ==→≢ (i % 16) 0 inner in
          simp inner (
            earlier payload tail _ rest (size + length bytes + length after)
              (size + length (bytes ++ after)) i j j entry (omega arith) (omega arith)
              (later j (simp inner at inside)))
      | inl restart ↦
          let r = ==→≡ (i % 16) 0 restart in
          simp (restart, whole)
            (first_or_later payload tail (size + length (bytes ++ after)) i size
              (restart_offsets (i + 1) entry.key (size + length bytes) rest) (entry ∷ rest) j
              (simp (restart, whole) at inside)
              (record {
                skipped = 0;
                previous_key = previous_key;
                sixteenth = omega arith;
                more = omega arith;
                here =
                    here
                    ∙ ap (λ n. encode_records n previous_key (entry ∷ rest) ++ tail) (sym plain);
                ends = ap (λ n. size + length (encode_records n previous_key (entry ∷ rest))) plain;
                starts = low;
              })
              (λ k h.
                earlier payload tail _ rest (size + length bytes + length after)
                  (size + length (bytes ++ after)) i k (suc k) entry (omega arith) (omega arith)
                  (later k h)))
    ]
