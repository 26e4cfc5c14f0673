-- ===== src/Sstable/Block/Record.antt =====
-- One record of a block of src/sstable.cpp is decoded to what was encoded.
use kv_mem.Prelude.{
  ℕ, ◌+◌, ◌-◌, ◌%◌, ◌^◌, ◌≤◌, ◌≡◌, refl, ◌∙◌, Bool, true, false, Bool-cases, inl, inr, [], ◌∷◌,
  ◌++◌, append_assoc, length, length-append, length-drop, take, drop, take_front, drop_front,
  take-append-drop, get_or, ◌||◌, ltb, ◌==◌, if◌then◌else◌, arith,
}
use kv_mem.Bytes.{Bytes, IsU32, IsU64}
use kv_mem.Types.{VersionedEntry}
use kv_mem.Status.{ok}
use kv_mem.Format.Fixed.{encode_fixed32, decode_fixed32, encode_fixed64, decode_fixed64}
use kv_mem.Format.Fixed.RoundTrip.{decode-encode_fixed32, decode-encode_fixed64}
use kv_mem.Sstable.Block.{value_type, shared_prefix, shared_size, encode_record}
use kv_mem.Sstable.Block.Decode.{PrefixBlockLayout, typed_entry, decode_prefix_record_at}

-- A record on the wire.
abbrev record_wire : ℕ → ℕ → ℕ → ℕ → ℕ → Bytes → Bytes
record_wire shared unshared value_size type sequence payload =
    encode_fixed32 shared
    ++ (encode_fixed32 unshared
        ++ (encode_fixed32 value_size ++ (type ∷ (encode_fixed64 sequence ++ payload))))

module _ (a b c t s : ℕ) (payload : Bytes) where
  unshared-wire : IsU32 b → decode_fixed32 (drop 4 (record_wire a b c t s payload)) ≡ b
  unfolding encode_fixed32
  unshared-wire h =
      decode-encode_fixed32 b (encode_fixed32 c ++ (t ∷ (encode_fixed64 s ++ payload))) h

  value_size-wire : IsU32 c → decode_fixed32 (drop 8 (record_wire a b c t s payload)) ≡ c
  unfolding encode_fixed32
  value_size-wire h = decode-encode_fixed32 c (t ∷ (encode_fixed64 s ++ payload)) h

  type-wire : get_or (record_wire a b c t s payload) 12 0 ≡ t
  unfolding encode_fixed32
  type-wire = refl

  sequence-wire : IsU64 s → decode_fixed64 (drop 13 (record_wire a b c t s payload)) ≡ s
  unfolding encode_fixed32
  sequence-wire h = decode-encode_fixed64 s payload h

  payload-wire : drop 21 (record_wire a b c t s payload) ≡ payload
  unfolding encode_fixed32 encode_fixed64
  payload-wire = refl

-- The common prefix is in both keys.
pub shared_prefix-take :
    (xs ys : Bytes) → take (shared_prefix xs ys) xs ≡ take (shared_prefix xs ys) ys
unfolding shared_prefix
shared_prefix-take [] ys = refl
shared_prefix-take (x ∷ xs) [] = refl
shared_prefix-take (x ∷ xs) (y ∷ ys) = ground (arith, shared_prefix-take xs ys)

shared_prefix-le :
    (xs ys : Bytes) → (shared_prefix xs ys ≤ length xs) × (shared_prefix xs ys ≤ length ys)
unfolding shared_prefix
shared_prefix-le [] ys = omega arith
shared_prefix-le (x ∷ xs) [] = omega arith
shared_prefix-le (x ∷ xs) (y ∷ ys) = ground (arith, shared_prefix-le xs ys)

-- A prefix that may be left out of a key.
pub record IsShared (shared : ℕ) (previous_key key : Bytes) : Type 0 where
  pub in_previous : shared ≤ length previous_key
  pub in_key : shared ≤ length key
  pub same : take shared previous_key ≡ take shared key

pub shared_size-IsShared :
    (i : ℕ) (previous_key : Bytes) (entry : VersionedEntry)
    → IsShared (shared_size i previous_key entry) previous_key entry.key
unfolding shared_size
shared_size-IsShared i previous_key entry = elim (Bool-cases (i % 16 == 0)) [
  | inl restart ↦
      rw restart (record { in_previous = omega arith; in_key = omega arith; same = refl })
  | inr inner ↦ rw inner (record {
    in_previous = (shared_prefix-le previous_key entry.key).0;
    in_key = (shared_prefix-le previous_key entry.key).1;
    same = shared_prefix-take previous_key entry.key;
  })
]

-- The sizes and the sequence fit their fields.
pub record FitsEntry (entry : VersionedEntry) : Type 0 where
  pub key : IsU32 (length entry.key)
  pub value : IsU32 (length entry.value)
  pub sequence : IsU64 entry.sequence

-- What a reader makes of an entry: a deletion has no value.
abbrev pub stored : VersionedEntry → VersionedEntry
stored entry = record entry { value = if entry.deleted then [] else entry.value }

typed_entry-value_type :
    (key : Bytes) (sequence : ℕ) (value : Bytes) (deleted : Bool)
    → typed_entry (value_type deleted) key sequence value
      ≡ ok (stored (record { key = key; sequence = sequence; value = value; deleted = deleted }))
unfolding typed_entry
typed_entry-value_type key sequence value true = refl
typed_entry-value_type key sequence value false = refl

pub length-encode_record :
    (shared : ℕ) (entry : VersionedEntry)
    → length (encode_record shared entry) ≡ 21 + (length entry.key - shared) + length entry.value
unfolding encode_record encode_fixed32 encode_fixed64
length-encode_record shared entry =
    omega (arith, length-append (drop shared entry.key) entry.value, length-drop shared entry.key)

module _ (layout : PrefixBlockLayout) (ptr shared : ℕ) (previous_key : Bytes)
    (entry : VersionedEntry) (rest : Bytes) (begins : 16 ≤ ptr)
    (room : ptr + length (encode_record shared entry) ≤ layout.records_end) (fits : FitsEntry entry)
    (prefix : IsShared shared previous_key entry.key)
    (here : drop ptr layout.payload ≡ encode_record shared entry ++ rest) where
  abbrev unshared : Bytes
  unshared = drop shared entry.key

  abbrev wired : Bytes
  wired =
      record_wire shared (length unshared) (length entry.value) (value_type entry.deleted)
        entry.sequence (unshared ++ (entry.value ++ rest))

  encode_record-wired : drop ptr layout.payload ≡ wired
  unfolding encode_record encode_fixed32 encode_fixed64
  encode_record-wired =
      let key_fits = fits.key in
      let value_fits = fits.value in
      let in_key = prefix.in_key in
      let len = length-drop shared entry.key in
      let e1 : shared % 2 ^ 32 ≡ shared = omega arith in
      let e2 : length (drop shared entry.key) % 2 ^ 32 ≡ length (drop shared entry.key) =
        omega arith in
      let e3 : length entry.value % 2 ^ 32 ≡ length entry.value = omega arith in
      here
      ∙ rw (
        e1,
        e2,
        e3,
        append_assoc (encode_fixed64 entry.sequence) (drop shared entry.key ++ entry.value) rest,
        append_assoc (drop shared entry.key) entry.value rest,
      )

  -- The record at the pointer is the entry, with a deletion's value dropped, and the next record
  -- follows it.
  pub decode-encode_record :
      decode_prefix_record_at layout ptr previous_key
      ≡ ok (stored entry, ptr + length (encode_record shared entry))
  unfolding decode_prefix_record_at
  decode-encode_record =
      let key_fits = fits.key in
      let value_fits = fits.value in
      let in_key = prefix.in_key in
      let in_previous = prefix.in_previous in
      let size = length-encode_record shared entry in
      let len = length-drop shared entry.key in
      let n = length unshared in
      let v = length entry.value in
      let t = value_type entry.deleted in
      let payload = unshared ++ (entry.value ++ rest) in
      let header : (ltb ptr 16 || (ltb layout.records_end ptr || ltb (layout.records_end - ptr) 21))
          ≡ false =
        ground arith in
      let enough : (ltb (length previous_key) shared
            || ltb (layout.records_end - (ptr + 21)) (n + v))
          ≡ false =
        ground arith in
      let end : ptr + 21 + n + v ≡ ptr + length (encode_record shared entry) = omega arith in
      rw (
        header,
        encode_record-wired,
        decode-encode_fixed32 shared
            (encode_fixed32 n
              ++ (encode_fixed32 v ++ (t ∷ (encode_fixed64 entry.sequence ++ payload))))
            (omega arith),
        unshared-wire shared n v t entry.sequence payload (omega arith),
        value_size-wire shared n v t entry.sequence payload value_fits,
        type-wire shared n v t entry.sequence payload,
        sequence-wire shared n v t entry.sequence payload fits.sequence,
        payload-wire shared n v t entry.sequence payload,
        enough,
        take_front n unshared (entry.value ++ rest) refl,
        drop_front n unshared (entry.value ++ rest) refl,
        take_front v entry.value rest refl,
        prefix.same,
        take-append-drop shared entry.key,
        typed_entry-value_type entry.key entry.sequence entry.value entry.deleted,
        end,
      )
