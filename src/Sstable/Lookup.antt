-- ===== src/Sstable/Lookup.antt =====
-- SSTable::GetFromBlock of src/sstable.cpp, from the block's bytes on.
pub mod Sorted
pub mod Restarts
pub mod Search
pub mod Correct
use kv_mem.Prelude.{
  ℕ, zero, suc, ◌+◌, ◌-◌, ◌/◌, Bool, true, false, not, ◌&&◌, Option, none, some, List, [], ◌∷◌, ltb,
  leb, ◌==◌, if◌then◌else◌,
}
use kv_mem.Bytes.{Bytes, bytes_ltb, bytes_eq}
use kv_mem.Types.{VersionedEntry}
use kv_mem.Status.{Result, ok, ◌>>=◌}
use kv_mem.Format.InternalKey.{encode_internal_key}
use kv_mem.Sstable.Block.Decode.{
  PrefixBlockLayout, parse_prefix_block_layout, decode_block_payload, decode_prefix_record_at,
  restart_key, restart_offset,
}

-- What a lookup finds: the sequence, and the value unless it is a deletion.
pub record Match : Type 0 where
  pub matched_sequence : ℕ
  pub value : Option Bytes

abbrev pub match_of : VersionedEntry → Match
match_of entry = record {
  matched_sequence = entry.sequence;
  value = if entry.deleted then none else some entry.value;
}

-- while (left < right); a round leaves fewer restarts between them.
unfoldable pub search_restarts : PrefixBlockLayout → Bytes → ℕ → ℕ → ℕ → Result ℕ
search_restarts layout target zero left right = ok left
search_restarts layout target (suc n) left right =
    let mid = left + (right - left) / 2 in
    elim (ltb left right) [
      | false ↦ ok left
      | true ↦ restart_key layout mid >>= λ key.
          let below = not (bytes_ltb target key) in
          search_restarts layout target n (if below then mid + 1 else left)
            (if below then right else mid)
    ]

-- entry.key == key && entry.sequence <= read_sequence
abbrev pub is_visible : Bytes → ℕ → VersionedEntry → Bool
is_visible key read_sequence entry = bytes_eq entry.key key && leb entry.sequence read_sequence

-- while (ptr < layout.records_end); a round moves the pointer on.
unfoldable pub scan_records : PrefixBlockLayout → Bytes → ℕ → ℕ → ℕ → Bytes → Result (Option Match)
scan_records layout key read_sequence zero ptr previous_key = ok none
scan_records layout key read_sequence (suc n) ptr previous_key = elim (ltb ptr layout.records_end) [
  | false ↦ ok none
  | true ↦ decode_prefix_record_at layout ptr previous_key >>= λ (entry, next).
      let rest = scan_records layout key read_sequence n next entry.key in
      if is_visible key read_sequence entry
      then ok (some (match_of entry))
      else if bytes_ltb key entry.key
      then ok none
      else rest
]

unfoldable pub get_from_layout : PrefixBlockLayout → Bytes → ℕ → Result (Option Match)
get_from_layout layout key read_sequence = do
  left ←
      search_restarts layout (encode_internal_key key read_sequence) layout.restart_count 0
        layout.restart_count
  let restart_index = if left == 0 then 0 else left - 1
  scan_records layout key read_sequence layout.records_end (restart_offset layout restart_index) []

unfoldable pub get_from_block : Bytes → Bytes → ℕ → Result (Option Match)
get_from_block block_data key read_sequence = do
  payload ← decode_block_payload block_data
  layout ← parse_prefix_block_layout payload
  get_from_layout layout key read_sequence
