-- ===== src/Sstable/Block/Decode.antt =====
-- The readers of a block in src/sstable.cpp: DecodeBlockPayload, ParsePrefixBlockLayout,
-- DecodePrefixRecordAt, DecodePrefixCompressedPayload, RestartKey, SSTable::DecodeBlock. A pointer
-- into the payload is its distance from the payload's begin.
use kv_mem.Prelude.{
  ℕ, zero, suc, ◌+◌, ◌-◌, ◌*◌, ◌/◌, ◌%◌, true, false, not, ◌||◌, ◌&&◌, List, [], ◌∷◌, ◌++◌, length,
  take, drop, get_or, ltb, leb, ◌==◌, if◌then◌else◌,
}
use kv_mem.Bytes.{Bytes}
use kv_mem.Types.{VersionedEntry}
use kv_mem.Status.{Status, Result, ok, err, corruption, reject_if, ◌>>=◌, ◌>>◌}
use kv_mem.Format.Crc.{crc32}
use kv_mem.Format.Fixed.{decode_fixed32, decode_fixed64}
use kv_mem.Format.InternalKey.{encode_internal_key}
use kv_mem.Sstable.Block.{data_block_magic, block_trailer_size, no_compression}

unfoldable pub decode_block_payload : Bytes → Result Bytes
decode_block_payload block_data = do
  let size = length block_data
  reject_if
      (ltb size (block_trailer_size + 16) || not (decode_fixed32 block_data == data_block_magic))
      (corruption "invalid SSTable data block")
  reject_if (not (get_or block_data (size - block_trailer_size) 0 == no_compression))
      (corruption "unknown SSTable compression type")
  reject_if
      (not (crc32 (take (size - 4) block_data) == decode_fixed32 (drop (size - 4) block_data)))
      (corruption "SSTable data block checksum mismatch")
  ok (take (size - block_trailer_size) block_data)

-- PrefixBlockLayout: `records_begin` is 16, and `restart_base` is `records_end`.
pub record PrefixBlockLayout : Type 0 where
  pub payload : Bytes
  pub records_end : ℕ
  pub restart_count : ℕ
  pub record_count : ℕ

abbrev pub records_begin : ℕ
records_begin = 16

-- The loop over the restart offsets, with `n` rounds left from round `i` on.
unfoldable pub check_restarts : Bytes → ℕ → ℕ → ℕ → ℕ → Status
check_restarts payload records_end zero i previous_offset = ok tt
check_restarts payload records_end (suc n) i previous_offset =
    let offset = decode_fixed32 (drop (records_end + i * 4) payload) in
    let records_size = records_end - records_begin in
    reject_if
      (ltb offset 16
        || (ltb (records_size - 21) (offset - 16)
            || ((i == 0 && not (offset == 16))
                || ((ltb 0 i && leb offset previous_offset)
                    || not (decode_fixed32 (drop offset payload) == 0)))))
      (corruption "invalid prefix-compressed SSTable restart offset")
    >> check_restarts payload records_end n (i + 1) offset

-- record_count / restart_interval + (record_count % restart_interval != 0)
abbrev pub expected_restart_count : ℕ → ℕ → ℕ
expected_restart_count record_count restart_interval =
    record_count / restart_interval + (if record_count % restart_interval == 0 then 0 else 1)

unfoldable pub parse_prefix_block_layout : Bytes → Result PrefixBlockLayout
parse_prefix_block_layout payload = do
  let size = length payload
  reject_if (ltb size 20 || not (decode_fixed32 payload == data_block_magic))
      (corruption "invalid prefix-compressed SSTable block")
  let restart_interval = decode_fixed32 (drop 4 payload)
  let record_count = decode_fixed64 (drop 8 payload)
  reject_if (restart_interval == 0 || record_count == 0)
      (corruption "invalid prefix-compressed SSTable restart interval")
  let restart_count = decode_fixed32 (drop (size - 4) payload)
  let restart_bytes = restart_count * 4 + 4
  reject_if
      (restart_count == 0
        || (not (restart_count == expected_restart_count record_count restart_interval)
            || ltb size (16 + restart_bytes)))
      (corruption "invalid prefix-compressed SSTable restart area")
  let records_end = size - restart_bytes
  reject_if (ltb ((records_end - records_begin) / 21) record_count)
      (corruption "invalid prefix-compressed SSTable record count")
  check_restarts payload records_end restart_count 0 0
  ok (record {
    payload = payload;
    records_end = records_end;
    restart_count = restart_count;
    record_count = record_count;
  })

-- The switch on the type: a deletion has no value.
unfoldable pub typed_entry : ℕ → Bytes → ℕ → Bytes → Result VersionedEntry
typed_entry type key sequence value =
    if type == 1
    then ok (record { key = key; sequence = sequence; value = value; deleted = false })
    else if type == 2
    then ok (record { key = key; sequence = sequence; value = []; deleted = true })
    else err (corruption "unknown SSTable record type")

-- DecodePrefixRecordAt, with the entry and the pointer behind it.
unfoldable pub decode_prefix_record_at : PrefixBlockLayout → ℕ → Bytes → Result (VersionedEntry × ℕ)
decode_prefix_record_at layout ptr previous_key = do
  reject_if
      (ltb ptr records_begin || (ltb layout.records_end ptr || ltb (layout.records_end - ptr) 21))
      (corruption "invalid prefix-compressed SSTable record")
  let header = drop ptr layout.payload
  let shared = decode_fixed32 header
  let unshared = decode_fixed32 (drop 4 header)
  let value_size = decode_fixed32 (drop 8 header)
  let rest = drop 21 header
  reject_if
      (ltb (length previous_key) shared
        || ltb (layout.records_end - (ptr + 21)) (unshared + value_size))
      (corruption "invalid prefix-compressed SSTable payload")
  entry ←
      typed_entry (get_or header 12 0) (take shared previous_key ++ take unshared rest)
        (decode_fixed64 (drop 13 header)) (take value_size (drop unshared rest))
  ok (entry, ptr + 21 + unshared + value_size)

-- The loop of DecodePrefixCompressedPayload, with `n` records left; the pointer behind the last.
unfoldable pub decode_prefix_records :
    PrefixBlockLayout → ℕ → ℕ → Bytes → Result (List VersionedEntry × ℕ)
decode_prefix_records layout zero ptr previous_key = ok ([], ptr)
decode_prefix_records layout (suc n) ptr previous_key =
    decode_prefix_record_at layout ptr previous_key >>= λ (entry, next).
    decode_prefix_records layout n next entry.key >>= λ (more, end). ok (entry ∷ more, end)

unfoldable pub decode_prefix_compressed_payload : Bytes → Result (List VersionedEntry)
decode_prefix_compressed_payload payload = do
  layout ← parse_prefix_block_layout payload
  (entries, ptr) ← decode_prefix_records layout layout.record_count records_begin []
  reject_if (not (ptr == layout.records_end))
      (corruption "trailing prefix-compressed SSTable record bytes")
  ok entries

-- SSTable::DecodeBlock
unfoldable pub decode_block : Bytes → Result (List VersionedEntry)
decode_block block_data = decode_block_payload block_data >>= decode_prefix_compressed_payload

-- The offset that the restart area holds at an index.
abbrev pub restart_offset : PrefixBlockLayout → ℕ → ℕ
restart_offset layout index = decode_fixed32 (drop (layout.records_end + index * 4) layout.payload)

unfoldable pub restart_key : PrefixBlockLayout → ℕ → Result Bytes
restart_key layout index = do
  reject_if (leb layout.restart_count index)
      (corruption "invalid prefix-compressed SSTable restart index")
  (entry, next) ← decode_prefix_record_at layout (restart_offset layout index) []
  ok (encode_internal_key entry.key entry.sequence)
