-- ===== src/Sstable/Block/RoundTrip.antt =====
-- A block that EncodeBlock of src/sstable.cpp wrote is decoded to its entries.
use kv_mem.Prelude.{
  ℕ, ◌+◌, ◌-◌, ◌*◌, ◌/◌, ◌%◌, ◌^◌, ◌<◌, ◌≤◌, ◌≡◌, refl, ap, sym, ◌∙◌, ==_refl, true, false, List,
  [], ◌∷◌, ◌++◌, map, append_assoc, append-nil, length, length-append, drop-add, All, take, drop,
  get_or, drop_front, take_front, ltb, ◌==◌, arith,
}
use kv_mem.Bytes.{Bytes, IsU32, IsU64}
use kv_mem.Types.{VersionedEntry}
use kv_mem.Status.{ok}
use kv_mem.Format.Crc.{crc32, crc32-IsU32}
use kv_mem.Format.Fixed.{encode_fixed32, decode_fixed32, encode_fixed64, decode_fixed64}
use kv_mem.Format.Fixed.RoundTrip.{
  decode-encode_fixed32, decode-encode_fixed64, length-encode_fixed32,
}
use kv_mem.Sstable.Block.{
  data_block_magic, restart_interval, shared_size, encode_record, encode_records, restart_offsets,
  encode_offsets, encode_payload, encode_block,
}
use kv_mem.Sstable.Block.Decode.{
  PrefixBlockLayout, check_restarts, expected_restart_count, parse_prefix_block_layout,
  decode_block_payload, decode_prefix_records, decode_prefix_compressed_payload, decode_block,
}
use kv_mem.Sstable.Block.Record.{FitsEntry, stored, shared_size-IsShared, decode-encode_record}
use kv_mem.Sstable.Block.Layout.{
  length-encode_offsets, length-restart_offsets, record-encode_records-le, check_restarts-Valid,
  restart_offsets-Valid,
}

-- The records from a pointer on are decoded one after the other.
pub decode-encode_records :
    (layout : PrefixBlockLayout) (i ptr : ℕ) (previous_key : Bytes) (entries : List VersionedEntry)
    (tail : Bytes)
    → All FitsEntry entries
    → 16 ≤ ptr
    → ptr + length (encode_records i previous_key entries) ≤ layout.records_end
    → drop ptr layout.payload ≡ encode_records i previous_key entries ++ tail
    → decode_prefix_records layout (length entries) ptr previous_key
      ≡ ok (map stored entries, ptr + length (encode_records i previous_key entries))
unfolding encode_records decode_prefix_records
decode-encode_records layout i ptr previous_key [] tail fits begins room here =
    ap (λ n. ok ([], n)) (omega arith)
decode-encode_records layout i ptr previous_key (entry ∷ rest) tail fits begins room here =
    let bytes = encode_record (shared_size i previous_key entry) entry in
    let after = encode_records (i + 1) entry.key rest in
    let size_both = length-append bytes after in
    let split = here ∙ append_assoc bytes after tail in
    let next : drop (ptr + length bytes) layout.payload ≡ after ++ tail =
      drop-add ptr (length bytes) layout.payload
      ∙ ap (drop (length bytes)) split
      ∙ drop_front (length bytes) bytes (after ++ tail) refl in
    let first =
      decode-encode_record layout ptr (shared_size i previous_key entry) previous_key entry
        (after ++ tail) begins (omega arith) fits.0 (shared_size-IsShared i previous_key entry)
        split in
    let ih =
      decode-encode_records layout (i + 1) (ptr + length bytes) entry.key rest tail fits.1
        (omega arith) (omega arith) next in
    rw (first, ih) (ap (λ n. ok (map stored (entry ∷ rest), n)) (omega arith))

get_or-append : (xs : Bytes) (y : ℕ) (ys : Bytes) → get_or (xs ++ (y ∷ ys)) (length xs) 0 ≡ y
get_or-append [] y ys = refl
get_or-append (x ∷ xs) y ys = get_or-append xs y ys

-- The rounding up is the same.
expected_count :
    (n c : ℕ) → c + (0 + 15) / 16 ≡ (0 + n + 15) / 16 → (c == expected_restart_count n 16) ≡ true
expected_count n c h = ground arith

-- The layout of an encoded payload.
abbrev pub layout_of : List VersionedEntry → PrefixBlockLayout
layout_of entries = record {
  payload = encode_payload entries;
  records_end = 16 + length (encode_records 0 [] entries);
  restart_count = length (restart_offsets 0 [] 16 entries);
  record_count = length entries;
}

-- The block is not empty, its fields fit, and its payload is shorter than 2^32 bytes.
pub record IsBlock (entries : List VersionedEntry) : Type 0 where
  pub filled : 0 < length entries
  pub fits : All FitsEntry entries
  pub small : IsU32 (length (encode_payload entries))

module _ (entries : List VersionedEntry) (b : IsBlock entries) where
  abbrev records : Bytes
  records = encode_records 0 [] entries

  abbrev offsets : List ℕ
  offsets = restart_offsets 0 [] 16 entries

  abbrev offset_count : ℕ
  offset_count = length offsets % 2 ^ 32

  abbrev area : Bytes
  area = records ++ (encode_offsets offsets ++ encode_fixed32 offset_count)

  payload-parts :
      encode_payload entries
      ≡ encode_fixed32 data_block_magic
        ++ (encode_fixed32 restart_interval ++ (encode_fixed64 (length entries) ++ area))
  unfolding encode_payload
  payload-parts = refl

  pub drop-payload : drop 16 (encode_payload entries) ≡ area
  unfolding encode_payload encode_fixed32 encode_fixed64
  drop-payload = refl

  length-area : length area ≡ length records + (length offsets * 4 + 4)
  length-area = omega (
    arith,
    length-append records (encode_offsets offsets ++ encode_fixed32 offset_count),
    length-append (encode_offsets offsets) (encode_fixed32 offset_count),
    length-encode_offsets offsets,
    length-encode_fixed32 offset_count,
  )

  pub length-payload :
      length (encode_payload entries) ≡ 16 + length records + (length offsets * 4 + 4)
  unfolding encode_payload encode_fixed32 encode_fixed64
  length-payload = omega (arith, length-area)

  magic-payload : decode_fixed32 (encode_payload entries) ≡ data_block_magic
  unfolding encode_payload
  magic-payload = decode-encode_fixed32 data_block_magic _ (omega arith)

  interval-payload : decode_fixed32 (drop 4 (encode_payload entries)) ≡ restart_interval
  unfolding encode_payload encode_fixed32
  interval-payload =
      decode-encode_fixed32 restart_interval (encode_fixed64 (length entries) ++ area) (omega arith)

  count-payload :
      IsU64 (length entries) → decode_fixed64 (drop 8 (encode_payload entries)) ≡ length entries
  unfolding encode_payload encode_fixed32
  count-payload h = decode-encode_fixed64 (length entries) area h

  pub drop-payload_offsets :
      drop (16 + length records) (encode_payload entries)
      ≡ encode_offsets offsets ++ encode_fixed32 offset_count
  drop-payload_offsets =
      drop-add 16 (length records) (encode_payload entries)
      ∙ ap (drop (length records)) drop-payload
      ∙ drop_front (length records) records _ refl

  restart_count-payload :
      decode_fixed32 (drop (length (encode_payload entries) - 4) (encode_payload entries))
      ≡ length offsets
  restart_count-payload =
      let size = length-payload in
      let small = b.small in
      ap (λ n. decode_fixed32 (drop n (encode_payload entries))) (omega arith)
      ∙ ap decode_fixed32 (
          drop-add (16 + length records) (length offsets * 4) (encode_payload entries)
          ∙ ap (drop (length offsets * 4)) drop-payload_offsets
          ∙ drop_front (length offsets * 4) (encode_offsets offsets) (encode_fixed32 offset_count)
              (length-encode_offsets offsets)
          ∙ sym (append-nil (encode_fixed32 offset_count)))
      ∙ decode-encode_fixed32 offset_count [] (omega arith)
      ∙ (let e : offset_count ≡ length offsets = omega arith in e)

  pub parse_prefix_block_layout_ok :
      parse_prefix_block_layout (encode_payload entries) ≡ ok (layout_of entries)
  unfolding parse_prefix_block_layout
  parse_prefix_block_layout_ok =
      let size = length-payload in
      let small = b.small in
      let filled = b.filled in
      let floor = record-encode_records-le 0 [] entries in
      let count = length-restart_offsets 0 [] 16 entries in
      let restarts : check_restarts (encode_payload entries) (16 + length records) (length offsets)
            0 0
          ≡ ok tt =
        check_restarts-Valid (encode_payload entries) (16 + length records) 0 0 offsets
          (encode_fixed32 offset_count)
          (ap (λ n. drop n (encode_payload entries)) (omega arith) ∙ drop-payload_offsets)
          (restart_offsets-Valid (encode_payload entries) (16 + length records) 0 0 0 [] 16 entries
            (encode_offsets offsets ++ encode_fixed32 offset_count) (omega arith) (omega arith)
            (omega arith) drop-payload (λ h. absurd (omega arith)) (λ h. (refl, refl))) in
      let n = length entries in
      let c = length offsets in
      let total = length (encode_payload entries) in
      let long : ltb total 20 ≡ false = ground arith in
      let counted : (n == 0) ≡ false = ground arith in
      let some_restart : (c == 0) ≡ false = ground arith in
      let expected : (c == expected_restart_count n 16) ≡ true = expected_count n c count in
      let room : ltb total (16 + (c * 4 + 4)) ≡ false = ground arith in
      let end : total - (c * 4 + 4) ≡ 16 + length records = omega arith in
      let held : ltb ((16 + length records - 16) / 21) n ≡ false = ground arith in
      rw (
        magic-payload,
        interval-payload,
        count-payload (omega arith),
        restart_count-payload,
        long,
        counted,
        some_restart,
        expected,
        room,
        end,
        held,
        restarts,
      )

  decode_payload-encode_payload :
      decode_prefix_compressed_payload (encode_payload entries) ≡ ok (map stored entries)
  unfolding decode_prefix_compressed_payload
  decode_payload-encode_payload =
      let read =
        decode-encode_records (layout_of entries) 0 16 [] entries
          (encode_offsets offsets ++ encode_fixed32 offset_count) b.fits (omega arith) (omega arith)
          drop-payload in
      rw (parse_prefix_block_layout_ok, read, ==_refl (16 + length records))

  -- The block without its checksum.
  abbrev checksummed : Bytes
  checksummed = encode_payload entries ++ (0 ∷ [])

  magic-append : (rest : Bytes) → decode_fixed32 (encode_payload entries ++ rest) ≡ data_block_magic
  unfolding encode_payload
  magic-append rest =
      ap decode_fixed32 (append_assoc (encode_fixed32 data_block_magic) _ rest)
      ∙ decode-encode_fixed32 data_block_magic _ (omega arith)

  pub decode_block_payload_ok :
      decode_block_payload (encode_block entries) ≡ ok (encode_payload entries)
  unfolding decode_block_payload encode_block
  decode_block_payload_ok =
      let sum = encode_fixed32 (crc32 checksummed) in
      let block = checksummed ++ sum in
      let total = length (encode_payload entries) in
      let size = length-payload in
      let size_sum = length-encode_fixed32 (crc32 checksummed) in
      let size_block = length-append checksummed sum in
      let size_checksummed = length-append (encode_payload entries) (0 ∷ []) in
      let whole = append_assoc (encode_payload entries) (0 ∷ []) sum in
      let long : ltb (length block) 21 ≡ false = ground arith in
      let less4 : length block - 4 ≡ length checksummed = omega arith in
      let less5 : length block - 5 ≡ total = omega arith in
      let magic : decode_fixed32 block ≡ data_block_magic =
        ap decode_fixed32 whole ∙ magic-append (0 ∷ sum) in
      let plain : get_or block total 0 ≡ 0 =
        ap (λ xs. get_or xs total 0) whole ∙ get_or-append (encode_payload entries) 0 sum in
      let summed : decode_fixed32 sum ≡ crc32 checksummed =
        ap decode_fixed32 (sym (append-nil sum))
        ∙ decode-encode_fixed32 (crc32 checksummed) [] (crc32-IsU32 checksummed) in
      let payload : take total block ≡ encode_payload entries =
        ap (take total) whole ∙ take_front total (encode_payload entries) (0 ∷ sum) refl in
      rw (
        long,
        magic,
        less5,
        plain,
        less4,
        take_front (length checksummed) checksummed sum refl,
        drop_front (length checksummed) checksummed sum refl,
        summed,
        ==_refl (crc32 checksummed),
        payload,
      )

-- A block that is not empty, whose fields fit and whose payload is shorter than 2^32 bytes is decoded
-- to the entries that it was made of, a deletion without its value.
pub decode_block-encode_block :
    (entries : List VersionedEntry)
    → IsBlock entries
    → decode_block (encode_block entries) ≡ ok (map stored entries)
unfolding decode_block
decode_block-encode_block entries b =
    rw (decode_block_payload_ok entries b) (decode_payload-encode_payload entries b)
