-- ===== src/Sstable/Table/Load.antt =====
-- LoadIndex of src/sstable.cpp on a file that CreateFromEntries wrote.
use kv_mem.Prelude.{
  ℕ, ◌+◌, ◌-◌, ◌*◌, ◌%◌, ◌^◌, ◌≤◌, ◌<◌, ◌≡◌, refl, ap, sym, ◌∙◌, subst, false, not, ◌&&◌, ◌||◌, max,
  List, [], ◌∷◌, ◌++◌, append_assoc, append-nil, length, length-append, drop, take_front,
  drop_front, ltb, ◌==◌, All, arith,
}
use kv_mem.Bytes.{Bytes, IsU32, IsU64}
use kv_mem.Types.{VersionedEntry}
use kv_mem.Status.{ok}
use kv_mem.Format.Fixed.{encode_fixed32, decode_fixed32, encode_fixed64, decode_fixed64}
use kv_mem.Format.Fixed.RoundTrip.{
  decode-encode_fixed32, decode-encode_fixed64, length-encode_fixed32,
}
use kv_mem.BloomFilter.{build}
use kv_mem.BloomFilter.Codec.{encode}
use kv_mem.BloomFilter.Codec.RoundTrip.{decode-encode-build}
use kv_mem.Sstable.Block.{encode_block}
use kv_mem.Sstable.Create.{
  IndexEntry, sstable_magic, last_key, write_blocks, index_of, encode_items, encode_index,
  encode_footer, encode_table,
}
use kv_mem.Sstable.Table.{read_exact_at, load_items, load_index}

-- A part of the file is read by its place.
pub read_exact_at-part :
    (before part after : Bytes)
    → length (before ++ (part ++ after)) < 2 ^ 63
    → read_exact_at (before ++ (part ++ after)) (length before) (length part) ≡ ok part
unfolding read_exact_at
read_exact_at-part before part after small =
    let whole = length-append before (part ++ after) in
    let later = length-append part after in
    let ranged : (ltb (2 ^ 63 - 1) (length before)
          || (ltb 0 (length part) && ltb (2 ^ 63 - 1 - length before) (length part - 1)))
        ≡ false =
      ground arith in
    let complete : (ltb 0 (length part)
          && ltb (length (before ++ (part ++ after))) (length before + length part))
        ≡ false =
      ground arith in
    rw (
      ranged,
      complete,
      drop_front (length before) before (part ++ after) refl,
      take_front (length part) part after refl,
    )

-- What the index's bytes can hold, with the blocks before an offset.
pub record FitsItem (index_offset : ℕ) (item : IndexEntry) : Type 0 where
  pub key : IsU32 (length item.last_internal_key)
  pub within : item.block_offset + item.block_size ≤ index_offset

-- The first item's fields.
module _ (item : IndexEntry) (rest : Bytes) where
  abbrev item_tail : Bytes
  item_tail = encode_fixed64 item.block_offset ++ (encode_fixed64 item.block_size ++ rest)

  length-item_tail : length item_tail ≡ 16 + length rest
  unfolding encode_fixed64
  length-item_tail = omega arith

  size-item_tail : IsU64 item.block_size → decode_fixed64 (drop 8 item_tail) ≡ item.block_size
  unfolding encode_fixed64
  size-item_tail h = decode-encode_fixed64 item.block_size rest h

  drop-item_tail : drop 16 item_tail ≡ rest
  unfolding encode_fixed64
  drop-item_tail = refl

load_items-encode_items :
    (index_offset : ℕ) (items : List IndexEntry)
    → IsU64 index_offset
    → All (FitsItem index_offset) items
    → load_items index_offset (length items) (encode_items items) ≡ ok items
unfolding load_items encode_items
load_items-encode_items index_offset [] small fits = refl
load_items-encode_items index_offset (item ∷ rest) small fits =
    let key_fits = fits.0.key in
    let within = fits.0.within in
    let more = encode_items rest in
    let n = length item.last_internal_key in
    let tail = item_tail item more in
    let bytes = encode_fixed32 (n % 2 ^ 32) ++ (item.last_internal_key ++ tail) in
    let size_tail = length-item_tail item more in
    let size_key = length-append item.last_internal_key tail in
    let size_bytes = length-append (encode_fixed32 (n % 2 ^ 32)) (item.last_internal_key ++ tail) in
    let size_size = length-encode_fixed32 (n % 2 ^ 32) in
    let whole : n % 2 ^ 32 ≡ n = omega arith in
    let sized : ltb (length bytes) 4 ≡ false = ground arith in
    let read_size : decode_fixed32 bytes ≡ n =
      decode-encode_fixed32 (n % 2 ^ 32) (item.last_internal_key ++ tail) (omega arith) ∙ whole in
    let rest_is : drop 4 bytes ≡ item.last_internal_key ++ tail =
      drop_front 4 (encode_fixed32 (n % 2 ^ 32)) (item.last_internal_key ++ tail) size_size in
    let held : ltb (length (item.last_internal_key ++ tail)) (n + 16) ≡ false = ground arith in
    let ranged : (ltb index_offset item.block_offset
          || ltb (index_offset - item.block_offset) item.block_size)
        ≡ false =
      ground arith in
    rw (
      sized,
      read_size,
      rest_is,
      held,
      drop_front n item.last_internal_key tail refl,
      take_front n item.last_internal_key tail refl,
      decode-encode_fixed64 item.block_offset (encode_fixed64 item.block_size ++ more)
          (omega arith),
      size-item_tail item more (omega arith),
      ranged,
      drop-item_tail item more,
      load_items-encode_items index_offset rest small fits.1,
    )

-- The index entries of blocks lie in the blocks.
index_of-FitsItem :
    (offset index_offset : ℕ) (blocks : List (List VersionedEntry))
    → All (λ block. IsU32 (length (last_key block))) blocks
    → offset + length (write_blocks blocks) ≤ index_offset
    → All (FitsItem index_offset) (index_of offset blocks)
unfolding index_of write_blocks
index_of-FitsItem offset index_offset [] keys room = tt
index_of-FitsItem offset index_offset (block ∷ rest) keys room =
    let both = length-append (encode_block block) (write_blocks rest) in
    (
      record { key = keys.0; within = omega arith },
      index_of-FitsItem (offset + length (encode_block block)) index_offset rest keys.1
          (omega arith),
    )

length-encode_items-ge : (items : List IndexEntry) → length items * 20 ≤ length (encode_items items)
unfolding encode_items encode_fixed32 encode_fixed64
length-encode_items-ge [] = omega arith
length-encode_items-ge (item ∷ rest) = omega (
  arith,
  length-append item.last_internal_key
      (encode_fixed64 item.block_offset ++ (encode_fixed64 item.block_size ++ encode_items rest)),
  length-encode_items-ge rest,
)

-- The footer's fields.
module _ (a b c d : ℕ) where
  pub length-footer : length (encode_footer a b c d) ≡ 40
  unfolding encode_footer encode_fixed64
  length-footer = refl

  index_offset-footer : IsU64 a → decode_fixed64 (encode_footer a b c d) ≡ a
  unfolding encode_footer
  index_offset-footer h = decode-encode_fixed64 a _ h

  index_size-footer : IsU64 b → decode_fixed64 (drop 8 (encode_footer a b c d)) ≡ b
  unfolding encode_footer encode_fixed64
  index_size-footer h =
      decode-encode_fixed64 b
        (encode_fixed64 c ++ (encode_fixed64 d ++ encode_fixed64 sstable_magic)) h

  filter_offset-footer : IsU64 c → decode_fixed64 (drop 16 (encode_footer a b c d)) ≡ c
  unfolding encode_footer encode_fixed64
  filter_offset-footer h =
      decode-encode_fixed64 c (encode_fixed64 d ++ encode_fixed64 sstable_magic) h

  filter_size-footer : IsU64 d → decode_fixed64 (drop 24 (encode_footer a b c d)) ≡ d
  unfolding encode_footer encode_fixed64
  filter_size-footer h = decode-encode_fixed64 d (encode_fixed64 sstable_magic) h

  magic-footer : decode_fixed64 (drop 32 (encode_footer a b c d)) ≡ sstable_magic
  unfolding encode_footer encode_fixed64
  magic-footer =
      ap decode_fixed64 (sym (append-nil (encode_fixed64 sstable_magic)))
      ∙ decode-encode_fixed64 sstable_magic [] (omega arith)

-- What a file of blocks can hold.
pub record FitsTable (blocks : List (List VersionedEntry)) (keys : List Bytes)
    (bloom_bits_per_key : ℕ) : Type 0 where
  pub file : length (encode_table blocks keys bloom_bits_per_key) < 2 ^ 63
  pub filter : length keys * max 1 bloom_bits_per_key + 7 < 2 ^ 32
  pub last_keys : All (λ block. IsU32 (length (last_key block))) blocks

module _ (blocks : List (List VersionedEntry)) (keys : List Bytes) (bloom_bits_per_key : ℕ)
    (fits : FitsTable blocks keys bloom_bits_per_key) where
  abbrev records : Bytes
  records = write_blocks blocks

  abbrev index_block : Bytes
  index_block = encode_index (index_of 0 blocks)

  abbrev filter_block : Bytes
  filter_block = encode (build keys bloom_bits_per_key)

  abbrev footer : Bytes
  footer =
      encode_footer (length records) (length index_block) (length records + length index_block)
        (length filter_block)

  abbrev file : Bytes
  file = records ++ (index_block ++ (filter_block ++ footer))

  length-file : length file ≡ length records + length index_block + length filter_block + 40
  length-file = omega (
    arith,
    length-append records (index_block ++ (filter_block ++ footer)),
    length-append index_block (filter_block ++ footer),
    length-append filter_block footer,
    length-footer (length records) (length index_block) (length records + length index_block)
        (length filter_block),
  )

  small : length file < 2 ^ 63
  unfolding encode_table
  small = fits.file

  read-footer : read_exact_at file (length file - 40) 40 ≡ ok footer
  unfolding encode_footer encode_fixed64
  read-footer =
      let size = length-file in
      let front = length-append (records ++ index_block) filter_block in
      let front' = length-append records index_block in
      let split : ((records ++ index_block) ++ filter_block) ++ (footer ++ []) ≡ file = rw (
        append-nil footer,
        append_assoc (records ++ index_block) filter_block footer,
        append_assoc records index_block (filter_block ++ footer),
      ) in
      let at_footer : length ((records ++ index_block) ++ filter_block) ≡ length file - 40 =
        omega arith in
      subst (λ n. read_exact_at file n 40 ≡ ok footer) at_footer
        (subst
          (λ f. read_exact_at f (length ((records ++ index_block) ++ filter_block)) 40 ≡ ok footer)
          split
          (read_exact_at-part ((records ++ index_block) ++ filter_block) footer []
            (subst (λ f. length f < 2 ^ 63) (sym split) small)))

  read-index : read_exact_at file (length records) (length index_block) ≡ ok index_block
  read-index = read_exact_at-part records index_block (filter_block ++ footer) small

  read-filter :
      read_exact_at file (length records + length index_block) (length filter_block)
      ≡ ok filter_block
  read-filter =
      let split = append_assoc records index_block (filter_block ++ footer) in
      subst (λ n. read_exact_at file n (length filter_block) ≡ ok filter_block)
        (length-append records index_block)
        (subst
          (λ f.
            read_exact_at f (length (records ++ index_block)) (length filter_block)
            ≡ ok filter_block)
          split
          (read_exact_at-part (records ++ index_block) filter_block footer
            (subst (λ f. length f < 2 ^ 63) (sym split) small)))

  count-index : decode_fixed64 index_block ≡ length (index_of 0 blocks)
  unfolding encode_index
  count-index =
      let size = length-file in
      let many = length-encode_items-ge (index_of 0 blocks) in
      let parts =
        length-append (encode_fixed64 (length (index_of 0 blocks)))
          (encode_items (index_of 0 blocks)) in
      let low = small in
      decode-encode_fixed64 (length (index_of 0 blocks)) (encode_items (index_of 0 blocks))
        (omega arith)

  items-index : drop 8 index_block ≡ encode_items (index_of 0 blocks)
  unfolding encode_index encode_fixed64
  items-index = refl

  length-index : 8 ≤ length index_block
  unfolding encode_index encode_fixed64
  length-index = omega arith

  load_index-file :
      (file_number : ℕ)
      → load_index file_number file
        ≡ ok (record {
          file_number = file_number;
          file = file;
          index = index_of 0 blocks;
          filter = build keys bloom_bits_per_key;
        })
  unfolding load_index
  load_index-file file_number =
      let size = length-file in
      let low = small in
      let at_least = length-index in
      let r = length records in
      let i = length index_block in
      let f = length filter_block in
      let long : ltb (length file) 40 ≡ false = ground arith in
      let ordered : (ltb (r + i) r
            || (not (i == r + i - r)
                || (ltb (length file - 40) (r + i) || not (f == length file - 40 - (r + i)))))
          ≡ false =
        ground arith in
      let counted : ltb i 8 ≡ false = ground arith in
      let items =
        load_items-encode_items r (index_of 0 blocks) (omega arith)
          (index_of-FitsItem 0 r blocks fits.last_keys (omega arith)) in
      rw (
        long,
        read-footer,
        magic-footer r i (r + i) f,
        index_offset-footer r i (r + i) f (omega arith),
        index_size-footer r i (r + i) f (omega arith),
        filter_offset-footer r i (r + i) f (omega arith),
        filter_size-footer r i (r + i) f (omega arith),
        ordered,
        read-index,
        counted,
        count-index,
        items-index,
        items,
        read-filter,
        decode-encode-build keys bloom_bits_per_key fits.filter,
      )

-- LoadIndex accepts a file that was made of blocks, keys and bits per key that fit it, and reads back
-- the place of each block, its last internal key, and the filter.
pub load_index-encode_table :
    (blocks : List (List VersionedEntry)) (keys : List Bytes) (bloom_bits_per_key file_number : ℕ)
    → FitsTable blocks keys bloom_bits_per_key
    → load_index file_number (encode_table blocks keys bloom_bits_per_key)
      ≡ ok (record {
        file_number = file_number;
        file = encode_table blocks keys bloom_bits_per_key;
        index = index_of 0 blocks;
        filter = build keys bloom_bits_per_key;
      })
unfolding encode_table
load_index-encode_table blocks keys bloom_bits_per_key file_number fits =
    load_index-file blocks keys bloom_bits_per_key fits file_number
