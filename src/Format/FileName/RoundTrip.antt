-- ===== src/Format/FileName/RoundTrip.antt =====
-- Parsing a file name that the program made gives back its number.
use kv_mem.Prelude.{
  ℕ, ◌+◌, ◌-◌, ◌<◌, ◌≤◌, ◌≡◌, refl, ap, ◌∙◌, Option, none, some, true, false, ◌++◌, length,
  length-append, length-replicate, take, drop, take_front, drop_front, append_assoc, replicate,
  arith, ltb,
}
use kv_mem.Bytes.{Bytes, IsU64, text}
use kv_mem.Bytes.Order.{bytes_eq_refl}
use kv_mem.Format.Decimal.{decimal, all_digits, parse_digits}
use kv_mem.Format.Decimal.RoundTrip.{parse_digits-decimal, all_digits-decimal, parse_digits-IsU64}
use kv_mem.Format.FileName.{
  nonzero, parse_numbered_name, numbered_name, sstable_file_name, wal_file_name,
  parse_sstable_file_name, parse_wal_file_name,
}

-- A prefix, at least six digits and a suffix: the number of the digits.
parse_parts :
    (prefix digits suffix : Bytes)
    → 6 ≤ length digits
    → all_digits digits ≡ true
    → parse_numbered_name (prefix ++ (digits ++ suffix)) prefix suffix
      ≡ nonzero (parse_digits 0 digits)
unfolding parse_numbered_name
parse_parts prefix digits suffix six d =
    let name : Bytes = prefix ++ (digits ++ suffix) in
    let size : length name ≡ length prefix + (length digits + length suffix) =
      omega (arith, length-append prefix (digits ++ suffix), length-append digits suffix) in
    let long : ltb (length name) (length prefix + 6 + length suffix) ≡ false =
      ground (arith, size) in
    let front : take (length prefix) name ≡ prefix = take_front _ prefix (digits ++ suffix) refl in
    let back : drop (length name - length suffix) name ≡ suffix =
      rw (← append_assoc prefix digits suffix) (
        drop_front _ (prefix ++ digits) suffix
          (omega (arith, length-append (prefix ++ digits) suffix))) in
    let rest : drop (length prefix) name ≡ digits ++ suffix =
      drop_front _ prefix (digits ++ suffix) refl in
    let middle : take (length name - length prefix - length suffix) (digits ++ suffix) ≡ digits =
      take_front _ digits suffix (omega (arith, size)) in
    rw (long, front, back, bytes_eq_refl prefix, bytes_eq_refl suffix, rest, middle, d)

six_digits : (n : ℕ) → 6 ≤ length (replicate (6 - length (decimal n)) b'0' ++ decimal n)
six_digits n = omega (
  arith,
  length-append (replicate (6 - length (decimal n)) b'0') (decimal n),
  length-replicate {A = ℕ} (6 - length (decimal n)) b'0',
)

nonzero-some : (n : ℕ) → 0 < n → nonzero (some n) ≡ some n
nonzero-some n h = ground arith

parse-numbered_name :
    (prefix : Bytes) (n : ℕ) (suffix : Bytes)
    → 0 < n
    → IsU64 n
    → parse_numbered_name (numbered_name prefix n suffix) prefix suffix ≡ some n
unfolding numbered_name
parse-numbered_name prefix n suffix pos h =
    parse_parts prefix _ suffix (six_digits n) (all_digits-decimal n _)
    ∙ ap nonzero (parse_digits-decimal n _ h)
    ∙ nonzero-some n pos

-- Every file number from 1 to 2^64 - 1 is read back from the SSTable name and from the WAL name
-- that the program makes of it.
pub parse-file_name :
    (n : ℕ)
    → 0 < n
    → IsU64 n
    → (parse_sstable_file_name (sstable_file_name n) ≡ some n)
      × (parse_wal_file_name (wal_file_name n) ≡ some n)
unfolding parse_sstable_file_name sstable_file_name parse_wal_file_name wal_file_name
parse-file_name n pos h = (
  parse-numbered_name (text "sst_") n (text ".data") pos h,
  parse-numbered_name (text "wal_") n (text ".log") pos h,
)

nonzero_of : (o : Option ℕ) (n : ℕ) → nonzero o ≡ some n → (o ≡ some n) × (0 < n)
nonzero_of none n e = cc
nonzero_of (some m) n e = ground arith

parse_numbered_name_range :
    (name prefix suffix : Bytes) (n : ℕ)
    → parse_numbered_name name prefix suffix ≡ some n
    → (0 < n) × IsU64 n
unfolding parse_numbered_name
parse_numbered_name_range name prefix suffix n e =
    let digits : Bytes =
      take (length name - length prefix - length suffix) (drop (length prefix) name) in
    ground (arith, nonzero_of (parse_digits 0 digits) n, parse_digits-IsU64 0 digits n)

-- Whatever the name is, a number that is read from it is neither 0 nor beyond 64 bits.
pub parse_wal_file_name_range :
    (name : Bytes) (n : ℕ) → parse_wal_file_name name ≡ some n → (0 < n) × IsU64 n
unfolding parse_wal_file_name
parse_wal_file_name_range name n = parse_numbered_name_range name (text "wal_") (text ".log") n
