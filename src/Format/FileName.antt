-- ===== src/Format/FileName.antt =====
-- ParseNumberedName, NumberedName and the file names built on them, of src/format.cc. The argument
-- of the parsers is `path.filename().string()`.
pub mod RoundTrip
use kv_mem.Prelude.{
  ℕ, zero, suc, ◌+◌, ◌-◌, ◌*◌, ◌<◌, Option, none, some, Bool, true, false, not, ◌||◌, List, [], ◌∷◌,
  ◌++◌, length, take, drop, replicate, ltb, ◌==◌, if◌then◌else◌,
}
use kv_mem.Bytes.{Bytes, bytes_eq, text}
use kv_mem.Format.Decimal.{decimal, all_digits, parse_digits}

-- `if (parsed == 0) return false;`
abbrev pub nonzero : Option ℕ → Option ℕ
nonzero none = none
nonzero (some n) = if n == 0 then none else some n

-- `name.rfind(prefix, 0) != 0` is a test of the name's first bytes.
unfoldable pub parse_numbered_name : Bytes → Bytes → Bytes → Option ℕ
parse_numbered_name name prefix suffix =
    let size = length name - length prefix - length suffix in
    let digits = take size (drop (length prefix) name) in
    if ltb (length name) (length prefix + 6 + length suffix)
      || (not (bytes_eq (take (length prefix) name) prefix)
          || not (bytes_eq (drop (length name - length suffix) name) suffix))
    then none
    else if not (all_digits digits)
    then none
    else nonzero (parse_digits 0 digits)

-- out << prefix << std::setw(6) << std::setfill('0') << number << suffix
unfoldable pub numbered_name : Bytes → ℕ → Bytes → Bytes
numbered_name prefix number suffix =
    let digits = decimal number in
    prefix ++ ((replicate (6 - length digits) b'0' ++ digits) ++ suffix)

unfoldable pub sstable_file_name : ℕ → Bytes
sstable_file_name number = numbered_name (text "sst_") number (text ".data")

unfoldable pub wal_file_name : ℕ → Bytes
wal_file_name number = numbered_name (text "wal_") number (text ".log")

unfoldable pub parse_sstable_file_name : Bytes → Option ℕ
parse_sstable_file_name name = parse_numbered_name name (text "sst_") (text ".data")

unfoldable pub parse_wal_file_name : Bytes → Option ℕ
parse_wal_file_name name = parse_numbered_name name (text "wal_") (text ".log")
