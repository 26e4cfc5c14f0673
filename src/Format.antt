-- ===== src/Format.antt =====
-- src/format.cc and src/storage_util.cc: fixed-width integers, checksums, internal keys, file names.
pub mod Fixed
pub mod Crc
pub mod InternalKey
pub mod Decimal
pub mod FileName
