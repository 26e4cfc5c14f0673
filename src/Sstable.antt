-- ===== src/Sstable.antt =====
-- src/sstable.cpp.
pub mod Block
pub mod Lookup
pub mod Create
pub mod Table
pub mod Iterator
