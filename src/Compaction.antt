-- ===== src/Compaction.antt =====
-- DB::CompactUnlocked of src/db.cc.
pub mod Retain
pub mod Ranges
