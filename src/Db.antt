-- ===== src/Db.antt =====
-- src/db.cc. The children model the writes, the recovery of the log and the snapshots.
pub mod Snapshots
pub mod Store
pub mod Writes
pub mod Recover
pub mod Get
pub mod Flush
