-- ===== src/Types.antt =====
-- include/types.h.
use kv_mem.Prelude.{ℕ, Bool}
use kv_mem.Bytes.{Bytes}

pub record Entry : Type 0 where
  pub sequence : ℕ
  pub value : Bytes
  pub deleted : Bool

pub record VersionedEntry : Type 0 where
  pub key : Bytes
  pub sequence : ℕ
  pub value : Bytes
  pub deleted : Bool
