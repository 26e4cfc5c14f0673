-- ===== src/Compaction/Retain/Visible.antt =====
-- What reads see of a key before and after a compaction: the end of the merge loop of
-- DB::CompactUnlocked in src/db.cc.
use kv_mem.Prelude.{
  ℕ, suc, ◌<◌, ◌≤◌, ◌≡◌, refl, true, false, Option, none, some, ◌⊎◌, ◌↔◌, List, [], ◌∷◌, leb, ◌==◌,
  if◌then◌else◌, arith,
}
use mathlib.Core.List.{head?}
use kv_mem.Bytes.{Bytes}
use kv_mem.Types.{VersionedEntry}
use kv_mem.Compaction.Retain.{keep_versions, retain}

-- The version of a key that a read at a sequence sees: the first, newest first, that is not newer.
pub visible : ℕ → List VersionedEntry → Option VersionedEntry
visible read_sequence [] = none
visible read_sequence (v ∷ rest) =
    if leb v.sequence read_sequence then some v else visible read_sequence rest

-- What the reader is told: a tombstone reads as nothing.
pub value_read : Option VersionedEntry → Option Bytes
value_read none = none
value_read (some v) = if v.deleted then none else some v.value

-- Newest first, no sequence twice.
abbrev Below : ℕ → List VersionedEntry → Type 0
Below bound [] = Unit
Below bound (v ∷ rest) = (v.sequence < bound) × Below bound rest

abbrev pub IsNewestFirst : List VersionedEntry → Type 0
IsNewestFirst [] = Unit
IsNewestFirst (v ∷ rest) = Below v.sequence rest × IsNewestFirst rest

keep_after_boundary :
    (min_snapshot : ℕ) (vs : List VersionedEntry)
    → Below (suc min_snapshot) vs
    → keep_versions min_snapshot true vs ≡ []
unfolding keep_versions
keep_after_boundary min_snapshot [] h = refl
keep_after_boundary min_snapshot (v ∷ rest) h =
    ground (arith, keep_after_boundary min_snapshot rest h.1)

Below-weaken : (a b : ℕ) (vs : List VersionedEntry) → a ≤ b → Below a vs → Below b vs
Below-weaken a b [] h k = tt
Below-weaken a b (v ∷ rest) h k = (omega arith, Below-weaken a b rest h k.1)

visible-keep_versions :
    (min_snapshot read_sequence : ℕ) (vs : List VersionedEntry)
    → IsNewestFirst vs
    → min_snapshot ≤ read_sequence
    → visible read_sequence (keep_versions min_snapshot false vs) ≡ visible read_sequence vs
unfolding visible keep_versions
visible-keep_versions min_snapshot read_sequence [] d h = refl
visible-keep_versions min_snapshot read_sequence (v ∷ rest) d h =
    ground (arith, visible-keep_versions min_snapshot read_sequence rest d.1 h)

-- With an active snapshot, the oldest at `min_snapshot`, every read from there on sees the same
-- version of the key before and after the compaction, whatever the target level.
pub visible-retain_snapshot :
    (min_snapshot target_level read_sequence : ℕ) (vs : List VersionedEntry)
    → IsNewestFirst vs
    → 0 < min_snapshot
    → min_snapshot ≤ read_sequence
    → visible read_sequence (retain min_snapshot target_level vs) ≡ visible read_sequence vs
unfolding retain
visible-retain_snapshot min_snapshot target_level read_sequence [] d pos h = refl
visible-retain_snapshot min_snapshot target_level read_sequence (v ∷ rest) d pos h =
    let no_zero : (min_snapshot == 0) ≡ false = ground arith in
    rw no_zero (visible-keep_versions min_snapshot read_sequence (v ∷ rest) d h)

-- With no active snapshot, a read that is not older than the newest version gets the same value, or
-- the same absence of a value: a tombstone is dropped only where it reads as nothing anyway.
pub value_read-retain_latest :
    (target_level read_sequence : ℕ) (v : VersionedEntry) (rest : List VersionedEntry)
    → v.sequence ≤ read_sequence
    → value_read (visible read_sequence (retain 0 target_level (v ∷ rest)))
      ≡ value_read (visible read_sequence (v ∷ rest))
unfolding visible value_read retain
value_read-retain_latest target_level read_sequence v rest h = ground arith

-- A compaction keeps the newest version of a key, as the first of its output, exactly if the target
-- level is below 2, or MinActiveSnapshotSequence is positive (it is 0 where no snapshot of a
-- positive sequence is active), or the version is not a tombstone.
pub retain_newest :
    (min_snapshot target_level : ℕ) (v : VersionedEntry) (rest : List VersionedEntry)
    → head? (retain min_snapshot target_level (v ∷ rest)) ≡ some v
      ↔ ((target_level < 2) ⊎ (0 < min_snapshot) ⊎ (v.deleted ≡ false))
unfolding retain keep_versions
retain_newest min_snapshot target_level v rest = ground arith
