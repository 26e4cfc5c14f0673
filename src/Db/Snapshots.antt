-- ===== src/Db/Snapshots.antt =====
-- GetSnapshot, ReleaseSnapshot, ReadSequence, ValidateReadOptions, MinActiveSnapshotSequence and the
-- part of Close that ends the snapshots, of src/db.cc. A handle is the place of its snapshot in
-- `snapshots_`, which only grows: a pointer is never reused.
pub mod Order
pub mod Invariant
use kv_mem.Prelude.{
  ℕ, zero, suc, ◌+◌, ◌<◌, ◌≤◌, Bool, true, false, not, ◌||◌, Option, none, some, List, [], ◌∷◌,
  ◌++◌, map, length, get_elem?, set, ltb, ◌==◌, if◌then◌else◌,
}
use kv_mem.Status.{Status, ok, err, io_error, invalid_argument}

pub record Snapshot : Type 0 where
  pub sequence : ℕ
  pub active : Bool

-- The members that these functions read: `closed_`, `manifest_->LastSequence()` and `snapshots_`.
pub record Readers : Type 0 where
  pub closed : Bool
  pub last_sequence : ℕ
  pub snapshots : List Snapshot

unfoldable pub get_snapshot : Readers → Readers × Option ℕ
get_snapshot db =
    let snapshot : Snapshot = record { sequence = db.last_sequence; active = true } in
    if db.closed
    then (db, none)
    else (record db { snapshots = db.snapshots ++ (snapshot ∷ []) }, some (length db.snapshots))

abbrev pub deactivate : Snapshot → Snapshot
deactivate snapshot = record snapshot { active = false }

-- `find_if`, then `active_ = false`; a pointer that is not found changes nothing.
unfoldable pub release_at : ℕ → List Snapshot → List Snapshot
release_at handle [] = []
release_at zero (snapshot ∷ rest) = deactivate snapshot ∷ rest
release_at (suc handle) (snapshot ∷ rest) = snapshot ∷ release_at handle rest

unfoldable pub release_snapshot : Readers → ℕ → Readers
unfolding release_at
release_snapshot db handle = record db { snapshots = release_at handle db.snapshots }

-- The end of Close.
unfoldable pub close_readers : Readers → Readers
close_readers db = record db { closed = true; snapshots = map deactivate db.snapshots }

abbrev pub is_live : Option Snapshot → Bool
is_live none = false
is_live (some snapshot) = snapshot.active

unfoldable pub validate_read_options : Readers → Option ℕ → Status
validate_read_options db none = if db.closed then err (io_error "database is not open") else ok tt
validate_read_options db (some handle) =
    if db.closed
    then err (io_error "database is not open")
    else if not (is_live (get_elem? db.snapshots handle))
    then err (invalid_argument "snapshot is released, foreign, or from a previous open")
    else ok tt

abbrev sequence_of : Option Snapshot → ℕ
sequence_of none = 0
sequence_of (some snapshot) = snapshot.sequence

-- Called behind ValidateReadOptions, so a handle is in the list.
unfoldable pub read_sequence : Readers → Option ℕ → ℕ
read_sequence db none = db.last_sequence
read_sequence db (some handle) = sequence_of (get_elem? db.snapshots handle)

-- The loop of MinActiveSnapshotSequence; 0 stands for no active snapshot.
unfoldable pub min_active_from : ℕ → List Snapshot → ℕ
min_active_from min_sequence [] = min_sequence
min_active_from min_sequence (snapshot ∷ rest) =
    min_active_from
      (if not snapshot.active
        then min_sequence
        else if min_sequence == 0 || ltb snapshot.sequence min_sequence
        then snapshot.sequence
        else min_sequence)
      rest

unfoldable pub min_active_snapshot_sequence : Readers → ℕ
unfolding min_active_from
min_active_snapshot_sequence db = min_active_from 0 db.snapshots
