-- ===== src/Tests/Readers.antt =====
-- Tests of the snapshots and of what a compaction keeps, of src/db.cc.
use kv_mem.Prelude.{ℕ, ◌<◌, ◌≡◌, ◌↔◌, ◌⊎◌, refl, some, true, false, List, [], ◌∷◌, All, arith}
use mathlib.Core.List.{head?}
use kv_mem.Bytes.{text}
use kv_mem.Types.{VersionedEntry}
use kv_mem.Compaction.Retain.{retain}
use kv_mem.Compaction.Retain.Visible.{
  visible, value_read, visible-retain_snapshot, value_read-retain_latest, retain_newest,
}
use kv_mem.Db.Snapshots.{Readers, get_snapshot, close_readers, min_active_snapshot_sequence}
use kv_mem.Db.Snapshots.Invariant.{
  Reach, start, next, opens, takes, closes, Spares, IsActiveAt, Reach-Spares,
}

abbrev version : ℕ → VersionedEntry
version n = record { key = text "k"; sequence = n; value = []; deleted = false }

abbrev tombstone : ℕ → VersionedEntry
tombstone n = record { key = text "k"; sequence = n; value = []; deleted = true }

abbrev history : List VersionedEntry
history = tombstone 9 ∷ version 7 ∷ version 4 ∷ version 2 ∷ []

retain_runs :
    (retain 5 1 history ≡ tombstone 9 ∷ version 7 ∷ version 4 ∷ [])
    × (retain 0 2 history ≡ [])
    × (retain 0 1 history ≡ tombstone 9 ∷ [])
unfolding retain
retain_runs = (refl, refl, refl)

visible-retain_snapshot_example : visible 6 (retain 5 1 history) ≡ visible 6 history
visible-retain_snapshot_example =
    visible-retain_snapshot 5 1 6 history (omega arith) (omega arith) (omega arith)

value_read-retain_latest_example :
    value_read (visible 9 (retain 0 2 history)) ≡ value_read (visible 9 history)
value_read-retain_latest_example =
    value_read-retain_latest 2 9 (tombstone 9) (version 7 ∷ version 4 ∷ version 2 ∷ [])
      (omega arith)

retain_newest_example :
    head? (retain 5 2 history) ≡ some (tombstone 9)
    ↔ ((2 < 2) ⊎ (0 < 5) ⊎ ((tombstone 9).deleted ≡ false))
retain_newest_example = retain_newest 5 2 (tombstone 9) (version 7 ∷ version 4 ∷ version 2 ∷ [])

-- Opened at sequence 8 with a snapshot, closed, and opened again on another directory at sequence 3,
-- with a snapshot there.
abbrev opened_at : ℕ → Readers → Readers
opened_at n db = record db { closed = false; last_sequence = n }

abbrev old_directory : Readers
old_directory =
    (get_snapshot (opened_at 8 (record { closed = true; last_sequence = 0; snapshots = [] }))).0

abbrev new_directory : Readers
new_directory = (get_snapshot (opened_at 3 (close_readers old_directory))).0

new_directory-Reach : Reach new_directory
unfolding close_readers
new_directory-Reach =
    let before : Reach old_directory = next (next (start 0) (opens _ 8 refl)) (takes _) in
    next (next (next before (closes _)) (opens _ 3 refl)) (takes _)

new_directory_min :
    (min_active_snapshot_sequence new_directory ≡ 3)
    × (new_directory.snapshots
        ≡ record { sequence = 8; active = false } ∷ record { sequence = 3; active = true } ∷ [])
unfolding min_active_snapshot_sequence get_snapshot close_readers
new_directory_min = (refl, refl)

Reach-Spares_example :
    let least = min_active_snapshot_sequence new_directory in
    All (Spares least) new_directory.snapshots
    × ((least ≡ 0) ⊎ IsActiveAt least new_directory.snapshots)
Reach-Spares_example = Reach-Spares new_directory-Reach
