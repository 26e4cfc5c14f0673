-- ===== src/Compaction/Retain.antt =====
-- Which versions of one user key a compaction keeps: the end of the merge loop of
-- DB::CompactUnlocked in src/db.cc, from the sorted versions on.
pub mod Visible
use kv_mem.Prelude.{
  ℕ, ◌<◌, Bool, true, false, not, ◌||◌, ◌&&◌, List, [], ◌∷◌, ltb, ◌==◌, if◌then◌else◌,
}
use kv_mem.Types.{VersionedEntry}

-- for (auto& version : versions), with the flag `kept_boundary`.
unfoldable pub keep_versions : ℕ → Bool → List VersionedEntry → List VersionedEntry
keep_versions min_snapshot kept_boundary [] = []
keep_versions min_snapshot kept_boundary (version ∷ rest) =
    let newer = ltb min_snapshot version.sequence in
    let boundary = not newer && not kept_boundary in
    let more = keep_versions min_snapshot (kept_boundary || boundary) rest in
    if newer || boundary then version ∷ more else more

-- What one key adds to the output. `versions.front()` is there: a key comes with a version.
unfoldable pub retain : ℕ → ℕ → List VersionedEntry → List VersionedEntry
unfolding keep_versions
retain min_snapshot target_level [] = []
retain min_snapshot target_level (front ∷ rest) =
    if min_snapshot == 0
    then (if not front.deleted || ltb target_level 2 then front ∷ [] else [])
    else keep_versions min_snapshot false (front ∷ rest)
