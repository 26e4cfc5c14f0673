-- ===== src/Tests/Tables.antt =====
-- Tests of the choice of the inputs of a compaction in src/db.cc.
use kv_mem.Prelude.{◌≡◌, ◌↔◌, refl, true, false}
use kv_mem.Bytes.{Bytes, text, bytes_ltb}
use kv_mem.Compaction.Ranges.{SstableMeta, Covers, ranges_overlap, ranges_overlap_iff}

abbrev a_to_m : SstableMeta
a_to_m = record { file_number = 3; level = 1; smallest_key = text "a"; largest_key = text "m" }

abbrev k_to_z : SstableMeta
k_to_z = record { file_number = 4; level = 2; smallest_key = text "k"; largest_key = text "z" }

abbrev n_to_z : SstableMeta
n_to_z = record { file_number = 5; level = 2; smallest_key = text "n"; largest_key = text "z" }

overlaps : (ranges_overlap a_to_m k_to_z ≡ true) × (ranges_overlap a_to_m n_to_z ≡ false)
unfolding ranges_overlap bytes_ltb
overlaps = (refl, refl)

ranges_overlap_iff_example :
    (ranges_overlap a_to_m k_to_z ≡ true) ↔ ((key : Bytes) × Covers a_to_m key × Covers k_to_z key)
unfolding bytes_ltb
ranges_overlap_iff_example =
    ranges_overlap_iff a_to_m k_to_z
      (record { some_smallest = refl; some_largest = refl; in_order = refl })
      (record { some_smallest = refl; some_largest = refl; in_order = refl })
