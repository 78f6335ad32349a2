-- ===== src/Examples/ScanRuns.antt =====
-- Scans of a bucket with three records, 7, 3 and 9 in this order.
use nali.Prelude.{◌≡◌, refl, true, false, [], ◌∷◌, map}
use nali.Bucket.Defs.{ok, failed}
use nali.Bucket.Sort.{get_sorted_index}
use nali.Bucket.Scan.{scan}
use nali.Examples.BucketRuns.{few, pair}

runs :
    (scan few 0 5 [] true ≡ (3, map pair (7 ∷ 9 ∷ []), failed))
    × (scan few 0 5 [] false ≡ (2, map pair (7 ∷ 3 ∷ 9 ∷ []), failed))
    × (scan few 0 2 [] false ≡ (0, map pair (7 ∷ 7 ∷ []), ok))
unfolding scan get_sorted_index
runs = (refl, refl, refl)
