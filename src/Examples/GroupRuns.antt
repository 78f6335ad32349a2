-- ===== src/Examples/GroupRuns.antt =====
-- A group of twenty entries with the keys 0, 10, 20, and so on.
use nali.Prelude.{ℕ, ◌*◌, ◌≡◌, refl, arith}
use nali.Group.Search.{pos, negsuc, find_entry}
use nali.Group.Bounds.{IsAscending}
use nali.Group.Find.{IsPosition, find_entry-IsPosition}

abbrev tens : ℕ → ℕ
tens i = i * 10

tens-IsAscending : IsAscending tens 20
tens-IsAscending = record { le = λ i j h q. omega arith }

runs :
    (find_entry tens 57 20 (pos 18) ≡ 5)
    × (find_entry tens 57 20 (pos 1000) ≡ 5)
    × (find_entry tens 57 20 (negsuc 3) ≡ 5)
    × (find_entry tens 57 20 (pos 5) ≡ 5)
    × (find_entry tens 500 20 (pos 0) ≡ 19)
    × (find_entry tens 0 20 (pos 12) ≡ 0)
unfolding find_entry
runs = (refl, refl, refl, refl, refl, refl)

find_entry-IsPosition_example :
    IsPosition tens 57 20 tens-IsAscending (find_entry tens 57 20 (pos 18))
find_entry-IsPosition_example =
    find_entry-IsPosition tens 57 20 tens-IsAscending (pos 18) (omega arith)
