-- ===== src/Group/Start.antt =====
-- `Init` of a group: the empty map.
use nali.Prelude.{ℕ, ◌≡◌, refl, none, List, arith, length}
use nali.Bucket.Defs.{KvEntry, entry_count}
use nali.Entry.Defs
use nali.Entry.Init.{create_empty-IsValid}
use nali.Group.Search.{Prediction}
use nali.Group.Chain.{find_in}
use nali.Group.Defs.{init}
use nali.Group.Valid.{contents, IsValid}

-- A group after `Init`, over uninitialised records of the full size, is valid and empty, whatever
-- its `min_key` was.
pub init-IsValid :
    (train : List ℕ → ℕ → Prediction) (memory : List KvEntry) (stale : ℕ)
    → length memory ≡ entry_count
    → IsValid (init train memory stale) × ((k : ℕ) → contents (init train memory stale) k ≡ none)
unfolding init find_in Defs.create_empty
init-IsValid train memory stale size =
    let (valid, empty) = create_empty-IsValid memory size 0 8 in
    (
      record { some_entry = omega arith; size = omega arith; chain = (valid, tt); counted = refl },
      λ k. empty k,
    )
