-- ===== src/Examples/EntryRuns.antt =====
-- Entries with one bucket: a full one that a put splits, and one with three records.
use nali.Prelude.{ℕ, ◌≡◌, refl, none, some, true, false, [], ◌∷◌, arith, ◌==◌, if◌then◌else◌}
use nali.Bucket.Defs.{UnSortBuncket}
use nali.Bucket.Contents.{value_of}
use nali.Entry.Defs.{Eentry, is_valid, zeroed, PointerBEntry, count, get, update, delete}
use nali.Entry.Route.{bucket_of, pos_of, target, Holds}
use nali.Entry.Valid.{IsValid, contents}
use nali.Entry.Edges.{Keeps}
use nali.Entry.Locate
use nali.Entry.Laws
use nali.Entry.Store.{Outcome, put-Outcome}
use nali.Examples.BucketRuns.{memory, few, many, few-IsValid, many-IsValid}

abbrev entry_of : UnSortBuncket → Eentry
entry_of b = record {
  entry_key = 0;
  pointer = some b;
  prefix_bytes = 0;
  suffix_bytes = 8;
  entries = 1;
}

abbrev node_of : UnSortBuncket → PointerBEntry
node_of b = record { entrys = entry_of b ∷ zeroed ∷ zeroed ∷ zeroed ∷ [] }

abbrev pub small : PointerBEntry
small = node_of few

abbrev large : PointerBEntry
large = node_of many

few-Holds : Holds (entry_of few)
unfolding is_valid
few-Holds = record {
  bucket = few;
  pointed = refl;
  valid = few-IsValid;
  above = λ k v q. omega arith;
  set_up = refl;
}

many-Holds : Holds (entry_of many)
unfolding is_valid
many-Holds = record {
  bucket = many;
  pointed = refl;
  valid = many-IsValid;
  above = λ k v q. omega arith;
  set_up = refl;
}

pub small-IsValid : IsValid small
small-IsValid = record {
  size = refl;
  used = omega arith;
  bounded = omega arith;
  routed = (few-Holds, tt);
}

large-IsValid : IsValid large
large-IsValid = record {
  size = refl;
  used = omega arith;
  bounded = omega arith;
  routed = (many-Holds, tt);
}

absent_large : contents large 20 ≡ none
unfolding bucket_of target pos_of value_of
absent_large = refl

present_small : contents small 9 ≡ some 90
unfolding bucket_of target pos_of value_of
present_small = refl

get-contents_example :
    get small 9 ≡ elim (contents small 9) [ some v ↦ some (true, v) | none ↦ some (false, 0) ]
get-contents_example = Locate.get-contents small small-IsValid 9

put-Outcome_example : Outcome memory large large-IsValid 20 200 absent_large 2 false
put-Outcome_example = put-Outcome memory refl large large-IsValid 20 200 absent_large 0 false

update-contents_example :
    (e' : PointerBEntry) × (update small 9 1 ≡ some (e', true, 90))
    × IsValid e'
    × ((j : ℕ) → contents e' j ≡ (if 9 == j then some 1 else contents small j))
    × (count e' ≡ count small)
    × Keeps small e' 9
update-contents_example = Laws.update-contents small small-IsValid 9 1 90 present_small

delete-contents_example :
    (e' : PointerBEntry) × (delete small 9 ≡ some (e', true, 90))
    × IsValid e'
    × ((j : ℕ) → contents e' j ≡ (if 9 == j then none else contents small j))
    × (count e' ≡ count small)
    × Keeps small e' 9
delete-contents_example = Laws.delete-contents small small-IsValid 9 90 present_small
