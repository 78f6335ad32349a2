-- ===== src/Examples/TreeRuns.antt =====
-- A group of two entries, and a tree of two groups, the first with the keys below 100.
use nali.Prelude.{
  ℕ, zero, suc, ◌≤◌, ◌<◌, ◌≡◌, refl, ◌⊎◌, none, some, true, false, List, [], ◌∷◌, arith, ltb,
  if◌then◌else◌,
}
use nali.Bucket
use nali.Bucket.Defs.{KvEntry, ok, full}
use nali.Bucket.Contents.{value_of}
use nali.Entry
use nali.Entry.Defs.{PointerBEntry, adjust_entry_key}
use nali.Entry.Route.{bucket_of, pos_of, target}
use nali.Entry.Init.{create-Stored}
use nali.Entry.Edges.{first_key, Under}
use nali.Entry.Adjust.{HasKey}
use nali.Group
use nali.Group.Search.{Prediction, pos}
use nali.Group.Chain.{UnderRow, find_in, node_at}
use nali.Group.Defs.{Group, max_entry_count}
use nali.Tree
use nali.Tree.Defs.{Nali, group_at, slot}
use nali.Examples.BucketRuns.{memory, few}
use nali.Examples.EntryRuns.{small, small-IsValid}

-- a model that predicts the first place, whatever it learns from
abbrev train : List ℕ → ℕ → Prediction
train keys key = pos 0

abbrev high : PointerBEntry
high = Entry.Defs.create memory 100 7 0

small-Under : Under small 100
unfolding bucket_of target pos_of value_of
small-Under = record { last = omega arith; keys = λ j v q. ground (arith, q) }

abbrev pair_group : Group
pair_group = record {
  nr_entries = 2;
  next_entry_count = 2;
  min_key = 0;
  entry_space = small ∷ high ∷ [];
  model = λ key. pos 1;
}

pair_group-IsValid : Group.Valid.IsValid pair_group
unfolding Entry.Defs.create
pair_group-IsValid = record {
  some_entry = omega arith;
  size = omega arith;
  chain = (small-IsValid, small-Under, ((create-Stored memory refl 100 0 7).0, tt));
  counted = refl;
}

pair_group-HasKey : HasKey (node_at pair_group.entry_space 0)
pair_group-HasKey = (few, refl, omega arith)

absent_pair : Group.Valid.contents pair_group 20 ≡ none
unfolding find_in Entry.Defs.create bucket_of target pos_of value_of
absent_pair = refl

present_pair : Group.Valid.contents pair_group 9 ≡ some 90
unfolding find_in Entry.Defs.create bucket_of target pos_of value_of
present_pair = refl

abbrev one_group : PointerBEntry → Group
one_group e = record {
  nr_entries = 1;
  next_entry_count = 1;
  min_key = first_key e;
  entry_space = e ∷ [];
  model = λ key. pos 0;
}

abbrev low_or_high : ℕ → Prediction
low_or_high key = pos (if ltb key 100 then 0 else 64)

abbrev pair_tree : Nali
pair_tree = record {
  nr_groups = 2;
  group_space = one_group small ∷ one_group high ∷ [];
  model = low_or_high;
  root_expand_times = 0;
}

pair_tree-IsValid : Tree.Valid.IsValid pair_tree
unfolding Entry.Defs.create find_in slot
pair_tree-IsValid = record {
  size = refl;
  some_group = (0, (omega arith, omega arith));
  groups = by_group;
  unused = none_unused;
  ordered = by_order;
  placed = by_place;
}
  where
    by_group :
        (i : ℕ)
        → Tree.Valid.Used pair_tree.group_space i
        → Group.Valid.IsValid (group_at pair_tree.group_space i)
    by_group zero u = record {
      some_entry = omega arith;
      size = omega arith;
      chain = (small-IsValid, tt);
      counted = refl;
    }
    by_group (suc zero) u = record {
      some_entry = omega arith;
      size = omega arith;
      chain = ((create-Stored memory refl 100 0 7).0, tt);
      counted = refl;
    }
    by_group (suc (suc i)) u = absurd (omega (arith, u.0))

    none_unused :
        (i : ℕ)
        → i < 2
        → (group_at pair_tree.group_space i).nr_entries ≡ 0
        → (group_at pair_tree.group_space i).next_entry_count ≡ 0
    none_unused zero h z = absurd (omega (arith, z))
    none_unused (suc zero) h z = absurd (omega (arith, z))
    none_unused (suc (suc i)) h z = absurd (omega arith)

    by_order :
        (i j : ℕ)
        → Tree.Valid.Used pair_tree.group_space i
        → Tree.Valid.Used pair_tree.group_space j
        → i < j
        → UnderRow
            (Group.Valid.row (group_at pair_tree.group_space i))
            (Group.Valid.first (group_at pair_tree.group_space j))
    by_order zero zero u w h = absurd (omega arith)
    by_order zero (suc zero) u w h = small-Under
    by_order i (suc (suc j)) u w h = absurd (omega (arith, w.0))
    by_order (suc i) zero u w h = absurd (omega arith)
    by_order (suc i) (suc zero) u w h = absurd (omega arith)

    by_place :
        (i j : ℕ)
        → Tree.Valid.Used pair_tree.group_space i
        → Tree.Valid.Used pair_tree.group_space j
        → i < j
        → j ≤ Tree.Defs.home pair_tree (Group.Valid.first (group_at pair_tree.group_space j))
    by_place i zero u w h = omega arith
    by_place i (suc zero) u w h = omega arith
    by_place i (suc (suc j)) u w h = absurd (omega (arith, w.0))

pair_tree-IsMonotone : Tree.Valid.IsMonotone pair_tree
unfolding slot
pair_tree-IsMonotone k j h = ground (arith, h)

absent_tree : Tree.Valid.contents pair_tree 20 ≡ none
unfolding Tree.Valid.union find_in Entry.Defs.create bucket_of target pos_of value_of
    Bucket.Defs.put Bucket.Defs.create
absent_tree = refl

present_tree : Tree.Valid.contents pair_tree 9 ≡ some 90
unfolding Tree.Valid.union find_in Entry.Defs.create bucket_of target pos_of value_of
    Bucket.Defs.put Bucket.Defs.create
present_tree = refl

expand-Expanded_example :
    (g' : Group) × (Group.Defs.expand train memory pair_group ≡ some g')
    × Group.Grown.Expanded train pair_group pair_group-IsValid g'
expand-Expanded_example =
    Group.Grown.expand-Expanded train memory pair_group pair_group-IsValid pair_group-HasKey

put-expand_example :
    ((g' : Group) × (Group.Defs.put train memory 2 pair_group 20 200 ≡ some (g', ok))
      × Group.Valid.Effect pair_group g' 20 (some 200))
    ⊎ ((Group.Defs.put train memory 2 pair_group 20 200 ≡ some (pair_group, full))
        × (max_entry_count < 2))
put-expand_example =
    Group.Put.put-expand train memory refl 20 200 pair_group 0 pair_group-IsValid pair_group-HasKey
      absent_pair

find_group-At_example :
    (p : ℕ) × (Tree.Defs.find_group pair_tree 120 ≡ some p)
    × Tree.Valid.At pair_tree.group_space 120 p
find_group-At_example = Tree.Find.find_group-At pair_tree pair_tree-IsValid pair_tree-IsMonotone 120

update-present_example :
    (t' : Nali) × (Tree.Defs.update pair_tree 9 1 ≡ some (t', true, 90))
    × Tree.Writes.EffectOn pair_tree t' 9 (some 1)
update-present_example =
    Tree.Laws.update-present pair_tree pair_tree-IsValid pair_tree-IsMonotone 9 1 90 present_tree

delete-present_example :
    (t' : Nali) × (Tree.Defs.delete pair_tree 9 ≡ some (t', true, 90))
    × Tree.Writes.EffectOn pair_tree t' 9 none
delete-present_example =
    Tree.Laws.delete-present pair_tree pair_tree-IsValid pair_tree-IsMonotone 9 90 present_tree

change-missing_example :
    ((v : ℕ) → Tree.Defs.update pair_tree 20 v ≡ some (pair_tree, false, 0))
    × (Tree.Defs.delete pair_tree 20 ≡ some (pair_tree, false, 0))
change-missing_example =
    Tree.Laws.change-missing pair_tree pair_tree-IsValid pair_tree-IsMonotone 20 absent_tree

init_lem_example :
    Tree.Valid.IsValid (Tree.Defs.init train memory 3)
    × Tree.Valid.IsMonotone (Tree.Defs.init train memory 3)
    × ((k : ℕ) → Tree.Valid.contents (Tree.Defs.init train memory 3) k ≡ none)
init_lem_example = Tree.Start.init_lem train memory 3 refl
