-- ===== src/Tree/Expand.antt =====
-- ExpandTree of src/nali.h and `Put`, which calls it, run by one thread. `train` and `train_tree`
-- stand for the models that are built from entry keys; a write past the end of a space is `none`.
use nali.Prelude.{
  ℕ, zero, suc, ◌+◌, ◌-◌, ◌/◌, Option, none, some, List, [], ◌∷◌, ◌++◌, map, ◌==◌, if◌then◌else◌,
  set, take, replicate, ◌>>=◌,
}
use nali.Bucket.Defs.{Status, KvEntry}
use nali.Entry.Defs.{Eentry, of_entry, is_full, adjust_entry_key}
use nali.Entry.Edges.{first_key}
use nali.Group
use nali.Group.Search.{Prediction}
use nali.Group.Chain.{node_at}
use nali.Group.Defs.{Group, no_entry, write_entry}
use nali.Group.Single.{flat}
use nali.Tree.Defs.{Nali, no_group, group_at, slot, min_entry_count, find_group, write_group}

-- what group::EntryIter goes through: the buckets of the entries in use, each of which has one
abbrev pub group_entries : Group → List Eentry
group_entries g = flat (take g.nr_entries g.entry_space)

abbrev pub all_entries : List Group → List Eentry
all_entries [] = []
all_entries (g ∷ groups) = group_entries g ++ all_entries groups

-- The first loop: the groups adjusted, the keys for the builder, and `entry_count`.
unfoldable pub sample_loop : List Group → Option (List Group × List ℕ × ℕ)
sample_loop [] = some ([], [], 0)
sample_loop (g ∷ groups) = do
  (groups', keys, entry_count) ← sample_loop groups
  if g.next_entry_count == 0 then some (g ∷ groups', keys, entry_count) else (do
    e ← adjust_entry_key (node_at g.entry_space 0)
    let g' = record g { entry_space = set g.entry_space 0 e }
    some (
      g' ∷ groups',
      map (λ x. x.entry_key) (group_entries g') ++ keys,
      g.next_entry_count + entry_count,
    ))

-- The second loop: `inc_entry_count` of the group that each entry goes to.
unfoldable pub count_loop : (ℕ → ℕ) → List Eentry → List Group → List Group
count_loop dest [] groups = groups
count_loop dest (x ∷ l) groups =
    let g = group_at groups (dest x.entry_key) in
    count_loop dest l
      (set groups (dest x.entry_key) (record g { next_entry_count = g.next_entry_count + 1 }))

unfoldable pub reserve_space : Group → Group
reserve_space g =
    if g.next_entry_count == 0
    then g
    else record g { entry_space = replicate g.next_entry_count no_entry }

unfoldable pub append_entry : Group → Eentry → Option Group
unfolding write_entry
append_entry g x = do
  space ← write_entry g.entry_space g.nr_entries (of_entry x)
  some (record g { entry_space = space; nr_entries = g.nr_entries + 1 })

-- The third loop.
unfoldable pub append_loop : (ℕ → ℕ) → List Eentry → List Group → Option (List Group)
unfolding append_entry
append_loop dest [] groups = some groups
append_loop dest (x ∷ l) groups = do
  g ← append_entry (group_at groups (dest x.entry_key)) x
  append_loop dest l (set groups (dest x.entry_key) g)

module _ (train : List ℕ → ℕ → Prediction) (train_tree : List ℕ → ℕ → Prediction)
    (memory : List KvEntry) where
  unfoldable pub re_tarin : Group → Group
  re_tarin g = if g.next_entry_count == 0 then g else record g {
    model = train (map first_key (take g.nr_entries g.entry_space));
    min_key = first_key (node_at g.entry_space 0);
  }

  -- `new_nr_groups` is `entry_count / min_entry_count`, rounded up
  unfoldable pub expand_tree : Nali → Option Nali
  unfolding sample_loop count_loop reserve_space append_loop re_tarin
  expand_tree t = do
    (groups, keys, entry_count) ← sample_loop t.group_space
    let model = train_tree keys
    let new_nr_groups = (entry_count + (min_entry_count - 1)) / min_entry_count
    let dest : ℕ → ℕ = λ key. slot (model key) new_nr_groups
    let counted = count_loop dest (all_entries groups) (replicate new_nr_groups no_group)
    new_group_space ← append_loop dest (all_entries groups) (map reserve_space counted)
    some (record {
      nr_groups = new_nr_groups;
      group_space = map re_tarin new_group_space;
      model = model;
      root_expand_times = t.root_expand_times + 1;
    })

  -- `goto retry0` takes fuel.
  unfoldable pub put : ℕ → Nali → ℕ → ℕ → Option (Nali × Status)
  unfolding expand_tree
  put zero t key value = none
  put (suc fuel) t key value = do
    group_id ← find_group t key
    (g, ret) ← Group.Defs.put train memory 2 (group_at t.group_space group_id) key value
    let t' = write_group t group_id g
    if is_full ret then (do t'' ← expand_tree t'; put fuel t'' key value) else some (t', ret)
