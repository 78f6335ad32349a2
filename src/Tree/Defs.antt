-- ===== src/Tree/Defs.antt =====
-- Nali of src/nali.h, run by one thread: its state, the search for a group, and the operations that
-- change one group. `lock_space` and `is_tree_expand` are left out.
use nali.Prelude.{
  ℕ, zero, suc, ◌-◌, ◌/◌, Bool, true, ◌||◌, Option, none, some, List, [], ◌∷◌, ltb, ◌==◌,
  if◌then◌else◌, length, get_or, set, ◌>>=◌,
}
use nali.Bucket.Defs.{KvEntry}
use nali.Entry.Edges.{first_key}
use nali.Group.Search.{Prediction, pos, negsuc, min}
use nali.Group.Chain.{node_at}
use nali.Group
use nali.Group.Defs.{Group, fast_fail}

pub record Nali : Type 0 where
  pub nr_groups : ℕ
  pub group_space : List Group
  pub model : ℕ → Prediction
  pub root_expand_times : ℕ

abbrev pub min_entry_count : ℕ
min_entry_count = 64

-- a group after `memset` to 0; nothing asks its model
abbrev pub no_group : Group
no_group = record {
  nr_entries = 0;
  next_entry_count = 0;
  min_key = 0;
  entry_space = [];
  model = λ key. pos 0;
}

abbrev pub group_at : List Group → ℕ → Group
group_at groups i = get_or groups i no_group

-- `min(max(0, predicted / min_entry_count), nr_groups_ - 1)`, with `nr_groups_` at least 1. The
-- quotient of a negative prediction, taken on 64 unsigned bits and cut to an `int`, is not above 0.
unfoldable pub slot : Prediction → ℕ → ℕ
slot (pos m) nr_groups = min (m / min_entry_count) (nr_groups - 1)
slot (negsuc m) nr_groups = min 0 (nr_groups - 1)

abbrev pub home : Nali → ℕ → ℕ
home t key = slot (t.model key) t.nr_groups

-- `while (group_id > 0 && (nr_entries_ == 0 || key < entry_space[0].entry_key)) group_id--`
unfoldable pub back_loop : List Group → ℕ → ℕ → ℕ
back_loop groups key zero = zero
back_loop groups key (suc i) =
    let g = group_at groups (suc i) in
    let rest = back_loop groups key i in
    if (g.nr_entries == 0) || ltb key (first_key (node_at g.entry_space 0)) then rest else suc i

-- `while (nr_entries_ == 0) group_id++`; `none` is a read out of bounds
unfoldable pub forward_loop : ℕ → List Group → ℕ → Option ℕ
forward_loop zero groups i = none
forward_loop (suc fuel) groups i =
    let rest = forward_loop fuel groups (suc i) in
    if ltb i (length groups)
    then (if (group_at groups i).nr_entries == 0 then rest else some i)
    else none

unfoldable pub find_group : Nali → ℕ → Option ℕ
unfolding back_loop forward_loop
find_group t key = forward_loop t.nr_groups t.group_space (back_loop t.group_space key (home t key))

unfoldable pub find_fast : Nali → ℕ → Option (Bool × ℕ)
find_fast t key = fast_fail (group_at t.group_space (home t key)) key

unfoldable pub find_slow : Nali → ℕ → Option (Bool × ℕ)
unfolding find_group
find_slow t key = do
  group_id ← find_group t key
  Group.Defs.get (group_at t.group_space group_id) key

unfoldable pub get : Nali → ℕ → Option (Bool × ℕ)
unfolding find_fast find_slow
get t key = do (ret, value) ← find_fast t key; if ret then some (true, value) else find_slow t key

abbrev pub write_group : Nali → ℕ → Group → Nali
write_group t i g = record t { group_space = set t.group_space i g }

unfoldable pub update : Nali → ℕ → ℕ → Option (Nali × Bool × ℕ)
unfolding find_group
update t key value = do
  group_id ← find_group t key
  (g, ret, old) ← Group.Defs.update (group_at t.group_space group_id) key value
  some (write_group t group_id g, ret, old)

unfoldable pub delete : Nali → ℕ → Option (Nali × Bool × ℕ)
unfolding find_group
delete t key = do
  group_id ← find_group t key
  (g, ret, old) ← Group.Defs.delete (group_at t.group_space group_id) key
  some (write_group t group_id g, ret, old)

-- The model of the tree is not built: its slope and its intercept are 0. `stale` is what the memory
-- of the group's `min_key` held.
module _ (train : List ℕ → ℕ → Prediction) (memory : List KvEntry) where
  unfoldable pub init : ℕ → Nali
  unfolding Group.Defs.init
  init stale = record {
    nr_groups = 1;
    group_space = Group.Defs.init train memory stale ∷ [];
    model = λ key. pos 0;
    root_expand_times = 0;
  }
