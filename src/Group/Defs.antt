-- ===== src/Group/Defs.antt =====
-- group of src/nali.h: its state and operations. `train` stands for the learned model that `model.init`
-- builds from the entry keys, and `memory` for what a new bucket's records hold. A write past the end
-- of `entry_space` is `none`.
use nali.Prelude.{
  ℕ, zero, suc, ◌+◌, Bool, false, ◌||◌, Option, none, some, List, [], ◌∷◌, map, ltb, ◌==◌,
  if◌then◌else◌, length, set, take, replicate, ◌>>=◌,
}
use nali.Bucket.Defs.{Status, KvEntry}
use nali.Entry
use nali.Entry.Defs.{
  zeroed, entry_at, PointerBEntry, count, of_entry, is_full, adjust_entry_key, get_num_keys,
}
use nali.Entry.Edges.{first_key}
use nali.Group.Search.{Prediction, find_entry}
use nali.Group.Chain.{node_at}

pub record Group : Type 0 where
  pub nr_entries : ℕ
  pub next_entry_count : ℕ
  pub min_key : ℕ
  pub entry_space : List PointerBEntry
  pub model : ℕ → Prediction

abbrev pub max_entry_count : ℕ
max_entry_count = 1024

-- PointerBEntry(), which `new PointerBEntry[n]` calls
abbrev pub no_entry : PointerBEntry
no_entry = record { entrys = replicate 4 zeroed }

abbrev pub entry_keys : Group → ℕ → ℕ
entry_keys g i = first_key (node_at g.entry_space i)

-- `find_entry(key)`
abbrev pub entry_id : Group → ℕ → ℕ
entry_id g key = find_entry (entry_keys g) key g.nr_entries (g.model key)

unfoldable pub write_entry : List PointerBEntry → ℕ → PointerBEntry → Option (List PointerBEntry)
write_entry space i e = if ltb i (length space) then some (set space i e) else none

-- `while (!it.end()) { new_entry_space[new_entry_count++] = PointerBEntry(&(*it)); it.next(); }`
unfoldable pub iter_loop :
    ℕ → ℕ → PointerBEntry → List PointerBEntry → ℕ → Option (List PointerBEntry × ℕ)
unfolding write_entry
iter_loop zero cur_idx e space n = some (space, n)
iter_loop (suc rounds) cur_idx e space n = do
  space' ← write_entry space n (of_entry (entry_at e.entrys cur_idx))
  iter_loop rounds (suc cur_idx) e space' (suc n)

-- the loop of `expand` over the entries from `i` on
unfoldable pub copy_loop :
    ℕ → ℕ → List PointerBEntry → List PointerBEntry → ℕ → Option (List PointerBEntry × ℕ)
unfolding iter_loop
copy_loop zero i old space n = some (space, n)
copy_loop (suc rounds) i old space n = do
  (space', n') ← iter_loop (count (node_at old i)) 0 (node_at old i) space n
  copy_loop rounds (suc i) old space' n'

-- The part of `Put` that answers, or expands and goes to `retry0`.
pub data Pass : Type 0 where
  retry : Group → Pass
  done : Group → Status → Pass

module _ (train : List ℕ → ℕ → Prediction) (memory : List KvEntry) where
  -- `min_key` is not set: it holds what the memory held.
  unfoldable pub init : ℕ → Group
  init stale =
      let space = Entry.Defs.create_empty memory 0 8 ∷ [] in
      record {
        nr_entries = 1;
        next_entry_count = 1;
        min_key = stale;
        entry_space = space;
        model = train (map first_key space);
      }

  unfoldable pub expand : Group → Option Group
  unfolding copy_loop
  expand g = do
    e ← adjust_entry_key (node_at g.entry_space 0)
    (space, n) ←
        copy_loop g.nr_entries 0 (set g.entry_space 0 e) (replicate g.next_entry_count no_entry) 0
    some (record g {
      nr_entries = n;
      next_entry_count = n;
      entry_space = space;
      model = train (map first_key (take n space));
    })

  abbrev pub put_entry : Group → ℕ → PointerBEntry → Bool → Group
  put_entry g i e split = record g {
    entry_space = set g.entry_space i e;
    next_entry_count = (if split then g.next_entry_count + 1 else g.next_entry_count);
  }

  unfoldable pub pass : Group → ℕ → ℕ → Option Pass
  unfolding expand
  pass g key value = do
    (e, ret, split) ←
        Entry.Defs.put 2 memory (node_at g.entry_space (entry_id g key)) key value false
    let g' = put_entry g (entry_id g key) e split
    if is_full ret
        then (if ltb max_entry_count g'.next_entry_count
            then some (done g' ret)
            else (do g'' ← expand g'; some (retry g'')))
        else some (done g' ret)

  -- `goto retry0` takes fuel.
  unfoldable pub put : ℕ → Group → ℕ → ℕ → Option (Group × Status)
  unfolding pass
  put zero g key value = none
  put (suc fuel) g key value = do
    p ← pass g key value
    elim p [ retry g' ↦ put fuel g' key value | done g' ret ↦ some (g', ret) ]

-- The operations that change no other part of the group.
unfoldable pub get : Group → ℕ → Option (Bool × ℕ)
get g key = Entry.Defs.get (node_at g.entry_space (entry_id g key)) key

unfoldable pub fast_fail : Group → ℕ → Option (Bool × ℕ)
unfolding get
fast_fail g key = if (g.nr_entries == 0) || ltb key g.min_key then some (false, 0) else get g key

unfoldable pub update : Group → ℕ → ℕ → Option (Group × Bool × ℕ)
update g key value = do
  (e, ret, old) ← Entry.Defs.update (node_at g.entry_space (entry_id g key)) key value
  some (record g { entry_space = set g.entry_space (entry_id g key) e }, ret, old)

unfoldable pub delete : Group → ℕ → Option (Group × Bool × ℕ)
delete g key = do
  (e, ret, old) ← Entry.Defs.delete (node_at g.entry_space (entry_id g key)) key
  some (record g { entry_space = set g.entry_space (entry_id g key) e }, ret, old)
