-- ===== src/Group/Search.antt =====
-- `find_entry` of src/nali.h and its searches, over the entry keys `keys` of `entry_space`.
-- Indices are below `nr_entries_`, an `int`; a loop takes fuel for its rounds.
use nali.Prelude.{ℕ, zero, suc, ◌+◌, ◌-◌, ◌*◌, ◌/◌, ◌&&◌, leb, ltb, if◌then◌else◌}

-- the `int` that a model predicts: `negsuc n` is `- n - 1`
pub data Prediction : Type 0 where
  pos : ℕ → Prediction
  negsuc : ℕ → Prediction

abbrev pub min : ℕ → ℕ → ℕ
min a b = if leb a b then a else b

-- `min(max(0, m), nr_entries_ - 1)`, with `nr_entries_` at least 1
unfoldable pub clamp : Prediction → ℕ → ℕ
clamp (pos m) nr_entries = min m (nr_entries - 1)
clamp (negsuc m) nr_entries = min 0 (nr_entries - 1)

module _ (keys : ℕ → ℕ) (key : ℕ) where
  unfoldable pub linear_loop : ℕ → ℕ → ℕ → ℕ
  linear_loop zero l r = l
  linear_loop (suc fuel) l r =
      let rest = linear_loop fuel (l + 1) r in if ltb l r && leb (keys l) key then rest else l

  unfoldable pub linear_search_upper_bound : ℕ → ℕ → ℕ
  unfolding linear_loop
  linear_search_upper_bound l r = linear_loop (r - l) l r

  unfoldable pub binary_loop : ℕ → ℕ → ℕ → ℕ
  binary_loop zero l r = l
  binary_loop (suc fuel) l r =
      let mid = l + (r - l) / 2 in
      let right = binary_loop fuel (mid + 1) r in
      let left = binary_loop fuel l mid in
      if ltb l r then (if leb (keys mid) key then right else left) else l

  unfoldable pub binary_search_upper_bound : ℕ → ℕ → ℕ
  unfolding binary_loop
  binary_search_upper_bound l r = binary_loop (r - l) l r

  -- `while (bound < size && entry_space[m - bound].entry_key > key) bound *= 2`
  unfoldable pub down_loop : ℕ → ℕ → ℕ → ℕ → ℕ
  down_loop zero m size bound = bound
  down_loop (suc fuel) m size bound =
      let rest = down_loop fuel m size (bound * 2) in
      if ltb bound size && ltb key (keys (m - bound)) then rest else bound

  -- `while (bound < size && entry_space[m + bound].entry_key <= key) bound *= 2`
  unfoldable pub up_loop : ℕ → ℕ → ℕ → ℕ → ℕ
  up_loop zero m size bound = bound
  up_loop (suc fuel) m size bound =
      let rest = up_loop fuel m size (bound * 2) in
      if ltb bound size && leb (keys (m + bound)) key then rest else bound

  -- the range [l, r)
  unfoldable pub search_range : ℕ → ℕ → ℕ × ℕ
  unfolding down_loop up_loop
  search_range nr_entries m =
      if ltb key (keys m)
      then (let size = m in
          let bound = down_loop size m size 1 in (m - min bound size, m - bound / 2))
      else (let size = nr_entries - m in
          let bound = up_loop size m size 1 in (m + bound / 2, m + min bound size))

  -- `max(... - 1, 0)` is the subtraction that stops at 0
  unfoldable pub exponential_search_upper_bound : ℕ → ℕ → ℕ
  unfolding search_range linear_search_upper_bound binary_search_upper_bound
  exponential_search_upper_bound nr_entries m =
      let (l, r) = search_range nr_entries m in
      if ltb (r - l) 6 then linear_search_upper_bound l r - 1 else binary_search_upper_bound l r - 1

  unfoldable pub find_entry : ℕ → Prediction → ℕ
  unfolding exponential_search_upper_bound clamp
  find_entry nr_entries predicted =
      exponential_search_upper_bound nr_entries (clamp predicted nr_entries)
