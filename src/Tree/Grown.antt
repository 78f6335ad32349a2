-- ===== src/Tree/Grown.antt =====
-- ExpandTree keeps the map of a tree, and leaves one bucket in each entry.
use nali.Prelude.{ℕ, ◌≤◌, ◌<◌, ◌≡◌}
use nali.Entry.Defs.{count}
use nali.Group.Search.{Prediction}
use nali.Group.Chain.{node_at}
use nali.Group.Defs.{Group}
use nali.Tree.Defs.{Nali, group_at, slot}
use nali.Tree.Valid.{contents, Used, IsMonotone, IsValid}
use nali.Tree.Sampled.{Sampled}
use nali.Tree.Refilled
use nali.Tree.Spread

-- Models whose predictions do not fall while the keys grow.
abbrev pub IsRising : (ℕ → Prediction) → Type 0
IsRising model = (n k j : ℕ) → k ≤ j → slot (model k) n ≤ slot (model j) n

-- A tree after ExpandTree.
pub record Grown (t t' : Nali) : Type 0 where
  pub valid' : IsValid t'
  pub monotone' : IsMonotone t'
  pub contents' : (k : ℕ) → contents t' k ≡ contents t k
  pub alone :
      (i p : ℕ)
      → Used t'.group_space i
      → p < (group_at t'.group_space i).nr_entries
      → count (node_at (group_at t'.group_space i).entry_space p) ≡ 1
