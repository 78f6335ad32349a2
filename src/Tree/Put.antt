-- ===== src/Tree/Put.antt =====
-- `Put` of the tree: it stores the value in the group of the key, or expands the tree.
use nali.Prelude.{
  ℕ, suc, ◌≡◌, ◌<◌, refl, sym, ◌∙◌, ap, ◌⊎◌, inl, inr, none, some, List, length, set-get_or, ◌>>=◌,
}
use nali.Bucket.Defs.{KvEntry, entry_count, ok}
use nali.Entry.Adjust.{HasKey}
use nali.Group
use nali.Group.Search.{Prediction}
use nali.Group.Chain.{node_at}
use nali.Group.Defs.{max_entry_count}
use nali.Tree.Defs.{Nali, group_at, no_group, write_group}
use nali.Tree.Expand.{expand_tree, put}
use nali.Tree.Valid.{contents, Used, IsMonotone, IsValid, contents-At}
use nali.Tree.Find.{find_group-At}
use nali.Tree.Writes.{EffectOn, write_group_lem}

-- Every group that is in use has a key in its first bucket.
abbrev pub HasKeys : Nali → Type 0
HasKeys t =
    (i : ℕ) → Used t.group_space i → HasKey (node_at (group_at t.group_space i).entry_space 0)

module _ (train train_tree : List ℕ → ℕ → Prediction) (memory : List KvEntry)
    (size : length memory ≡ entry_count) where
  -- In a valid tree whose predictions do not fall while the keys grow, where every group in use
  -- has a key in its first bucket, the new key is absent, and fresh buckets have the full size,
  -- `Put` stores the pair and leaves a tree that is valid, with such predictions, and unchanged
  -- elsewhere; or some group in use counts more than 1,024 buckets, and `Put` goes on with one
  -- fuel less on the tree that `ExpandTree` makes of the same tree.
  pub put-EffectOn :
      (t : Nali) (fuel k v : ℕ)
      → IsValid t
      → IsMonotone t
      → HasKeys t
      → contents t k ≡ none
      → ((t' : Nali) × (put train train_tree memory (suc fuel) t k v ≡ some (t', ok))
          × EffectOn t t' k (some v))
        ⊎ ((put train train_tree memory (suc fuel) t k v ≡ (do
          t' ← expand_tree train train_tree memory t
          put train train_tree memory fuel t' k v))
            × ((i : ℕ) × Used t.group_space i
                × (max_entry_count < (group_at t.group_space i).next_entry_count)))
  unfolding put
  put-EffectOn t fuel k v valid monotone keys absent =
      let (p, run, at) = find_group-At t valid monotone k in
      let g = group_at t.group_space p in
      let back : write_group t p g ≡ t =
        ap (λ l. record t { group_space = l }) (set-get_or t.group_space p no_group) in
      elim (Group.Put.put-expand train memory size k v g 0 (valid.groups p at.used) (keys p at.used)
        (sym (contents-At t valid k p at) ∙ absent)) [
          | inl (g', run', effect) ↦ inl (
            write_group t p g',
            rw (run, run') refl,
            write_group_lem t valid monotone k p at g' (some v) effect,
          )
          | inr (run', large) ↦ inr (
            rw (run, run')
                (ap
                  (λ d.
                    expand_tree train train_tree memory d
                    >>= (λ t'. put train train_tree memory fuel t' k v))
                  back),
            (p, at.used, large),
          )
        ]
