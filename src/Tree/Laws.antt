-- ===== src/Tree/Laws.antt =====
-- `Get`, `Update` and `Delete` of the tree against the map that it stands for.
use nali.Prelude.{ℕ, ◌≡◌, refl, sym, ◌∙◌, ap, none, some, true, false, set-get_or}
use nali.Group
use nali.Group.Defs.{Group}
use nali.Tree.Defs.{Nali, group_at, no_group, update, delete, write_group}
use nali.Tree.Valid.{contents, IsMonotone, IsValid, contents-At}
use nali.Tree.Find.{find_group-At}
use nali.Tree.Writes.{EffectOn, write_group_lem}

module _ (t : Nali) (valid : IsValid t) (monotone : IsMonotone t) (k : ℕ) where
  -- In a valid tree whose predictions do not fall while the keys grow, `Update` of a present key
  -- succeeds, returns the old value, leaves a tree that is valid, with such predictions, and
  -- changes the value of that key only.
  pub update-present :
      (v old : ℕ)
      → contents t k ≡ some old
      → (t' : Nali) × (update t k v ≡ some (t', true, old)) × EffectOn t t' k (some v)
  unfolding update
  update-present v old present =
      let (p, run, at) = find_group-At t valid monotone k in
      let g = group_at t.group_space p in
      let (g', run', effect) =
        Group.Laws.update-some g (valid.groups p at.used) k v old
          (sym (contents-At t valid k p at) ∙ present) in
      (
        write_group t p g',
        rw (run, run') refl,
        write_group_lem t valid monotone k p at g' (some v) effect,
      )

  -- In a valid tree whose predictions do not fall while the keys grow, `Delete` of a present key
  -- succeeds, returns its value, leaves a tree that is valid, with such predictions, and removes
  -- that key only.
  pub delete-present :
      (old : ℕ)
      → contents t k ≡ some old
      → (t' : Nali) × (delete t k ≡ some (t', true, old)) × EffectOn t t' k none
  unfolding delete
  delete-present old present =
      let (p, run, at) = find_group-At t valid monotone k in
      let g = group_at t.group_space p in
      let (g', run', effect) =
        Group.Laws.delete-some g (valid.groups p at.used) k old
          (sym (contents-At t valid k p at) ∙ present) in
      (
        write_group t p g',
        rw (run, run') refl,
        write_group_lem t valid monotone k p at g' none effect,
      )

  -- In a valid tree whose predictions do not fall while the keys grow, `Update` and `Delete` of an
  -- absent key fail and change nothing.
  pub change-missing :
      contents t k ≡ none
      → ((v : ℕ) → update t k v ≡ some (t, false, 0)) × (delete t k ≡ some (t, false, 0))
  unfolding update delete
  change-missing missing =
      let (p, run, at) = find_group-At t valid monotone k in
      let g = group_at t.group_space p in
      let gone = sym (contents-At t valid k p at) ∙ missing in
      let back : write_group t p g ≡ t =
        ap (λ l. record t { group_space = l }) (set-get_or t.group_space p no_group) in
      (
        λ v.
            rw (run, Group.Laws.update-same g (valid.groups p at.used) k v gone)
              (ap (λ d. some (d, false, 0)) back),
        rw (run, Group.Laws.delete-same g (valid.groups p at.used) k gone)
            (ap (λ d. some (d, false, 0)) back),
      )
