-- ===== src/Tree/Start.antt =====
-- `Init` of the tree: the empty map.
use nali.Prelude.{◌<◌, ℕ, ◌≡◌, refl, sym, ap, none, List, [], ◌∷◌, arith, length}
use mathlib.Core.Path.{subst}
use native.Mathlib.Nat.{le_refl}
use nali.Bucket.Defs.{KvEntry, entry_count}
use nali.Group
use nali.Group.Search.{Prediction}
use nali.Group.Defs.{Group}
use nali.Tree.Defs.{group_at, init}
use nali.Tree.Valid.{union, contents, Used, IsMonotone, IsValid}

-- After `Init`, over uninitialised records of the full size, the tree is valid and empty, and its
-- predictions do not fall while the keys grow.
pub init_lem :
    (train : List ℕ → ℕ → Prediction) (memory : List KvEntry) (stale : ℕ)
    → length memory ≡ entry_count
    → IsValid (init train memory stale)
      × IsMonotone (init train memory stale)
      × ((k : ℕ) → contents (init train memory stale) k ≡ none)
unfolding init union Group.Defs.init
init_lem train memory stale size =
    let (valid, empty) = Group.Start.init-IsValid train memory stale size in
    let start : (i : ℕ) → i < 1 → i ≡ 0 = λ i h. omega arith in
    let only : (i : ℕ) → Used (Group.Defs.init train memory stale ∷ []) i → i ≡ 0 =
      λ i u. omega (arith, u.0) in
    (
      record {
        size = refl;
        some_group = (0, (omega arith, omega arith));
        groups = λ i u.
            subst (λ x. Group.Valid.IsValid (group_at (Group.Defs.init train memory stale ∷ []) x))
              (sym (only i u)) valid;
        unused = λ i h z. absurd (
            omega (
              arith,
              ap (λ n. (group_at (Group.Defs.init train memory stale ∷ []) n).nr_entries)
                  (start i h),
              z,
            ));
        ordered = λ i j u w h. absurd (omega (arith, u.0, w.0));
        placed = λ i j u w h. absurd (omega (arith, u.0, w.0));
      },
      λ k j h. le_refl _,
      λ k. empty k,
    )
