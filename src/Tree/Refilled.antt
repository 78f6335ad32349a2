-- ===== src/Tree/Refilled.antt =====
-- The groups after the loops of ExpandTree, for predictions that do not fall while the keys grow.
use nali.Prelude.{
  ℕ, ◌≤◌, ◌<◌, ◌≡◌, refl, sym, ◌∙◌, ap, inl, Option, none, some, List, [], ◌∷◌, arith, length,
  length-map, dec_lt,
}
use mathlib.Core.Path.{subst}
use nali.Entry.Defs.{Eentry, entry_at, of_entry, count}
use nali.Group
use nali.Group.Search.{Prediction}
use nali.Group.Defs.{Group}
use nali.Group.Chain.{UnderRow, node_at}
use nali.Group.Valid.{row, first}
use nali.Group.Sorted.{In, Has, Sorted}
use nali.Tree.Defs.{group_at}
use nali.Tree.Expand.{all_entries, group_entries}
use nali.Tree.Valid.{union, Used}
use nali.Tree.Held.{Rows, In-group, In-all, union-Has, Has-union}
use nali.Tree.Spread.{picked}
use nali.Tree.Picked.{In-picked, picked-In, picked-Sorted, lower-Before}
use nali.Tree.Packed.{
  packed, packed-first, packed-IsValid, packed-UnderRow, packed-count, entries-packed,
  packed-entries,
}

-- The group at `i` has the entries of `l` that `dest` sends there.
pub record At (dest : ℕ → ℕ) (l : List Eentry) (groups : List Group) (i : ℕ) : Type 0 where
  pub least : ℕ
  pub model : ℕ → Prediction
  pub same : group_at groups i ≡ packed (picked dest i l) least model

head-In : (l : List Eentry) → 0 < length l → In (entry_at l 0) l
head-In [] h = absurd (omega arith)
head-In (x ∷ l) h = inl refl

In-length : (x : Eentry) (l : List Eentry) → In x l → 0 < length l
In-length x [] h = absurd h
In-length x (y ∷ l) h = omega arith

same_some :
    (a b : Option ℕ)
    → ((v : ℕ) → a ≡ some v → b ≡ some v)
    → ((v : ℕ) → b ≡ some v → a ≡ some v)
    → a ≡ b
same_some none none f g = refl
same_some none (some v) f g = g v refl
same_some (some v) b f g = sym (f v refl)

module _ (dest : ℕ → ℕ) (rises : (k j : ℕ) → k ≤ j → dest k ≤ dest j) (l : List Eentry)
    (sorted : Sorted l) (groups : List Group) (fits : (k : ℕ) → dest k < length groups)
    (at : (i : ℕ) → i < length groups → At dest l groups i) where
  some_picked : (i : ℕ) → Used groups i → 0 < length (picked dest i l)
  some_picked i u =
      let a = at i u.0 in
      omega
        (arith, u.1, ap (λ (g : Group). g.nr_entries) a.same, length-map of_entry (picked dest i l))

  first-at :
      (i : ℕ) → Used groups i → first (group_at groups i) ≡ (entry_at (picked dest i l) 0).entry_key
  first-at i u =
      let a = at i u.0 in
      ap first a.same ∙ packed-first (picked dest i l) a.least a.model (some_picked i u)

  -- The first key of a group is sent to it.
  pub dest-first : (i : ℕ) → Used groups i → dest (first (group_at groups i)) ≡ i
  dest-first i u =
      ap dest (first-at i u)
      ∙ (In-picked dest _ i l (head-In (picked dest i l) (some_picked i u))).1

  refilled-ordered :
      (i j : ℕ)
      → Used groups i
      → Used groups j
      → i < j
      → UnderRow (row (group_at groups i)) (first (group_at groups j))
  refilled-ordered i j u w h =
      let a = at i u.0 in
      let y = entry_at (picked dest j l) 0 in
      let (here, to) = In-picked dest y j l (head-In (picked dest j l) (some_picked j w)) in
      rw (a.same, first-at j w)
        (packed-UnderRow (picked dest i l) a.least a.model y.entry_key (some_picked i u)
          (picked-Sorted dest i l sorted)
          (λ x q.
            let (there, from) = In-picked dest x i l q in
            lower-Before l x y sorted there here (elim (dec_lt x.entry_key y.entry_key) [
              | yes less ↦ less
              | no more ↦
                  absurd (omega (arith, rises y.entry_key x.entry_key (omega arith), to, from))
            ])))

  pub refilled-Rows : Rows groups
  refilled-Rows = record {
    valid = λ i u.
        let a = at i u.0 in
        subst Group.Valid.IsValid (sym a.same) (
          packed-IsValid (picked dest i l) a.least a.model (some_picked i u)
            (picked-Sorted dest i l sorted));
    ordered = refilled-ordered;
  }

  refilled-Has : (k v : ℕ) → Has (all_entries groups) k v → Has l k v
  refilled-Has k v (z, h, q) =
      let (i, u, w) = In-group z groups h in
      let a = at i u.0 in
      let (x, p, same) =
        entries-packed (picked dest i l) a.least a.model z
          (subst (λ g. In z (group_entries g)) a.same w) in
      (x, (In-picked dest x i l p).0, sym (same k) ∙ q)

  Has-refilled : (k v : ℕ) → Has l k v → Has (all_entries groups) k v
  Has-refilled k v (x, h, q) =
      let i = dest x.entry_key in
      let a = at i (fits x.entry_key) in
      let (z, p, same) =
        packed-entries (picked dest i l) a.least a.model x (picked-In dest x l h) in
      (
        z,
        In-all z groups i (fits x.entry_key) (subst (λ g. In z (group_entries g)) (sym a.same) p),
        same k ∙ q,
      )

  -- Groups that hold the entries of `l` stand for the same map.
  pub refilled-union :
      (old : List Group) → Rows old → all_entries old ≡ l → (k : ℕ) → union groups k ≡ union old k
  refilled-union old r e k =
      same_some (union groups k) (union old k)
        (λ v q. Has-union old k v r (
          subst (λ m. Has m k v) (sym e) (refilled-Has k v (union-Has groups k v refilled-Rows q))))
        (λ v q.
          Has-union groups k v refilled-Rows
            (Has-refilled k v (subst (λ m. Has m k v) e (union-Has old k v r q))))

  pub refilled-count :
      (i p : ℕ)
      → Used groups i
      → p < (group_at groups i).nr_entries
      → count (node_at (group_at groups i).entry_space p) ≡ 1
  refilled-count i p u h =
      let a = at i u.0 in
      ap (λ (g : Group). count (node_at g.entry_space p)) a.same
      ∙ packed-count (picked dest i l) a.least a.model p (
          omega (
            arith,
            h,
            ap (λ (g : Group). g.nr_entries) a.same,
            length-map of_entry (picked dest i l),
          ))

  pub refilled-Used : (x : Eentry) → In x l → Used groups (dest x.entry_key)
  refilled-Used x h =
      let i = dest x.entry_key in
      let a = at i (fits x.entry_key) in
      (
        fits x.entry_key,
        omega (
          arith,
          ap (λ (g : Group). g.nr_entries) a.same,
          length-map of_entry (picked dest i l),
          In-length x (picked dest i l) (picked-In dest x l h),
        ),
      )

  pub refilled-unused :
      (i : ℕ)
      → i < length groups
      → (group_at groups i).nr_entries ≡ 0
      → (group_at groups i).next_entry_count ≡ 0
  refilled-unused i h z =
      let a = at i h in
      omega (
        arith,
        z,
        ap (λ (g : Group). g.nr_entries) a.same,
        ap (λ (g : Group). g.next_entry_count) a.same,
      )
