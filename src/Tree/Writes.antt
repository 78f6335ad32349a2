-- ===== src/Tree/Writes.antt =====
-- An operation on the group of a key, seen from the tree.
use nali.Prelude.{
  ℕ, zero, suc, ◌≤◌, ◌<◌, ◌≡◌, refl, sym, ◌∙◌, ap, inl, inr, Option, List, [], ◌∷◌, arith, ◌==◌,
  if◌then◌else◌, set, get_or-set_self, get_or-set_ne, length-set, ℕ_discrete, Bool-cases,
}
use mathlib.Core.Path.{subst}
use native.Mathlib.Nat.{le_refl}
use nali.Group
use nali.Group.Defs.{Group}
use nali.Group.Chain.{UnderRow, UnderRow-le}
use nali.Group.Valid.{row, first, Effect}
use nali.Tree.Defs.{Nali, group_at, no_group, home, write_group}
use nali.Tree.Valid.{union, union-at, contents, Used, IsMonotone, IsValid, At, elsewhere}

union-set :
    (groups : List Group) (p : ℕ) (g' : Group) (j : ℕ)
    → Used groups p
    → 0 < g'.nr_entries
    → Group.Valid.contents g' j ≡ Group.Valid.contents (group_at groups p) j
    → union (set groups p g') j ≡ union groups j
unfolding union
union-set [] p g' j u h same = refl
union-set (g ∷ groups) zero g' j u h same = rw same (ground (arith, u.1))
union-set (g ∷ groups) (suc p) g' j u h same =
    rw (union-set groups p g' j (omega (arith, u.0), u.1) h same) refl

-- A tree after an operation on `k` that leaves `o` there.
pub record EffectOn (t t' : Nali) (k : ℕ) (o : Option ℕ) : Type 0 where
  pub valid' : IsValid t'
  pub monotone' : IsMonotone t'
  pub contents' : (j : ℕ) → contents t' j ≡ (if k == j then o else contents t j)

module _ (t : Nali) (valid : IsValid t) (monotone : IsMonotone t) (k p : ℕ)
    (at : At t.group_space k p) (g' : Group) (o : Option ℕ)
    (effect : Effect (group_at t.group_space p) g' k o) where
  groups' : List Group
  groups' = set t.group_space p g'

  here : group_at groups' p ≡ g'
  unfolding groups'
  here = get_or-set_self t.group_space p g' no_group at.used.0

  there : (i : ℕ) → ¬ (i ≡ p) → group_at groups' i ≡ group_at t.group_space i
  unfolding groups'
  there i ne = get_or-set_ne t.group_space p i g' no_group (λ e. ne (sym e))

  Used-before : (i : ℕ) → Used groups' i → Used t.group_space i
  unfolding groups'
  Used-before i u = elim (ℕ_discrete i p) [
    | yes e ↦ subst (Used t.group_space) (sym e) at.used
    | no ne ↦ (omega (arith, u.0, length-set t.group_space p g'), rw (← there i ne) u.1)
  ]

  Used-after : (i : ℕ) → Used t.group_space i → Used groups' i
  unfolding groups'
  Used-after i u = (
    omega (arith, u.0, length-set t.group_space p g'),
    elim (ℕ_discrete i p) [
      | yes e ↦ rw (ap (group_at groups') e ∙ here) effect.valid'.some_entry
      | no ne ↦ rw (there i ne) u.1
    ],
  )

  here_at : (i : ℕ) → i ≡ p → group_at groups' i ≡ g'
  here_at i e = ap (group_at groups') e ∙ here

  keeps_above : (i : ℕ) → Used t.group_space i → i < p → first (group_at t.group_space p) ≤ first g'
  keeps_above i u h = effect.lifts (first (group_at t.group_space p)) (le_refl _) (at.here i u h)

  written-ordered :
      (i j : ℕ)
      → Used groups' i
      → Used groups' j
      → i < j
      → UnderRow (row (group_at groups' i)) (first (group_at groups' j))
  written-ordered i j ui uj h = elim (ℕ_discrete i p) [
    | yes e ↦
        rw (there j (λ e'. omega arith), here_at i e)
          (effect.below (first (group_at t.group_space j))
            (valid.ordered p j at.used (Used-before j uj) (omega arith))
            (at.above j (Used-before j uj) (omega arith)))
    | no ne ↦ elim (ℕ_discrete j p) [
      | yes e ↦
          rw (here_at j e, there i ne)
            (UnderRow-le (row (group_at t.group_space i)) (first (group_at t.group_space p))
              (first g') (valid.ordered i p (Used-before i ui) at.used (omega arith))
              (keeps_above i (Used-before i ui) (omega arith)))
      | no ne' ↦
          rw (there j ne', there i ne) (valid.ordered i j (Used-before i ui) (Used-before j uj) h)
    ]
  ]

  written-placed :
      (i j : ℕ)
      → Used groups' i
      → Used groups' j
      → i < j
      → j ≤ home (write_group t p g') (first (group_at groups' j))
  written-placed i j ui uj h = elim (ℕ_discrete j p) [
    | yes e ↦ rw (here_at j e) (
        let low = keeps_above i (Used-before i ui) (omega arith) in
        omega (
          arith,
          e,
          valid.placed i p (Used-before i ui) at.used (omega arith),
          monotone (first (group_at t.group_space p)) (first g') low,
        ))
    | no ne ↦ rw (there j ne) (valid.placed i j (Used-before i ui) (Used-before j uj) h)
  ]

  at_key : union groups' k ≡ o
  at_key =
      union-at groups' k p (Used-after p at.used) (λ i u ne.
        ap (λ g. Group.Valid.contents g k) (there i ne)
        ∙ elsewhere t valid k p i at (Used-before i u) ne)
      ∙ ap (λ g. Group.Valid.contents g k) here
      ∙ ground (arith, effect.contents' k)

  pub write_group_lem : EffectOn t (write_group t p g') k o
  unfolding groups'
  write_group_lem = record {
    valid' = record {
      size = valid.size ∙ sym (length-set t.group_space p g');
      some_group = (p, Used-after p at.used);
      groups = λ i u. elim (ℕ_discrete i p) [
        | yes e ↦ subst Group.Valid.IsValid (sym (here_at i e)) effect.valid'
        | no ne ↦ subst Group.Valid.IsValid (sym (there i ne)) (valid.groups i (Used-before i u))
      ];
      unused = λ i h z. elim (ℕ_discrete i p) [
        | yes e ↦ absurd (
            omega
              (arith, effect.valid'.some_entry, ap (λ (g : Group). g.nr_entries) (here_at i e), z))
        | no ne ↦
            ap (λ (g : Group). g.next_entry_count) (there i ne)
            ∙ valid.unused i (omega (arith, h, length-set t.group_space p g'))
                (ap (λ (g : Group). g.nr_entries) (sym (there i ne)) ∙ z)
      ];
      ordered = written-ordered;
      placed = written-placed;
    };
    monotone' = monotone;
    contents' = λ j. elim (Bool-cases (k == j)) [
      | inl same ↦
          rw same
            (let e : k ≡ j = ground (arith, same) in subst (λ x. union groups' x ≡ o) e at_key)
      | inr other ↦ rw other (
          union-set t.group_space p g' j at.used effect.valid'.some_entry
            (ground (arith, effect.contents' j, other)))
    ];
  }
