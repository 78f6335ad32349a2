-- ===== src/Tree/Held.antt =====
-- The groups of a tree hold exactly what their buckets hold, and these ascend.
use nali.Prelude.{
  ℕ, zero, suc, ◌≤◌, ◌<◌, ◌≡◌, refl, sym, ◌∙◌, ap, inl, inr, Option, none, some, List, [], ◌∷◌,
  arith, ◌==◌, length, if◌then◌else◌, dec_lt, take,
}
use mathlib.Core.Path.{subst}
use nali.Entry.Defs.{Eentry}
use nali.Group
use nali.Group.Defs.{Group}
use nali.Group.Chain.{UnderRow, find_in-Under}
use nali.Group.Single.{flat}
use nali.Group.Valid.{row, first, first-le-key, node_at-row}
use nali.Group.Sorted.{
  In, Has, Before-le, Sorted, Sorted-append, In-append, In-left, In-right, flat-Before,
  first-le-flat, flat-Sorted,
}
use nali.Group.Held.{find_in-Has, Has-find_in}
use nali.Tree.Defs.{group_at}
use nali.Tree.Expand.{group_entries, all_entries}
use nali.Tree.Valid.{first_some, union, union-at, Used}

-- Valid groups in ascending order, some of them empty.
pub record Rows (groups : List Group) : Type 0 where
  pub valid : (i : ℕ) → Used groups i → Group.Valid.IsValid (group_at groups i)
  pub ordered :
      (i j : ℕ)
      → Used groups i
      → Used groups j
      → i < j
      → UnderRow (row (group_at groups i)) (first (group_at groups j))

Rows-tail : (g : Group) (groups : List Group) → Rows (g ∷ groups) → Rows groups
Rows-tail g groups r = record {
  valid = λ i u. r.valid (suc i) (omega (arith, u.0), u.1);
  ordered = λ i j u w h.
      r.ordered (suc i) (suc j) (omega (arith, u.0), u.1) (omega (arith, w.0), w.1) (omega arith);
}

unused_entries : (g : Group) → ¬ (0 < g.nr_entries) → group_entries g ≡ []
unused_entries g h =
    let z : g.nr_entries ≡ 0 = omega arith in ap (λ n. flat (take n g.entry_space)) z

entries-Used : (g : Group) (x : Eentry) → In x (group_entries g) → 0 < g.nr_entries
entries-Used g x h = elim (dec_lt 0 g.nr_entries) [
  | yes used ↦ used
  | no unused ↦ absurd (subst (In x) (unused_entries g unused) h)
]

-- Where a bucket stands.
pub In-group :
    (x : Eentry) (groups : List Group)
    → In x (all_entries groups)
    → (i : ℕ) × Used groups i × In x (group_entries (group_at groups i))
In-group x [] h = absurd h
In-group x (g ∷ groups) h = elim (In-append x (group_entries g) (all_entries groups) h) [
  | inl q ↦ (0, (omega arith, entries-Used g x q), q)
  | inr q ↦ let (i, u, w) = In-group x groups q in (suc i, (omega (arith, u.0), u.1), w)
]

pub In-all :
    (x : Eentry) (groups : List Group) (i : ℕ)
    → i < length groups
    → In x (group_entries (group_at groups i))
    → In x (all_entries groups)
In-all x [] i h q = absurd (omega arith)
In-all x (g ∷ groups) zero h q = In-left x (group_entries g) (all_entries groups) q
In-all x (g ∷ groups) (suc i) h q =
    In-right x (group_entries g) (all_entries groups) (In-all x groups i (omega arith) q)

first-le-entries :
    (g : Group)
    → Group.Valid.IsValid g
    → (x : Eentry) → In x (group_entries g)
    → first g ≤ x.entry_key
first-le-entries g v x h = rw (← node_at-row g v 0 v.some_entry) (first-le-flat (row g) x v.chain h)

pub all_entries-Sorted : (groups : List Group) → Rows groups → Sorted (all_entries groups)
all_entries-Sorted [] r = tt
all_entries-Sorted (g ∷ groups) r =
    Sorted-append (group_entries g) (all_entries groups) here
      (all_entries-Sorted groups (Rows-tail g groups r))
      (λ x y h q.
        let (i, u, w) = In-group y groups q in
        let u0 : Used (g ∷ groups) 0 = (omega arith, entries-Used g x h) in
        let v = r.valid (suc i) (omega (arith, u.0), u.1) in
        Before-le x (first (group_at groups i)) y.entry_key
          (flat-Before (row g) (first (group_at groups i)) (r.valid 0 u0).chain
            (r.ordered 0 (suc i) u0 (omega (arith, u.0), u.1) (omega arith)) x h)
          (first-le-entries (group_at groups i) v y w))
  where
    here : Sorted (group_entries g)
    here = elim (dec_lt 0 g.nr_entries) [
      | yes used ↦ flat-Sorted (row g) (r.valid 0 (omega arith, used)).chain
      | no unused ↦ rw (unused_entries g unused) tt
    ]

union-group :
    (groups : List Group) (k v : ℕ)
    → union groups k ≡ some v
    → (i : ℕ) × Used groups i × (Group.Valid.contents (group_at groups i) k ≡ some v)
unfolding union
union-group [] k v q = absurd (cc)
union-group (g ∷ groups) k v q = by_rest (λ w e. union-group groups k w e) (union groups k) refl
  where
    here : Option ℕ
    here = if g.nr_entries == 0 then none else Group.Valid.contents g k

    by_rest :
        ((w : ℕ)
          → union groups k ≡ some w
          → (i : ℕ) × Used groups i × (Group.Valid.contents (group_at groups i) k ≡ some w))
        → (o : Option ℕ) → union groups k ≡ o
        → (i : ℕ) × Used (g ∷ groups) i
          × (Group.Valid.contents (group_at (g ∷ groups) i) k ≡ some v)
    by_rest f none e =
        let q' : here ≡ some v = ap (λ o. first_some o here) (sym e) ∙ q in
        elim (dec_lt 0 g.nr_entries) [
          | yes used ↦ (0, (omega arith, used), ground (arith, q'))
          | no unused ↦ absurd (ground (arith, q'))
        ]
    by_rest f (some w) e =
        let (i, u, r) = f v (e ∙ (ap (λ o. first_some o here) (sym e) ∙ q)) in
        (suc i, (omega (arith, u.0), u.1), r)

pub union-Has :
    (groups : List Group) (k v : ℕ)
    → Rows groups
    → union groups k ≡ some v
    → Has (all_entries groups) k v
union-Has groups k v r q =
    let (i, u, e) = union-group groups k v q in
    let (x, h, b) = find_in-Has (row (group_at groups i)) k v (r.valid i u).chain e in
    (x, In-all x groups i u.0 h, b)

not_both :
    (groups : List Group) (k : ℕ)
    → Rows groups
    → (i j : ℕ) → Used groups i
    → Used groups j
    → i < j
    → (v w : ℕ) → Group.Valid.contents (group_at groups i) k ≡ some v
    → Group.Valid.contents (group_at groups j) k ≡ some w
    → ⊥
not_both groups k r i j u u' h v w p q = omega (
  arith,
  find_in-Under (row (group_at groups i)) k v _ (r.valid i u).chain (r.ordered i j u u' h) p,
  first-le-key (group_at groups j) k w (r.valid j u') q,
)

pub Has-union :
    (groups : List Group) (k v : ℕ)
    → Rows groups
    → Has (all_entries groups) k v
    → union groups k ≡ some v
Has-union groups k v r (x, h, b) =
    let (i, u, w) = In-group x groups h in
    let here = Has-find_in (row (group_at groups i)) k v (r.valid i u).chain (x, w, b) in
    union-at groups k i u (λ j u' ne. apart i j u u' ne here) ∙ here
  where
    apart :
        (i j : ℕ)
        → Used groups i
        → Used groups j
        → ¬ (j ≡ i)
        → Group.Valid.contents (group_at groups i) k ≡ some v
        → Group.Valid.contents (group_at groups j) k ≡ none
    apart i j u w ne here = by_value (Group.Valid.contents (group_at groups j) k) refl
      where
        by_value : (o : Option ℕ) → Group.Valid.contents (group_at groups j) k ≡ o → o ≡ none
        by_value none q = refl
        by_value (some v') q = elim (dec_lt i j) [
          | yes less ↦ absurd (not_both groups k r i j u w less v v' here q)
          | no more ↦ absurd (
              not_both groups k r j i w u
                (elim (dec_lt j i) [ yes h ↦ h | no h ↦ absurd (ne (omega arith)) ]) v' v q here)
        ]
