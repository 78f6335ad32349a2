-- ===== src/Tree/Valid.antt =====
-- The invariant of the tree and the map that it stands for.
use nali.Prelude.{
  ℕ, zero, suc, ◌≤◌, ◌<◌, ◌≡◌, refl, Option, none, some, List, [], ◌∷◌, arith, ◌==◌, if◌then◌else◌,
  length, dec_lt, false,
}
use nali.Group
use nali.Group.Defs.{Group}
use nali.Group.Chain.{UnderRow, find_in-Under}
use nali.Group.Valid.{row, first, first-le-key, Effect}
use nali.Tree.Defs.{Nali, group_at, home}

-- A later group's pair wins; the invariant says that no two groups share a key.
abbrev pub first_some : Option ℕ → Option ℕ → Option ℕ
first_some none o = o
first_some (some v) o = some v

first_some-none : (o : Option ℕ) → first_some o none ≡ o
first_some-none none = refl
first_some-none (some v) = refl

unfoldable pub union : List Group → ℕ → Option ℕ
union [] k = none
union (g ∷ groups) k =
    first_some (union groups k) (if g.nr_entries == 0 then none else Group.Valid.contents g k)

-- the map that a tree stands for
abbrev pub contents : Nali → ℕ → Option ℕ
contents t k = union t.group_space k

abbrev pub Used : List Group → ℕ → Type 0
Used groups i = (i < length groups) × (0 < (group_at groups i).nr_entries)

-- The predictions do not fall while the keys grow.
abbrev pub IsMonotone : Nali → Type 0
IsMonotone t = (k j : ℕ) → k ≤ j → home t k ≤ home t j

pub record IsValid (t : Nali) : Type 0 where
  pub size : t.nr_groups ≡ length t.group_space
  pub some_group : (i : ℕ) × Used t.group_space i
  pub groups : (i : ℕ) → Used t.group_space i → Group.Valid.IsValid (group_at t.group_space i)
  pub unused :
      (i : ℕ)
      → i < length t.group_space
      → (group_at t.group_space i).nr_entries ≡ 0
      → (group_at t.group_space i).next_entry_count ≡ 0
  pub ordered :
      (i j : ℕ)
      → Used t.group_space i
      → Used t.group_space j
      → i < j
      → UnderRow (row (group_at t.group_space i)) (first (group_at t.group_space j))
  pub placed :
      (i j : ℕ)
      → Used t.group_space i
      → Used t.group_space j
      → i < j
      → j ≤ home t (first (group_at t.group_space j))

-- The group that a key belongs to.
pub record At (groups : List Group) (k p : ℕ) : Type 0 where
  pub used : Used groups p
  pub above : (i : ℕ) → Used groups i → p < i → k < first (group_at groups i)
  pub here : (i : ℕ) → Used groups i → i < p → first (group_at groups p) ≤ k

part-none :
    (g : Group) (k : ℕ)
    → (0 < g.nr_entries → Group.Valid.contents g k ≡ none)
    → ◌≡◌ {A = Option ℕ} (if g.nr_entries == 0 then none else Group.Valid.contents g k) none
part-none g k h = ground arith

union-none :
    (groups : List Group) (k : ℕ)
    → ((i : ℕ) → Used groups i → Group.Valid.contents (group_at groups i) k ≡ none)
    → union groups k ≡ none
unfolding union
union-none [] k h = refl
union-none (g ∷ groups) k h =
    rw
      (
        union-none groups k (λ i u. h (suc i) (omega (arith, u.0), u.1)),
        part-none g k (λ q. h 0 (omega arith, q)),
      )
      refl

-- Where only the group at `p` may hold `k`, the union finds what it holds.
pub union-at :
    (groups : List Group) (k p : ℕ)
    → Used groups p
    → ((i : ℕ) → Used groups i → ¬ (i ≡ p) → Group.Valid.contents (group_at groups i) k ≡ none)
    → union groups k ≡ Group.Valid.contents (group_at groups p) k
unfolding union
union-at [] k p u other = absurd (omega (arith, u.0))
union-at (g ∷ groups) k zero u other =
    let rest =
      union-none groups k (λ i w. other (suc i) (omega (arith, w.0), w.1) (λ e. omega arith)) in
    let here : (g.nr_entries == 0) ≡ false = ground (arith, u.1) in rw (rest, here) refl
union-at (g ∷ groups) k (suc p) u other =
    let rest =
      union-at groups k p (omega (arith, u.0), u.1)
        (λ i w ne. other (suc i) (omega (arith, w.0), w.1) (λ e. ne (omega arith))) in
    let here = part-none g k (λ q. other 0 (omega arith, q) (λ e. omega arith)) in
    rw (rest, here) (first_some-none (Group.Valid.contents (group_at groups p) k))

-- A key is in no group but its own.
module _ (t : Nali) (valid : IsValid t) where
  keys-below :
      (i j : ℕ)
      → Used t.group_space i
      → Used t.group_space j
      → i < j
      → (k v : ℕ) → Group.Valid.contents (group_at t.group_space i) k ≡ some v
      → k < first (group_at t.group_space j)
  keys-below i j u w h k v q =
      find_in-Under (row (group_at t.group_space i)) k v _ (valid.groups i u).chain
        (valid.ordered i j u w h) q

  pub elsewhere :
      (k p i : ℕ)
      → At t.group_space k p
      → Used t.group_space i
      → ¬ (i ≡ p)
      → Group.Valid.contents (group_at t.group_space i) k ≡ none
  elsewhere k p i a u ne = by_value (Group.Valid.contents (group_at t.group_space i) k) refl
    where
      by_value : (o : Option ℕ) → Group.Valid.contents (group_at t.group_space i) k ≡ o → o ≡ none
      by_value none q = refl
      by_value (some v) q = elim (dec_lt i p) [
        | yes before ↦
            absurd (omega (arith, a.here i u before, keys-below i p u a.used before k v q))
        | no after ↦
            let later : p < i = elim (dec_lt p i) [
              | yes h ↦ h
              | no h ↦ absurd (ne (omega arith))
            ] in
            absurd (
              omega (
                arith,
                a.above i u later,
                first-le-key (group_at t.group_space i) k v (valid.groups i u) q,
              ))
      ]

  pub contents-At :
      (k p : ℕ)
      → At t.group_space k p
      → contents t k ≡ Group.Valid.contents (group_at t.group_space p) k
  contents-At k p a = union-at t.group_space k p a.used (λ i. elsewhere k p i a)
