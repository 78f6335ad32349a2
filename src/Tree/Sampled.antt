-- ===== src/Tree/Sampled.antt =====
-- The first loop of ExpandTree: it adjusts the first key of every group and changes nothing else.
use nali.Prelude.{
  ℕ, zero, suc, ◌+◌, ◌≤◌, ◌<◌, ◌≡◌, refl, sym, ◌∙◌, ap, inl, inr, true, false, Option, none, some,
  List, [], ◌∷◌, ◌++◌, arith, ◌==◌, length, if◌then◌else◌, Bool-cases, dec_lt, take, set, map,
  take-set_lt, length-set, get_or-set_self,
}
use mathlib.Core.Path.{subst}
use native.Mathlib.Nat.{le_refl}
use nali.Entry
use nali.Entry.Defs.{PointerBEntry, adjust_entry_key}
use nali.Entry.Edges.{first_key}
use nali.Entry.Adjust.{HasKey, Adjusted, adjust_entry_key_lem}
use nali.Group
use nali.Group.Chain.{UnderRow, UnderRow-le, node_at, IsChain, find_in, IsValid-at}
use nali.Group.Defs.{Group}
use nali.Group.Grown.{Adjusted-IsChain, Adjusted-find_in, Adjusted-UnderRow}
use nali.Group.Single.{total}
use nali.Group.Valid.{row, first, node_at-row}
use nali.Tree.Defs.{group_at, no_group}
use nali.Tree.Expand.{sample_loop, group_entries}
use nali.Tree.Valid.{Used, first_some, union}
use nali.Tree.Held.{Rows}

-- A row whose first entry was adjusted.
record Row (es es' : List PointerBEntry) : Type 0 where
  chain' : IsChain es'
  found' : (k : ℕ) → find_in es' k ≡ find_in es k
  under' : (bound : ℕ) → UnderRow es bound → UnderRow es' bound
  total' : total es' ≡ total es

set-Row :
    (es : List PointerBEntry) (e' : PointerBEntry)
    → 0 < length es
    → IsChain es
    → Adjusted (node_at es 0) e'
    → Row es (set es 0 e')
set-Row [] e' h c a = absurd (omega arith)
set-Row (e ∷ es) e' h c a = record {
  chain' = Adjusted-IsChain e e' es a c;
  found' = λ k. Adjusted-find_in e e' es k a;
  under' = λ bound. Adjusted-UnderRow e e' es bound a;
  total' = omega (arith, a.count');
}

-- A group of the tree before and after the loop.
pub record Same (g g' : Group) : Type 0 where
  pub entries' : g'.nr_entries ≡ g.nr_entries
  pub counter' : g'.next_entry_count ≡ g.next_entry_count
  pub valid' : 0 < g.nr_entries → Group.Valid.IsValid g'
  pub found' : (k : ℕ) → Group.Valid.contents g' k ≡ Group.Valid.contents g k
  pub under' : (bound : ℕ) → UnderRow (row g) bound → UnderRow (row g') bound
  pub first' : first g ≤ first g'

adjusted-Same :
    (g : Group) (valid : Group.Valid.IsValid g)
    → HasKey (node_at g.entry_space 0)
    → (e : PointerBEntry) × (adjust_entry_key (node_at g.entry_space 0) ≡ some e)
      × Same g (record g { entry_space = set g.entry_space 0 e })
adjusted-Same g valid key =
    let here = node_at-row g valid 0 valid.some_entry in
    let v = subst Entry.Valid.IsValid here (
      IsValid-at (row g) 0 valid.chain
        (omega (arith, Group.Valid.length-row g valid, valid.some_entry))) in
    let (e, run, a) = adjust_entry_key_lem (node_at g.entry_space 0) v key in
    let a' : Adjusted (node_at (row g) 0) e = rw here a in
    let w =
      set-Row (row g) e (omega (arith, Group.Valid.length-row g valid, valid.some_entry))
        valid.chain a' in
    let same : take g.nr_entries (set g.entry_space 0 e) ≡ set (row g) 0 e =
      take-set_lt g.nr_entries g.entry_space 0 e valid.some_entry in
    (
      e,
      run,
      record {
        entries' = refl;
        counter' = refl;
        valid' = λ h. record {
          some_entry = valid.some_entry;
          size = omega (arith, valid.size, length-set g.entry_space 0 e);
          chain = subst IsChain (sym same) w.chain';
          counted = rw same (omega (arith, w.total', valid.counted));
        };
        found' = λ k. ap (λ es. find_in es k) same ∙ w.found' k;
        under' = λ bound u. subst (λ es. UnderRow es bound) (sym same) (w.under' bound u);
        first' = omega (
          arith,
          a.raised',
          ap first_key (
              get_or-set_self g.entry_space 0 e (record { entrys = [] })
                (omega (arith, valid.size, valid.some_entry))),
        );
      },
    )

Same-refl : (g : Group) → (0 < g.nr_entries → Group.Valid.IsValid g) → Same g g
Same-refl g v = record {
  entries' = refl;
  counter' = refl;
  valid' = v;
  found' = λ k. refl;
  under' = λ bound u. u;
  first' = le_refl _;
}

-- What the loop needs of the groups.
pub record Ready (groups : List Group) : Type 0 where
  pub valid : (i : ℕ) → Used groups i → Group.Valid.IsValid (group_at groups i)
  pub keys : (i : ℕ) → Used groups i → HasKey (node_at (group_at groups i).entry_space 0)
  pub unused :
      (i : ℕ)
      → i < length groups
      → (group_at groups i).nr_entries ≡ 0
      → (group_at groups i).next_entry_count ≡ 0

Ready-tail : (g : Group) (groups : List Group) → Ready (g ∷ groups) → Ready groups
Ready-tail g groups r = record {
  valid = λ i u. r.valid (suc i) (omega (arith, u.0), u.1);
  keys = λ i u. r.keys (suc i) (omega (arith, u.0), u.1);
  unused = λ i h. r.unused (suc i) (omega arith);
}

-- The groups after the loop.
pub record Sampled (groups groups' : List Group) (n : ℕ) : Type 0 where
  pub size' : length groups' ≡ length groups
  pub same : (i : ℕ) → Same (group_at groups i) (group_at groups' i)
  pub some_entry : (i : ℕ) → Used groups i → 0 < n

Sampled-cons :
    (g g' : Group) (groups groups' : List Group) (n : ℕ)
    → Same g g'
    → (0 < g.nr_entries → 0 < g.next_entry_count)
    → Sampled groups groups' n
    → Sampled (g ∷ groups) (g' ∷ groups') (g.next_entry_count + n)
Sampled-cons g g' groups groups' n s pos r = record {
  size' = ap suc r.size';
  same = same;
  some_entry = some_entry;
}
  where
    same : (i : ℕ) → Same (group_at (g ∷ groups) i) (group_at (g' ∷ groups') i)
    same zero = s
    same (suc i) = r.same i

    some_entry : (i : ℕ) → Used (g ∷ groups) i → 0 < g.next_entry_count + n
    some_entry zero u = omega (arith, pos u.1)
    some_entry (suc i) u = omega (arith, r.some_entry i (omega (arith, u.0), u.1))

total-pos : (es : List PointerBEntry) → IsChain es → 0 < length es → 0 < total es
total-pos [] c h = h
total-pos (e ∷ es) c h = let v = IsValid-at (e ∷ es) 0 c (omega arith) in omega (arith, v.used)

counter-pos : (g : Group) → Group.Valid.IsValid g → 0 < g.next_entry_count
counter-pos g v = omega (
  arith,
  v.counted,
  total-pos (row g) v.chain (omega (arith, Group.Valid.length-row g v, v.some_entry)),
)

pub sample_loop-Sampled :
    (groups : List Group)
    → Ready groups
    → (groups' : List Group) × (keys : List ℕ) × (n : ℕ) × (sample_loop groups
        ≡ some (groups', keys, n))
      × Sampled groups groups' n
unfolding sample_loop
sample_loop-Sampled [] r = (
  [],
  [],
  0,
  refl,
  record {
    size' = refl;
    same = λ i. Same-refl no_group (λ h. absurd (omega arith));
    some_entry = λ i u. absurd (omega (arith, u.0));
  },
)
sample_loop-Sampled (g ∷ groups) r =
    let (groups', keys, n, run, rest) = sample_loop-Sampled groups (Ready-tail g groups r) in
    elim (dec_lt 0 g.nr_entries) [
      | no unused ↦
          let zero_count : g.next_entry_count ≡ 0 = r.unused 0 (omega arith) (omega arith) in
          let test : (g.next_entry_count == 0) ≡ true = ground arith in
          (
            g ∷ groups',
            keys,
            n,
            rw (run, test) refl,
            subst (Sampled (g ∷ groups) (g ∷ groups')) (omega arith) (
                Sampled-cons g g groups groups' n (Same-refl g (λ h. absurd (unused h)))
                  (λ h. absurd (unused h)) rest),
          )
      | yes used ↦
          let u : Used (g ∷ groups) 0 = (omega arith, used) in
          let (e, run', s) = adjusted-Same g (r.valid 0 u) (r.keys 0 u) in
          let pos = counter-pos g (r.valid 0 u) in
          let test : (g.next_entry_count == 0) ≡ false = ground arith in
          let g' : Group = record g { entry_space = set g.entry_space 0 e } in
          (
            g' ∷ groups',
            map (λ x. x.entry_key) (group_entries g') ++ keys,
            g.next_entry_count + n,
            rw (run, test, run') refl,
            Sampled-cons g g' groups groups' n s (λ h. pos) rest,
          )
    ]

-- The order of the groups stays.
pub Sampled-Rows :
    (groups groups' : List Group) (n : ℕ) → Sampled groups groups' n → Rows groups → Rows groups'
Sampled-Rows groups groups' n s r = record {
  valid = λ i u. (s.same i).valid' (back i u).1;
  ordered = λ i j u w h.
      UnderRow-le (row (group_at groups' i)) (first (group_at groups j))
        (first (group_at groups' j))
        ((s.same i).under' (first (group_at groups j)) (r.ordered i j (back i u) (back j w) h))
        (s.same j).first';
}
  where
    back : (i : ℕ) → Used groups' i → Used groups i
    back i u = (omega (arith, u.0, s.size'), rw (← (s.same i).entries') u.1)

part-Same :
    (g g' : Group) (k : ℕ)
    → Same g g'
    → ◌≡◌ {A = Option ℕ}
        (if g'.nr_entries == 0 then none else Group.Valid.contents g' k)
        (if g.nr_entries == 0 then none else Group.Valid.contents g k)
part-Same g g' k s = elim (Bool-cases (g.nr_entries == 0)) [
  | inl unused ↦
      let unused' : (g'.nr_entries == 0) ≡ true = ap (λ n. n == 0) s.entries' ∙ unused in
      rw (unused, unused') refl
  | inr used ↦
      let used' : (g'.nr_entries == 0) ≡ false = ap (λ n. n == 0) s.entries' ∙ used in
      rw (used, used') (s.found' k)
]

-- So does the map.
pub union-Same :
    (groups groups' : List Group) (k : ℕ)
    → length groups' ≡ length groups
    → ((i : ℕ) → Same (group_at groups i) (group_at groups' i))
    → union groups' k ≡ union groups k
unfolding union
union-Same [] [] k h same = refl
union-Same [] (g' ∷ groups') k h same = absurd (omega arith)
union-Same (g ∷ groups) [] k h same = absurd (omega arith)
union-Same (g ∷ groups) (g' ∷ groups') k h same =
    rw (union-Same groups groups' k (omega arith) (λ i. same (suc i)))
      (ap (first_some (union groups k)) (part-Same g g' k (same 0)))
