-- ===== src/Group/Valid.antt =====
-- The invariant of a group, the map that it stands for, and the entry that `find_entry` picks.
use nali.Prelude.{
  ℕ, zero, suc, ◌+◌, ◌≤◌, ◌<◌, ◌≡◌, refl, sym, ◌∙◌, ap, inl, inr, Option, some, List, [], ◌∷◌,
  arith, ◌==◌, if◌then◌else◌, length, take, set, length-take, take-set_lt, get_or-take, length-set,
}
use mathlib.Core.Path.{subst}
use nali.Entry
use nali.Entry.Defs.{PointerBEntry, count}
use nali.Entry.Edges.{first_key, Moved}
use nali.Group.Bounds.{IsAscending}
use nali.Group.Find.{find_entry-IsPosition}
use nali.Group.Chain.{
  UnderRow, UnderRow-set, node_at, IsChain, find_in, At, first_key_mono, find_in-At, Changed,
  set-IsChain, find_in-set, IsValid-at, first-le-find_in,
}
use nali.Group.Defs.{Group, entry_keys, entry_id}
use nali.Group.Single.{total}

-- the entries in use
abbrev pub row : Group → List PointerBEntry
row g = take g.nr_entries g.entry_space

-- the map that a group stands for
abbrev pub contents : Group → ℕ → Option ℕ
contents g k = find_in (row g) k

pub record IsValid (g : Group) : Type 0 where
  pub some_entry : 0 < g.nr_entries
  pub size : g.nr_entries ≤ length g.entry_space
  pub chain : IsChain (row g)
  pub counted : g.next_entry_count ≡ total (row g)

-- The key of the first entry.
abbrev pub first : Group → ℕ
first g = first_key (node_at g.entry_space 0)

-- A group after an operation on `k` that leaves `o` there; its first key stays above every bound
-- of the first key and of `k`.
pub record Effect (g g' : Group) (k : ℕ) (o : Option ℕ) : Type 0 where
  pub valid' : IsValid g'
  pub contents' : (j : ℕ) → contents g' j ≡ (if k == j then o else contents g j)
  pub below : (bound : ℕ) → UnderRow (row g) bound → k < bound → UnderRow (row g') bound
  pub lifts : (bound : ℕ) → bound ≤ first g → bound ≤ k → bound ≤ first g'

first-set :
    (es : List PointerBEntry) (i : ℕ) (e' : PointerBEntry) (k : ℕ)
    → i < length es
    → Moved (first_key (node_at es i)) (first_key e') k
    → Moved (first_key (node_at es 0)) (first_key (node_at (set es i e') 0)) k
first-set [] i e' k h m = absurd (omega arith)
first-set (e ∷ es) zero e' k h m = m
first-set (e ∷ es) (suc i) e' k h m = inl refl

total-set :
    (es : List PointerBEntry) (i : ℕ) (e' : PointerBEntry)
    → i < length es
    → total (set es i e') + count (node_at es i) ≡ total es + count e'
total-set [] i e' h = absurd (omega arith)
total-set (e ∷ es) zero e' h = omega arith
total-set (e ∷ es) (suc i) e' h = omega (arith, total-set es i e' (omega arith))

module _ (g : Group) (valid : IsValid g) where
  pub length-row : length (row g) ≡ g.nr_entries
  length-row = length-take g.nr_entries g.entry_space valid.size

  pub node_at-row : (i : ℕ) → i < g.nr_entries → node_at (row g) i ≡ node_at g.entry_space i
  node_at-row i h = get_or-take g.nr_entries g.entry_space i (record { entrys = [] }) h

  entry_keys-IsAscending : IsAscending (entry_keys g) g.nr_entries
  entry_keys-IsAscending = record {
    le = λ i j h q.
        rw (← node_at-row i (omega arith), ← node_at-row j q)
          (first_key_mono (row g) i j valid.chain h (omega (arith, length-row)));
  }

  pub entry_id-At : (k : ℕ) → At (row g) k (entry_id g k)
  entry_id-At k =
      let p =
        find_entry-IsPosition (entry_keys g) k g.nr_entries entry_keys-IsAscending (g.model k)
          valid.some_entry in
      record {
        inside = omega (arith, p.inside, length-row);
        above = λ i h q.
            rw (node_at-row i (omega (arith, length-row)))
              (p.above i h (omega (arith, length-row)));
        here = λ h.
            rw (node_at-row (entry_id g k) p.inside)
              (elim p.here [ inl z ↦ absurd (omega arith) | inr q ↦ q ]);
      }

  -- The entry of a key.
  pub record Located (k : ℕ) : Type 0 where
    pub inside : entry_id g k < g.nr_entries
    pub at : At (row g) k (entry_id g k)
    pub valid' : Entry.Valid.IsValid (node_at g.entry_space (entry_id g k))
    pub same : contents g k ≡ Entry.Valid.contents (node_at g.entry_space (entry_id g k)) k

  pub located : (k : ℕ) → Located k
  located k =
      let a = entry_id-At k in
      let inside : entry_id g k < g.nr_entries = omega (arith, a.inside, length-row) in
      let here = node_at-row (entry_id g k) inside in
      record {
        inside = inside;
        at = a;
        valid' =
            subst Entry.Valid.IsValid here (IsValid-at (row g) (entry_id g k) valid.chain a.inside);
        same =
            find_in-At (row g) k (entry_id g k) valid.chain a
            ∙ ap (λ e. Entry.Valid.contents e k) here;
      }

  -- The group with `e'` for the entry of `k`, and the counter that goes with it.
  abbrev pub written : ℕ → PointerBEntry → ℕ → Group
  written k e' n = record g {
    entry_space = set g.entry_space (entry_id g k) e';
    next_entry_count = n;
  }

  pub written_lem :
      (k : ℕ) (e' : PointerBEntry) (n : ℕ) (o : Option ℕ)
      → Changed (node_at g.entry_space (entry_id g k)) e' k o
      → n + count (node_at g.entry_space (entry_id g k)) ≡ g.next_entry_count + count e'
      → Effect g (written k e' n) k o
  written_lem k e' n o c counts =
      let at = located k in
      let i = entry_id g k in
      let here = node_at-row i at.inside in
      let c' : Changed (node_at (row g) i) e' k o = rw here c in
      let same : row (written k e' n) ≡ set (row g) i e' =
        take-set_lt g.nr_entries g.entry_space i e' at.inside in
      record {
        valid' = record {
          some_entry = valid.some_entry;
          size = omega (arith, valid.size, length-set g.entry_space i e');
          chain = subst IsChain (sym same) (set-IsChain (row g) k i e' o valid.chain at.at c');
          counted = rw same (
              omega
                (arith, total-set (row g) i e' at.at.inside, ap count here, counts, valid.counted));
        };
        contents' =
            λ j. ap (λ es. find_in es j) same ∙ find_in-set (row g) k i e' o valid.chain at.at c' j;
        below = λ bound u h.
            subst (λ es. UnderRow es bound) (sym same)
              (UnderRow-set (row g) k i e' o bound at.at.inside c' u h);
        lifts = λ bound h q.
            elim (first-set g.entry_space i e' k (omega (arith, at.inside, valid.size))
              c.keeps.moved) [ inl e ↦ omega arith | inr (e, less) ↦ omega arith ];
      }

-- A group holds no key below its first.
pub first-le-key : (g : Group) (k v : ℕ) → IsValid g → contents g k ≡ some v → first g ≤ k
first-le-key g k v valid h = rw (← node_at-row g valid 0 valid.some_entry) (
    first-le-find_in (row g) k v valid.chain (omega (arith, length-row g valid, valid.some_entry))
      h)
