-- ===== src/Group/Grown.antt =====
-- `expand` keeps the map of a group, and leaves one bucket in each entry.
use nali.Prelude.{
  ℕ, zero, suc, ◌≤◌, ◌<◌, ◌≡◌, refl, sym, ◌∙◌, ap, some, List, [], ◌∷◌, map, arith, length, take,
  replicate, length-map,
}
use mathlib.Core.Path.{subst}
use nali.Bucket.Defs.{KvEntry}
use nali.Entry
use nali.Entry.Defs.{PointerBEntry, count, of_entry, adjust_entry_key}
use nali.Entry.Edges.{first_key}
use nali.Entry.Adjust.{HasKey, Adjusted, adjust_entry_key_lem}
use nali.Group.Search.{Prediction}
use nali.Group.Chain.{UnderRow, node_at, IsChain, find_in, IsValid-at}
use nali.Group.Defs.{Group, no_entry, expand}
use nali.Group.Single.{flat, total, expanded, length-flat, expanded-SameRow, UnderRow-expanded}
use nali.Group.Fill.{copy_loop-fill, fill_all}
use nali.Group.Valid.{row, first, contents, IsValid, node_at-row}

-- A row whose first entry was adjusted.
pub Adjusted-IsChain :
    (e e' : PointerBEntry) (es : List PointerBEntry)
    → Adjusted e e'
    → IsChain (e ∷ es)
    → IsChain (e' ∷ es)
Adjusted-IsChain e e' [] a c = (a.valid', tt)
Adjusted-IsChain e e' (f ∷ es) a c = (a.valid', a.under' (first_key f) c.1, c.2)

pub Adjusted-find_in :
    (e e' : PointerBEntry) (es : List PointerBEntry) (k : ℕ)
    → Adjusted e e'
    → find_in (e' ∷ es) k ≡ find_in (e ∷ es) k
unfolding find_in
Adjusted-find_in e e' [] k a = a.contents' k
Adjusted-find_in e e' (f ∷ es) k a = rw (a.contents' k) refl

pub Adjusted-UnderRow :
    (e e' : PointerBEntry) (es : List PointerBEntry) (bound : ℕ)
    → Adjusted e e'
    → UnderRow (e ∷ es) bound
    → UnderRow (e' ∷ es) bound
Adjusted-UnderRow e e' [] bound a u = a.under' bound u
Adjusted-UnderRow e e' (f ∷ es) bound a u = u

-- `expand` on the row alone.
record Grown (es es' : List PointerBEntry) : Type 0 where
  pub head' : first_key (node_at es 0) ≤ first_key (node_at es' 0)
  pub chain' : IsChain es'
  pub under' : (bound : ℕ) → UnderRow es bound → UnderRow es' bound
  pub found' : (k : ℕ) → find_in es' k ≡ find_in es k
  pub length' : length es' ≡ total es
  pub total' : total es' ≡ total es

pub total-singles : (l : List Entry.Defs.Eentry) → total (map of_entry l) ≡ length l
unfolding of_entry
total-singles [] = refl
total-singles (x ∷ l) = omega (arith, total-singles l)

expanded-Grown :
    (e e' : PointerBEntry) (es : List PointerBEntry)
    → Adjusted e e'
    → IsChain (e ∷ es)
    → Grown (e ∷ es) (expanded (e' ∷ es))
expanded-Grown e e' es a c =
    let c' = Adjusted-IsChain e e' es a c in
    let same = expanded-SameRow e' es c' in
    let size = length-flat (e' ∷ es) c' in
    record {
      head' = omega (arith, a.raised', same.head);
      chain' = same.chain;
      under' = λ bound u. UnderRow-expanded e' es bound c' (Adjusted-UnderRow e e' es bound a u);
      found' = λ k. same.found k ∙ Adjusted-find_in e e' es k a;
      length' = omega (arith, length-map of_entry (flat (e' ∷ es)), size, a.count');
      total' = omega (arith, total-singles (flat (e' ∷ es)), size, a.count');
    }

pub take_all : {A : Type 0} (l : List A) → take (length l) l ≡ l
take_all [] = refl
take_all (x ∷ l) = ap (◌∷◌ x) (take_all l)

pub count-singles :
    (l : List Entry.Defs.Eentry) (i : ℕ) → i < length l → count (node_at (map of_entry l) i) ≡ 1
unfolding of_entry
count-singles [] i h = absurd (omega arith)
count-singles (x ∷ l) zero h = refl
count-singles (x ∷ l) (suc i) h = count-singles l i (omega arith)

module _ (train : List ℕ → ℕ → Prediction) (g : Group) (valid : IsValid g) where
  -- A group after `expand`: the same map, and room in every entry.
  pub record Expanded (g' : Group) : Type 0 where
    pub valid' : IsValid g'
    pub contents' : (k : ℕ) → contents g' k ≡ contents g k
    pub alone : (i : ℕ) → i < g'.nr_entries → count (node_at g'.entry_space i) ≡ 1
    pub entries' : g'.nr_entries ≡ g.next_entry_count
    pub below' : (bound : ℕ) → UnderRow (row g) bound → UnderRow (row g') bound
    pub first' : first g ≤ first g'
    pub counter' : g'.next_entry_count ≡ g.next_entry_count

  abbrev rebuilt : List PointerBEntry → Group
  rebuilt es = record g {
    nr_entries = length es;
    next_entry_count = length es;
    entry_space = es;
    model = train (map first_key (take (length es) es));
  }

  rebuilt-Expanded :
      (l : List Entry.Defs.Eentry)
      → Grown (row g) (map of_entry l)
      → 0 < length l
      → Expanded (rebuilt (map of_entry l))
  rebuilt-Expanded l w h =
      let size = length-map of_entry l in
      record {
        valid' = record {
          some_entry = omega (arith, size);
          size = omega arith;
          chain = subst IsChain (sym (take_all (map of_entry l))) w.chain';
          counted = rw (take_all (map of_entry l)) (omega (arith, total-singles l, size));
        };
        contents' = λ k. ap (λ es. find_in es k) (take_all (map of_entry l)) ∙ w.found' k;
        alone = λ i q. count-singles l i (omega (arith, size));
        entries' = omega (arith, w.length', valid.counted);
        below' = λ bound u.
            subst (λ es. UnderRow es bound) (sym (take_all (map of_entry l))) (w.under' bound u);
        first' = omega (arith, w.head', ap first_key (node_at-row g valid 0 valid.some_entry));
        counter' = omega (arith, w.length', valid.counted);
      }

module _ (train : List ℕ → ℕ → Prediction) (memory : List KvEntry) where
  expand_fields :
      (nr next least : ℕ) (es : List PointerBEntry) (model : ℕ → Prediction)
      → (valid : IsValid (record {
        nr_entries = nr;
        next_entry_count = next;
        min_key = least;
        entry_space = es;
        model = model;
      }))
      → HasKey (node_at es 0)
      → (let g : Group = record {
        nr_entries = nr;
        next_entry_count = next;
        min_key = least;
        entry_space = es;
        model = model;
      } in
          (g' : Group) × (expand train memory g ≡ some g') × Expanded train g valid g')
  unfolding expand
  expand_fields zero next least es model valid first = absurd (omega (arith, valid.some_entry))
  expand_fields (suc n) next least [] model valid first = absurd (omega (arith, valid.size))
  expand_fields (suc n) next least (e ∷ es) model valid first =
      let g : Group = record {
        nr_entries = suc n;
        next_entry_count = next;
        min_key = least;
        entry_space = e ∷ es;
        model = model;
      } in
      let (e', run, a) =
        adjust_entry_key_lem e (IsValid-at (row g) 0 valid.chain (omega arith)) first in
      let w = expanded-Grown e e' (take n es) a valid.chain in
      let all = expanded (e' ∷ take n es) in
      let reserved : next ≡ length all = omega (arith, w.length', valid.counted) in
      let copied =
        copy_loop-fill (suc n) 0 (e' ∷ es) (replicate next no_entry) 0 (omega (arith, valid.size))
          (Adjusted-IsChain e e' (take n es) a valid.chain) in
      let filled = fill_all all [] no_entry ∙ ap (λ m. some (all, m)) (omega arith) in
      let v = IsValid-at (row g) 0 valid.chain (omega arith) in
      (
        rebuilt train g valid all,
        rw (run, copied, reserved, filled) refl,
        rebuilt-Expanded train g valid (flat (e' ∷ take n es)) w (
            omega (
              arith,
              v.used,
              valid.counted,
              reserved,
              length-map of_entry (flat (e' ∷ take n es)),
            )),
      )

  -- In a valid group whose first bucket holds a key, `expand` never writes past the space that it
  -- reserves, fills it, and leaves a valid group that stands for the same map, starts no lower,
  -- counts the same buckets, and has one bucket in every entry.
  pub expand-Expanded :
      (g : Group) (valid : IsValid g)
      → HasKey (node_at g.entry_space 0)
      → (g' : Group) × (expand train memory g ≡ some g') × Expanded train g valid g'
  expand-Expanded g valid first =
      expand_fields g.nr_entries g.next_entry_count g.min_key g.entry_space g.model valid first
