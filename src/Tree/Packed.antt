-- ===== src/Tree/Packed.antt =====
-- The groups that ExpandTree makes: each entry has one bucket.
use nali.Prelude.{
  ℕ, ◌<◌, ◌≡◌, refl, sym, ◌∙◌, ap, inl, inr, List, [], ◌∷◌, ◌++◌, map, arith, ◌==◌, length, take,
  length-append, length-map, append_nil, Bool-cases,
}
use mathlib.Core.Path.{subst}
use nali.Bucket.Defs.{KvEntry}
use nali.Entry.Defs.{Eentry, entry_at, count, of_entry}
use nali.Entry.Route.{bucket_of, bucket_of-pointer, IsRouted}
use nali.Entry.Edges.{first_key, last_entry}
use nali.Group
use nali.Group.Search.{Prediction}
use nali.Group.Chain.{UnderRow, node_at, IsChain}
use nali.Group.Defs.{Group}
use nali.Group.Single.{flat, singles, singles-IsChain, UnderRow-singles, of_entry-keys}
use nali.Group.Grown.{total-singles, take_all, count-singles}
use nali.Group.Valid.{row, first}
use nali.Group.Sorted.{In, Before, Sorted, Sorted-IsRouted}
use nali.Tree.Expand.{group_entries, re_tarin}
use nali.Tree.Spread.{shape}

-- What `re_tarin` changes.
pub re_tarin-fields :
    (train train_tree : List ℕ → ℕ → Prediction) (memory : List KvEntry) (g : Group)
    → (least : ℕ) × (model : ℕ → Prediction) × (re_tarin train train_tree memory g
        ≡ record g { min_key = least; model = model })
unfolding re_tarin
re_tarin-fields train train_tree memory g = elim (Bool-cases (g.next_entry_count == 0)) [
  | inl unused ↦ (g.min_key, g.model, rw unused refl)
  | inr used ↦ (
    first_key (node_at g.entry_space 0),
    train (map first_key (take g.nr_entries g.entry_space)),
    rw used refl,
  )
]

-- A group with the buckets `p`, one in each entry.
abbrev pub packed : List Eentry → ℕ → (ℕ → Prediction) → Group
packed p least model = record (shape (map of_entry p) 0) { min_key = least; model = model }

from_flat :
    (z : Eentry) (l : List Eentry)
    → In z (flat (map of_entry l))
    → (x : Eentry) × In x l × ((k : ℕ) → bucket_of z k ≡ bucket_of x k)
unfolding of_entry
from_flat z [] h = absurd h
from_flat z (x ∷ l) h = elim h [
  | inl e ↦ (
    x,
    inl refl,
    λ k. ap (λ y. bucket_of y k) e ∙ bucket_of-pointer (record x { entries = 1 }) x k refl,
  )
  | inr q ↦ let (y, w, same) = from_flat z l q in (y, inr w, same)
]

to_flat :
    (x : Eentry) (l : List Eentry)
    → In x l
    → (z : Eentry) × In z (flat (map of_entry l)) × ((k : ℕ) → bucket_of z k ≡ bucket_of x k)
unfolding of_entry
to_flat x [] h = absurd h
to_flat x (y ∷ l) h = elim h [
  | inl e ↦ (
    record y { entries = 1 },
    inl refl,
    λ k. bucket_of-pointer (record y { entries = 1 }) y k refl ∙ ap (λ z. bucket_of z k) (sym e),
  )
  | inr q ↦ let (z, w, same) = to_flat x l q in (z, inr w, same)
]

last-In : (l : List Eentry) → 0 < length l → In (last_entry l) l
last-In [] h = absurd (omega arith)
last-In (x ∷ []) h = inl refl
last-In (x ∷ y ∷ l) h = inr (last-In (y ∷ l) (omega arith))

routed : (l : List Eentry) → 0 < length l → Sorted l → IsRouted l
routed [] h s = absurd (omega arith)
routed (x ∷ l) h s = Sorted-IsRouted x l s

module _ (p : List Eentry) (least : ℕ) (model : ℕ → Prediction) where
  packed-row : row (packed p least model) ≡ map of_entry p
  packed-row =
      ap (take (length (map of_entry p))) (append_nil (map of_entry p)) ∙ take_all (map of_entry p)

  pub packed-first : 0 < length p → first (packed p least model) ≡ (entry_at p 0).entry_key
  packed-first h = head p h
    where
      head :
          (l : List Eentry)
          → 0 < length l
          → first_key (node_at (map of_entry l ++ []) 0) ≡ (entry_at l 0).entry_key
      head [] h = absurd (omega arith)
      head (x ∷ l) h = (of_entry-keys x).0

  pub packed-IsValid : 0 < length p → Sorted p → Group.Valid.IsValid (packed p least model)
  unfolding singles
  packed-IsValid h s =
      let size = length-map of_entry p in
      record {
        some_entry = omega (arith, size);
        size = omega (arith, length-append (map of_entry p) []);
        chain = subst IsChain (sym packed-row) (
            subst IsChain (append_nil (map of_entry p)) (
              singles-IsChain p [] (routed p h s) tt
                (record { key = λ q. absurd (omega arith); keys = λ q. absurd (omega arith) })));
        counted = rw packed-row (omega (arith, total-singles p, size));
      }

  pub packed-UnderRow :
      (bound : ℕ)
      → 0 < length p
      → Sorted p
      → ((x : Eentry) → In x p → Before x bound)
      → UnderRow (row (packed p least model)) bound
  packed-UnderRow bound h s below =
      subst (λ es. UnderRow es bound) (sym packed-row)
        (UnderRow-singles p bound (routed p h s) (below (last_entry p) (last-In p h)).0
          (below (last_entry p) (last-In p h)).1)

  pub packed-count :
      (i : ℕ) → i < length p → count (node_at (packed p least model).entry_space i) ≡ 1
  packed-count i h =
      ap (λ es. count (node_at es i)) (append_nil (map of_entry p)) ∙ count-singles p i h

  -- It holds these buckets.
  pub entries-packed :
      (z : Eentry)
      → In z (group_entries (packed p least model))
      → (x : Eentry) × In x p × ((k : ℕ) → bucket_of z k ≡ bucket_of x k)
  entries-packed z h = from_flat z p (subst (λ es. In z (flat es)) packed-row h)

  pub packed-entries :
      (x : Eentry)
      → In x p
      → (z : Eentry) × In z (group_entries (packed p least model))
        × ((k : ℕ) → bucket_of z k ≡ bucket_of x k)
  packed-entries x h =
      let (z, q, same) = to_flat x p h in (z, subst (λ es. In z (flat es)) (sym packed-row) q, same)
