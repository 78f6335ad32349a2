-- ===== src/Bucket/Emptied.antt =====
-- The loop of `Expand_` that takes the upper half out of the old bucket.
use mathlib.Core.Path.{subst, ap₂}
use nali.Prelude.{
  ℕ, suc, ◌+◌, ◌-◌, ◌≤◌, ◌≡◌, ◌≢◌, refl, sym, ◌∙◌, ap, none, some, List, [], ◌∷◌, map, arith, ◌==◌,
  if◌then◌else◌, length, take,
}
use nali.Bucket.Defs.{KvEntry, UnSortBuncket, record_at, remove_key}
use nali.Bucket.Contents.{value_of, IsDistinct}
use nali.Bucket.Valid.{IsShaped}
use nali.Bucket.Remove.{remove_key-Removed}
use nali.Bucket.Expand.{remove_loop}

suc-sub-one : (n : ℕ) → suc n - 1 ≡ n
suc-sub-one n = omega arith

-- Writes to records with the key `k` change no record that has another key.
map-others :
    (l l' : List KvEntry) (k : ℕ) (is : List ℕ)
    → value_of k (map (record_at l) is) ≡ none
    → ((i : ℕ) → (record_at l i).key ≢ k → record_at l' i ≡ record_at l i)
    → map (record_at l') is ≡ map (record_at l) is
unfolding value_of
map-others l l' k [] absent same = refl
map-others l l' k (i ∷ is) absent same =
    ap₂ ◌∷◌ (same i (ground arith)) (map-others l l' k is (ground arith) same)

-- One round of the removal loop.
record Round (i : ℕ) (is : List ℕ) (n : ℕ) (b b' : UnSortBuncket) : Type 0 where
  shape : IsShaped b'
  entries : b'.entries ≡ b.entries
  distinct : IsDistinct (take n b'.records)
  kept : map (record_at b'.records) is ≡ map (record_at b.records) is
  contents :
      (j : ℕ)
      → value_of j (take n b'.records)
        ≡ (if (record_at b.records i).key == j then none else value_of j (take (suc n) b.records))

-- The records that `is` names are among the first `idx`.
abbrev Includes : (is : List ℕ) (idx : ℕ) (l : List KvEntry) → Type 0
Includes is idx l =
    (k v : ℕ) → value_of k (map (record_at l) is) ≡ some v → value_of k (take idx l) ≡ some v

round :
    (i : ℕ) (is : List ℕ) (n : ℕ) (b : UnSortBuncket)
    → IsShaped b
    → suc n ≤ b.entries
    → IsDistinct (take (suc n) b.records)
    → IsDistinct (map (record_at b.records) (i ∷ is))
    → Includes (i ∷ is) (suc n) b.records
    → (b' : UnSortBuncket) × ((remove_key b (record_at b.records i).key (suc n)).0 ≡ b')
      × Round i is n b b'
unfolding value_of
round i is n b shape h d du sub =
    let e = record_at b.records i in
    let (b', removed, r) =
      remove_key-Removed b shape e.key e.value n h d (sub e.key e.value (ground arith)) in
    (
      b',
      rw removed,
      record {
        shape = record {
          capacity = r.capacity ∙ shape.capacity;
          size = r.size ∙ shape.size;
          bounded = rw r.entries shape.bounded;
        };
        entries = r.entries;
        distinct = r.distinct;
        kept = map-others b.records b'.records e.key is du.0 r.others;
        contents = r.contents;
      },
    )

pub record Emptied (is : List ℕ) (m idx : ℕ) (b b' : UnSortBuncket) : Type 0 where
  pub shape : IsShaped b'
  pub entries : b'.entries ≡ b.entries
  pub distinct : IsDistinct (take m b'.records)
  pub contents :
      (j : ℕ)
      → value_of j (take m b'.records) ≡ elim (value_of j (map (record_at b.records) is)) [
        | some _ ↦ none
        | none ↦ value_of j (take idx b.records)
      ]

module _ {i : ℕ} {is : List ℕ} {n : ℕ} {b b' : UnSortBuncket} (r : Round i is n b b')
    (du : IsDistinct (map (record_at b.records) (i ∷ is))) where
  Includes-Round : Includes (i ∷ is) (suc n) b.records → Includes is n b'.records
  unfolding value_of
  Includes-Round sub k v p =
      let p' : value_of k (map (record_at b.records) is) ≡ some v = rw r.kept at p in
      rw (r.contents k) (ground (arith, sub k v, du.0, p'))

  Emptied-Round :
      {m : ℕ} {b'' : UnSortBuncket} → Emptied is m n b' b'' → Emptied (i ∷ is) m (suc n) b b''
  unfolding value_of
  Emptied-Round ih = record {
    shape = ih.shape;
    entries = ih.entries ∙ r.entries;
    distinct = ih.distinct;
    contents = λ j. ground (arith, ih.contents j, du.0, r.contents j, ap (value_of j) r.kept);
  }

-- The keys of the records that `is` names are removed, one after the other.
pub remove_loop-Emptied :
    (is : List ℕ) (m idx : ℕ) (b : UnSortBuncket)
    → length is + m ≡ idx
    → IsShaped b
    → idx ≤ b.entries
    → IsDistinct (take idx b.records)
    → IsDistinct (map (record_at b.records) is)
    → Includes is idx b.records
    → Emptied is m idx b (remove_loop is idx b)
unfolding remove_loop value_of
remove_loop-Emptied [] m idx b q shape h d du sub =
    let e : idx ≡ m = omega arith in
    record {
      shape = shape;
      entries = refl;
      distinct = rw e at d;
      contents = λ j. ap (λ t. value_of j (take t b.records)) (sym e);
    }
remove_loop-Emptied (i ∷ is) m idx b q shape h d du sub =
    let n = idx - 1 in
    let at : idx ≡ suc n = omega arith in
    let sub' = subst (λ t. Includes (i ∷ is) t b.records) at sub in
    let (b', same, r) =
      round i is n b shape (omega arith) (subst (λ t. IsDistinct (take t b.records)) at d) du
        sub' in
    let ih =
      remove_loop-Emptied is m n b' (omega arith) r.shape (rw r.entries (omega arith)) r.distinct
        (rw r.kept du.1) (Includes-Round r du sub') in
    subst (λ t. Emptied (i ∷ is) m t b (remove_loop (i ∷ is) t b)) (sym at)
      (rw (suc-sub-one n, same) (Emptied-Round r du ih))
