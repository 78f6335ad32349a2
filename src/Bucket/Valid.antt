-- ===== src/Bucket/Valid.antt =====
-- The invariant of a bucket, and what `find` returns.
use nali.Prelude.{
  ℕ, zero, suc, ◌≤◌, ◌<◌, ◌≡◌, refl, ◌⊎◌, inl, inr, Option, none, some, true, false, List, [], ◌∷◌,
  arith, ◌==◌, length, take, Bool-cases,
}
use nali.Bucket.Defs.{KvEntry, UnSortBuncket, entry_count, record_at, find_loop, find}
use nali.Bucket.Contents.{value_of, IsDistinct}

-- the records in use
abbrev pub live : UnSortBuncket → List KvEntry
live b = take b.entries b.records

-- the map that a bucket stands for
abbrev pub contents : UnSortBuncket → ℕ → Option ℕ
contents b k = value_of k (live b)

pub record IsShaped (b : UnSortBuncket) : Type 0 where
  pub capacity : b.max_entries ≡ entry_count
  pub size : length b.records ≡ entry_count
  pub bounded : b.entries ≤ entry_count

pub record IsValid (b : UnSortBuncket) : Type 0 where
  pub shape : IsShaped b
  pub open shape use *
  pub distinct : IsDistinct (live b)

find_loop-suc :
    (n i t : ℕ) (x : KvEntry) (l : List KvEntry)
    → find_loop n (suc i) t (x ∷ l) ≡ (suc (find_loop n i t l).0, (find_loop n i t l).1)
unfolding find_loop
find_loop-suc zero i t x l = refl
find_loop-suc (suc n) i t x l = ground (arith, find_loop-suc n (suc i) t x l)

-- What the pair returned by `find` says of the first `n` records.
pub record Hit (n t p : ℕ) (l : List KvEntry) : Type 0 where
  pub inside : p < n
  pub same : (record_at l p).key ≡ t
  pub here : value_of t (take n l) ≡ some (record_at l p).value

find_loop-cases :
    (n t : ℕ) (l : List KvEntry)
    → n ≤ length l
    → ((p : ℕ) × (find_loop n 0 t l ≡ (p, true)) × Hit n t p l)
      ⊎ ((find_loop n 0 t l ≡ (n, false)) × (value_of t (take n l) ≡ none))
unfolding find_loop value_of
find_loop-cases zero t l h = inr (refl, refl)
find_loop-cases (suc n) t [] h = absurd (omega arith)
find_loop-cases (suc n) t (x ∷ l) h = elim (Bool-cases (x.key == t)) [
  | inl e ↦ inl (0, rw e, record { inside = omega arith; same = ground arith; here = rw e })
  | inr ne ↦ elim (find_loop-cases n t l (omega arith)) [
    | inl (p, found, hit) ↦ inl (
      suc p,
      rw (ne, find_loop-suc, found),
      record { inside = omega (arith, hit.inside); same = hit.same; here = rw ne hit.here },
    )
    | inr (missed, absent) ↦ inr (rw (ne, find_loop-suc, missed), rw ne absent)
  ]
]

find_loop_mono :
    (n m i t : ℕ) (l : List KvEntry) {p : ℕ}
    → n ≤ m
    → find_loop n i t l ≡ (p, true)
    → find_loop m i t l ≡ (p, true)
unfolding find_loop
find_loop_mono zero m i t l h e = absurd (ground arith)
find_loop_mono (suc n) zero i t l h e = absurd (omega arith)
find_loop_mono (suc n) (suc m) i t l {p} h e =
    ground (arith, find_loop_mono n m (suc i) t l {p = p})

module _ (b : UnSortBuncket) (t : ℕ) (shape : IsShaped b) where
  pub find-cases :
      ((p : ℕ) × (find b t ≡ (p, true)) × Hit b.entries t p b.records)
      ⊎ ((find b t ≡ (b.entries, false)) × (contents b t ≡ none))
  unfolding find
  find-cases = find_loop-cases b.entries t b.records (omega (arith, shape.size, shape.bounded))

  -- A key among the first `idx` records is found there.
  pub find_within :
      (idx v : ℕ)
      → idx ≤ b.entries
      → value_of t (take idx b.records) ≡ some v
      → (p : ℕ) × (find b t ≡ (p, true)) × Hit idx t p b.records
  unfolding find
  find_within idx v h e =
      elim (find_loop-cases idx t b.records (omega (arith, shape.size, shape.bounded))) [
        | inl (p, found, hit) ↦ (p, find_loop_mono idx b.entries 0 t b.records h found, hit)
        | inr (missed, absent) ↦ absurd (cc)
      ]
