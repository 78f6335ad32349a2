-- ===== src/Bucket/Remove.antt =====
-- `remove_key` and `Delete`: the last record that counts takes the place of the removed one.
use mathlib.Core.Path.{subst}
use nali.Prelude.{
  ℕ, zero, suc, ◌⊎◌, ◌+◌, ◌-◌, ◌≤◌, ◌<◌, ◌≡◌, ◌≢◌, refl, sym, ◌∙◌, ap, inl, inr, none, some, true,
  List, [], ◌∷◌, ◌++◌, arith, ◌==◌, if◌then◌else◌, length, set, take, Bool-cases, length-set,
  length-take, get_or-set_ne, take-set_lt, take-suc, get_or-take, ==_iff,
}
use nali.Bucket.Defs.{ok, no_exist, KvEntry, UnSortBuncket, blank, record_at, remove_key, delete}
use nali.Bucket.Contents
use nali.Bucket.Contents.{value_of, IsDistinct}
use nali.Bucket.Valid.{contents, IsShaped, IsValid, find-cases, find_within}

-- `b'` is `b` without the key `k` among its first `suc n` records; one record fewer counts.
pub record Removed (b b' : UnSortBuncket) (n k : ℕ) : Type 0 where
  pub capacity : b'.max_entries ≡ b.max_entries
  pub entries : b'.entries ≡ b.entries
  pub size : length b'.records ≡ length b.records
  pub distinct : IsDistinct (take n b'.records)
  pub contents :
      (j : ℕ)
      → value_of j (take n b'.records)
        ≡ (if k == j then none else value_of j (take (suc n) b.records))
  pub others :
      (i : ℕ) → (record_at b.records i).key ≢ k → record_at b'.records i ≡ record_at b.records i

zero-or-pos : (n : ℕ) → (n ≡ 0) ⊎ (0 < n)
zero-or-pos zero = inl refl
zero-or-pos (suc n) = inr (omega arith)

module _ (n : ℕ) (l : List KvEntry) (p : ℕ) (room : n < length l)
    (d : IsDistinct (take (suc n) l)) where
  split : take (suc n) l ≡ take n l ++ record_at l n ∷ []
  split = take-suc n l blank room

  d' : IsDistinct (take n l ++ record_at l n ∷ [])
  d' = rw split at d

  removed_last :
      {k : ℕ}
      → (record_at l n).key ≡ k
      → IsDistinct (take n l)
        × ((j : ℕ) → value_of j (take n l) ≡ (if k == j then none else value_of j (take (suc n) l)))
  unfolding value_of
  removed_last {k} e =
      let (dl, fresh) = Contents.IsDistinct-init (take n l) (record_at l n) d' in
      (
        dl,
        λ j.
            rw split
              (ground (arith, Contents.value_of-append j (take n l) (record_at l n ∷ []), fresh)),
      )

  removed_inner :
      p < n
      → IsDistinct (take n (set l p (record_at l n)))
        × ((j : ℕ)
            → value_of j (take n (set l p (record_at l n)))
              ≡ (if (record_at l p).key == j then none else value_of j (take (suc n) l)))
  removed_inner h =
      let e = record_at l n in
      let inside : p < length (take n l) = rw (length-take n l (omega arith)) h in
      let at : record_at (take n l) p ≡ record_at l p = get_or-take n l p blank h in
      let written : take n (set l p e) ≡ set (take n l) p e = take-set_lt n l p e h in
      (
        rw written (Contents.IsDistinct-swap_remove (take n l) p e d' inside),
        λ j. rw (written, split, ← at) (Contents.value_of-swap_remove j (take n l) p e d' inside),
      )

module _ (b : UnSortBuncket) (shape : IsShaped b) (k v n : ℕ) (fits : suc n ≤ b.entries) where
  -- `remove_key` on a bucket of which the first `suc n` records count
  pub remove_key-Removed :
      IsDistinct (take (suc n) b.records)
      → value_of k (take (suc n) b.records) ≡ some v
      → (b' : UnSortBuncket) × (remove_key b k (suc n) ≡ (b', true, v)) × Removed b b' n k
  unfolding remove_key
  remove_key-Removed d present =
      let (p, found, hit) = find_within b k shape (suc n) v fits present in
      let l = b.records in
      let room : n < length l = omega (arith, shape.size, shape.bounded) in
      let value : (record_at l p).value ≡ v = ground (arith, hit.here) in
      elim (Bool-cases (p == n)) [
        | inl last ↦
            let (dl, map_eq) = removed_last n l p room d (rw (← (==_iff p n).0 last) hit.same) in
            (
              b,
              rw found (ground (arith, value)),
              record {
                capacity = refl;
                entries = refl;
                size = refl;
                distinct = dl;
                contents = map_eq;
                others = λ i ne. refl;
              },
            )
        | inr inner ↦
            let (dl, map_eq) = removed_inner n l p room d (ground (arith, hit.inside)) in
            (
              record b { records = set l p (record_at l n) },
              rw found (ground (arith, value)),
              record {
                capacity = refl;
                entries = refl;
                size = length-set _ _ _;
                distinct = dl;
                contents = λ j. rw hit.same at (map_eq j);
                others = λ i ne. get_or-set_ne l p i _ blank (λ q. ne (rw (← q) hit.same));
              },
            )
      ]

module _ (b : UnSortBuncket) (valid : IsValid b) (k : ℕ) where
  live-ne-zero : (v : ℕ) → contents b k ≡ some v → 0 < b.entries
  unfolding value_of
  live-ne-zero v present = elim (zero-or-pos b.entries) [
    | inl e ↦ absurd (cc (sym present ∙ ap (λ n. value_of k (take n b.records)) e))
    | inr h ↦ h
  ]

  -- `Delete` of a present key in a valid bucket returns OK and its value, keeps the bucket valid,
  -- removes that key only, and takes one from the number of records.
  pub delete-Removed :
      (v : ℕ)
      → contents b k ≡ some v
      → (b' : UnSortBuncket) × (delete b k ≡ (b', ok, v))
        × IsValid b'
        × ((j : ℕ) → contents b' j ≡ (if k == j then none else contents b j))
        × (b'.entries + 1 ≡ b.entries)
  unfolding delete
  delete-Removed v present =
      let n = b.entries - 1 in
      let e : b.entries ≡ suc n = omega (arith, live-ne-zero v present) in
      let (b', removed, r) =
        remove_key-Removed b valid.shape k v n (omega arith)
          (subst (λ m. IsDistinct (take m b.records)) e valid.distinct)
          (subst (λ m. value_of k (take m b.records) ≡ some v) e present) in
      let shorter : b'.entries - 1 ≡ n = ap (λ m. m - 1) r.entries in
      (
        record b' { entries = b'.entries - 1 },
        rw (subst (λ m. remove_key b k m ≡ (b', true, v)) (sym e) removed),
        record {
          shape = record {
            capacity = r.capacity ∙ valid.capacity;
            size = r.size ∙ valid.size;
            bounded = omega (arith, shorter, valid.bounded);
          };
          distinct = rw shorter r.distinct;
        },
        λ j.
            subst
              (λ m.
                value_of j (take (b'.entries - 1) b'.records)
                ≡ (if k == j then none else value_of j (take m b.records)))
              (sym e) (rw shorter (r.contents j)),
        omega (arith, shorter, e),
      )

  -- `Delete` of an absent key in a valid bucket returns NoExist and changes nothing.
  pub delete-absent : contents b k ≡ none → delete b k ≡ (b, no_exist, 0)
  unfolding delete remove_key
  delete-absent absent = elim (find-cases b k valid.shape) [
    | inl (p, found, hit) ↦ absurd (cc)
    | inr (missed, _) ↦ rw missed
  ]
