-- ===== src/Bucket/Minimum.antt =====
-- `min_key` of a bucket.
use nali.Prelude.{
  ℕ, zero, suc, ◌+◌, ◌-◌, ◌≤◌, ◌<◌, ◌≡◌, refl, sym, ◌∙◌, ◌⊎◌, inl, inr, some, List, arith, ltb,
  ◌==◌, if◌then◌else◌, length-take, get_or-take, Bool-cases, dec_lt,
}
use mathlib.Core.Path.{subst}
use nali.Bucket.Defs.{KvEntry, UnSortBuncket, blank, record_at, min_key, min_key_loop}
use nali.Bucket.Contents.{value_of-record_at}
use nali.Bucket.Valid.{live, contents, IsValid, find_within}
use native.Mathlib.Nat.{le_refl}

-- `r` is the least of `min` and the keys from `i` on, `n` of them.
record Least (n i min : ℕ) (l : List KvEntry) (r : ℕ) : Type 0 where
  source : (r ≡ min) ⊎ ((j : ℕ) × (j < i + n) × (r ≡ (record_at l j).key))
  start : r ≤ min
  below : (j : ℕ) → i ≤ j → j < i + n → r ≤ (record_at l j).key

min_key_loop-Least : (n i min : ℕ) (l : List KvEntry) → Least n i min l (min_key_loop n i min l)
unfolding min_key_loop
min_key_loop-Least zero i min l = record {
  source = inl refl;
  start = omega arith;
  below = λ j h q. absurd (omega arith);
}
min_key_loop-Least (suc n) i min l =
    let k = (record_at l i).key in
    let step : ℕ = if ltb k min then k else min in
    let rest = min_key_loop-Least n (suc i) step l in
    record {
      source = elim rest.source [
        | inl e ↦ elim (Bool-cases (ltb k min)) [
          | inl less ↦ inr (i, omega arith, e ∙ (rw less refl))
          | inr more ↦ inl (e ∙ (rw more refl))
        ]
        | inr (j, h, e) ↦ inr (j, omega (arith, h), e)
      ];
      start = ground (arith, rest.start);
      below = λ j h q. elim (Bool-cases (i == j)) [
        | inl here ↦ ground (arith, here, rest.start)
        | inr there ↦ rest.below j (ground (arith, h, there)) (omega (arith, q))
      ];
    }

module _ (b : UnSortBuncket) (valid : IsValid b) (some_entry : 0 < b.entries) where
  live_key :
      (j : ℕ)
      → j < b.entries
      → contents b (record_at b.records j).key ≡ some (record_at b.records j).value
  live_key j h =
      let same : record_at (live b) j ≡ record_at b.records j =
        get_or-take b.entries b.records j blank h in
      subst (λ (e : KvEntry). contents b e.key ≡ some e.value) same
        (value_of-record_at (live b) j valid.distinct (
          omega
            (arith, h, length-take b.entries b.records (omega (arith, valid.size, valid.bounded)))))

  -- In a valid bucket with at least one record, `min_key` is a key that the bucket holds, and no
  -- key that it holds is smaller.
  pub min_key_lem :
      ((v : ℕ) × (contents b (min_key b) ≡ some v))
      × ((k v : ℕ) → contents b k ≡ some v → min_key b ≤ k)
  unfolding min_key
  min_key_lem =
      let least = min_key_loop-Least (b.entries - 1) 1 (record_at b.records 0).key b.records in
      let at_most : (j : ℕ) → j < b.entries → min_key b ≤ (record_at b.records j).key = λ j h.
        elim (dec_lt 0 j) [
          | yes q ↦ least.below j q (omega (arith, h))
          | no z ↦
              (let e : 0 ≡ j = omega (arith, z) in
                subst (λ x. min_key b ≤ (record_at b.records x).key) e least.start)
        ] in
      (
        elim least.source [
          | inl e ↦ (
            (record_at b.records 0).value,
            subst (λ x. contents b x ≡ some (record_at b.records 0).value) (sym e)
                (live_key 0 some_entry),
          )
          | inr (j, h, e) ↦ (
            (record_at b.records j).value,
            subst (λ x. contents b x ≡ some (record_at b.records j).value) (sym e)
                (live_key j (omega (arith, h))),
          )
        ],
        λ k v present.
            let (p, _, hit) = find_within b k valid.shape b.entries v (le_refl _) present in
            rw (← hit.same) (at_most p hit.inside),
      )
