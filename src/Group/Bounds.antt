-- ===== src/Group/Bounds.antt =====
-- The searches of a group find the upper bound of a key, wherever the model starts them.
use nali.Prelude.{ℕ, zero, suc, ◌+◌, ◌-◌, ◌/◌, ◌≤◌, ◌<◌, ◌≡◌, inl, inr, leb, ltb, arith, Bool-cases}
use nali.Group.Search.{linear_loop, binary_loop}

-- The first `n` keys ascend.
pub record IsAscending (keys : ℕ → ℕ) (n : ℕ) : Type 0 where
  pub le : (i j : ℕ) → i ≤ j → j < n → keys i ≤ keys j

-- The upper bound of `key` lies in [l, r].
pub record Brackets (keys : ℕ → ℕ) (key n l r : ℕ) : Type 0 where
  pub ordered : l ≤ r
  pub inside : r ≤ n
  pub low : (i : ℕ) → i < l → keys i ≤ key
  pub high : (i : ℕ) → r ≤ i → i < n → key < keys i

module _ (keys : ℕ → ℕ) (key n : ℕ) (ascending : IsAscending keys n) where
  raise :
      (l r mid : ℕ)
      → Brackets keys key n l r
      → l ≤ mid
      → mid < r
      → keys mid ≤ key
      → Brackets keys key n (mid + 1) r
  raise l r mid b h h' k = record {
    ordered = omega arith;
    inside = b.inside;
    low = λ i q. ground (arith, ascending.le i mid, b.inside);
    high = b.high;
  }

  lower :
      (l r mid : ℕ)
      → Brackets keys key n l r
      → l ≤ mid
      → mid < r
      → key < keys mid
      → Brackets keys key n l mid
  lower l r mid b h h' k = record {
    ordered = h;
    inside = omega (arith, b.inside);
    low = b.low;
    high = λ i q s. ground (arith, ascending.le mid i);
  }

  pub linear_loop-Brackets :
      (fuel l r : ℕ)
      → r ≤ l + fuel
      → Brackets keys key n l r
      → Brackets keys key n (linear_loop keys key fuel l r) (linear_loop keys key fuel l r)
  unfolding linear_loop
  linear_loop-Brackets zero l r enough b =
      let e : l ≡ r = omega (arith, b.ordered) in
      record {
        ordered = omega arith;
        inside = omega (arith, b.inside);
        low = b.low;
        high = λ i q. b.high i (omega arith);
      }
  linear_loop-Brackets (suc fuel) l r enough b = elim (Bool-cases (ltb l r)) [
    | inr done ↦ rw done (record {
      ordered = omega arith;
      inside = omega (arith, b.inside, b.ordered);
      low = b.low;
      high = λ i q. b.high i (ground (arith, done));
    })
    | inl more ↦ elim (Bool-cases (leb (keys l) key)) [
      | inl small ↦
          rw (more, small)
            (linear_loop-Brackets fuel (l + 1) r (omega arith)
              (raise l r l b (omega arith) (ground (arith, more)) (ground (arith, small))))
      | inr large ↦
          rw (more, large)
            (lower l r l b (omega arith) (ground (arith, more)) (ground (arith, large)))
    ]
  ]

  pub binary_loop-Brackets :
      (fuel l r : ℕ)
      → r ≤ l + fuel
      → Brackets keys key n l r
      → Brackets keys key n (binary_loop keys key fuel l r) (binary_loop keys key fuel l r)
  unfolding binary_loop
  binary_loop-Brackets zero l r enough b = record {
    ordered = omega arith;
    inside = omega (arith, b.inside, b.ordered);
    low = b.low;
    high = λ i q. b.high i (omega (arith, enough, q));
  }
  binary_loop-Brackets (suc fuel) l r enough b = elim (Bool-cases (ltb l r)) [
    | inr done ↦ rw done (record {
      ordered = omega arith;
      inside = omega (arith, b.inside, b.ordered);
      low = b.low;
      high = λ i q. b.high i (ground (arith, done));
    })
    | inl more ↦
        let mid = l + (r - l) / 2 in
        let lt : l < r = ground (arith, more) in
        elim (Bool-cases (leb (keys mid) key)) [
          | inl small ↦
              rw (more, small)
                (binary_loop-Brackets fuel (mid + 1) r (omega arith)
                  (raise l r mid b (omega arith) (omega arith) (ground (arith, small))))
          | inr large ↦
              rw (more, large)
                (binary_loop-Brackets fuel l mid (omega arith)
                  (lower l r mid b (omega arith) (omega arith) (ground (arith, large))))
        ]
  ]
