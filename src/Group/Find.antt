-- ===== src/Group/Find.antt =====
-- The exponential search of a group, and `find_entry`.
use nali.Prelude.{
  ℕ, zero, suc, ◌+◌, ◌-◌, ◌*◌, ◌/◌, ◌≤◌, ◌<◌, ◌≡◌, ◌⊎◌, inl, inr, leb, ltb, arith, Bool-cases,
  dec_lt,
}
use nali.Group.Search.{
  Prediction, pos, negsuc, clamp, linear_search_upper_bound, binary_search_upper_bound, down_loop,
  up_loop, search_range, exponential_search_upper_bound, find_entry,
}
use nali.Group.Bounds.{IsAscending, Brackets, linear_loop-Brackets, binary_loop-Brackets}

clamp_lt : (p : Prediction) (n : ℕ) → 0 < n → clamp p n < n
unfolding clamp
clamp_lt (pos m) n h = ground arith
clamp_lt (negsuc m) n h = ground arith

-- Where a doubling loop stops: the half of the bound is passed, the bound is not.
module _ (keys : ℕ → ℕ) (key m : ℕ) where
  record Down (size bound : ℕ) : Type 0 where
    half : bound / 2 ≤ m
    positive : 0 < bound
    passed : key < keys (m - bound / 2)
    stopped : (size ≤ bound) ⊎ (keys (m - bound) ≤ key)

  down_loop-Down :
      (fuel size bound : ℕ)
      → size ≤ m
      → size ≤ bound + fuel
      → 0 < bound
      → bound / 2 ≤ m
      → key < keys (m - bound / 2)
      → Down size (down_loop keys key fuel m size bound)
  unfolding down_loop
  down_loop-Down zero size bound s enough p h k = record {
    half = h;
    positive = p;
    passed = k;
    stopped = inl (omega arith);
  }
  down_loop-Down (suc fuel) size bound s enough p h k = elim (Bool-cases (ltb bound size)) [
    | inr over ↦
        rw over
          (record { half = h; positive = p; passed = k; stopped = inl (ground (arith, over)) })
    | inl within ↦ elim (Bool-cases (ltb key (keys (m - bound)))) [
      | inr stop ↦
          rw (within, stop)
            (record { half = h; positive = p; passed = k; stopped = inr (ground (arith, stop)) })
      | inl more ↦
          let lt : bound < size = ground (arith, within) in
          let e : bound * 2 / 2 ≡ bound = omega arith in
          rw (within, more)
            (down_loop-Down fuel size (bound * 2) s (omega arith) (omega arith) (omega arith)
              (rw e (ground (arith, more))))
    ]
  ]

  record Up (size bound : ℕ) : Type 0 where
    half : bound / 2 < size
    positive : 0 < bound
    passed : keys (m + bound / 2) ≤ key
    stopped : (size ≤ bound) ⊎ (key < keys (m + bound))

  up_loop-Up :
      (fuel size bound : ℕ)
      → size ≤ bound + fuel
      → 0 < bound
      → bound / 2 < size
      → keys (m + bound / 2) ≤ key
      → Up size (up_loop keys key fuel m size bound)
  unfolding up_loop
  up_loop-Up zero size bound enough p h k = record {
    half = h;
    positive = p;
    passed = k;
    stopped = inl (omega arith);
  }
  up_loop-Up (suc fuel) size bound enough p h k = elim (Bool-cases (ltb bound size)) [
    | inr over ↦
        rw over
          (record { half = h; positive = p; passed = k; stopped = inl (ground (arith, over)) })
    | inl within ↦ elim (Bool-cases (leb (keys (m + bound)) key)) [
      | inr stop ↦
          rw (within, stop)
            (record { half = h; positive = p; passed = k; stopped = inr (ground (arith, stop)) })
      | inl more ↦
          let lt : bound < size = ground (arith, within) in
          let e : bound * 2 / 2 ≡ bound = omega arith in
          rw (within, more)
            (up_loop-Up fuel size (bound * 2) (omega arith) (omega arith) (omega arith)
              (rw e (ground (arith, more))))
    ]
  ]

module _ (keys : ℕ → ℕ) (key n : ℕ) (ascending : IsAscending keys n) where
  search_range-Brackets :
      (m : ℕ)
      → m < n
      → Brackets keys key n (search_range keys key n m).0 (search_range keys key n m).1
  unfolding search_range
  search_range-Brackets m h = elim (Bool-cases (ltb key (keys m))) [
    | inl large ↦
        let b = down_loop keys key m m m 1 in
        let d =
          down_loop-Down keys key m m m 1 (omega arith) (omega arith) (omega arith) (omega arith)
            (ground (arith, large)) in
        rw large (record {
          ordered = ground (arith, d.half, d.positive);
          inside = omega arith;
          low = λ i q. ground (arith, q, d.stopped, ascending.le i (m - b));
          high = λ i q s. ground (arith, ascending.le (m - b / 2) i, d.passed);
        })
    | inr small ↦
        let b = up_loop keys key (n - m) m (n - m) 1 in
        let u =
          up_loop-Up keys key m (n - m) (n - m) 1 (omega arith) (omega arith) (omega arith)
            (ground (arith, small)) in
        rw small (record {
          ordered = ground (arith, u.half, u.positive);
          inside = ground arith;
          low = λ i q. ground (arith, ascending.le i (m + b / 2), u.passed, u.half);
          high = λ i q s. ground (arith, q, u.stopped, ascending.le (m + b) i);
        })
  ]

  -- The position of `key` among ascending keys: the last entry whose key is not above it, or 0.
  pub record IsPosition (p : ℕ) : Type 0 where
    pub inside : p < n
    pub above : (i : ℕ) → p < i → i < n → key < keys i
    pub here : (p ≡ 0) ⊎ (keys p ≤ key)

  step_back : (u : ℕ) → 0 < n → Brackets keys key n u u → IsPosition (u - 1)
  step_back u h b = record {
    inside = omega (arith, b.inside);
    above = λ i q s. b.high i (omega arith) s;
    here = elim (dec_lt 0 u) [
      | yes q ↦ inr (b.low (u - 1) (omega arith))
      | no q ↦ inl (omega arith)
    ];
  }

  -- Among ascending entry keys, at least one, `find_entry` returns, wherever the model starts the
  -- search, an index in range after which every entry key is above the key, and whose own entry
  -- key is not, unless the index is 0.
  pub find_entry-IsPosition :
      (predicted : Prediction) → 0 < n → IsPosition (find_entry keys key n predicted)
  unfolding find_entry exponential_search_upper_bound linear_search_upper_bound
      binary_search_upper_bound
  find_entry-IsPosition predicted h =
      let m = clamp predicted n in
      let bounds = search_range-Brackets m (clamp_lt predicted n h) in
      let l = (search_range keys key n m).0 in
      let r = (search_range keys key n m).1 in
      elim (Bool-cases (ltb (r - l) 6)) [
        | inl near ↦ rw near (
            step_back _ h (
              linear_loop-Brackets keys key n ascending (r - l) l r (omega (arith, bounds.ordered))
                bounds))
        | inr far ↦ rw far (
            step_back _ h (
              binary_loop-Brackets keys key n ascending (r - l) l r (omega (arith, bounds.ordered))
                bounds))
      ]
