-- ===== src/Tree/Find.antt =====
-- `find_group` finds the group of a key, wherever the model starts the search up to it.
use nali.Prelude.{
  ℕ, zero, suc, ◌+◌, ◌≤◌, ◌<◌, ◌≡◌, refl, sym, inl, inr, ◌⊎◌, true, some, List, arith, ltb, ◌==◌,
  ◌||◌, length, Bool-cases, dec_lt,
}
use mathlib.Core.Path.{subst}
use native.Mathlib.Nat.{le_refl}
use nali.Group.Search.{Prediction, pos, negsuc}
use nali.Group.Defs.{Group}
use nali.Group.Valid.{first}
use nali.Tree.Defs.{Nali, group_at, slot, home, back_loop, forward_loop, find_group}
use nali.Tree.Valid.{Used, IsMonotone, IsValid, At}

pub slot_lt : (p : Prediction) (n : ℕ) → 0 < n → slot p n < n
unfolding slot
slot_lt (pos m) n h = ground arith
slot_lt (negsuc m) n h = ground arith

module _ (groups : List Group) (k : ℕ) where
  -- Where the walk back from `h` stops.
  record Back (h b : ℕ) : Type 0 where
    le : b ≤ h
    skipped : (i : ℕ) → Used groups i → b < i → i ≤ h → k < first (group_at groups i)
    stopped : (b ≡ 0) ⊎ ((0 < (group_at groups b).nr_entries) × (first (group_at groups b) ≤ k))

  back_loop-Back : (h : ℕ) → Back h (back_loop groups k h)
  unfolding back_loop
  back_loop-Back zero = record {
    le = le_refl _;
    skipped = λ i u q s. absurd (omega arith);
    stopped = inl refl;
  }
  back_loop-Back (suc h) =
      let g = group_at groups (suc h) in
      elim (Bool-cases ((g.nr_entries == 0) || ltb k (first g))) [
        | inl skip ↦
            let rest = back_loop-Back h in
            rw skip (record {
              le = omega (arith, rest.le);
              skipped = λ i u q s. elim (dec_lt i (suc h)) [
                | yes less ↦ rest.skipped i u q (omega arith)
                | no last ↦
                    let e : suc h ≡ i = omega arith in
                    subst (λ x. k < first (group_at groups x)) e
                      (let u' : 0 < g.nr_entries =
                          subst (λ x. 0 < (group_at groups x).nr_entries) (sym e) u.1 in
                        ground (arith, skip))
              ];
              stopped = rest.stopped;
            })
        | inr stop ↦ rw stop (record {
          le = le_refl _;
          skipped = λ i u q s. absurd (omega arith);
          stopped = inr (ground (arith, stop), ground (arith, stop));
        })
      ]

  -- From `b` on, the first group that is not empty.
  forward_loop_lem :
      (fuel b i : ℕ)
      → Used groups i
      → b ≤ i
      → i < b + fuel
      → (p : ℕ) × (forward_loop fuel groups b ≡ some p)
        × (b ≤ p)
        × Used groups p
        × ((j : ℕ) → Used groups j → b ≤ j → j < p → ⊥)
  unfolding forward_loop
  forward_loop_lem zero b i u h q = absurd (omega arith)
  forward_loop_lem (suc fuel) b i u h q =
      let inside : ltb b (length groups) ≡ true = ground (arith, u.0) in
      elim (Bool-cases ((group_at groups b).nr_entries == 0)) [
        | inl none_here ↦
            let empty : (j : ℕ) → Used groups j → b ≡ j → ⊥ = λ j w e.
              let used : 0 < (group_at groups b).nr_entries =
                subst (λ x. 0 < (group_at groups x).nr_entries) (sym e) w.1 in
              ground (arith, none_here) in
            let apart : (j : ℕ) → Used groups j → b ≤ j → suc b ≤ j = λ j w s. elim (dec_lt b j) [
              | yes less ↦ less
              | no same ↦ absurd (empty j w (omega arith))
            ] in
            let (p, run, le, used, first_one) =
              forward_loop_lem fuel (suc b) i u (apart i u h) (omega arith) in
            (
              p,
              rw (inside, none_here) run,
              omega (arith, le),
              used,
              λ j w s s'. first_one j w (apart j w s) s',
            )
        | inr here ↦ (
          b,
          rw (inside, here) refl,
          le_refl _,
          (omega (arith, u.0), ground (arith, here)),
          λ j w s s'. omega arith,
        )
      ]

module _ (t : Nali) (valid : IsValid t) (monotone : IsMonotone t) (k : ℕ) where
  b : ℕ
  b = back_loop t.group_space k (home t k)

  back : Back t.group_space k (home t k) b
  unfolding b
  back = back_loop-Back t.group_space k (home t k)

  inside : home t k < t.nr_groups
  inside =
      let (i, u) = valid.some_group in
      slot_lt (t.model k) t.nr_groups (omega (arith, u.0, valid.size))

  -- A group from which the walk forward is sure to end.
  start_of_walk : (i : ℕ) × Used t.group_space i × (b ≤ i)
  start_of_walk = elim back.stopped [
    | inl z ↦ let (i, u) = valid.some_group in (i, u, omega (arith, z))
    | inr (u, _) ↦ (b, (omega (arith, back.le, inside, valid.size), u), le_refl _)
  ]

  found-At :
      (p : ℕ)
      → b ≤ p
      → Used t.group_space p
      → ((j : ℕ) → Used t.group_space j → b ≤ j → j < p → ⊥)
      → At t.group_space k p
  found-At p le used first_one = record {
    used = used;
    above = λ j u h. elim (dec_lt (home t k) j) [
      | no near ↦ back.skipped j u (omega arith) (omega arith)
      | yes far ↦ elim (dec_lt k (first (group_at t.group_space j))) [
        | yes less ↦ less
        | no more ↦ absurd (
            omega (
              arith,
              valid.placed p j used u h,
              monotone (first (group_at t.group_space j)) k (omega arith),
            ))
      ]
    ];
    here = λ j u h. elim back.stopped [
      | inl z ↦ absurd (first_one j u (omega (arith, z)) h)
      | inr (u', low) ↦ elim (dec_lt b p) [
        | yes before ↦
            absurd (first_one b (omega (arith, back.le, inside, valid.size), u') (le_refl _) before)
        | no same ↦
            let e : b ≡ p = omega arith in subst (λ x. first (group_at t.group_space x) ≤ k) e low
      ]
    ];
  }

  -- In a valid tree whose predictions do not fall while the keys grow, `find_group` never reads
  -- past the last group and returns the one that the key belongs to: every later group that is in
  -- use starts above the key, and it starts at or below the key unless no earlier group is in use.
  pub find_group-At : (p : ℕ) × (find_group t k ≡ some p) × At t.group_space k p
  unfolding find_group b
  find_group-At =
      let (i, u, h) = start_of_walk in
      let (p, run, le, used, first_one) =
        forward_loop_lem t.group_space k t.nr_groups b i u h (omega (arith, u.0, valid.size)) in
      (p, run, found-At p le used first_one)
