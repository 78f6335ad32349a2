-- ===== src/Tree/Spread.antt =====
-- The second and the third loop of ExpandTree: every group gets the entries that are sent to it.
use nali.Prelude.{
  append_nil, ℕ, zero, suc, ◌+◌, ◌<◌, ◌≡◌, refl, sym, ◌∙◌, ap, inl, inr, true, false, some, List,
  [], ◌∷◌, ◌++◌, map, arith, ltb, ◌==◌, if◌then◌else◌, length, set, replicate, length-set,
  length-append, length-map, length-replicate, get_or-set_self, get_or-set_ne, ℕ_discrete,
  Bool-cases,
}
use mathlib.Core.Path.{subst}
use nali.Entry.Defs.{Eentry, PointerBEntry, of_entry}
use nali.Group.Defs.{Group, no_entry, write_entry}
use nali.Group.Fill.{set-append, append-cons}
use nali.Tree.Defs.{no_group, group_at}
use nali.Tree.Expand.{count_loop, reserve_space, append_entry, append_loop}

-- A group with `done` in place and room for `m` more entries.
abbrev pub shape : List PointerBEntry → ℕ → Group
shape done m = record no_group {
  nr_entries = length done;
  next_entry_count = length done + m;
  entry_space = done ++ replicate m no_entry;
}

append_entry-shape :
    (done : List PointerBEntry) (m : ℕ) (x : Eentry)
    → append_entry (shape done (suc m)) x ≡ some (shape (done ++ of_entry x ∷ []) m)
unfolding append_entry write_entry
append_entry-shape done m x =
    let inside : ltb (length done) (length (done ++ no_entry ∷ replicate m no_entry)) ≡ true =
      ground (arith, length-append done (no_entry ∷ replicate m no_entry)) in
    let size = length-append done (of_entry x ∷ []) in
    rw (inside, set-append done (replicate m no_entry) (of_entry x) no_entry)
      (ap
          (λ n. some (record no_group {
            nr_entries = n;
            next_entry_count = length done + suc m;
            entry_space = (done ++ of_entry x ∷ []) ++ replicate m no_entry;
          }))
          (omega (arith, size))
        ∙ ap
            (λ n. some (record no_group {
              nr_entries = length (done ++ of_entry x ∷ []);
              next_entry_count = n;
              entry_space = (done ++ of_entry x ∷ []) ++ replicate m no_entry;
            }))
            (omega (arith, size)))

module _ (dest : ℕ → ℕ) where
  -- The entries that are sent to the group `i`.
  abbrev pub picked : ℕ → List Eentry → List Eentry
  picked i [] = []
  picked i (x ∷ l) = if dest x.entry_key == i then x ∷ picked i l else picked i l

  -- Every entry is sent to a group that is there.
  abbrev pub Fits : ℕ → List Eentry → Type 0
  Fits n [] = Unit
  Fits n (x ∷ l) = (dest x.entry_key < n) × Fits n l

  counted : Group → ℕ → Group
  counted g m = record g { next_entry_count = g.next_entry_count + m }

  count_loop-length :
      (l : List Eentry) (groups : List Group) → length (count_loop dest l groups) ≡ length groups
  unfolding count_loop
  count_loop-length [] groups = refl
  count_loop-length (x ∷ l) groups = count_loop-length l _ ∙ length-set groups (dest x.entry_key) _

  count_loop-at :
      (l : List Eentry) (groups : List Group) (i : ℕ)
      → Fits (length groups) l
      → group_at (count_loop dest l groups) i ≡ counted (group_at groups i) (length (picked i l))
  unfolding count_loop counted
  count_loop-at [] groups i f =
      ap (λ n. record (group_at groups i) { next_entry_count = n }) (omega arith)
  count_loop-at (x ∷ l) groups i f =
      let d = dest x.entry_key in
      let g : Group = record (group_at groups d) {
        next_entry_count = (group_at groups d).next_entry_count + 1;
      } in
      let rest =
        count_loop-at l (set groups d g) i
          (subst (λ n. Fits n l) (sym (length-set groups d g)) f.1) in
      elim (ℕ_discrete d i) [
        | yes e ↦
            let test : (d == i) ≡ true = ground (arith, e) in
            let m = length (picked i l) in
            rest
            ∙ rw test (
                subst
                  (λ j.
                    counted (group_at (set groups d g) j) m ≡ counted (group_at groups j) (suc m))
                  e
                  (ap (λ h. counted h m) (get_or-set_self groups d g no_group f.0)
                    ∙ ap (λ n. record (group_at groups d) { next_entry_count = n }) (omega arith)))
        | no ne ↦
            let test : (d == i) ≡ false = ground (arith, ne) in
            rest
            ∙ rw test
                (ap (λ h. counted h (length (picked i l))) (get_or-set_ne groups d i g no_group ne))
      ]

  pub picked-hit :
      (i : ℕ) (x : Eentry) (l : List Eentry)
      → dest x.entry_key ≡ i
      → picked i (x ∷ l) ≡ x ∷ picked i l
  picked-hit i x l e = let test : (dest x.entry_key == i) ≡ true = ground (arith, e) in rw test refl

  pub picked-miss :
      (i : ℕ) (x : Eentry) (l : List Eentry)
      → ¬ (dest x.entry_key ≡ i)
      → picked i (x ∷ l) ≡ picked i l
  picked-miss i x l ne =
      let test : (dest x.entry_key == i) ≡ false = ground (arith, ne) in rw test refl

  next : (ℕ → List PointerBEntry) → Eentry → ℕ → List PointerBEntry
  next done x i = if dest x.entry_key == i then done i ++ of_entry x ∷ [] else done i

  next-append :
      (done : ℕ → List PointerBEntry) (x : Eentry) (l : List Eentry) (i : ℕ)
      → next done x i ++ map of_entry (picked i l) ≡ done i ++ map of_entry (picked i (x ∷ l))
  unfolding next
  next-append done x l i = elim (Bool-cases (dest x.entry_key == i)) [
    | inl hit ↦ rw hit (append-cons (done i) (map of_entry (picked i l)) (of_entry x))
    | inr miss ↦ rw miss refl
  ]

  next-at :
      (groups : List Group) (done : ℕ → List PointerBEntry) (x : Eentry) (l : List Eentry) (i : ℕ)
      → dest x.entry_key < length groups
      → ((i : ℕ)
          → i < length groups
          → group_at groups i ≡ shape (done i) (length (picked i (x ∷ l))))
      → i < length groups
      → group_at
          (set groups (dest x.entry_key) (
            shape
              (done (dest x.entry_key) ++ of_entry x ∷ [])
              (length (picked (dest x.entry_key) l))))
          i
        ≡ shape (next done x i) (length (picked i l))
  unfolding next
  next-at groups done x l i inside h q =
      let d = dest x.entry_key in
      let g = shape (done d ++ of_entry x ∷ []) (length (picked d l)) in
      elim (ℕ_discrete d i) [
        | yes e ↦
            let test : (d == i) ≡ true = ground (arith, e) in
            rw test (
              subst
                (λ j.
                  group_at (set groups d g) j
                  ≡ shape (done j ++ of_entry x ∷ []) (length (picked j l)))
                e (get_or-set_self groups d g no_group inside))
        | no ne ↦
            let test : (d == i) ≡ false = ground (arith, ne) in
            rw test (
              get_or-set_ne groups d i g no_group ne
              ∙ h i q
              ∙ ap (λ es. shape (done i) (length es)) (picked-miss i x l ne))
      ]

  -- The third loop writes to no group past its room.
  append_loop-shape :
      (l : List Eentry) (groups : List Group) (done : ℕ → List PointerBEntry)
      → Fits (length groups) l
      → ((i : ℕ) → i < length groups → group_at groups i ≡ shape (done i) (length (picked i l)))
      → (groups' : List Group) × (append_loop dest l groups ≡ some groups')
        × (length groups' ≡ length groups)
        × ((i : ℕ)
            → i < length groups
            → group_at groups' i ≡ shape (done i ++ map of_entry (picked i l)) 0)
  unfolding append_loop
  append_loop-shape [] groups done f h =
      (groups, refl, refl, λ i q. h i q ∙ ap (λ es. shape es 0) (sym (append_nil (done i))))
  append_loop-shape (x ∷ l) groups done f h =
      let d = dest x.entry_key in
      let m = length (picked d l) in
      let here : group_at groups d ≡ shape (done d) (suc m) =
        h d f.0 ∙ ap (λ es. shape (done d) (length es)) (picked-hit d x l refl) in
      let g = shape (done d ++ of_entry x ∷ []) m in
      let run = ap (λ h. append_entry h x) here ∙ append_entry-shape (done d) m x in
      let size = length-set groups d g in
      let (groups', run', size', at') =
        append_loop-shape l (set groups d g) (next done x) (subst (λ n. Fits n l) (sym size) f.1)
          (λ i q. next-at groups done x l i f.0 h (omega arith)) in
      (
        groups',
        rw (run, run') refl,
        size' ∙ size,
        λ i q. at' i (omega arith) ∙ ap (λ es. shape es 0) (next-append done x l i),
      )

  pub map-at :
      (f : Group → Group) (groups : List Group) (i : ℕ)
      → i < length groups
      → group_at (map f groups) i ≡ f (group_at groups i)
  map-at f [] i h = absurd (omega arith)
  map-at f (g ∷ groups) zero h = refl
  map-at f (g ∷ groups) (suc i) h = map-at f groups i (omega arith)

  replicate-at : (n i : ℕ) → group_at (replicate n no_group) i ≡ no_group
  replicate-at zero i = refl
  replicate-at (suc n) zero = refl
  replicate-at (suc n) (suc i) = replicate-at n i

  reserve_space-shape :
      (m : ℕ) → reserve_space (record no_group { next_entry_count = m }) ≡ shape [] m
  unfolding reserve_space
  reserve_space-shape zero = refl
  reserve_space-shape (suc m) =
      let test : (suc m == 0) ≡ false = ground arith in
      rw (test, reserve_space)
        (ap
          (λ n. record no_group { next_entry_count = n; entry_space = replicate (suc m) no_entry })
          (omega arith))

  -- The two loops on a fresh space of `n` groups.
  pub spread_lem :
      (l : List Eentry) (n : ℕ)
      → Fits n l
      → (groups : List Group) × (append_loop dest l
            (map reserve_space (count_loop dest l (replicate n no_group)))
          ≡ some groups)
        × (length groups ≡ n)
        × ((i : ℕ) → i < n → group_at groups i ≡ shape (map of_entry (picked i l)) 0)
  unfolding counted
  spread_lem l n f =
      let fresh = replicate n no_group in
      let size = length-replicate n no_group in
      let counts = count_loop dest l fresh in
      let size' = length-map reserve_space counts ∙ count_loop-length l fresh ∙ size in
      let (groups, run, size'', at) =
        append_loop-shape l (map reserve_space counts) (λ i. [])
          (subst (λ m. Fits m l) (sym size') f)
          (λ i h.
            map-at reserve_space counts i (omega (arith, length-map reserve_space counts))
            ∙ ap reserve_space (
                count_loop-at l fresh i (subst (λ m. Fits m l) (sym size) f)
                ∙ ap (λ g. counted g (length (picked i l))) (replicate-at n i)
                ∙ ap (λ m. record no_group { next_entry_count = m }) (omega arith))
            ∙ reserve_space-shape (length (picked i l))) in
      (groups, run, size'' ∙ size', λ i h. at i (omega arith))
