-- ===== src/Tree/Picked.antt =====
-- The entries that go to one group, taken from an ascending list.
use nali.Prelude.{ℕ, ◌<◌, ◌≡◌, sym, ◌∙◌, ap, inl, inr, List, [], ◌∷◌, arith, ℕ_discrete}
use mathlib.Core.Path.{subst}
use nali.Entry.Defs.{Eentry}
use nali.Group.Sorted.{In, Before, Sorted}
use nali.Tree.Spread.{picked, picked-hit, picked-miss}

-- Lists of ascending buckets.
module _ (dest : ℕ → ℕ) where
  pub In-picked :
      (x : Eentry) (i : ℕ) (l : List Eentry)
      → In x (picked dest i l)
      → In x l × (dest x.entry_key ≡ i)
  In-picked x i [] h = absurd h
  In-picked x i (y ∷ l) h = elim (ℕ_discrete (dest y.entry_key) i) [
    | yes e ↦ elim (subst (In x) (picked-hit dest i y l e) h) [
      | inl same ↦ (inl same, ap (λ (z : Eentry). dest z.entry_key) same ∙ e)
      | inr q ↦ let (w, d) = In-picked x i l q in (inr w, d)
    ]
    | no ne ↦
        let (w, d) = In-picked x i l (subst (In x) (picked-miss dest i y l ne) h) in (inr w, d)
  ]

  pub picked-In : (x : Eentry) (l : List Eentry) → In x l → In x (picked dest (dest x.entry_key) l)
  picked-In x [] h = absurd h
  picked-In x (y ∷ l) h = elim h [
    | inl same ↦
        subst (In x)
          (sym (
            picked-hit dest (dest x.entry_key) y l
              (ap (λ (z : Eentry). dest z.entry_key) (sym same))))
          (inl same)
    | inr q ↦ elim (ℕ_discrete (dest y.entry_key) (dest x.entry_key)) [
      | yes e ↦
          subst (In x) (sym (picked-hit dest (dest x.entry_key) y l e)) (inr (picked-In x l q))
      | no ne ↦ subst (In x) (sym (picked-miss dest (dest x.entry_key) y l ne)) (picked-In x l q)
    ]
  ]

  pub picked-Sorted : (i : ℕ) (l : List Eentry) → Sorted l → Sorted (picked dest i l)
  picked-Sorted i [] s = tt
  picked-Sorted i (x ∷ l) s = elim (ℕ_discrete (dest x.entry_key) i) [
    | yes e ↦
        subst Sorted (sym (picked-hit dest i x l e))
          (s.0, λ y h. s.1 y (In-picked y i l h).0, picked-Sorted i l s.2)
    | no ne ↦ subst Sorted (sym (picked-miss dest i x l ne)) (picked-Sorted i l s.2)
  ]

-- Of two buckets, the one with the lower key comes first.
pub lower-Before :
    (l : List Eentry) (x y : Eentry)
    → Sorted l
    → In x l
    → In y l
    → x.entry_key < y.entry_key
    → Before x y.entry_key
lower-Before [] x y s h q less = absurd h
lower-Before (z ∷ l) x y s h q less = elim h [
  | inl e ↦ elim q [
    | inl e' ↦ absurd (
        omega
          (arith, less, ap (λ (w : Eentry). w.entry_key) e, ap (λ (w : Eentry). w.entry_key) e'))
    | inr q' ↦ subst (λ w. Before w y.entry_key) (sym e) (s.1 y q')
  ]
  | inr h' ↦ elim q [
    | inl e' ↦ absurd (omega (arith, less, (s.1 x h').0, ap (λ (w : Eentry). w.entry_key) e'))
    | inr q' ↦ lower-Before l x y s.2 h' q' less
  ]
]
