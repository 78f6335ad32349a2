-- ===== src/Group/Fill.antt =====
-- The loops of `expand` as one sequence of writes, which fills the new `entry_space`.
use nali.Prelude.{
  ℕ, zero, suc, ◌+◌, ◌≤◌, ◌<◌, ◌≡◌, refl, sym, ◌∙◌, ap, true, inl, inr, Bool-cases, Option, some,
  none, List, [], ◌∷◌, ◌++◌, map, arith, ltb, length, set, take, drop, replicate, get_or, ◌>>=◌,
  length-append,
}
use mathlib.Core.Path.{subst}
use nali.Entry.Defs.{Eentry, zeroed, entry_at, PointerBEntry, count, of_entry}
use nali.Entry.Valid.{live}
use nali.Group.Chain.{node_at, IsChain, IsValid-at, IsChain-tail}
use nali.Group.Defs.{write_entry, iter_loop, copy_loop}
use nali.Group.Single.{flat, expanded, map-append}

bind-congr :
    {A B : Type 0} (m : Option A) (f g : A → Option B)
    → ((x : A) → f x ≡ g x)
    → (m >>= f) ≡ (m >>= g)
bind-congr none f g h = refl
bind-congr (some x) f g h = h x

unfoldable pub fill : List PointerBEntry → List PointerBEntry → ℕ → Option (List PointerBEntry × ℕ)
fill [] space n = some (space, n)
fill (x ∷ xs) space n = do space' ← write_entry space n x; fill xs space' (suc n)

module _ {ℓ} {A : Type ℓ} where
  drop-cons : (i : ℕ) (l : List A) (d : A) → i < length l → drop i l ≡ get_or l i d ∷ drop (suc i) l
  drop-cons i [] d h = absurd (omega arith)
  drop-cons zero (x ∷ l) d h = refl
  drop-cons (suc i) (x ∷ l) d h = drop-cons i l d (omega arith)

fill-append :
    (xs ys space : List PointerBEntry) (n : ℕ)
    → fill (xs ++ ys) space n ≡ (do (space', n') ← fill xs space n; fill ys space' n')
unfolding fill write_entry
fill-append [] ys space n = refl
fill-append (x ∷ xs) ys space n = elim (Bool-cases (ltb n (length space))) [
  | inl here ↦ rw here (fill-append xs ys (set space n x) (suc n))
  | inr out ↦ rw out refl
]

iter_loop-fill :
    (rounds cur : ℕ) (e : PointerBEntry) (space : List PointerBEntry) (n : ℕ)
    → cur + rounds ≤ length e.entrys
    → iter_loop rounds cur e space n ≡ fill (map of_entry (take rounds (drop cur e.entrys))) space n
unfolding iter_loop fill
iter_loop-fill zero cur e space n h = refl
iter_loop-fill (suc rounds) cur e space n h =
    subst
      (λ (l : List Eentry).
        iter_loop (suc rounds) cur e space n ≡ fill (map of_entry (take (suc rounds) l)) space n)
      (sym (drop-cons cur e.entrys zeroed (omega arith)))
      (bind-congr (write_entry space n (of_entry (entry_at e.entrys cur))) _ _
        (λ s. iter_loop-fill rounds (suc cur) e s (suc n) (omega arith)))

-- The whole copy.
pub copy_loop-fill :
    (rounds i : ℕ) (old space : List PointerBEntry) (n : ℕ)
    → i + rounds ≤ length old
    → IsChain (take rounds (drop i old))
    → copy_loop rounds i old space n ≡ fill (expanded (take rounds (drop i old))) space n
unfolding copy_loop fill
copy_loop-fill zero i old space n h c = refl
copy_loop-fill (suc rounds) i old space n h c =
    let e = node_at old i in
    let here = drop-cons i old (record { entrys = [] }) (omega arith) in
    let c' : IsChain (e ∷ take rounds (drop (suc i) old)) =
      subst (λ (l : List PointerBEntry). IsChain (take (suc rounds) l)) here c in
    let v = IsValid-at (e ∷ take rounds (drop (suc i) old)) 0 c' (omega arith) in
    subst
      (λ (l : List PointerBEntry).
        copy_loop (suc rounds) i old space n ≡ fill (expanded (take (suc rounds) l)) space n)
      (sym here)
      (rw
        (
          iter_loop-fill (count e) 0 e space n (omega (arith, v.size, v.bounded)),
          map-append (live e) (flat (take rounds (drop (suc i) old))),
          fill-append (map of_entry (live e)) (expanded (take rounds (drop (suc i) old))) space n,
        )
        (bind-congr (fill (map of_entry (live e)) space n) _ _
          (λ p. copy_loop-fill rounds (suc i) old p.0 p.1 (omega arith) (IsChain-tail e _ c'))))

module _ {ℓ} {A : Type ℓ} where
  pub set-append :
      (ys zs : List A) (x d : A) → set (ys ++ d ∷ zs) (length ys) x ≡ (ys ++ x ∷ []) ++ zs
  set-append [] zs x d = refl
  set-append (y ∷ ys) zs x d = ap (◌∷◌ y) (set-append ys zs x d)

  pub append-cons : (ys zs : List A) (x : A) → (ys ++ x ∷ []) ++ zs ≡ ys ++ x ∷ zs
  append-cons [] zs x = refl
  append-cons (y ∷ ys) zs x = ap (◌∷◌ y) (append-cons ys zs x)

-- The space is filled to its end.
pub fill_all :
    (xs ys : List PointerBEntry) (d : PointerBEntry)
    → fill xs (ys ++ replicate (length xs) d) (length ys) ≡ some (ys ++ xs, length ys + length xs)
unfolding fill write_entry
fill_all [] ys d = ap (λ n. some (ys ++ [], n)) (omega arith)
fill_all (x ∷ xs) ys d =
    let inside : ltb (length ys) (length (ys ++ d ∷ replicate (length xs) d)) ≡ true =
      ground (arith, length-append ys (d ∷ replicate (length xs) d)) in
    let n : suc (length ys) ≡ length (ys ++ x ∷ []) = omega (arith, length-append ys (x ∷ [])) in
    rw inside (
      rw (set-append ys (replicate (length xs) d) x d, n)
        (fill_all xs (ys ++ x ∷ []) d
          ∙ rw (append-cons ys xs x)
              (ap (λ n. some (ys ++ x ∷ xs, n)) (omega (arith, length-append ys (x ∷ []))))))
