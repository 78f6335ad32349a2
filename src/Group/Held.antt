-- ===== src/Group/Held.antt =====
-- A row of entries holds exactly what its buckets hold.
use nali.Prelude.{
  ℕ, suc, ◌<◌, ◌≡◌, refl, sym, ◌∙◌, ap, inl, inr, true, false, some, List, [], ◌∷◌, arith, leb,
  length, Bool-cases,
}
use mathlib.Core.Path.{subst}
use nali.Entry.Defs.{Eentry, entry_at, PointerBEntry}
use nali.Entry.Route.{IsRouted, bucket_of, look, target, target-one, target-cons}
use nali.Entry.Valid.{live, contents}
use nali.Entry.Edges.{first_key, look-bucket_of}
use nali.Group.Chain.{IsChain, find_in, first-le-find_in}
use nali.Group.Single.{flat}
use nali.Group.Sorted.{In, Has, In-append, In-left, In-right}

In-entry_at :
    (x : Eentry) (l : List Eentry) → In x l → (p : ℕ) × (p < length l) × (x ≡ entry_at l p)
In-entry_at x [] h = absurd h
In-entry_at x (y ∷ l) h = elim h [
  | inl e ↦ (0, omega arith, e)
  | inr q ↦ let (p, less, e) = In-entry_at x l q in (suc p, omega (arith, less), e)
]

pub In-look :
    (x : Eentry) (l : List Eentry) (k v : ℕ)
    → IsRouted l
    → In x l
    → bucket_of x k ≡ some v
    → look l k ≡ some v
In-look x l k v r h q =
    let (p, less, e) = In-entry_at x l h in
    look-bucket_of l p k v r less (ap (λ y. bucket_of y k) (sym e) ∙ q)

In-target : (k : ℕ) (l : List Eentry) → IsRouted l → In (target k l) l
In-target k [] r = absurd r
In-target k (x ∷ []) r = inl (target-one k x)
In-target k (x ∷ y ∷ l) r = elim (Bool-cases (leb y.entry_key k)) [
  | inl more ↦
      let e : target k (x ∷ y ∷ l) ≡ target k (y ∷ l) = target-cons k x y l ∙ rw more refl in
      subst (λ z. In z (x ∷ y ∷ l)) (sym e) (inr (In-target k (y ∷ l) r.3))
  | inr less ↦ inl (target-cons k x y l ∙ rw less refl)
]

pub look-Has : (l : List Eentry) (k v : ℕ) → IsRouted l → look l k ≡ some v → Has l k v
look-Has l k v r q = (target k l, In-target k l r, q)

pub find_in-Has :
    (es : List PointerBEntry) (k v : ℕ) → IsChain es → find_in es k ≡ some v → Has (flat es) k v
unfolding find_in
find_in-Has [] k v c q = absurd (cc)
find_in-Has (e ∷ []) k v c q =
    let (x, h, b) = look-Has (live e) k v c.0.routed q in (x, In-left x (live e) [] h, b)
find_in-Has (e ∷ f ∷ es) k v c q = elim (Bool-cases (leb (first_key f) k)) [
  | inl more ↦
      let (x, h, b) = find_in-Has (f ∷ es) k v c.2 (ground (arith, more, q)) in
      (x, In-right x (live e) (flat (f ∷ es)) h, b)
  | inr less ↦
      let (x, h, b) = look-Has (live e) k v c.0.routed (ground (arith, less, q)) in
      (x, In-left x (live e) (flat (f ∷ es)) h, b)
]

pub Has-find_in :
    (es : List PointerBEntry) (k v : ℕ) → IsChain es → Has (flat es) k v → find_in es k ≡ some v
unfolding find_in
Has-find_in [] k v c (x, h, q) = absurd h
Has-find_in (e ∷ []) k v c (x, h, q) = elim (In-append x (live e) [] h) [
  | inl w ↦ In-look x (live e) k v c.0.routed w q
  | inr w ↦ absurd w
]
Has-find_in (e ∷ f ∷ es) k v c (x, h, q) = elim (In-append x (live e) (flat (f ∷ es)) h) [
  | inl w ↦
      let here : contents e k ≡ some v = In-look x (live e) k v c.0.routed w q in
      let less : leb (first_key f) k ≡ false = ground (arith, c.1.keys k v here) in rw less here
  | inr w ↦
      let there = Has-find_in (f ∷ es) k v c.2 (x, w, q) in
      let more : leb (first_key f) k ≡ true =
        ground (arith, first-le-find_in (f ∷ es) k v c.2 (omega arith) there) in
      rw more there
]
