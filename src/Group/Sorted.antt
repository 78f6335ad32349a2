-- ===== src/Group/Sorted.antt =====
-- The buckets of a row of entries as one ascending list, and what it holds.
use nali.Prelude.{ℕ, ◌≤◌, ◌<◌, ◌≡◌, refl, ◌⊎◌, inl, inr, some, List, [], ◌∷◌, ◌++◌, arith}
use native.Mathlib.Nat.{le_refl}
use nali.Entry.Defs.{Eentry, entry_at, PointerBEntry}
use nali.Entry.Route.{IsRouted, Holds, bucket_of}
use nali.Entry.Valid.{live, IsValid}
use nali.Entry.Edges.{first_key, last_entry, Under}
use nali.Group.Chain.{node_at, IsChain, UnderRow, Under-first, first_key-lt}
use nali.Group.Single.{flat, head-live, look-last_entry}

abbrev pub In : Eentry → List Eentry → Type 0
In x [] = ⊥
In x (y ∷ l) = (x ≡ y) ⊎ In x l

-- The key of the bucket, and the keys that it holds, lie below `bound`.
abbrev pub Before : Eentry → ℕ → Type 0
Before x bound = (x.entry_key < bound) × ((k v : ℕ) → bucket_of x k ≡ some v → k < bound)

abbrev pub Sorted : List Eentry → Type 0
Sorted [] = Unit
Sorted (x ∷ l) = Holds x × ((y : Eentry) → In y l → Before x y.entry_key) × Sorted l

abbrev pub Has : List Eentry → ℕ → ℕ → Type 0
Has l k v = (x : Eentry) × In x l × (bucket_of x k ≡ some v)

pub Before-le : (x : Eentry) (a b : ℕ) → Before x a → a ≤ b → Before x b
Before-le x a b h q = (omega (arith, h.0), λ k v p. omega (arith, h.1 k v p))

pub In-append : (x : Eentry) (l m : List Eentry) → In x (l ++ m) → In x l ⊎ In x m
In-append x [] m h = inr h
In-append x (y ∷ l) m h = elim h [
  | inl e ↦ inl (inl e)
  | inr q ↦ elim (In-append x l m q) [ inl w ↦ inl (inr w) | inr w ↦ inr w ]
]

pub In-left : (x : Eentry) (l m : List Eentry) → In x l → In x (l ++ m)
In-left x [] m h = absurd h
In-left x (y ∷ l) m h = elim h [ inl e ↦ inl e | inr q ↦ inr (In-left x l m q) ]

pub In-right : (x : Eentry) (l m : List Eentry) → In x m → In x (l ++ m)
In-right x [] m h = h
In-right x (y ∷ l) m h = inr (In-right x l m h)

pub Sorted-append :
    (l m : List Eentry)
    → Sorted l
    → Sorted m
    → ((x y : Eentry) → In x l → In y m → Before x y.entry_key)
    → Sorted (l ++ m)
Sorted-append [] m s t cross = t
Sorted-append (x ∷ l) m s t cross = (
  s.0,
  λ y h. elim (In-append y l m h) [ inl q ↦ s.1 y q | inr q ↦ cross x y (inl refl) q ],
  Sorted-append l m s.2 t (λ z y h q. cross z y (inr h) q),
)

first-le-In :
    (x : Eentry) (l : List Eentry) → IsRouted l → In x l → (entry_at l 0).entry_key ≤ x.entry_key
first-le-In x [] r h = absurd h
first-le-In x (y ∷ []) r h = elim h [ inl e ↦ rw e (le_refl _) | inr q ↦ absurd q ]
first-le-In x (y ∷ z ∷ l) r h = elim h [
  | inl e ↦ rw e (le_refl _)
  | inr q ↦ omega (arith, r.1, first-le-In x (z ∷ l) r.3 q)
]

IsRouted-Sorted : (l : List Eentry) → IsRouted l → Sorted l
IsRouted-Sorted [] r = tt
IsRouted-Sorted (x ∷ []) r = (r.0, λ y h. absurd h, tt)
IsRouted-Sorted (x ∷ y ∷ l) r = (
  r.0,
  λ z h. Before-le x y.entry_key z.entry_key (r.1, r.2) (first-le-In z (y ∷ l) r.3 h),
  IsRouted-Sorted (y ∷ l) r.3,
)

pub Sorted-IsRouted : (x : Eentry) (l : List Eentry) → Sorted (x ∷ l) → IsRouted (x ∷ l)
Sorted-IsRouted x [] s = (s.0, tt)
Sorted-IsRouted x (y ∷ l) s = let b = s.1 y (inl refl) in (s.0, b.0, b.1, Sorted-IsRouted y l s.2)

last-Before :
    (l : List Eentry) (bound : ℕ)
    → IsRouted l
    → Before (last_entry l) bound
    → (x : Eentry) → In x l
    → Before x bound
last-Before [] bound r b x h = absurd h
last-Before (y ∷ []) bound r b x h = elim h [ inl e ↦ rw e b | inr q ↦ absurd q ]
last-Before (y ∷ z ∷ l) bound r b x h = elim h [
  | inl e ↦ rw e (
      Before-le y z.entry_key bound (r.1, r.2)
        (let w = last-Before (z ∷ l) bound r.3 b z (inl refl) in omega (arith, w.0)))
  | inr q ↦ last-Before (z ∷ l) bound r.3 b x q
]

Under-Before :
    (e : PointerBEntry) (bound : ℕ)
    → IsValid e
    → Under e bound
    → (x : Eentry) → In x (live e)
    → Before x bound
Under-Before e bound v u =
    last-Before (live e) bound v.routed
      (u.last, λ j w q. u.keys j w (look-last_entry (live e) j w v.routed q))

first-le-live :
    (e : PointerBEntry) (x : Eentry) → IsValid e → In x (live e) → first_key e ≤ x.entry_key
first-le-live e x v q = rw (← head-live e v) (first-le-In x (live e) v.routed q)

-- Every bucket of a row keeps its bounds.
pub flat-Before :
    (es : List PointerBEntry) (bound : ℕ)
    → IsChain es
    → UnderRow es bound
    → (x : Eentry) → In x (flat es)
    → Before x bound
flat-Before [] bound c u x h = absurd h
flat-Before (e ∷ []) bound c u x h = elim (In-append x (live e) [] h) [
  | inl q ↦ Under-Before e bound c.0 u x q
  | inr q ↦ absurd q
]
flat-Before (e ∷ f ∷ es) bound c u x h = elim (In-append x (live e) (flat (f ∷ es)) h) [
  | inl q ↦ Under-Before e bound c.0 (Under-first e (f ∷ es) bound c u) x q
  | inr q ↦ flat-Before (f ∷ es) bound c.2 u x q
]

pub first-le-flat :
    (es : List PointerBEntry) (x : Eentry)
    → IsChain es
    → In x (flat es)
    → first_key (node_at es 0) ≤ x.entry_key
first-le-flat [] x c h = absurd h
first-le-flat (e ∷ []) x c h = elim (In-append x (live e) [] h) [
  | inl q ↦ first-le-live e x c.0 q
  | inr q ↦ absurd q
]
first-le-flat (e ∷ f ∷ es) x c h = elim (In-append x (live e) (flat (f ∷ es)) h) [
  | inl q ↦ first-le-live e x c.0 q
  | inr q ↦ omega (arith, first_key-lt e (f ∷ es) 0 c (omega arith), first-le-flat (f ∷ es) x c.2 q)
]

pub flat-Sorted : (es : List PointerBEntry) → IsChain es → Sorted (flat es)
flat-Sorted [] c = tt
flat-Sorted (e ∷ []) c =
    Sorted-append (live e) [] (IsRouted-Sorted (live e) c.0.routed) tt (λ x y h q. absurd q)
flat-Sorted (e ∷ f ∷ es) c =
    Sorted-append (live e) (flat (f ∷ es)) (IsRouted-Sorted (live e) c.0.routed)
      (flat-Sorted (f ∷ es) c.2)
      (λ x y h q.
        Before-le x (first_key f) y.entry_key (Under-Before e (first_key f) c.0 c.1 x h)
          (first-le-flat (f ∷ es) y c.2 q))
