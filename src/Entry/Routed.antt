-- ===== src/Entry/Routed.antt =====
-- Writes to a list of routed buckets: a bucket replaced, and a bucket split in two.
use nali.Prelude.{
  ℕ, zero, suc, ◌≤◌, ◌<◌, ◌≡◌, refl, ◌⊎◌, inl, inr, some, List, [], ◌∷◌, arith, leb, ◌==◌,
  if◌then◌else◌, length, set,
}
use nali.Entry.Defs.{Eentry, entry_at}
use nali.Entry.Route.{
  target-cons, target-one, pos_of-cons, pos_of-one, pos_of, bucket_of, target, Holds, IsRouted,
  insert_after,
}

-- The keys of `x` lie below the entry after the one at `p`.
abbrev pub Below : List Eentry → ℕ → Eentry → Type 0
Below l p x =
    suc p < length l → (k v : ℕ) → bucket_of x k ≡ some v → k < (entry_at l (suc p)).entry_key

pub IsRouted-set :
    (l : List Eentry) (p : ℕ) (x : Eentry)
    → IsRouted l
    → p < length l
    → Holds x
    → x.entry_key ≤ (entry_at l p).entry_key
    → (p ≡ 0) ⊎ (x.entry_key ≡ (entry_at l p).entry_key)
    → Below l p x
    → IsRouted (set l p x)
IsRouted-set [] p x r h a le c b = r
IsRouted-set (z ∷ []) zero x r h a le c b = (a, tt)
IsRouted-set (z ∷ []) (suc p) x r h a le c b = absurd (omega arith)
IsRouted-set (z ∷ w ∷ l) zero x r h a le c b = (a, omega (arith, r.1), b (omega arith), r.3)
IsRouted-set (z ∷ w ∷ l) (suc zero) x r h a le c b =
    let e : x.entry_key ≡ w.entry_key = ground arith in
    (
      r.0,
      omega (arith, r.1),
      λ k v q. omega (arith, r.2 k v q),
      IsRouted-set (w ∷ l) zero x r.3 (omega arith) a le (inl refl) (λ q. b (omega arith)),
    )
IsRouted-set (z ∷ w ∷ l) (suc (suc p)) x r h a le c b = (
  r.0,
  r.1,
  r.2,
  IsRouted-set (w ∷ l) (suc p) x r.3 (omega arith) a le (inr (ground arith)) (λ q. b (omega arith)),
)

pub target-set :
    (j : ℕ) (l : List Eentry) (p : ℕ) (x : Eentry)
    → p < length l
    → (p ≡ 0) ⊎ (x.entry_key ≡ (entry_at l p).entry_key)
    → target j (set l p x) ≡ (if pos_of j l == p then x else target j l)
target-set j [] p x h c = absurd (omega arith)
target-set j (z ∷ []) zero x h c = ground (arith, target-one j x, pos_of-one j z)
target-set j (z ∷ []) (suc p) x h c = absurd (omega arith)
target-set j (z ∷ w ∷ l) zero x h c =
    ground (arith, target-cons j x w l, target-cons j z w l, pos_of-cons j z w l)
target-set j (z ∷ w ∷ l) (suc zero) x h c = ground (
  arith,
  target-cons j z x l,
  target-cons j z w l,
  pos_of-cons j z w l,
  target-set j (w ∷ l) zero x (omega arith) (inl refl),
)
target-set j (z ∷ w ∷ l) (suc (suc p)) x h c = ground (
  arith,
  target-cons j z w (set l p x),
  target-cons j z w l,
  pos_of-cons j z w l,
  target-set j (w ∷ l) (suc p) x (omega arith) (inr (ground arith)),
)

-- A bucket split in two: `x` keeps the entry key, and `y` takes the keys from its own on.
pub record IsSplit (l : List Eentry) (p : ℕ) (x y : Eentry) : Type 0 where
  pub left : Holds x
  pub right : Holds y
  pub same_key : x.entry_key ≡ (entry_at l p).entry_key
  pub ordered : x.entry_key < y.entry_key
  pub left_below : (k v : ℕ) → bucket_of x k ≡ some v → k < y.entry_key
  pub right_ordered : suc p < length l → y.entry_key < (entry_at l (suc p)).entry_key
  pub right_below : Below l p y

IsSplit-tail :
    {z : Eentry} {l : List Eentry} {p : ℕ} {x y : Eentry}
    → IsSplit (z ∷ l) (suc p) x y
    → IsSplit l p x y
IsSplit-tail s = record {
  left = s.left;
  right = s.right;
  same_key = s.same_key;
  ordered = s.ordered;
  left_below = s.left_below;
  right_ordered = λ q. s.right_ordered (omega arith);
  right_below = λ q. s.right_below (omega arith);
}

pub IsRouted-insert_after :
    (l : List Eentry) (p : ℕ) (x y : Eentry)
    → IsRouted l
    → p < length l
    → IsSplit l p x y
    → IsRouted (insert_after l p x y)
IsRouted-insert_after [] p x y r h s = r
IsRouted-insert_after (z ∷ []) zero x y r h s = (s.left, s.ordered, s.left_below, (s.right, tt))
IsRouted-insert_after (z ∷ []) (suc p) x y r h s = absurd (omega arith)
IsRouted-insert_after (z ∷ w ∷ l) zero x y r h s = (
  s.left,
  s.ordered,
  s.left_below,
  (s.right, s.right_ordered (omega arith), s.right_below (omega arith), r.3),
)
IsRouted-insert_after (z ∷ w ∷ l) (suc zero) x y r h s =
    let e = s.same_key in
    (
      r.0,
      omega (arith, r.1),
      λ k v q. omega (arith, r.2 k v q),
      IsRouted-insert_after (w ∷ l) zero x y r.3 (omega arith) (IsSplit-tail s),
    )
IsRouted-insert_after (z ∷ w ∷ l) (suc (suc p)) x y r h s =
    (r.0, r.1, r.2, IsRouted-insert_after (w ∷ l) (suc p) x y r.3 (omega arith) (IsSplit-tail s))

pub target-insert_after :
    (j : ℕ) (l : List Eentry) (p : ℕ) (x y : Eentry)
    → p < length l
    → IsSplit l p x y
    → target j (insert_after l p x y)
      ≡ (if pos_of j l == p then (if leb y.entry_key j then y else x) else target j l)
target-insert_after j [] p x y h s = absurd (omega arith)
target-insert_after j (z ∷ []) zero x y h s =
    ground (arith, target-cons j x y [], target-one j y, pos_of-one j z)
target-insert_after j (z ∷ []) (suc p) x y h s = absurd (omega arith)
target-insert_after j (z ∷ w ∷ l) zero x y h s = ground (
  arith,
  target-cons j x y (w ∷ l),
  target-cons j y w l,
  target-cons j z w l,
  pos_of-cons j z w l,
  s.right_ordered,
)
target-insert_after j (z ∷ w ∷ l) (suc zero) x y h s = ground (
  arith,
  s.same_key,
  target-cons j z x (y ∷ l),
  target-cons j z w l,
  pos_of-cons j z w l,
  target-insert_after j (w ∷ l) zero x y (omega arith) (IsSplit-tail s),
)
target-insert_after j (z ∷ w ∷ l) (suc (suc p)) x y h s = ground (
  arith,
  target-cons j z w (insert_after l p x y),
  target-cons j z w l,
  pos_of-cons j z w l,
  target-insert_after j (w ∷ l) (suc p) x y (omega arith) (IsSplit-tail s),
)
