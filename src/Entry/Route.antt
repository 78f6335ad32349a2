-- ===== src/Entry/Route.antt =====
-- Which bucket a key is routed to, and the map that a list of routed buckets stands for.
use nali.Prelude.{
  ℕ, zero, suc, ◌≤◌, ◌<◌, ◌≡◌, refl, Option, none, some, true, List, [], ◌∷◌, arith, leb,
  if◌then◌else◌, length, set,
}
use nali.Bucket.Defs.{UnSortBuncket}
use nali.Bucket.Valid
use nali.Entry.Defs.{Eentry, entry_at, is_valid}

-- The last entry whose key is at most `k`; the first, if there is none.
unfoldable pub pos_of : ℕ → List Eentry → ℕ
pos_of k [] = 0
pos_of k (x ∷ []) = 0
pos_of k (x ∷ y ∷ r) = if leb y.entry_key k then suc (pos_of k (y ∷ r)) else 0

unfoldable pub bucket_of : Eentry → ℕ → Option ℕ
bucket_of x k = elim x.pointer [ none ↦ none | some b ↦ Valid.contents b k ]

pub bucket_of-pointed :
    (x : Eentry) (b : UnSortBuncket) (k : ℕ)
    → x.pointer ≡ some b
    → bucket_of x k ≡ Valid.contents b k
unfolding bucket_of
bucket_of-pointed x b k h = rw (h, bucket_of)

pub bucket_of-pointer :
    (x y : Eentry) (k : ℕ) → x.pointer ≡ y.pointer → bucket_of x k ≡ bucket_of y k
unfolding bucket_of
bucket_of-pointer x y k h = rw (h, bucket_of)

-- The entry that a key is routed to.
unfoldable pub target : ℕ → List Eentry → Eentry
target k l = entry_at l (pos_of k l)

abbrev pub look : List Eentry → ℕ → Option ℕ
look l k = bucket_of (target k l) k

pub target-cons :
    (j : ℕ) (x y : Eentry) (l : List Eentry)
    → target j (x ∷ y ∷ l) ≡ (if leb y.entry_key j then target j (y ∷ l) else x)
unfolding target pos_of
target-cons j x y l = ground arith

pub target-one : (j : ℕ) (x : Eentry) → target j (x ∷ []) ≡ x
unfolding target pos_of
target-one j x = refl

pub pos_of-one : (j : ℕ) (x : Eentry) → pos_of j (x ∷ []) ≡ 0
unfolding pos_of
pos_of-one j x = refl

pub pos_of-cons :
    (j : ℕ) (x y : Eentry) (l : List Eentry)
    → pos_of j (x ∷ y ∷ l) ≡ (if leb y.entry_key j then suc (pos_of j (y ∷ l)) else 0)
unfolding pos_of
pos_of-cons j x y l = refl

pub record Holds (x : Eentry) : Type 0 where
  pub bucket : UnSortBuncket
  pub pointed : x.pointer ≡ some bucket
  pub valid : Valid.IsValid bucket
  pub above : (k v : ℕ) → Valid.contents bucket k ≡ some v → x.entry_key ≤ k
  pub set_up : is_valid x ≡ true

-- Every bucket is valid, and its keys lie between its entry key and the next one.
abbrev pub IsRouted : List Eentry → Type 0
IsRouted [] = ⊥
IsRouted (x ∷ []) = Holds x × Unit {0}
IsRouted (x ∷ y ∷ r) =
    Holds x
    × (x.entry_key < y.entry_key)
    × ((k v : ℕ) → bucket_of x k ≡ some v → k < y.entry_key)
    × IsRouted (y ∷ r)

pub pos_of-lt : (k : ℕ) (l : List Eentry) → 0 < length l → pos_of k l < length l
unfolding pos_of
pos_of-lt k [] h = h
pos_of-lt k (x ∷ []) h = omega arith
pos_of-lt k (x ∷ y ∷ r) h = ground (arith, pos_of-lt k (y ∷ r))

pub Holds-at : (l : List Eentry) (p : ℕ) → IsRouted l → p < length l → Holds (entry_at l p)
Holds-at [] p r h = absurd r
Holds-at (x ∷ []) zero r h = r.0
Holds-at (x ∷ []) (suc p) r h = absurd (omega arith)
Holds-at (x ∷ y ∷ l) zero r h = r.0
Holds-at (x ∷ y ∷ l) (suc p) r h = Holds-at (y ∷ l) p r.3 (omega arith)

-- The entry at the position of a key has a key at most that large, unless it is the first.
pub pos_of-le : (k : ℕ) (l : List Eentry) → 0 < pos_of k l → (entry_at l (pos_of k l)).entry_key ≤ k
unfolding pos_of
pos_of-le k [] h = absurd (omega arith)
pos_of-le k (x ∷ []) h = absurd (omega arith)
pos_of-le k (x ∷ y ∷ []) h = ground arith
pos_of-le k (x ∷ y ∷ z ∷ r) h = ground (arith, pos_of-le k (y ∷ z ∷ r))

-- Every key lies below the key of the entry after its position.
pub lt-next :
    (k : ℕ) (l : List Eentry)
    → suc (pos_of k l) < length l
    → k < (entry_at l (suc (pos_of k l))).entry_key
unfolding pos_of
lt-next k [] h = absurd (omega arith)
lt-next k (x ∷ []) h = absurd (omega arith)
lt-next k (x ∷ y ∷ r) h = ground (arith, lt-next k (y ∷ r))

-- A new bucket in the entry at `p`, under the same entry key.
pub pos_of-set :
    (k : ℕ) (l : List Eentry) (p : ℕ) (x : Eentry)
    → x.entry_key ≡ (entry_at l p).entry_key
    → pos_of k (set l p x) ≡ pos_of k l
unfolding pos_of
pos_of-set k [] p x e = refl
pos_of-set k (y ∷ []) zero x e = refl
pos_of-set k (y ∷ []) (suc p) x e = refl
pos_of-set k (y ∷ z ∷ l) zero x e = refl
pos_of-set k (y ∷ z ∷ l) (suc zero) x e = ground (arith, pos_of-set k (z ∷ l) zero x e)
pos_of-set k (y ∷ z ∷ l) (suc (suc p)) x e = ground (arith, pos_of-set k (z ∷ l) (suc p) x e)

-- The key of the first entry routes nothing.
pub pos_of-set_first : (k : ℕ) (l : List Eentry) (x : Eentry) → pos_of k (set l 0 x) ≡ pos_of k l
unfolding pos_of
pos_of-set_first k [] x = refl
pos_of-set_first k (y ∷ []) x = refl
pos_of-set_first k (y ∷ z ∷ l) x = refl

-- `l` with the entry at `p` split into `x` and `y`
abbrev pub insert_after : List Eentry → ℕ → Eentry → Eentry → List Eentry
insert_after [] p x y = []
insert_after (z ∷ l) zero x y = x ∷ y ∷ l
insert_after (z ∷ l) (suc p) x y = z ∷ insert_after l p x y
