-- ===== src/Group/Chain.antt =====
-- A row of entries in ascending order, such as the `entry_space` of a group, and its map.
use native.Mathlib.Nat.{le_refl}
use nali.Prelude.{
  ℕ, zero, suc, ◌≤◌, ◌<◌, ◌≡◌, refl, ap, inl, inr, true, false, Option, none, some, List, [], ◌∷◌,
  arith, leb, ◌==◌, if◌then◌else◌, length, get_or, set, get_or-take, Bool-cases,
}
use nali.Entry.Defs.{Eentry, zeroed, entry_at, PointerBEntry, count}
use nali.Entry.Route.{IsRouted}
use nali.Entry.Valid.{live, contents, IsValid}
use nali.Entry.Edges.{first_key, last_entry, last_key, Under, Keeps, Moved-same, first-le-contents}

-- `entry_space[i]`
abbrev pub node_at : List PointerBEntry → ℕ → PointerBEntry
node_at es i = get_or es i (record { entrys = [] })

-- Valid entries, each under the first key of the next.
abbrev pub IsChain : List PointerBEntry → Type 0
IsChain [] = Unit
IsChain (e ∷ []) = IsValid e × Unit {0}
IsChain (e ∷ f ∷ es) = IsValid e × Under e (first_key f) × IsChain (f ∷ es)

unfoldable pub find_in : List PointerBEntry → ℕ → Option ℕ
find_in [] k = none
find_in (e ∷ []) k = contents e k
find_in (e ∷ f ∷ es) k = if leb (first_key f) k then find_in (f ∷ es) k else contents e k

-- The entry that a key belongs to.
pub record At (es : List PointerBEntry) (k p : ℕ) : Type 0 where
  pub inside : p < length es
  pub above : (i : ℕ) → p < i → i < length es → k < first_key (node_at es i)
  pub here : 0 < p → first_key (node_at es p) ≤ k

pub first-le-last :
    (l : List Eentry) → IsRouted l → (entry_at l 0).entry_key ≤ (last_entry l).entry_key
first-le-last [] r = absurd r
first-le-last (x ∷ []) r = le_refl _
first-le-last (x ∷ y ∷ l) r = omega (arith, r.1, first-le-last (y ∷ l) r.3)

first_key-le : (e : PointerBEntry) → IsValid e → first_key e ≤ last_key e
first_key-le e v =
    rw (← ap (λ (z : Eentry). z.entry_key) (get_or-take (count e) e.entrys 0 zeroed v.used))
      (first-le-last (live e) v.routed)

pub IsChain-tail : (e : PointerBEntry) (es : List PointerBEntry) → IsChain (e ∷ es) → IsChain es
IsChain-tail e [] c = tt
IsChain-tail e (f ∷ es) c = c.2

pub first_key-lt :
    (e : PointerBEntry) (es : List PointerBEntry) (i : ℕ)
    → IsChain (e ∷ es)
    → i < length es
    → first_key e < first_key (node_at es i)
first_key-lt e [] i c h = absurd (omega arith)
first_key-lt e (f ∷ es) zero c h = omega (arith, c.1.last, first_key-le e c.0)
first_key-lt e (f ∷ es) (suc i) c h =
    omega (arith, c.1.last, first_key-le e c.0, first_key-lt f es i c.2 (omega arith))

pub IsValid-at :
    (es : List PointerBEntry) (i : ℕ) → IsChain es → i < length es → IsValid (node_at es i)
IsValid-at [] i c h = absurd (omega arith)
IsValid-at (e ∷ []) zero c h = c.0
IsValid-at (e ∷ []) (suc i) c h = absurd (omega arith)
IsValid-at (e ∷ f ∷ es) zero c h = c.0
IsValid-at (e ∷ f ∷ es) (suc i) c h = IsValid-at (f ∷ es) i c.2 (omega arith)

pub first_key_mono :
    (es : List PointerBEntry) (i j : ℕ)
    → IsChain es
    → i ≤ j
    → j < length es
    → first_key (node_at es i) ≤ first_key (node_at es j)
first_key_mono [] i j c h q = absurd (omega arith)
first_key_mono (e ∷ es) zero zero c h q = le_refl _
first_key_mono (e ∷ es) zero (suc j) c h q = omega (arith, first_key-lt e es j c (omega arith))
first_key_mono (e ∷ es) (suc i) zero c h q = absurd (omega arith)
first_key_mono (e ∷ es) (suc i) (suc j) c h q =
    first_key_mono es i j (IsChain-tail e es c) (omega arith) (omega arith)

At-tail :
    (e f : PointerBEntry) (es : List PointerBEntry) (k p : ℕ)
    → At (e ∷ f ∷ es) k (suc p)
    → At (f ∷ es) k p
At-tail e f es k p a = record {
  inside = omega (arith, a.inside);
  above = λ i h q. a.above (suc i) (omega arith) (omega arith);
  here = λ h. a.here (omega arith);
}

-- The tail is entered at its head.
At-first :
    (e f : PointerBEntry) (es : List PointerBEntry) (k p : ℕ)
    → IsChain (f ∷ es)
    → At (e ∷ f ∷ es) k (suc p)
    → first_key f ≤ k
At-first e f es k p c a = omega (
  arith,
  a.here (omega arith),
  first_key_mono (f ∷ es) 0 p c (omega arith) (omega (arith, a.inside)),
)

pub find_in-At :
    (es : List PointerBEntry) (k p : ℕ)
    → IsChain es
    → At es k p
    → find_in es k ≡ contents (node_at es p) k
unfolding find_in
find_in-At [] k p c a = absurd (omega (arith, a.inside))
find_in-At (e ∷ []) k zero c a = refl
find_in-At (e ∷ []) k (suc p) c a = absurd (omega (arith, a.inside))
find_in-At (e ∷ f ∷ es) k zero c a =
    let less : leb (first_key f) k ≡ false =
      ground (arith, a.above 1 (omega arith) (omega arith)) in
    rw less refl
find_in-At (e ∷ f ∷ es) k (suc p) c a =
    let more : leb (first_key f) k ≡ true = ground (arith, At-first e f es k p c.2 a) in
    rw more (find_in-At (f ∷ es) k p c.2 (At-tail e f es k p a))

-- An entry after an operation on `k` that leaves `o` there.
pub record Changed (e e' : PointerBEntry) (k : ℕ) (o : Option ℕ) : Type 0 where
  pub valid' : IsValid e'
  pub contents' : (j : ℕ) → contents e' j ≡ (if k == j then o else contents e j)
  pub keeps : Keeps e e' k

Under-Changed :
    (e e' : PointerBEntry) (k bound : ℕ) (o : Option ℕ)
    → Changed e e' k o
    → Under e bound
    → k < bound
    → Under e' bound
Under-Changed e e' k bound o c u h = record {
  last = c.keeps.last_below bound u h;
  keys = λ j v q. elim (Bool-cases (k == j)) [
    | inl same ↦ ground (arith, same, h)
    | inr other ↦ u.keys j v (ground (arith, c.contents' j, q, other))
  ];
}

pub set-IsChain :
    (es : List PointerBEntry) (k p : ℕ) (e' : PointerBEntry) (o : Option ℕ)
    → IsChain es
    → At es k p
    → Changed (node_at es p) e' k o
    → IsChain (set es p e')
set-IsChain [] k p e' o c a w = tt
set-IsChain (e ∷ []) k zero e' o c a w = (w.valid', tt)
set-IsChain (e ∷ []) k (suc p) e' o c a w = c
set-IsChain (e ∷ f ∷ es) k zero e' o c a w = (
  w.valid',
  Under-Changed e e' k (first_key f) o w c.1 (a.above 1 (omega arith) (omega arith)),
  c.2,
)
set-IsChain (e ∷ f ∷ es) k (suc zero) e' o c a w = (
  c.0,
  rw (Moved-same w.keeps.moved (a.here (omega arith))) c.1,
  set-IsChain (f ∷ es) k zero e' o c.2 (At-tail e f es k zero a) w,
)
set-IsChain (e ∷ f ∷ es) k (suc (suc p)) e' o c a w =
    (c.0, c.1, set-IsChain (f ∷ es) k (suc p) e' o c.2 (At-tail e f es k (suc p) a) w)

pub find_in-set :
    (es : List PointerBEntry) (k p : ℕ) (e' : PointerBEntry) (o : Option ℕ)
    → IsChain es
    → At es k p
    → Changed (node_at es p) e' k o
    → (j : ℕ) → find_in (set es p e') j ≡ (if k == j then o else find_in es j)
unfolding find_in
find_in-set [] k p e' o c a w j = absurd (omega (arith, a.inside))
find_in-set (e ∷ []) k zero e' o c a w j = w.contents' j
find_in-set (e ∷ []) k (suc p) e' o c a w j = absurd (omega (arith, a.inside))
find_in-set (e ∷ f ∷ es) k zero e' o c a w j =
    ground (arith, w.contents' j, a.above 1 (omega arith) (omega arith))
find_in-set (e ∷ f ∷ es) k (suc zero) e' o c a w j = ground (
  arith,
  find_in-set (f ∷ es) k zero e' o c.2 (At-tail e f es k zero a) w j,
  Moved-same w.keeps.moved (a.here (omega arith)),
  At-first e f es k zero c.2 a,
)
find_in-set (e ∷ f ∷ es) k (suc (suc p)) e' o c a w j = ground (
  arith,
  find_in-set (f ∷ es) k (suc p) e' o c.2 (At-tail e f es k (suc p) a) w j,
  At-first e f es k (suc p) c.2 a,
)

-- A row holds no key below its first.
pub first-le-find_in :
    (es : List PointerBEntry) (k v : ℕ)
    → IsChain es
    → 0 < length es
    → find_in es k ≡ some v
    → first_key (node_at es 0) ≤ k
unfolding find_in
first-le-find_in [] k v c h q = absurd (omega arith)
first-le-find_in (e ∷ []) k v c h q = first-le-contents e k v c.0 q
first-le-find_in (e ∷ f ∷ es) k v c h q = elim (Bool-cases (leb (first_key f) k)) [
  | inl more ↦ ground (arith, more, first_key-lt e (f ∷ es) 0 c)
  | inr less ↦ first-le-contents e k v c.0 (ground (arith, less, q))
]

-- Every key of the row lies below `bound`.
abbrev pub UnderRow : List PointerBEntry → ℕ → Type 0
UnderRow [] bound = Unit
UnderRow (e ∷ []) bound = Under e bound
UnderRow (e ∷ f ∷ es) bound = UnderRow (f ∷ es) bound

Under-le : (e : PointerBEntry) (a b : ℕ) → Under e a → a ≤ b → Under e b
Under-le e a b u h = record {
  last = omega (arith, u.last);
  keys = λ j v q. omega (arith, u.keys j v q);
}

pub UnderRow-le : (es : List PointerBEntry) (a b : ℕ) → UnderRow es a → a ≤ b → UnderRow es b
UnderRow-le [] a b u h = tt
UnderRow-le (e ∷ []) a b u h = Under-le e a b u h
UnderRow-le (e ∷ f ∷ es) a b u h = UnderRow-le (f ∷ es) a b u h

-- The bound of a row bounds its first entry too.
pub Under-first :
    (e : PointerBEntry) (es : List PointerBEntry) (bound : ℕ)
    → IsChain (e ∷ es)
    → UnderRow (e ∷ es) bound
    → Under e bound
Under-first e [] bound c u = u
Under-first e (f ∷ es) bound c u = Under-le e (first_key f) bound c.1 (
    let w = Under-first f es bound c.2 u in
    omega (arith, w.last, first_key-le f (IsValid-at (f ∷ es) 0 c.2 (omega arith))))

pub UnderRow-set :
    (es : List PointerBEntry) (k p : ℕ) (e' : PointerBEntry) (o : Option ℕ) (bound : ℕ)
    → p < length es
    → Changed (node_at es p) e' k o
    → UnderRow es bound
    → k < bound
    → UnderRow (set es p e') bound
UnderRow-set [] k p e' o bound i w u h = tt
UnderRow-set (e ∷ []) k zero e' o bound i w u h = Under-Changed e e' k bound o w u h
UnderRow-set (e ∷ []) k (suc p) e' o bound i w u h = u
UnderRow-set (e ∷ f ∷ es) k zero e' o bound i w u h = u
UnderRow-set (e ∷ f ∷ es) k (suc zero) e' o bound i w u h =
    UnderRow-set (f ∷ es) k zero e' o bound (omega arith) w u h
UnderRow-set (e ∷ f ∷ es) k (suc (suc p)) e' o bound i w u h =
    UnderRow-set (f ∷ es) k (suc p) e' o bound (omega arith) w u h

pub find_in-Under :
    (es : List PointerBEntry) (k v bound : ℕ)
    → IsChain es
    → UnderRow es bound
    → find_in es k ≡ some v
    → k < bound
unfolding find_in
find_in-Under [] k v bound c u q = absurd (cc)
find_in-Under (e ∷ []) k v bound c u q = u.keys k v q
find_in-Under (e ∷ f ∷ es) k v bound c u q = elim (Bool-cases (leb (first_key f) k)) [
  | inl more ↦ find_in-Under (f ∷ es) k v bound c.2 u (ground (arith, more, q))
  | inr less ↦ (Under-first e (f ∷ es) bound c u).keys k v (ground (arith, less, q))
]
