-- ===== src/Group/Single.antt =====
-- The entries that an expansion makes, one for each bucket of the old ones.
use nali.Prelude.{
  append_nil, ℕ, suc, ◌+◌, ◌<◌, ◌≡◌, refl, sym, ◌∙◌, ap, some, List, [], ◌∷◌, ◌++◌, map, arith, leb,
  if◌then◌else◌, length, length-append, length-map, get_or-take,
}
use mathlib.Core.Path.{subst}
use nali.Entry.Defs.{Eentry, zeroed, entry_at, PointerBEntry, count, of_entry}
use nali.Entry.Route.{IsRouted, Holds, bucket_of, look, target-one, target-cons}
use nali.Entry.Valid.{live, IsValid}
use nali.Entry.Edges.{first_key, last_entry, last_key, Under, look-bucket_of}
use nali.Entry.Locate.{length-live}
use nali.Entry.Init.{of_entry_lem}
use nali.Group.Chain.{node_at, IsChain, find_in, first-le-last, IsValid-at, UnderRow}

-- the buckets of a row of entries, in order
abbrev pub flat : List PointerBEntry → List Eentry
flat [] = []
flat (e ∷ es) = live e ++ flat es

-- the number of buckets
abbrev pub total : List PointerBEntry → ℕ
total [] = 0
total (e ∷ es) = count e + total es

pub length-flat : (es : List PointerBEntry) → IsChain es → length (flat es) ≡ total es
length-flat [] c = refl
length-flat (e ∷ []) c = length-append (live e) [] ∙ omega (arith, length-live e c.0)
length-flat (e ∷ f ∷ es) c =
    length-append (live e) (flat (f ∷ es))
    ∙ omega (arith, length-live e c.0, length-flat (f ∷ es) c.2)

pub of_entry-keys :
    (x : Eentry) → (first_key (of_entry x) ≡ x.entry_key) × (last_key (of_entry x) ≡ x.entry_key)
unfolding of_entry
of_entry-keys x = (refl, refl)

of_entry-Under :
    (x : Eentry) (bound : ℕ)
    → Holds x
    → x.entry_key < bound
    → ((k v : ℕ) → bucket_of x k ≡ some v → k < bound)
    → Under (of_entry x) bound
of_entry-Under x bound h key below = record {
  last = omega (arith, (of_entry-keys x).1);
  keys = λ j v q. below j v (sym ((of_entry_lem x h).1 j) ∙ q);
}

-- The last bucket and what follows it.
pub record Joins (l : List Eentry) (es : List PointerBEntry) : Type 0 where
  pub key : 0 < length es → (last_entry l).entry_key < first_key (node_at es 0)
  pub keys :
      0 < length es → (k v : ℕ) → bucket_of (last_entry l) k ≡ some v → k < first_key (node_at es 0)

unfoldable pub singles : List Eentry → List PointerBEntry → List PointerBEntry
singles l es = map of_entry l ++ es

pub singles-IsChain :
    (l : List Eentry) (es : List PointerBEntry)
    → IsRouted l
    → IsChain es
    → Joins l es
    → IsChain (singles l es)
unfolding singles
singles-IsChain [] es r c j = absurd r
singles-IsChain (x ∷ []) [] r c j = ((of_entry_lem x r.0).0, tt)
singles-IsChain (x ∷ []) (e ∷ es) r c j = (
  (of_entry_lem x r.0).0,
  of_entry-Under x (first_key e) r.0 (j.key (omega arith)) (j.keys (omega arith)),
  c,
)
singles-IsChain (x ∷ y ∷ l) es r c j = (
  (of_entry_lem x r.0).0,
  rw (of_entry-keys y).0 (of_entry-Under x y.entry_key r.0 r.1 r.2),
  singles-IsChain (y ∷ l) es r.3 c (record { key = j.key; keys = j.keys }),
)

find_in-singles :
    (l : List Eentry) (es : List PointerBEntry)
    → IsRouted l
    → IsChain es
    → Joins l es
    → (k : ℕ)
    → find_in (singles l es) k ≡ elim es [
      | [] ↦ look l k
      | e ∷ es' ↦ if leb (first_key e) k then find_in (e ∷ es') k else look l k
    ]
unfolding singles find_in
find_in-singles [] es r c j k = absurd r
find_in-singles (x ∷ []) [] r c j k =
    (of_entry_lem x r.0).1 k ∙ ap (λ y. bucket_of y k) (sym (target-one k x))
find_in-singles (x ∷ []) (e ∷ es) r c j k = ground (arith, (of_entry_lem x r.0).1 k, target-one k x)
find_in-singles (x ∷ y ∷ l) [] r c j k = ground (
  arith,
  find_in-singles (y ∷ l) [] r.3 c (record { key = j.key; keys = j.keys }) k,
  (of_entry_lem x r.0).1 k,
  (of_entry-keys y).0,
  target-cons k x y l,
)
find_in-singles (x ∷ y ∷ l) (e ∷ es) r c j k = ground (
  arith,
  find_in-singles (y ∷ l) (e ∷ es) r.3 c (record { key = j.key; keys = j.keys }) k,
  (of_entry_lem x r.0).1 k,
  (of_entry-keys y).0,
  target-cons k x y l,
  first-le-last (y ∷ l) r.3,
  j.key (omega arith),
)

find_in-tail :
    (l : List Eentry) (es : List PointerBEntry)
    → IsRouted l
    → IsChain es
    → Joins l es
    → 0 < length es
    → (k : ℕ)
    → find_in (singles l es) k
      ≡ (if leb (first_key (node_at es 0)) k then find_in es k else look l k)
find_in-tail l [] r c j h k = absurd (omega arith)
find_in-tail l (e ∷ es) r c j h k = find_in-singles l (e ∷ es) r c j k

last_entry-at :
    (x : Eentry) (l : List Eentry)
    → (p : ℕ) × (p < suc (length l)) × (last_entry (x ∷ l) ≡ entry_at (x ∷ l) p)
last_entry-at x [] = (0, omega arith, refl)
last_entry-at x (y ∷ l) = let (p, h, q) = last_entry-at y l in (suc p, omega (arith, h), q)

pub look-last_entry :
    (l : List Eentry) (j v : ℕ)
    → IsRouted l
    → bucket_of (last_entry l) j ≡ some v
    → look l j ≡ some v
look-last_entry [] j v r q = absurd r
look-last_entry (x ∷ l) j v r q =
    let (p, h, e) = last_entry-at x l in
    look-bucket_of (x ∷ l) p j v r h (ap (λ y. bucket_of y j) (sym e) ∙ q)

pub map-append : (l m : List Eentry) → map of_entry (l ++ m) ≡ map of_entry l ++ map of_entry m
map-append [] m = refl
map-append (x ∷ l) m = ap (◌∷◌ (of_entry x)) (map-append l m)

-- A row of entries after `expand`, and the same map.
abbrev pub expanded : List PointerBEntry → List PointerBEntry
expanded es = map of_entry (flat es)

head-singles :
    (l : List Eentry) (es : List PointerBEntry)
    → IsRouted l
    → first_key (node_at (map of_entry l ++ es) 0) ≡ (entry_at l 0).entry_key
head-singles [] es r = absurd r
head-singles (x ∷ l) es r = (of_entry-keys x).0

pub head-live : (e : PointerBEntry) → IsValid e → (entry_at (live e) 0).entry_key ≡ first_key e
head-live e v = ap (λ (z : Eentry). z.entry_key) (get_or-take (count e) e.entrys 0 zeroed v.used)

length-expanded :
    (f : PointerBEntry) (es : List PointerBEntry) → IsValid f → 0 < length (expanded (f ∷ es))
length-expanded f es v =
    rw (length-map of_entry (live f ++ flat es), length-append (live f) (flat es))
      (omega (arith, length-live f v, v.used))

-- Of a row that is not empty.
pub record SameRow (es es' : List PointerBEntry) : Type 0 where
  pub chain : IsChain es'
  pub head : first_key (node_at es' 0) ≡ first_key (node_at es 0)
  pub found : (k : ℕ) → find_in es' k ≡ find_in es k

pub expanded-SameRow :
    (e : PointerBEntry) (es : List PointerBEntry)
    → IsChain (e ∷ es)
    → SameRow (e ∷ es) (expanded (e ∷ es))
unfolding find_in singles
expanded-SameRow e [] c =
    let all : expanded (e ∷ []) ≡ singles (live e) [] = map-append (live e) [] in
    let joins : Joins (live e) [] = record {
      key = λ h. absurd (omega arith);
      keys = λ h. absurd (omega arith);
    } in
    subst (SameRow (e ∷ [])) (sym all) (record {
      chain = singles-IsChain (live e) [] c.0.routed tt joins;
      head = head-singles (live e) [] c.0.routed ∙ head-live e c.0;
      found = λ k. find_in-singles (live e) [] c.0.routed tt joins k;
    })
expanded-SameRow e (f ∷ es) c =
    let rest = expanded-SameRow f es c.2 in
    let tail = expanded (f ∷ es) in
    let all : expanded (e ∷ f ∷ es) ≡ singles (live e) tail = map-append (live e) (flat (f ∷ es)) in
    let joins : Joins (live e) tail = record {
      key = λ h. rw rest.head c.1.last;
      keys = λ h j v q. rw rest.head (c.1.keys j v (look-last_entry (live e) j v c.0.routed q));
    } in
    subst (SameRow (e ∷ f ∷ es)) (sym all) (record {
      chain = singles-IsChain (live e) tail c.0.routed rest.chain joins;
      head = head-singles (live e) tail c.0.routed ∙ head-live e c.0;
      found = λ k.
          find_in-tail (live e) tail c.0.routed rest.chain joins
            (length-expanded f es (IsValid-at (f ∷ es) 0 c.2 (omega arith))) k
          ∙ rw (rest.found k, rest.head) refl;
    })

UnderRow-append :
    (xs ys : List PointerBEntry) (bound : ℕ)
    → 0 < length ys
    → UnderRow ys bound
    → UnderRow (xs ++ ys) bound
UnderRow-append [] ys bound h u = u
UnderRow-append (x ∷ []) [] bound h u = absurd (omega arith)
UnderRow-append (x ∷ []) (y ∷ ys) bound h u = u
UnderRow-append (x ∷ z ∷ xs) ys bound h u = UnderRow-append (z ∷ xs) ys bound h u

pub UnderRow-singles :
    (l : List Eentry) (bound : ℕ)
    → IsRouted l
    → (last_entry l).entry_key < bound
    → ((j v : ℕ) → bucket_of (last_entry l) j ≡ some v → j < bound)
    → UnderRow (map of_entry l) bound
UnderRow-singles [] bound r last below = tt
UnderRow-singles (x ∷ []) bound r last below = of_entry-Under x bound r.0 last below
UnderRow-singles (x ∷ y ∷ l) bound r last below = UnderRow-singles (y ∷ l) bound r.3 last below

-- `expand` keeps every bound of a row.
pub UnderRow-expanded :
    (e : PointerBEntry) (es : List PointerBEntry) (bound : ℕ)
    → IsChain (e ∷ es)
    → UnderRow (e ∷ es) bound
    → UnderRow (expanded (e ∷ es)) bound
UnderRow-expanded e [] bound c u =
    subst (λ l. UnderRow (map of_entry l) bound) (sym (append_nil (live e)))
      (UnderRow-singles (live e) bound c.0.routed u.last
        (λ j v q. u.keys j v (look-last_entry (live e) j v c.0.routed q)))
UnderRow-expanded e (f ∷ es) bound c u =
    subst (λ l. UnderRow l bound) (sym (map-append (live e) (flat (f ∷ es))))
      (UnderRow-append (map of_entry (live e)) (expanded (f ∷ es)) bound
        (length-expanded f es (IsValid-at (f ∷ es) 0 c.2 (omega arith)))
        (UnderRow-expanded f es bound c.2 u))
