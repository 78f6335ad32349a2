-- ===== src/Entry/Edges.antt =====
-- The first and the last key of an entry, and what an operation on one key may do to them.
use nali.Prelude.{
  ℕ, zero, suc, ◌≤◌, ◌<◌, ◌≡◌, refl, ◌⊎◌, inl, inr, ◌∙◌, ap, sym, some, List, [], ◌∷◌, arith, leb,
  true, false, length, set, get_or-take, Bool-cases,
}
use native.Mathlib.Nat.{le_refl}
use nali.Entry.Defs.{Eentry, zeroed, entry_at, PointerBEntry, count}
use nali.Entry.Route.{
  insert_after, IsRouted, Holds-at, look, bucket_of, bucket_of-pointed, target-one, target-cons,
}
use nali.Entry.Valid.{live, contents, IsValid}

abbrev pub first_key : PointerBEntry → ℕ
first_key e = (entry_at e.entrys 0).entry_key

abbrev pub last_entry : List Eentry → Eentry
last_entry [] = zeroed
last_entry (x ∷ []) = x
last_entry (x ∷ y ∷ l) = last_entry (y ∷ l)

abbrev pub last_key : PointerBEntry → ℕ
last_key e = (last_entry (live e)).entry_key

-- Every key of the entry lies below `bound`.
pub record Under (e : PointerBEntry) (bound : ℕ) : Type 0 where
  pub last : last_key e < bound
  pub keys : (j v : ℕ) → contents e j ≡ some v → j < bound

-- A key after an operation on `k`: the same, or lowered to `k`.
abbrev pub Moved : ℕ → ℕ → ℕ → Type 0
Moved old new k = (new ≡ old) ⊎ ((new ≡ k) × (k < old))

pub Moved-same : {old new k : ℕ} → Moved old new k → old ≤ k → new ≡ old
Moved-same m h = elim m [ inl e ↦ e | inr (_, less) ↦ absurd (omega arith) ]

-- After an operation on `k`, `e'` fits where `e` did: a first key up to `k` stays, and the last key
-- stays below every bound of the keys.
pub record Keeps (e e' : PointerBEntry) (k : ℕ) : Type 0 where
  pub moved : Moved (first_key e) (first_key e') k
  pub last_below : (bound : ℕ) → Under e bound → k < bound → last_key e' < bound

pub last_entry-set :
    (l : List Eentry) (p : ℕ) (x : Eentry)
    → p < length l
    → x.entry_key ≤ (entry_at l p).entry_key
    → (last_entry (set l p x)).entry_key ≤ (last_entry l).entry_key
last_entry-set [] p x h q = absurd (omega arith)
last_entry-set (y ∷ []) zero x h q = q
last_entry-set (y ∷ []) (suc p) x h q = absurd (omega arith)
last_entry-set (y ∷ z ∷ l) zero x h q = le_refl _
last_entry-set (y ∷ z ∷ l) (suc zero) x h q = last_entry-set (z ∷ l) zero x (omega arith) q
last_entry-set (y ∷ z ∷ l) (suc (suc p)) x h q = last_entry-set (z ∷ l) (suc p) x (omega arith) q

pub last_entry-insert_after :
    (l : List Eentry) (p : ℕ) (x y : Eentry)
    → (last_entry (insert_after l p x y)).entry_key ≤ (last_entry l).entry_key
      ⊎ ((last_entry (insert_after l p x y)).entry_key ≡ y.entry_key)
last_entry-insert_after [] p x y = inl (le_refl _)
last_entry-insert_after (z ∷ []) zero x y = inr refl
last_entry-insert_after (z ∷ []) (suc p) x y = inl (le_refl _)
last_entry-insert_after (z ∷ w ∷ l) zero x y = inl (le_refl _)
last_entry-insert_after (z ∷ w ∷ l) (suc zero) x y = last_entry-insert_after (w ∷ l) zero x y
last_entry-insert_after (z ∷ w ∷ l) (suc (suc p)) x y = last_entry-insert_after (w ∷ l) (suc p) x y

Moved-trans : {old mid new k : ℕ} → Moved old mid k → Moved mid new k → Moved old new k
Moved-trans a b = elim a [
  | inl e ↦ elim b [ inl f ↦ inl (f ∙ e) | inr (f, less) ↦ inr (f, omega arith) ]
  | inr (e, less) ↦ elim b [ inl f ↦ inr (f ∙ e, less) | inr (f, _) ↦ inr (f, less) ]
]

pub Keeps-trans :
    {e e' e'' : PointerBEntry} {k : ℕ}
    → Keeps e e' k
    → Keeps e' e'' k
    → ((bound : ℕ) → Under e bound → k < bound → Under e' bound)
    → Keeps e e'' k
Keeps-trans a b under = record {
  moved = Moved-trans a.moved b.moved;
  last_below = λ bound u h. b.last_below bound (under bound u h) h;
}

pub first-le-at :
    (l : List Eentry) (p : ℕ)
    → IsRouted l
    → p < length l
    → (entry_at l 0).entry_key ≤ (entry_at l p).entry_key
first-le-at [] p r h = le_refl _
first-le-at (x ∷ l) zero r h = le_refl _
first-le-at (x ∷ []) (suc p) r h = absurd (omega arith)
first-le-at (x ∷ y ∷ l) (suc p) r h = omega (arith, r.1, first-le-at (y ∷ l) p r.3 (omega arith))

-- What a bucket holds is found by routing.
pub look-bucket_of :
    (l : List Eentry) (p j v : ℕ)
    → IsRouted l
    → p < length l
    → bucket_of (entry_at l p) j ≡ some v
    → look l j ≡ some v
look-bucket_of [] p j v r h q = absurd (omega arith)
look-bucket_of (x ∷ []) zero j v r h q = rw (target-one j x) q
look-bucket_of (x ∷ []) (suc p) j v r h q = absurd (omega arith)
look-bucket_of (x ∷ y ∷ l) zero j v r h q =
    let less : leb y.entry_key j ≡ false = ground (arith, r.2 j v) in
    rw (target-cons j x y l, less) q
look-bucket_of (x ∷ y ∷ l) (suc p) j v r h q =
    let here = Holds-at (y ∷ l) p r.3 (omega arith) in
    let k = (entry_at (y ∷ l) p).entry_key in
    let above : k ≤ j =
      here.above j v
        (sym (bucket_of-pointed (entry_at (y ∷ l) p) here.bucket j here.pointed) ∙ q) in
    let more : leb y.entry_key j ≡ true =
      ground (arith, above, first-le-at (y ∷ l) p r.3 (omega arith)) in
    rw (target-cons j x y l, more) (look-bucket_of (y ∷ l) p j v r.3 (omega arith) q)

first-le-look :
    (l : List Eentry) (k v : ℕ) → IsRouted l → look l k ≡ some v → (entry_at l 0).entry_key ≤ k
first-le-look [] k v r h = absurd r
first-le-look (x ∷ []) k v r h = r.0.above k v (
    sym (bucket_of-pointed x r.0.bucket k r.0.pointed)
    ∙ ap (λ y. bucket_of y k) (sym (target-one k x))
    ∙ h)
first-le-look (x ∷ y ∷ l) k v r h = elim (Bool-cases (leb y.entry_key k)) [
  | inl more ↦ ground (arith, more, r.1)
  | inr less ↦ r.0.above k v (
      sym (bucket_of-pointed x r.0.bucket k r.0.pointed)
      ∙ sym (ap (λ y. bucket_of y k) (target-cons k x y l ∙ rw less refl))
      ∙ h)
]

-- An entry holds no key below its first.
pub first-le-contents :
    (e : PointerBEntry) (k v : ℕ) → IsValid e → contents e k ≡ some v → first_key e ≤ k
first-le-contents e k v valid h =
    rw (← ap (λ (z : Eentry). z.entry_key) (get_or-take (count e) e.entrys 0 zeroed valid.used))
      (first-le-look (live e) k v valid.routed h)

pub first_key-insert_after :
    (l : List Eentry) (p : ℕ) (x y : Eentry)
    → x.entry_key ≡ (entry_at l p).entry_key
    → (entry_at (insert_after l p x y) 0).entry_key ≡ (entry_at l 0).entry_key
first_key-insert_after [] p x y q = refl
first_key-insert_after (z ∷ l) zero x y q = q
first_key-insert_after (z ∷ l) (suc p) x y q = refl
