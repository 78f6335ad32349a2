-- ===== src/Bucket/Contents.antt =====
-- What a list of records holds: the value of the first record with a key.
use nali.Prelude.{
  ℕ, zero, suc, ◌<◌, ◌≡◌, refl, Option, none, some, List, [], ◌∷◌, ◌++◌, arith, ◌==◌, if◌then◌else◌,
  length, set,
}
use nali.Bucket.Defs.{KvEntry, record_at}

unfoldable pub value_of : ℕ → List KvEntry → Option ℕ
value_of k [] = none
value_of k (e ∷ l) = if e.key == k then some e.value else value_of k l

-- No key occurs twice.
abbrev pub IsDistinct : List KvEntry → Type 0
IsDistinct [] = Unit
IsDistinct (e ∷ l) = (value_of e.key l ≡ none) × IsDistinct l

pub value_of-append :
    (k : ℕ) (l r : List KvEntry)
    → value_of k (l ++ r) ≡ elim (value_of k l) [ some v ↦ some v | none ↦ value_of k r ]
unfolding value_of
value_of-append k [] r = refl
value_of-append k (e ∷ l) r = ground (arith, value_of-append k l r)

pub IsDistinct-append_one :
    (l : List KvEntry) (e : KvEntry)
    → IsDistinct l
    → value_of e.key l ≡ none
    → IsDistinct (l ++ e ∷ [])
unfolding value_of
IsDistinct-append_one [] e d h = (refl, tt)
IsDistinct-append_one (x ∷ l) e d h = (
  ground (arith, value_of-append x.key l (e ∷ []), d.0),
  IsDistinct-append_one l e d.1 (ground arith),
)

pub IsDistinct-init :
    (l : List KvEntry) (e : KvEntry)
    → IsDistinct (l ++ e ∷ [])
    → IsDistinct l × (value_of e.key l ≡ none)
unfolding value_of
IsDistinct-init [] e d = (tt, refl)
IsDistinct-init (x ∷ l) e d =
    let (dl, fresh) = IsDistinct-init l e d.1 in
    (
      (ground (arith, value_of-append x.key l (e ∷ []), d.0), dl),
      ground (arith, value_of-append x.key l (e ∷ []), d.0),
    )

pub value_of-record_at :
    (l : List KvEntry) (p : ℕ)
    → IsDistinct l
    → p < length l
    → value_of (record_at l p).key l ≡ some (record_at l p).value
unfolding value_of
value_of-record_at [] p d h = absurd (omega arith)
value_of-record_at (x ∷ l) zero d h = ground arith
value_of-record_at (x ∷ l) (suc p) d h = ground (arith, value_of-record_at l p d.1, d.0)

-- A new value for the record at `p`.
pub value_of-set_value :
    (j : ℕ) (l : List KvEntry) (p : ℕ) (e : KvEntry)
    → IsDistinct l
    → p < length l
    → (record_at l p).key ≡ e.key
    → value_of j (set l p e) ≡ (if e.key == j then some e.value else value_of j l)
unfolding value_of
value_of-set_value j [] p e d h q = absurd (omega arith)
value_of-set_value j (x ∷ l) zero e d h q = ground arith
value_of-set_value j (x ∷ l) (suc p) e d h q =
    ground (arith, value_of-set_value j l p e d.1, value_of-record_at l p d.1, d.0)

pub IsDistinct-set_value :
    (l : List KvEntry) (p : ℕ) (e : KvEntry)
    → IsDistinct l
    → p < length l
    → (record_at l p).key ≡ e.key
    → IsDistinct (set l p e)
IsDistinct-set_value [] p e d h q = absurd (omega arith)
IsDistinct-set_value (x ∷ l) zero e d h q = (rw q at d.0, d.1)
IsDistinct-set_value (x ∷ l) (suc p) e d h q = (
  ground (arith, value_of-set_value x.key l p e d.1, value_of-record_at l p d.1, d.0),
  IsDistinct-set_value l p e d.1 (omega arith) q,
)

-- The record at `p` overwritten with the last one.
pub value_of-swap_remove :
    (j : ℕ) (l : List KvEntry) (p : ℕ) (e : KvEntry)
    → IsDistinct (l ++ e ∷ [])
    → p < length l
    → value_of j (set l p e) ≡ (if (record_at l p).key == j then none else value_of j (l ++ e ∷ []))
unfolding value_of
value_of-swap_remove j [] p e d h = absurd (omega arith)
value_of-swap_remove j (x ∷ l) zero e d h = ground (
  arith,
  value_of-append j l (e ∷ []),
  value_of-append x.key l (e ∷ []),
  d.0,
  IsDistinct-init l e d.1,
)
value_of-swap_remove j (x ∷ l) (suc p) e d h = ground (
  arith,
  value_of-swap_remove j l p e d.1,
  value_of-append x.key l (e ∷ []),
  value_of-record_at l p (IsDistinct-init l e d.1).0,
  d.0,
)

pub IsDistinct-swap_remove :
    (l : List KvEntry) (p : ℕ) (e : KvEntry)
    → IsDistinct (l ++ e ∷ [])
    → p < length l
    → IsDistinct (set l p e)
unfolding value_of
IsDistinct-swap_remove [] p e d h = absurd (omega arith)
IsDistinct-swap_remove (x ∷ l) zero e d h = let (dl, fresh) = IsDistinct-init l e d.1 in (fresh, dl)
IsDistinct-swap_remove (x ∷ l) (suc p) e d h = (
  ground (arith, value_of-swap_remove x.key l p e d.1, d.0),
  IsDistinct-swap_remove l p e d.1 (omega arith),
)
