-- ===== src/Entry/Writes.antt =====
-- A write to the bucket of a key: `Update`, `Delete`, and the last round of `Put`.
use mathlib.Core.Path.{subst}
use nali.Prelude.{
  ℕ, zero, suc, ◌≤◌, ◌<◌, ◌≡◌, refl, sym, ◌∙◌, ap, ◌⊎◌, inl, inr, Option, some, List, [], ◌∷◌,
  arith, ◌==◌, if◌then◌else◌, length, set, take, length-set, take-set_lt, get_or-set_self,
  get_or-set_ne, dec_lt, Bool-cases,
}
use nali.Bucket.Defs.{UnSortBuncket}
use nali.Bucket.Valid
use nali.Entry.Defs.{Eentry, zeroed, entry_at, is_valid, PointerBEntry, count}
use nali.Entry.Route.{pos_of, bucket_of, bucket_of-pointed, Holds, IsRouted, pos_of-lt, lt-next}
use nali.Entry.Routed.{Below, IsRouted-set, target-set}
use nali.Entry.Valid.{live, contents, IsValid}
use nali.Entry.Edges.{last_entry, last_entry-set, Moved, Keeps}
use nali.Entry.Locate.{length-live, Located, same_at}

-- The entry at the position of `k` is replaced by `x`: its bucket changes, and so may the key of
-- the first entry.
pub record Replaces (e : PointerBEntry) (k p : ℕ) (x : Eentry) : Type 0 where
  pub holds : Holds x
  pub at : pos_of k (live e) ≡ p
  pub lowered : x.entry_key ≤ (entry_at (live e) p).entry_key
  pub first_only : (p ≡ 0) ⊎ (x.entry_key ≡ (entry_at (live e) p).entry_key)
  pub below : Below (live e) p x
  pub entries : p ≡ 0 → x.entries ≡ count e

module _ {e : PointerBEntry} (valid : IsValid e) {k p : ℕ} {x : Eentry} (r : Replaces e k p x) where
  e' : PointerBEntry
  e' = record { entrys = set e.entrys p x }

  inside : p < count e
  inside = rw (← r.at) (omega (arith, pos_of-lt k (live e), length-live e valid, valid.used))

  count-same : (entry_at (set e.entrys p x) 0).entries ≡ count e
  count-same = elim (dec_lt 0 p) [
    | yes pos ↦ ap (λ (y : Eentry). y.entries) (get_or-set_ne e.entrys p 0 x zeroed (omega arith))
    | no start ↦
        let z : p ≡ 0 = omega arith in
        rw z (
          ap (λ (y : Eentry). y.entries)
            (get_or-set_self e.entrys 0 x zeroed (omega (arith, valid.size)))
          ∙ r.entries z)
  ]

  pub live-written :
      take (entry_at (set e.entrys p x) 0).entries (set e.entrys p x) ≡ set (live e) p x
  live-written = rw count-same (take-set_lt (count e) e.entrys p x inside)

  pub replace-IsValid : IsValid (record { entrys = set e.entrys p x })
  replace-IsValid = record {
    size = length-set _ _ _ ∙ valid.size;
    used = rw count-same valid.used;
    bounded = rw count-same valid.bounded;
    routed = rw live-written (
        IsRouted-set (live e) p x valid.routed (rw (length-live e valid) inside) r.holds r.lowered
          r.first_only r.below);
  }

  pub replace-count : count (record { entrys = set e.entrys p x }) ≡ count e
  replace-count = count-same

  pub replace-contents :
      (j : ℕ)
      → contents (record { entrys = set e.entrys p x }) j
        ≡ (if pos_of j (live e) == p then bucket_of x j else contents e j)
  replace-contents j =
      rw live-written
        (ground (arith, target-set j (live e) p x (rw (length-live e valid) inside) r.first_only))

pub below_at :
    (l : List Eentry) (p : ℕ) {j v : ℕ}
    → IsRouted l
    → suc p < length l
    → bucket_of (entry_at l p) j ≡ some v
    → j < (entry_at l (suc p)).entry_key
below_at [] p r h q = absurd (omega arith)
below_at (x ∷ []) p r h q = absurd (omega arith)
below_at (x ∷ y ∷ l) zero {j} {v} r h q = r.2 j v q
below_at (x ∷ y ∷ l) (suc p) r h q = below_at (y ∷ l) p r.3 (omega arith) q

module _ (e : PointerBEntry) (valid : IsValid e) (k : ℕ) where
  -- The bucket of `k` after an operation on `k` that leaves `o` there, and its entry's new key.
  pub record Write (at : Located e valid k) (b' : UnSortBuncket) (o : Option ℕ) (key : ℕ)
      : Type 0 where
    pub valid' : Valid.IsValid b'
    pub contents' :
        (j : ℕ) → Valid.contents b' j ≡ (if k == j then o else Valid.contents at.holds.bucket j)
    pub key_le : key ≤ (entry_at e.entrys at.pos).entry_key
    pub key_first : (at.pos ≡ 0) ⊎ (key ≡ (entry_at e.entrys at.pos).entry_key)
    pub key_le_k : (v : ℕ) → o ≡ some v → key ≤ k
    pub moved : Moved (entry_at e.entrys at.pos).entry_key key k

  module _ (at : Located e valid k) {b' : UnSortBuncket} {o : Option ℕ} {key : ℕ}
      (w : Write at b' o key) where
    abbrev written : Eentry
    written = record (entry_at e.entrys at.pos) { entry_key = key; pointer = some b' }

    abbrev result : PointerBEntry
    result = record { entrys = set e.entrys at.pos written }

    written-Holds : Holds written
    unfolding is_valid
    written-Holds = record {
      bucket = b';
      pointed = refl;
      valid = w.valid';
      above = λ j v q. ground (arith, w.contents' j, w.key_le_k v, w.key_le, at.holds.above j v);
      set_up = at.holds.set_up;
    }

    written-Below : Below (live e) at.pos written
    unfolding bucket_of
    written-Below h j v q =
        let next : k < (entry_at (live e) (suc at.pos)).entry_key =
          subst (λ p. suc p < length (live e) → k < (entry_at (live e) (suc p)).entry_key) at.pos_eq
            (lt-next k (live e)) h in
        elim (Bool-cases (k == j)) [
          | inl same ↦ ground arith
          | inr other ↦ below_at (live e) at.pos {j = j} {v = v} valid.routed h (
              rw (← at.slot) (
                bucket_of-pointed (entry_at e.entrys at.pos) at.holds.bucket j at.holds.pointed
                ∙ ground (arith, w.contents' j)))
        ]

    replaces : Replaces e k at.pos written
    replaces = record {
      holds = written-Holds;
      at = at.pos_eq;
      lowered = rw (← at.slot) w.key_le;
      first_only = rw (← at.slot) w.key_first;
      below = written-Below;
      entries = λ z. ap (λ p. (entry_at e.entrys p).entries) z;
    }

    pub write-IsValid : IsValid result
    write-IsValid = replace-IsValid valid replaces

    pub write-count : count result ≡ count e
    write-count = replace-count valid replaces

    pub write-contents : (j : ℕ) → contents result j ≡ (if k == j then o else contents e j)
    write-contents j = ground (
      arith,
      replace-contents valid replaces j,
      w.contents' j,
      bucket_of-pointed written b' j refl,
      same_at e valid k at j,
      at.pos_eq,
    )

    pub write-Keeps : Keeps e result k
    write-Keeps = record {
      moved = elim (dec_lt 0 at.pos) [
        | yes pos ↦ inl (
            ap (λ (y : Eentry). y.entry_key)
              (get_or-set_ne e.entrys at.pos 0 written zeroed (omega arith)))
        | no start ↦
            let z : at.pos ≡ 0 = omega arith in
            let same : (entry_at (set e.entrys at.pos written) 0).entry_key ≡ key =
              ap (λ (y : Eentry). y.entry_key)
                (ap (λ p. entry_at (set e.entrys p written) 0) z
                  ∙ get_or-set_self e.entrys 0 written zeroed (omega (arith, valid.size))) in
            rw same (subst (λ p. Moved (entry_at e.entrys p).entry_key key k) z w.moved)
      ];
      last_below = λ bound u h.
          subst (λ l. (last_entry l).entry_key < bound) (sym (live-written valid replaces))
            (omega (
              arith,
              u.last,
              last_entry-set (live e) at.pos written (rw (length-live e valid) at.inside)
                  (rw (← at.slot) w.key_le),
            ));
    }
