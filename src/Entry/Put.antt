-- ===== src/Entry/Put.antt =====
-- `Put` of an entry: it returns after at most one split, and stores the value.
use nali.Prelude.{
  ℕ, zero, suc, ◌≤◌, ◌<◌, ◌≡◌, refl, sym, ◌∙◌, ap, ◌⊎◌, inl, inr, none, some, false, List, [], ◌∷◌,
  arith, ltb, ◌==◌, if◌then◌else◌, length, set, Bool-cases, get_or-take, lt→ltb, ltb→lt,
}
use mathlib.Core.Path.{subst}
use native.Mathlib.Nat.{le_refl}
use nali.Bucket.Defs.{UnSortBuncket, KvEntry, entry_count, ok, full}
use nali.Bucket.Valid
use nali.Bucket.Laws
use nali.Entry.Defs
use nali.Entry.Defs.{
  Eentry, zeroed, entry_at, is_valid, PointerBEntry, pb_entry_count, count, put, Pass, pass, retry,
  done, write_bucket, lower_key, grow,
}
use nali.Entry.Route.{pos_of, pos_of-one, pos_of-cons, pos_of-le, IsRouted}
use nali.Entry.Valid.{live, contents, IsValid}
use nali.Entry.Locate.{Located, write_back}
use nali.Entry.Writes.{Write, write-IsValid, write-count, write-contents, write-Keeps}
use nali.Entry.Edges.{Moved, Keeps}

first-le : (k : ℕ) (l : List Eentry) → IsRouted l → 0 < pos_of k l → (entry_at l 0).entry_key ≤ k
first-le k [] r h = absurd r
first-le k (x ∷ []) r h = absurd (omega (arith, pos_of-one k x))
first-le k (x ∷ y ∷ l) r h = ground (arith, pos_of-cons k x y l, r.1)

-- What `lower_key` leaves of the entries: the key of the first may have gone down to `k`.
record Lowered (l : List Eentry) (p k : ℕ) (b' : UnSortBuncket) : Type 0 where
  key : ℕ
  result :
      lower_key ok k (write_bucket l p b')
      ≡ set l p (record (entry_at l p) { entry_key = key; pointer = some b' })
  key_le : key ≤ (entry_at l p).entry_key
  key_first : (p ≡ 0) ⊎ (key ≡ (entry_at l p).entry_key)
  key_le_k : key ≤ k
  moved : Moved (entry_at l p).entry_key key k

lower_key-Lowered :
    (l : List Eentry) (p k : ℕ) (b' : UnSortBuncket)
    → p < length l
    → (0 < p → ((entry_at l 0).entry_key ≤ k) × ((entry_at l p).entry_key ≤ k))
    → Lowered l p k b'
lower_key-Lowered [] p k b' h g = absurd (omega arith)
lower_key-Lowered (z ∷ l) zero k b' h g = elim (Bool-cases (ltb k z.entry_key)) [
  | inl less ↦ record {
    key = k;
    result = rw less;
    key_le = ground arith;
    key_first = inl refl;
    key_le_k = le_refl k;
    moved = inr (refl, ltb→lt k z.entry_key less);
  }
  | inr more ↦ record {
    key = z.entry_key;
    result = rw more;
    key_le = le_refl _;
    key_first = inl refl;
    key_le_k = ground arith;
    moved = inl refl;
  }
]
lower_key-Lowered (z ∷ l) (suc p) k b' h g =
    let (first, here) = g (omega arith) in
    let more : ltb k z.entry_key ≡ false = ground arith in
    record {
      key = (entry_at l p).entry_key;
      result = rw more;
      key_le = le_refl _;
      key_first = inr refl;
      key_le_k = here;
      moved = inl refl;
    }

module _ (e : PointerBEntry) (valid : IsValid e) (k v : ℕ) (absent : contents e k ≡ none)
    (at : Located e valid k) where
  abbrev b : UnSortBuncket
  b = at.holds.bucket

  b_absent : Valid.contents b k ≡ none
  b_absent = sym at.same ∙ absent

  lowered : (b' : UnSortBuncket) → Lowered e.entrys at.pos k b'
  lowered b' =
      lower_key-Lowered e.entrys at.pos k b' (omega (arith, at.inside, valid.size, valid.bounded))
        (λ h. (
          rw (← get_or-take (count e) e.entrys 0 zeroed valid.used)
              (first-le k (live e) valid.routed (rw at.pos_eq h)),
          rw at.slot (
              subst (λ p. 0 < p → (entry_at (live e) p).entry_key ≤ k) at.pos_eq
                (pos_of-le k (live e)) h),
        ))

  -- The bucket has room: it takes the pair.
  pub put_room :
      (memory : List KvEntry)
      → b.entries < entry_count
      → (e' : PointerBEntry) × (pass memory e k v ≡ some (done e' ok))
        × IsValid e'
        × ((j : ℕ) → contents e' j ≡ (if k == j then some v else contents e j))
        × (count e' ≡ count e)
        × Keeps e e' k
  unfolding pass
  put_room memory room =
      let (b', run, valid', contents', _) = Laws.put-Stored b at.holds.valid k v room b_absent in
      let low = lowered b' in
      let w : Write e valid k at b' (some v) low.key = record {
        valid' = valid';
        contents' = contents';
        key_le = low.key_le;
        key_first = low.key_first;
        key_le_k = λ u q. low.key_le_k;
        moved = low.moved;
      } in
      (
        _,
        rw (at.found, at.holds.pointed, run, low.result, Defs.pass),
        write-IsValid e valid k at w,
        write-contents e valid k at w,
        write-count e valid k at w,
        write-Keeps e valid k at w,
      )

  -- No room and no slot left: nothing changes.
  pub put_full :
      (memory : List KvEntry)
      → b.entries ≡ entry_count
      → count e ≡ pb_entry_count
      → pass memory e k v ≡ some (done e full)
  unfolding pass
  put_full memory filled last =
      rw (at.found, at.holds.pointed, Laws.put-full b at.holds.valid k v filled, last, Defs.pass)
        (ap (λ (d : PointerBEntry). some (done d full)) (write_back e valid k at))

  pub put_split :
      (memory : List KvEntry)
      → b.entries ≡ entry_count
      → count e < pb_entry_count
      → pass memory e k v
        ≡ some (retry (record { entrys = grow memory e.entrys (count e) at.pos b }))
  unfolding pass
  put_split memory filled slot =
      rw
        (
          at.found,
          at.holds.pointed,
          Laws.put-full b at.holds.valid k v filled,
          lt→ltb (count e) pb_entry_count slot,
          Defs.pass,
        )
        (ap
          (λ (d : PointerBEntry).
            some (retry (record { entrys = grow memory d.entrys (count e) at.pos b })))
          (write_back e valid k at))
