-- ===== src/Entry/Store.antt =====
-- `Put` of an entry: it returns after at most one split, and stores the value.
use nali.Prelude.{
  ℕ, suc, ◌<◌, ◌≡◌, ◌∙◌, Bool, none, some, true, List, arith, ◌==◌, if◌then◌else◌, length, dec_lt,
  refl,
}
use nali.Bucket.Defs.{KvEntry, entry_count, ok, full}
use nali.Entry.Defs.{PointerBEntry, pb_entry_count, count, put, grow}
use nali.Entry.Valid.{contents, IsValid}
use nali.Entry.Locate.{locate}
use nali.Entry.Grow.{
  grown-IsValid, grown_contents, grown_count, grown_room, grown-Keeps, grown-Under,
}
use nali.Entry.Edges.{Keeps, Keeps-trans}
use nali.Entry.Put.{put_room, put_full, put_split}

module _ (memory : List KvEntry) (e : PointerBEntry) (valid : IsValid e) (k v : ℕ)
    (absent : contents e k ≡ none) where
  -- `e'` maps `k` to `v`, is like `e` elsewhere, and fits where `e` did.
  abbrev IsStored : PointerBEntry → Type 0
  IsStored e' =
      IsValid e'
      × ((j : ℕ) → contents e' j ≡ (if k == j then some v else contents e j))
      × Keeps e e' k

  store :
      (fuel : ℕ) (split : Bool)
      → (locate e valid k).holds.bucket.entries < entry_count
      → (e' : PointerBEntry) × (put (suc fuel) memory e k v split ≡ some (e', ok, split))
        × IsStored e'
        × (count e' ≡ count e)
  unfolding put
  store fuel split room =
      let (e', run, valid', contents', same, keeps) =
        put_room e valid k v absent (locate e valid k) memory room in
      (e', rw run refl, (valid', contents', keeps), same)

  -- what `put` leaves: the pair stored, after a split or without one, or no room for it
  pub data Outcome (fuel : ℕ) (split : Bool) : Type 0 where
    stored :
        (e' : PointerBEntry)
        → put fuel memory e k v split ≡ some (e', ok, split)
        → IsStored e'
        → count e' ≡ count e
        → Outcome fuel split
    stored_split :
        (e' : PointerBEntry)
        → put fuel memory e k v split ≡ some (e', ok, true)
        → IsStored e'
        → count e' ≡ suc (count e)
        → Outcome fuel split
    refused :
        put fuel memory e k v split ≡ some (e, full, split)
        → count e ≡ pb_entry_count
        → (locate e valid k).holds.bucket.entries ≡ entry_count
        → Outcome fuel split

-- One split is enough: with fuel for two runs of the body, `Put` of an absent key returns.
module _ (memory : List KvEntry) (size : length memory ≡ entry_count) (e : PointerBEntry)
    (valid : IsValid e) (k v : ℕ) (absent : contents e k ≡ none) where
  -- In a valid entry where the key is absent, with fuel for two runs of the body and fresh buckets
  -- of the full size, `Put` returns: it stores the pair and leaves a valid entry that is unchanged
  -- elsewhere and keeps its place, with the same number of buckets or, when the split flag is set,
  -- one more; or all four slots are in use and the bucket of the key is full, and then it reports
  -- Full and changes nothing.
  pub put-Outcome :
      (fuel : ℕ) (split : Bool) → Outcome memory e valid k v absent (suc (suc fuel)) split
  unfolding put
  put-Outcome fuel split =
      let at = locate e valid k in
      elim (dec_lt at.holds.bucket.entries entry_count) [
        | yes room ↦
            let (e', run, is_stored, same) =
              store memory e valid k v absent (suc fuel) split room in
            stored e' run is_stored same
        | no filled ↦
            let filled' : at.holds.bucket.entries ≡ entry_count =
              omega (arith, filled, at.holds.valid.bounded) in
            elim (dec_lt (count e) pb_entry_count) [
              | yes slot ↦
                  let valid' = grown-IsValid e valid k memory size at filled' slot in
                  let same' = grown_contents e valid k memory size at filled' slot in
                  let e' : PointerBEntry = record {
                    entrys = grow memory e.entrys (count e) at.pos at.holds.bucket;
                  } in
                  let (e'', run, (valid'', contents'', keeps''), same'') =
                    store memory e' valid' k v (same' k ∙ absent) fuel true
                      (grown_room e valid k memory size at filled' slot (locate e' valid' k)) in
                  stored_split e''
                    (rw (put_split e valid k v absent at memory filled' slot, run) refl)
                    (
                      valid'',
                      λ j. rw (contents'' j, same' j) refl,
                      Keeps-trans (grown-Keeps e valid k memory size at filled' slot) keeps''
                          (grown-Under e valid k memory size at filled' slot),
                    )
                    (same'' ∙ grown_count e valid k memory size at filled' slot)
              | no last ↦
                  let last' : count e ≡ pb_entry_count = omega (arith, last, valid.bounded) in
                  refused (rw (put_full e valid k v absent at memory filled' last') refl) last'
                    filled'
            ]
      ]
