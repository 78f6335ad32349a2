-- ===== src/Bucket/Laws.antt =====
-- The operations of a bucket against the map that it stands for.
use nali.Prelude.{
  ℕ, ◌+◌, ◌<◌, ◌≡◌, refl, ◌∙◌, ap, inl, inr, none, some, List, [], ◌∷◌, ◌++◌, arith, ◌==◌,
  if◌then◌else◌, length, set, length-set, length-take, take-set_lt, take-set_end, get_or-take,
}
use nali.Bucket.Defs.{
  ok, full, no_exist, KvEntry, UnSortBuncket, entry_count, blank, record_at, put_buf_kv, put,
  set_value, update, get, create,
}
use nali.Bucket.Contents
use nali.Bucket.Contents.{value_of, IsDistinct}
use nali.Bucket.Valid.{live, contents, IsValid, find-cases, find_within}
use native.Mathlib.Nat.{le_refl}
use native.Mathlib.Numerals.{add-one}

pub create-IsValid :
    (memory : List KvEntry)
    → length memory ≡ entry_count
    → IsValid (create memory) × ((k : ℕ) → contents (create memory) k ≡ none)
unfolding create value_of
create-IsValid memory h = (
  record { shape = record { capacity = refl; size = h; bounded = omega arith }; distinct = tt },
  λ k. refl,
)

module _ (b : UnSortBuncket) (valid : IsValid b) where
  -- `Put` in a valid bucket that has no room returns Full and changes nothing.
  pub put-full : (k v : ℕ) → b.entries ≡ entry_count → put b k v ≡ (b, full)
  unfolding put
  put-full k v h = ground (arith, valid.capacity)

  length-live : length (live b) ≡ b.entries
  length-live = length-take b.entries b.records (omega (arith, valid.size, valid.bounded))

  abbrev pushed : ℕ → ℕ → UnSortBuncket
  pushed k v = record b {
    entries = b.entries + 1;
    records = set b.records b.entries (record { key = k; value = v });
  }

  live-pushed :
      (k v : ℕ)
      → b.entries < entry_count
      → live (pushed k v) ≡ live b ++ record { key = k; value = v } ∷ []
  live-pushed k v room = rw (
    add-one,
    take-set_end b.entries b.records (record { key = k; value = v }) (omega (arith, valid.size)),
  )

  -- `Put` of an absent key in a valid bucket with room succeeds: the bucket stays valid, gains one
  -- record, maps the key to the value, and is unchanged on every other key.
  pub put-Stored :
      (k v : ℕ)
      → b.entries < entry_count
      → contents b k ≡ none
      → (b' : UnSortBuncket) × (put b k v ≡ (b', ok))
        × IsValid b'
        × ((j : ℕ) → contents b' j ≡ (if k == j then some v else contents b j))
        × (b'.entries ≡ b.entries + 1)
  unfolding put put_buf_kv value_of
  put-Stored k v room absent = (
    pushed k v,
    ground (arith, valid.capacity),
    record {
      shape = record {
        capacity = valid.capacity;
        size = length-set _ _ _ ∙ valid.size;
        bounded = omega arith;
      };
      distinct =
          rw (live-pushed k v room)
            (Contents.IsDistinct-append_one (live b) _ valid.distinct absent);
    },
    λ j.
        rw (live-pushed k v room) (
          ground (arith, Contents.value_of-append j (live b) (record { key = k; value = v } ∷ []))),
    refl,
  )

  -- `Get` of a valid bucket returns OK and the value under the key in the map that the bucket
  -- stands for, or NoExist when there is none.
  pub get_lem : (k : ℕ) → get b k ≡ elim (contents b k) [ some v ↦ (ok, v) | none ↦ (no_exist, 0) ]
  unfolding get
  get_lem k = elim (find-cases b k valid.shape) [
    | inl (p, found, hit) ↦ rw (found, hit.here)
    | inr (missed, absent) ↦ rw (missed, absent)
  ]

  -- `Update` of a present key in a valid bucket returns OK and the old value, keeps the bucket
  -- valid and the number of records, and changes the value of that key only.
  pub update-Stored :
      (k v old : ℕ)
      → contents b k ≡ some old
      → (b' : UnSortBuncket) × (update b k v ≡ (b', ok, old))
        × IsValid b'
        × ((j : ℕ) → contents b' j ≡ (if k == j then some v else contents b j))
        × (b'.entries ≡ b.entries)
  unfolding update
  update-Stored k v old present =
      let (p, found, hit) = find_within b k valid.shape b.entries old (le_refl _) present in
      let e : KvEntry = record { key = (record_at b.records p).key; value = v } in
      let n = b.entries in
      let l = b.records in
      let inside : p < length (live b) = rw (length-live) hit.inside in
      let at : record_at (live b) p ≡ record_at l p = get_or-take n l p blank hit.inside in
      let written : live (set_value b p v) ≡ set (live b) p e = take-set_lt n l p e hit.inside in
      (
        set_value b p v,
        rw found (ground (arith, hit.here)),
        record {
          shape = record {
            capacity = valid.capacity;
            size = length-set _ _ _ ∙ valid.size;
            bounded = valid.bounded;
          };
          distinct = rw written (
              Contents.IsDistinct-set_value (live b) p e valid.distinct inside
                (ap (λ (r : KvEntry). r.key) at));
        },
        λ j. rw written (
            ground (
              arith,
              hit.same,
              Contents.value_of-set_value j (live b) p e valid.distinct inside
                  (ap (λ (r : KvEntry). r.key) at),
            )),
        refl,
      )

  pub update-absent : (k v : ℕ) → contents b k ≡ none → update b k v ≡ (b, no_exist, 0)
  unfolding update
  update-absent k v absent = elim (find-cases b k valid.shape) [
    | inl (p, found, hit) ↦ absurd (cc)
    | inr (missed, _) ↦ rw missed
  ]
