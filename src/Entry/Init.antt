-- ===== src/Entry/Init.antt =====
-- The constructors of PointerBEntry: the maps that a new entry stands for.
use nali.Prelude.{ℕ, ◌≡◌, refl, ◌∙◌, none, some, List, [], ◌∷◌, arith, ◌==◌, if◌then◌else◌, length}
use nali.Bucket
use nali.Bucket.Defs.{UnSortBuncket, KvEntry, entry_count}
use nali.Bucket.Laws
use nali.Entry.Defs.{
  Eentry, is_valid, PointerBEntry, pb_entry_count, count, create, create_empty, of_entry,
}
use nali.Entry.Route.{bucket_of, bucket_of-pointed, bucket_of-pointer, target-one, Holds}
use nali.Entry.Valid.{live, contents, IsValid}

-- An entry with one bucket.
one_bucket :
    (x : Eentry) (e : PointerBEntry)
    → live e ≡ x ∷ []
    → count e ≡ 1
    → length e.entrys ≡ pb_entry_count
    → Holds x
    → IsValid e × ((j : ℕ) → contents e j ≡ bucket_of x j)
one_bucket x e l c s h = (
  record { size = s; used = omega arith; bounded = omega arith; routed = rw l (h, tt) },
  λ j. rw (l, target-one j x) refl,
)

module _ (memory : List KvEntry) (size : length memory ≡ entry_count) (key prefix_len : ℕ) where
  -- The entry constructed for a key without a value, over uninitialised records of the full size,
  -- is valid and holds nothing.
  pub create_empty-IsValid :
      IsValid (create_empty memory key prefix_len)
      × ((j : ℕ) → contents (create_empty memory key prefix_len) j ≡ none)
  unfolding create_empty is_valid
  create_empty-IsValid =
      let (valid, empty) = Laws.create-IsValid memory size in
      let (valid', same) =
        one_bucket _ (create_empty memory key prefix_len) refl refl refl (record {
          bucket = Bucket.Defs.create memory;
          pointed = refl;
          valid = valid;
          above = λ k v q. absurd (cc (empty k));
          set_up = ground arith;
        }) in
      (valid', λ j. same j ∙ bucket_of-pointed _ (Bucket.Defs.create memory) j refl ∙ empty j)

  -- The entry constructed for a pair, over uninitialised records of the full size, is valid and
  -- holds that pair alone.
  pub create-Stored :
      (value : ℕ)
      → IsValid (create memory key value prefix_len)
        × ((j : ℕ)
            → contents (create memory key value prefix_len) j
              ≡ (if key == j then some value else none))
  unfolding create is_valid
  create-Stored value =
      let (valid, empty) = Laws.create-IsValid memory size in
      let (b', run, valid', contents', _) =
        Laws.put-Stored (Bucket.Defs.create memory) valid key value
          (unfold Bucket.Defs.create in omega arith) (empty key) in
      let (e_valid, same) =
        one_bucket _ (create memory key value prefix_len) refl refl refl (record {
          bucket = (Bucket.Defs.put (Bucket.Defs.create memory) key value).0;
          pointed = refl;
          valid = rw run valid';
          above = λ k v. rw run (λ q. ground (arith, contents' k, empty k, q));
          set_up = ground arith;
        }) in
      (
        e_valid,
        λ j.
            same j
            ∙ bucket_of-pointed _ (Bucket.Defs.put (Bucket.Defs.create memory) key value).0 j refl
            ∙ rw run (ground (arith, contents' j, empty j)),
      )

-- The entry made of one set-up slot with a valid bucket, whose keys are not below the key of the
-- slot, is valid and holds what that bucket holds.
pub of_entry_lem :
    (x : Eentry)
    → Holds x
    → IsValid (of_entry x) × ((j : ℕ) → contents (of_entry x) j ≡ bucket_of x j)
unfolding of_entry is_valid
of_entry_lem x h =
    let (valid, same) = one_bucket _ (of_entry x) refl refl refl (record {
      bucket = h.bucket;
      pointed = h.pointed;
      valid = h.valid;
      above = h.above;
      set_up = ground arith;
    }) in
    (valid, λ j. same j ∙ bucket_of-pointer (record x { entries = 1 }) x j refl)
