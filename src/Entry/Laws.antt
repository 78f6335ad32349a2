-- ===== src/Entry/Laws.antt =====
-- `Update` and `Delete` of an entry against the map that it stands for.
use nali.Prelude.{
  ℕ, ◌≡◌, refl, sym, ◌∙◌, ap, inl, inr, none, some, true, false, ◌==◌, if◌then◌else◌,
}
use native.Mathlib.Nat.{le_refl}
use nali.Bucket.Laws
use nali.Bucket.Remove
use nali.Entry.Defs.{entry_at, PointerBEntry, count, update, delete, write_bucket}
use nali.Entry.Valid.{contents, IsValid}
use nali.Entry.Locate.{locate, write_back}
use nali.Entry.Writes.{Write, write-IsValid, write-count, write-contents, write-Keeps}
use nali.Entry.Edges.{Keeps}

module _ (e : PointerBEntry) (valid : IsValid e) (k : ℕ) where
  -- In a valid entry `Update` of a present key succeeds, returns the old value, keeps the entry
  -- valid, in its place, and with as many buckets, and changes the value of that key only.
  pub update-contents :
      (v old : ℕ)
      → contents e k ≡ some old
      → (e' : PointerBEntry) × (update e k v ≡ some (e', true, old))
        × IsValid e'
        × ((j : ℕ) → contents e' j ≡ (if k == j then some v else contents e j))
        × (count e' ≡ count e)
        × Keeps e e' k
  unfolding update
  update-contents v old present =
      let at = locate e valid k in
      let here = at.holds in
      let (b', run, valid', contents', _) =
        Laws.update-Stored here.bucket here.valid k v old (sym at.same ∙ present) in
      let w : Write e valid k at b' (some v) (entry_at e.entrys at.pos).entry_key = record {
        valid' = valid';
        contents' = contents';
        key_le = le_refl _;
        key_first = inr refl;
        key_le_k = λ u q. here.above k old (sym at.same ∙ present);
        moved = inl refl;
      } in
      (
        record { entrys = write_bucket e.entrys at.pos b' },
        rw (at.found, at.reached, here.pointed, run),
        write-IsValid e valid k at w,
        write-contents e valid k at w,
        write-count e valid k at w,
        write-Keeps e valid k at w,
      )

  pub update-none : (v : ℕ) → contents e k ≡ none → update e k v ≡ some (e, false, 0)
  unfolding update
  update-none v absent =
      let at = locate e valid k in
      let here = at.holds in
      rw
        (
          at.found,
          at.reached,
          here.pointed,
          Laws.update-absent here.bucket here.valid k v (sym at.same ∙ absent),
        )
        (ap (λ d. some (d, false, 0)) (write_back e valid k at))

  pub delete-none : contents e k ≡ none → delete e k ≡ some (e, false, 0)
  unfolding delete
  delete-none absent =
      let at = locate e valid k in
      let here = at.holds in
      rw
        (
          at.found,
          at.reached,
          here.pointed,
          Remove.delete-absent here.bucket here.valid k (sym at.same ∙ absent),
        )
        (ap (λ d. some (d, false, 0)) (write_back e valid k at))

  -- In a valid entry `Delete` of a present key succeeds, returns its value, keeps the entry valid,
  -- in its place, and with as many buckets, and removes that key only.
  pub delete-contents :
      (old : ℕ)
      → contents e k ≡ some old
      → (e' : PointerBEntry) × (delete e k ≡ some (e', true, old))
        × IsValid e'
        × ((j : ℕ) → contents e' j ≡ (if k == j then none else contents e j))
        × (count e' ≡ count e)
        × Keeps e e' k
  unfolding delete
  delete-contents old present =
      let at = locate e valid k in
      let here = at.holds in
      let (b', run, valid', contents', _) =
        Remove.delete-Removed here.bucket here.valid k old (sym at.same ∙ present) in
      let w : Write e valid k at b' none (entry_at e.entrys at.pos).entry_key = record {
        valid' = valid';
        contents' = contents';
        key_le = le_refl _;
        key_first = inr refl;
        key_le_k = λ u q. absurd (cc);
        moved = inl refl;
      } in
      (
        record { entrys = write_bucket e.entrys at.pos b' },
        rw (at.found, at.reached, here.pointed, run),
        write-IsValid e valid k at w,
        write-contents e valid k at w,
        write-count e valid k at w,
        write-Keeps e valid k at w,
      )
