-- ===== src/Entry/Locate.antt =====
-- The bucket that a key is routed to, in a valid entry; `Get`.
use nali.Prelude.{
  ℕ, ◌<◌, ◌≡◌, refl, sym, ◌∙◌, ap, none, some, true, false, arith, length, set, length-take,
  get_or-take, set-get_or,
}
use nali.Bucket.Valid
use nali.Bucket.Laws
use nali.Entry.Defs.{
  Eentry, zeroed, entry_at, PointerBEntry, count, find_pos, out_of_reach, get, write_bucket,
}
use nali.Entry.Route.{pos_of, bucket_of, bucket_of-pointed, target, Holds, Holds-at, pos_of-lt}
use nali.Entry.Valid.{live, contents, IsValid, find_pos-pos_of}

module _ (e : PointerBEntry) (valid : IsValid e) where
  pub length-live : length (live e) ≡ count e
  length-live = length-take (count e) e.entrys (omega (arith, valid.size, valid.bounded))

module _ (e : PointerBEntry) (valid : IsValid e) (k : ℕ) where
  -- where `Find_pos` leads
  pub record Located : Type 0 where
    pub pos : ℕ
    pub pos_eq : pos_of k (live e) ≡ pos
    pub found : find_pos e k ≡ pos
    pub inside : pos < count e
    pub slot : entry_at e.entrys pos ≡ entry_at (live e) pos
    pub holds : Holds (entry_at e.entrys pos)
    pub reached : out_of_reach e pos ≡ false
    pub same : contents e k ≡ Valid.contents holds.bucket k

  pub locate : Located
  unfolding target
  locate = record {
    pos = p;
    pos_eq = refl;
    found = find_pos-pos_of e k valid;
    inside = inside;
    slot = slot;
    holds = holds;
    reached = ground (arith, holds.set_up, valid.bounded, inside);
    same = ap (λ x. bucket_of x k) (sym slot) ∙ bucket_of-pointed _ holds.bucket k holds.pointed;
  }
    where
      p : ℕ
      p = pos_of k (live e)

      inside : p < count e
      inside = omega (arith, pos_of-lt k (live e), length-live e valid, valid.used)

      slot : entry_at e.entrys p ≡ entry_at (live e) p
      slot = sym (get_or-take (count e) e.entrys p zeroed inside)

      holds : Holds (entry_at e.entrys p)
      holds =
          rw slot (Holds-at (live e) p valid.routed (omega (arith, length-live e valid, inside)))

  -- All keys with the position of `k` are in that bucket.
  pub same_at :
      (at : Located) (j : ℕ)
      → pos_of j (live e) ≡ at.pos
      → contents e j ≡ Valid.contents at.holds.bucket j
  unfolding target
  same_at at j q =
      rw (q, ← at.slot)
        (bucket_of-pointed (entry_at e.entrys at.pos) at.holds.bucket j at.holds.pointed)

  -- Writing back the bucket that is there changes nothing.
  pub write_back :
      (at : Located)
      → ◌≡◌ {A = PointerBEntry} (record { entrys = write_bucket e.entrys at.pos at.holds.bucket }) e
  write_back at =
      let x = entry_at e.entrys at.pos in
      let same_entry : ◌≡◌ {A = Eentry} (record x { pointer = some at.holds.bucket }) x =
        λ i. record x { pointer = sym at.holds.pointed i } in
      ap (λ y. record { entrys = set e.entrys at.pos y }) same_entry
      ∙ ap (λ l. record { entrys = l }) (set-get_or e.entrys at.pos zeroed)

  -- In a valid entry `Get` returns the value under the key in the map that the entry stands for,
  -- or fails when there is none; it never follows a null pointer.
  pub get-contents :
      get e k ≡ elim (contents e k) [ some v ↦ some (true, v) | none ↦ some (false, 0) ]
  unfolding get
  get-contents =
      let at = locate in
      rw (at.found, at.reached, at.holds.pointed)
        (ground (arith, at.same, Laws.get_lem at.holds.bucket at.holds.valid k))
