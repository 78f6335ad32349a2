-- ===== src/Entry/Grow.antt =====
-- The split inside `Put`: a full bucket becomes two, and the entry stands for the same map.
use native.Mathlib.Nat.{le_refl}
use mathlib.Core.Path.{subst}
use nali.Prelude.{
  ℕ, zero, suc, ◌+◌, ◌-◌, ◌%◌, ◌<◌, ◌≡◌, refl, sym, ◌∙◌, ap, inl, inr, some, List, [], ◌∷◌, arith,
  leb, ◌==◌, if◌then◌else◌, length, take, get_or-take, length-set, get_or-set_self,
}
use nali.Bucket.Defs.{UnSortBuncket, KvEntry, entry_count}
use nali.Bucket.Expand.{expand}
use nali.Bucket.Split.{Halves, expand-Halves}
use nali.Bucket.Valid
use nali.Entry.Defs.{
  Eentry, zeroed, entry_at, is_valid, PointerBEntry, pb_entry_count, count, inc_entries, grow,
  shift_loop,
}
use nali.Entry.Route.{
  pos_of, bucket_of, bucket_of-pointed, bucket_of-pointer, target, Holds, Holds-at, IsRouted,
  insert_after,
}
use nali.Entry.Routed.{
  IsSplit, IsRouted-insert_after, target-insert_after, IsRouted-set, target-set,
}
use nali.Entry.Valid.{live, contents, IsValid, upper_half, lower_half, grow-insert_after}
use nali.Entry.Edges.{
  Keeps, Under, last_entry, last_entry-set, last_entry-insert_after, look-bucket_of,
  first_key-insert_after,
}
use nali.Entry.Locate.{length-live, Located, same_at}
use nali.Entry.Writes.{below_at}

length-shift_loop : (n i : ℕ) (l : List Eentry) → length (shift_loop n i l) ≡ length l
unfolding shift_loop
length-shift_loop zero i l = refl
length-shift_loop (suc n) i l = length-shift_loop n (i - 1) _ ∙ length-set l (i + 1) _

length-grow :
    (memory : List KvEntry) (l : List Eentry) (n p : ℕ) (b : UnSortBuncket)
    → length (grow memory l n p b) ≡ length l
unfolding grow
length-grow memory l n p b =
    length-set _ _ _ ∙ length-set _ _ _ ∙ length-set _ _ _ ∙ length-shift_loop (n - 1 - p) (n - 1) l

length-insert_after :
    (l : List Eentry) (p : ℕ) (x y : Eentry)
    → p < length l
    → length (insert_after l p x y) ≡ suc (length l)
length-insert_after [] p x y h = absurd (omega arith)
length-insert_after (z ∷ l) zero x y h = refl
length-insert_after (z ∷ l) (suc p) x y h = ap suc (length-insert_after l p x y (omega arith))

first-insert_after :
    (l : List Eentry) (p : ℕ) (x y : Eentry)
    → x.entries ≡ (entry_at l p).entries
    → (entry_at (insert_after l p x y) 0).entries ≡ (entry_at l 0).entries
first-insert_after [] p x y h = refl
first-insert_after (z ∷ l) zero x y h = h
first-insert_after (z ∷ l) (suc p) x y h = refl

module _ (l : List Eentry) (r : IsRouted l) (some_entry : 0 < length l)
    (small : (entry_at l 0).entries < pb_entry_count) where
  abbrev bumped : Eentry
  bumped = record (entry_at l 0) { entries = ((entry_at l 0).entries + 1) % 256 }

  bumped-Holds : Holds (entry_at l 0) → Holds bumped
  unfolding is_valid
  bumped-Holds h = record {
    bucket = h.bucket;
    pointed = h.pointed;
    valid = h.valid;
    above = h.above;
    set_up = ground arith;
  }

  inc_entries-IsRouted : IsRouted (inc_entries l)
  unfolding bucket_of
  inc_entries-IsRouted =
      IsRouted-set l 0 bumped r some_entry (bumped-Holds (Holds-at l 0 r some_entry)) (le_refl _)
        (inl refl) (λ h k v q. below_at l 0 {j = k} {v = v} r h q)

  target-inc_entries : (j : ℕ) → (target j (inc_entries l)).pointer ≡ (target j l).pointer
  unfolding target
  target-inc_entries j = ground (arith, target-set j l 0 bumped some_entry (inl refl))

-- A full bucket at the position of `k`, in an entry that has a slot left.
module _ (e : PointerBEntry) (valid : IsValid e) (k : ℕ) (memory : List KvEntry)
    (size : length memory ≡ entry_count) (at : Located e valid k)
    (full_bucket : at.holds.bucket.entries ≡ entry_count) (room : count e < pb_entry_count) where
  abbrev b : UnSortBuncket
  b = at.holds.bucket

  halves : Halves b (expand b memory)
  halves = expand-Halves b memory at.holds.valid size (omega arith)

  open halves use {
    no_prefix, self_valid, next_valid, self_entries, next_entries, self_contents, next_contents,
    split_present, below,
  }

  abbrev x : Eentry
  x = lower_half memory e.entrys at.pos b

  abbrev y : ℕ → Eentry
  y = upper_half memory b

  b-in : (j v : ℕ) → Valid.contents b j ≡ some v → bucket_of (entry_at (live e) at.pos) j ≡ some v
  b-in j v q =
      rw (← at.slot) (bucket_of-pointed (entry_at e.entrys at.pos) b j at.holds.pointed ∙ q)

  b-below :
      (j v : ℕ)
      → Valid.contents b j ≡ some v
      → suc at.pos < length (live e)
      → j < (entry_at (live e) (suc at.pos)).entry_key
  b-below j v q h = below_at (live e) at.pos {j = j} {v = v} valid.routed h (b-in j v q)

  is_split : (stale : ℕ) → IsSplit (live e) at.pos x (y stale)
  unfolding bucket_of is_valid
  is_split stale = record {
    left = record {
      bucket = (expand b memory).self;
      pointed = refl;
      valid = self_valid;
      above = λ j v q. ground (arith, self_contents j, at.holds.above j v);
      set_up = at.holds.set_up;
    };
    right = record {
      bucket = (expand b memory).next;
      pointed = refl;
      valid = next_valid;
      above = λ j v q. ground (arith, next_contents j);
      set_up = ground (arith, no_prefix);
    };
    same_key = ap (λ (z : Eentry). z.entry_key) at.slot;
    ordered = omega (arith, below.3, at.holds.above below.0 below.1 below.2);
    left_below = λ j v q. ground (arith, self_contents j);
    right_ordered = b-below (expand b memory).split_key split_present.0 split_present.1;
    right_below = λ h j v q. b-below j v (ground (arith, next_contents j)) h;
  }

  grown : PointerBEntry
  grown = record { entrys = grow memory e.entrys (count e) at.pos b }

  stale : ℕ
  stale = (grow-insert_after memory e.entrys (count e) at.pos b valid.size at.inside room).0

  parts : List Eentry
  parts = insert_after (live e) at.pos x (y stale)

  grown_list : take (suc (count e)) (grow memory e.entrys (count e) at.pos b) ≡ inc_entries parts
  unfolding stale parts
  grown_list = (grow-insert_after memory e.entrys (count e) at.pos b valid.size at.inside room).1

  pos_inside : at.pos < length (live e)
  pos_inside = rw (length-live e valid) at.inside

  length-parts : length parts ≡ suc (count e)
  unfolding parts
  length-parts =
      length-insert_after (live e) at.pos x (y stale) pos_inside ∙ ap suc (length-live e valid)

  first-parts : (entry_at parts 0).entries ≡ count e
  unfolding parts
  first-parts =
      first-insert_after (live e) at.pos x (y stale) (ap (λ (z : Eentry). z.entries) at.slot)
      ∙ ap (λ (z : Eentry). z.entries) (get_or-take (count e) e.entrys 0 zeroed valid.used)

  parts-IsRouted : IsRouted parts
  unfolding parts
  parts-IsRouted =
      IsRouted-insert_after (live e) at.pos x (y stale) valid.routed pos_inside (is_split stale)

  pub grown_count :
      count (record { entrys = grow memory e.entrys (count e) at.pos b }) ≡ suc (count e)
  grown_count =
      sym (
        ap (λ (z : Eentry). z.entries)
          (get_or-take (suc (count e)) (grow memory e.entrys (count e) at.pos b) 0 zeroed
            (omega arith)))
      ∙ ap (λ l. (entry_at l 0).entries) grown_list
      ∙ ap (λ (z : Eentry). z.entries)
          (get_or-set_self parts 0 _ zeroed (omega (arith, length-parts)))
      ∙ omega (arith, first-parts)

  grown_live :
      live (record { entrys = grow memory e.entrys (count e) at.pos b }) ≡ inc_entries parts
  grown_live = ap (λ n. take n (grow memory e.entrys (count e) at.pos b)) grown_count ∙ grown_list

  grown_target :
      (j : ℕ)
      → (target j (live (record { entrys = grow memory e.entrys (count e) at.pos b }))).pointer ≡ (
          if pos_of j (live e) == at.pos
          then (if leb (expand b memory).split_key j
              then some (expand b memory).next
              else some (expand b memory).self)
          else (target j (live e)).pointer)
  unfolding parts
  grown_target j =
      ap (λ l. (target j l).pointer) grown_live
      ∙ target-inc_entries parts parts-IsRouted (omega (arith, length-parts))
          (omega (arith, first-parts)) j
      ∙ ground
          (arith, target-insert_after j (live e) at.pos x (y stale) pos_inside (is_split stale))

  pub grown_contents :
      (j : ℕ)
      → contents (record { entrys = grow memory e.entrys (count e) at.pos b }) j ≡ contents e j
  grown_contents j =
      let t = target j (live (record { entrys = grow memory e.entrys (count e) at.pos b })) in
      ground (
        arith,
        grown_target j,
        bucket_of-pointed t (expand b memory).next j,
        bucket_of-pointed t (expand b memory).self j,
        bucket_of-pointer t (target j (live e)) j,
        self_contents j,
        next_contents j,
        same_at e valid k at j,
      )

  pub grown-IsValid : IsValid (record { entrys = grow memory e.entrys (count e) at.pos b })
  grown-IsValid = record {
    size = length-grow memory e.entrys (count e) at.pos b ∙ valid.size;
    used = omega (arith, grown_count);
    bounded = omega (arith, grown_count);
    routed = rw grown_live (
        inc_entries-IsRouted parts parts-IsRouted (omega (arith, length-parts))
          (omega (arith, first-parts)));
  }

  -- The bucket of `k` has room now.
  pub grown_room :
      (at' : Located (record { entrys = grow memory e.entrys (count e) at.pos b }) grown-IsValid k)
      → at'.holds.bucket.entries < entry_count
  unfolding target
  grown_room at' =
      let l' = live (record { entrys = grow memory e.entrys (count e) at.pos b }) in
      let same : (target k l').pointer ≡ some at'.holds.bucket =
        ap (λ (z : Eentry). z.pointer) (ap (entry_at l') at'.pos_eq ∙ sym at'.slot)
        ∙ at'.holds.pointed in
      ground (arith, same, grown_target k, at.pos_eq, self_entries, next_entries, full_bucket)

  -- The new entry key is a key that is present.
  split_key-present : contents e (expand b memory).split_key ≡ some split_present.0
  split_key-present =
      look-bucket_of (live e) at.pos (expand b memory).split_key split_present.0 valid.routed
        pos_inside (b-in (expand b memory).split_key split_present.0 split_present.1)

  pub grown-Keeps : Keeps e (record { entrys = grow memory e.entrys (count e) at.pos b }) k
  unfolding parts
  grown-Keeps = record {
    moved = inl (
        sym (
          ap (λ (z : Eentry). z.entry_key)
            (get_or-take (suc (count e)) (grow memory e.entrys (count e) at.pos b) 0 zeroed
              (omega arith)))
        ∙ ap (λ l. (entry_at l 0).entry_key) grown_list
        ∙ ap (λ (z : Eentry). z.entry_key)
            (get_or-set_self parts 0 _ zeroed (omega (arith, length-parts)))
        ∙ first_key-insert_after (live e) at.pos x (y stale)
            (ap (λ (z : Eentry). z.entry_key) at.slot)
        ∙ ap (λ (z : Eentry). z.entry_key) (get_or-take (count e) e.entrys 0 zeroed valid.used));
    last_below = λ bound u h.
        let bumped_last =
          last_entry-set parts 0
            (bumped parts parts-IsRouted (omega (arith, length-parts)) (omega (arith, first-parts)))
            (omega (arith, length-parts)) (le_refl _) in
        subst (λ l. (last_entry l).entry_key < bound) (sym grown_live)
          (elim (last_entry-insert_after (live e) at.pos x (y stale)) [
            | inl kept ↦ omega (arith, kept, bumped_last, u.last)
            | inr new ↦ omega (
              arith,
              new,
              bumped_last,
              u.keys (expand b memory).split_key split_present.0 split_key-present,
            )
          ]);
  }

  pub grown-Under :
      (bound : ℕ)
      → Under e bound
      → k < bound
      → Under (record { entrys = grow memory e.entrys (count e) at.pos b }) bound
  grown-Under bound u h = record {
    last = grown-Keeps.last_below bound u h;
    keys = λ j v q. u.keys j v (sym (grown_contents j) ∙ q);
  }
