-- ===== src/Entry/Adjust.antt =====
-- `AdjustEntryKey`: the key of the first bucket becomes the least key that it holds.
use nali.Prelude.{ℕ, zero, suc, ◌≤◌, ◌<◌, ◌≡◌, refl, sym, ◌∙◌, ap, some, List, [], ◌∷◌, arith, take}
use mathlib.Core.Path.{subst}
use nali.Bucket.Defs.{UnSortBuncket, min_key}
use nali.Bucket.Minimum.{min_key_lem}
use nali.Bucket.Valid
use nali.Entry.Defs.{Eentry, entry_at, is_valid, PointerBEntry, count, adjust_entry_key}
use nali.Entry.Route.{
  IsRouted, Holds, Holds-at, bucket_of, bucket_of-pointed, bucket_of-pointer, look, target-one,
  target-cons,
}
use nali.Entry.Valid.{live, contents, IsValid}
use nali.Entry.Edges.{first_key, last_entry, Under}

-- The bucket that the first slot points to.
abbrev pub HasKey : PointerBEntry → Type 0
HasKey e = (b : UnSortBuncket) × ((entry_at e.entrys 0).pointer ≡ some b) × (0 < b.entries)

abbrev raised : Eentry → UnSortBuncket → Eentry
raised x b = record x { entry_key = min_key b }

raised-Holds :
    (x : Eentry) (b : UnSortBuncket)
    → Holds x
    → x.pointer ≡ some b
    → 0 < b.entries
    → Holds (raised x b)
unfolding is_valid
raised-Holds x b h p some_entry =
    let same : h.bucket ≡ b = cc in
    record {
      bucket = b;
      pointed = p;
      valid = subst Valid.IsValid same h.valid;
      above = (min_key_lem b (subst Valid.IsValid same h.valid) some_entry).1;
      set_up = h.set_up;
    }

-- The least key is one that the bucket holds.
min_key-bucket_of :
    (x : Eentry) (b : UnSortBuncket)
    → Holds x
    → x.pointer ≡ some b
    → 0 < b.entries
    → (v : ℕ) × (bucket_of x (min_key b) ≡ some v)
min_key-bucket_of x b h p some_entry =
    let same : h.bucket ≡ b = cc in
    let (v, q) = (min_key_lem b (subst Valid.IsValid same h.valid) some_entry).0 in
    (v, bucket_of-pointed x b (min_key b) p ∙ q)

raised-IsRouted :
    (x : Eentry) (l : List Eentry) (b : UnSortBuncket)
    → IsRouted (x ∷ l)
    → x.pointer ≡ some b
    → 0 < b.entries
    → IsRouted (raised x b ∷ l)
raised-IsRouted x [] b r p s = (raised-Holds x b r.0 p s, tt)
raised-IsRouted x (y ∷ l) b r p s =
    let (v, q) = min_key-bucket_of x b r.0 p s in
    (
      raised-Holds x b r.0 p s,
      r.2 (min_key b) v q,
      λ k u h. r.2 k u (sym (bucket_of-pointer (raised x b) x k refl) ∙ h),
      r.3,
    )

raised-look :
    (x : Eentry) (l : List Eentry) (b : UnSortBuncket) (k : ℕ)
    → look (raised x b ∷ l) k ≡ look (x ∷ l) k
raised-look x [] b k =
    ap (λ z. bucket_of z k) (target-one k (raised x b))
    ∙ bucket_of-pointer (raised x b) x k refl
    ∙ ap (λ z. bucket_of z k) (sym (target-one k x))
raised-look x (y ∷ l) b k = ground (
  arith,
  target-cons k (raised x b) y l,
  target-cons k x y l,
  bucket_of-pointer (raised x b) x k refl,
)

-- An entry after `AdjustEntryKey`.
pub record Adjusted (e e' : PointerBEntry) : Type 0 where
  pub valid' : IsValid e'
  pub contents' : (k : ℕ) → contents e' k ≡ contents e k
  pub count' : count e' ≡ count e
  pub raised' : first_key e ≤ first_key e'
  pub under' : (bound : ℕ) → Under e bound → Under e' bound

last_entry-raised :
    (x : Eentry) (l : List Eentry) (b : UnSortBuncket) (bound : ℕ)
    → IsRouted (x ∷ l)
    → x.pointer ≡ some b
    → 0 < b.entries
    → (last_entry (x ∷ l)).entry_key < bound
    → ((j v : ℕ) → look (x ∷ l) j ≡ some v → j < bound)
    → (last_entry (raised x b ∷ l)).entry_key < bound
last_entry-raised x [] b bound r p s h below =
    let (v, q) = min_key-bucket_of x b r.0 p s in
    below (min_key b) v (ap (λ z. bucket_of z (min_key b)) (target-one (min_key b) x) ∙ q)
last_entry-raised x (y ∷ l) b bound r p s h below = h

live-cons :
    (n : ℕ) (x : Eentry) (l : List Eentry)
    → x.entries ≡ suc n
    → live (record { entrys = x ∷ l }) ≡ x ∷ take n l
live-cons n x l c = rw c refl

raised-Adjusted :
    (n : ℕ) (x : Eentry) (l : List Eentry) (b : UnSortBuncket)
    → x.entries ≡ suc n
    → IsValid (record { entrys = x ∷ l })
    → x.pointer ≡ some b
    → 0 < b.entries
    → Adjusted (record { entrys = x ∷ l }) (record { entrys = raised x b ∷ l })
raised-Adjusted n x l b c valid p q =
    let before = live-cons n x l c in
    let after = live-cons n (raised x b) l c in
    let r = subst IsRouted before valid.routed in
    let same : (k : ℕ)
        → contents (record { entrys = raised x b ∷ l }) k ≡ contents (record { entrys = x ∷ l }) k =
      λ k.
        ap (λ z. look z k) after ∙ raised-look x (take n l) b k ∙ ap (λ z. look z k) (sym before) in
    record {
      valid' = record {
        size = valid.size;
        used = valid.used;
        bounded = valid.bounded;
        routed = subst IsRouted (sym after) (raised-IsRouted x (take n l) b r p q);
      };
      contents' = same;
      count' = refl;
      raised' =
          let h = Holds-at (x ∷ take n l) 0 r (omega arith) in
          let (v, s) = min_key-bucket_of x b h p q in
          h.above (min_key b) v (sym (bucket_of-pointed x h.bucket (min_key b) h.pointed) ∙ s);
      under' = λ bound u. record {
        last =
            subst (λ z. (last_entry z).entry_key < bound) (sym after)
              (last_entry-raised x (take n l) b bound r p q
                (subst (λ z. (last_entry z).entry_key < bound) before u.last)
                (λ j v h. u.keys j v (ap (λ z. look z j) before ∙ h)));
        keys = λ j v h. u.keys j v (sym (same j) ∙ h);
      };
    }

pred_of : (n : ℕ) → 0 < n → (m : ℕ) × (n ≡ suc m)
pred_of zero h = absurd (omega arith)
pred_of (suc n) h = (n, refl)

-- In a valid entry whose first bucket holds a key, `AdjustEntryKey` returns a valid entry with as
-- many buckets that holds the same pairs, starts no lower, and whose keys lie below every bound of
-- the old ones.
pub adjust_entry_key_lem :
    (e : PointerBEntry)
    → IsValid e
    → HasKey e
    → (e' : PointerBEntry) × (adjust_entry_key e ≡ some e') × Adjusted e e'
unfolding adjust_entry_key
adjust_entry_key_lem e valid (b, p, q) = adjusted_entrys e.entrys valid b p q
  where
    adjusted_entrys :
        (l : List Eentry)
        → IsValid (record { entrys = l })
        → (b : UnSortBuncket) → (entry_at l 0).pointer ≡ some b
        → 0 < b.entries
        → (e' : PointerBEntry) × (adjust_entry_key (record { entrys = l }) ≡ some e')
          × Adjusted (record { entrys = l }) e'
    adjusted_entrys [] valid b p q = absurd (omega (arith, valid.size))
    adjusted_entrys (x ∷ l) valid b p q =
        let (n, c) = pred_of x.entries valid.used in
        (record { entrys = raised x b ∷ l }, rw p refl, raised-Adjusted n x l b c valid p q)
