-- ===== src/Entry/Valid.antt =====
-- The invariant of PointerBEntry, and `Find_pos` as the position of a key.
use nali.Prelude.{
  ℕ, zero, suc, ◌-◌, ◌≤◌, ◌<◌, ◌≡◌, refl, Option, some, List, [], ◌∷◌, arith, ◌==◌, if◌then◌else◌,
  length, take,
}
use nali.Bucket.Defs.{UnSortBuncket, KvEntry}
use nali.Bucket.Expand.{expand}
use nali.Entry.Defs.{
  Eentry, entry_at, PointerBEntry, pb_entry_count, count, find_pos_loop, find_pos, inc_entries,
  grow,
}
use nali.Entry.Route.{pos_of, look, IsRouted, insert_after}

-- the entries in use
abbrev pub live : PointerBEntry → List Eentry
live e = take (count e) e.entrys

-- the map that an entry stands for
abbrev pub contents : PointerBEntry → ℕ → Option ℕ
contents e k = look (live e) k

pub record IsValid (e : PointerBEntry) : Type 0 where
  pub size : length e.entrys ≡ pb_entry_count
  pub used : 0 < count e
  pub bounded : count e ≤ pb_entry_count
  pub routed : IsRouted (live e)

find_pos_loop-suc :
    (n i k : ℕ) (x : Eentry) (l : List Eentry)
    → find_pos_loop n (suc i) k (x ∷ l) ≡ suc (find_pos_loop n i k l)
unfolding find_pos_loop
find_pos_loop-suc zero i k x l = refl
find_pos_loop-suc (suc n) i k x l = ground (arith, find_pos_loop-suc n (suc i) k x l)

find_pos_loop-pos_of :
    (n k : ℕ) (x : Eentry) (l : List Eentry)
    → n ≤ length l
    → find_pos_loop n 0 k l ≡ pos_of k (x ∷ take n l)
unfolding find_pos_loop pos_of
find_pos_loop-pos_of zero k x l h = refl
find_pos_loop-pos_of (suc n) k x [] h = absurd (omega arith)
find_pos_loop-pos_of (suc n) k x (y ∷ l) h =
    ground (arith, find_pos_loop-suc n 0 k y l, find_pos_loop-pos_of n k y l (omega arith))

find_pos_list :
    (n k : ℕ) (l : List Eentry)
    → 0 < n
    → n ≤ length l
    → IsRouted (take n l)
    → (let pos = find_pos_loop n 0 k l in if pos == 0 then pos else pos - 1) ≡ pos_of k (take n l)
unfolding find_pos_loop pos_of
find_pos_list zero k l p h r = absurd (omega arith)
find_pos_list (suc n) k [] p h r = absurd (omega arith)
find_pos_list (suc zero) k (x ∷ l) p h r = ground arith
find_pos_list (suc (suc n)) k (x ∷ []) p h r = absurd (omega arith)
find_pos_list (suc (suc n)) k (x ∷ y ∷ l) p h r = ground (
  arith,
  find_pos_loop-suc (suc n) 0 k x (y ∷ l),
  find_pos_loop-pos_of (suc n) k x (y ∷ l) (omega arith),
  r.1,
)

pub find_pos-pos_of : (e : PointerBEntry) (k : ℕ) → IsValid e → find_pos e k ≡ pos_of k (live e)
unfolding find_pos
find_pos-pos_of e k v =
    find_pos_list (count e) k e.entrys v.used (omega (arith, v.size, v.bounded)) v.routed

-- The entry that `grow` leaves after the one it splits; `stale` is what its count field held.
abbrev pub upper_half : List KvEntry → UnSortBuncket → ℕ → Eentry
upper_half memory b stale =
    let x = expand b memory in
    record {
      entry_key = x.split_key;
      pointer = some x.next;
      prefix_bytes = x.prefix_len;
      suffix_bytes = 8 - x.prefix_len;
      entries = stale;
    }

abbrev pub lower_half : List KvEntry → List Eentry → ℕ → UnSortBuncket → Eentry
lower_half memory l p b = record (entry_at l p) { pointer = some (expand b memory).self }

-- The live entries after `grow`.
pub grow-insert_after :
    (memory : List KvEntry) (l : List Eentry) (n p : ℕ) (b : UnSortBuncket)
    → length l ≡ pb_entry_count
    → p < n
    → n < pb_entry_count
    → (stale : ℕ) × (take (suc n) (grow memory l n p b)
        ≡ inc_entries
            (insert_after (take n l) p (lower_half memory l p b) (upper_half memory b stale)))
unfolding grow
grow-insert_after memory (z0 ∷ z1 ∷ z2 ∷ z3 ∷ []) (suc zero) zero b s h g = (_, refl)
grow-insert_after memory (z0 ∷ z1 ∷ z2 ∷ z3 ∷ []) (suc (suc zero)) zero b s h g = (_, refl)
grow-insert_after memory (z0 ∷ z1 ∷ z2 ∷ z3 ∷ []) (suc (suc zero)) (suc zero) b s h g = (_, refl)
grow-insert_after memory (z0 ∷ z1 ∷ z2 ∷ z3 ∷ []) (suc (suc (suc zero))) zero b s h g = (_, refl)
grow-insert_after memory (z0 ∷ z1 ∷ z2 ∷ z3 ∷ []) (suc (suc (suc zero))) (suc zero) b s h g =
    (_, refl)
grow-insert_after memory (z0 ∷ z1 ∷ z2 ∷ z3 ∷ []) (suc (suc (suc zero))) (suc (suc zero)) b s h g =
    (_, refl)
grow-insert_after memory l n p b s h g = absurd (omega arith)
