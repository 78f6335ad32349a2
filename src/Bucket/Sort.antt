-- ===== src/Bucket/Sort.antt =====
-- `getSortedIndex`: the indices of the live records, sorted by key. `std::sort` is modelled by an
-- insertion sort; on distinct keys every sort returns the same list.
use nali.Prelude.{
  ℕ, zero, suc, ◌≤◌, ◌<◌, ◌≡◌, refl, ◌∙◌, ap, none, List, [], ◌∷◌, map, arith, ltb, leb,
  if◌then◌else◌, length, take, drop,
}
use nali.Bucket.Defs.{KvEntry, UnSortBuncket, record_at}
use nali.Bucket.Contents.{value_of, IsDistinct}

abbrev pub indices : ℕ → ℕ → List ℕ
indices i zero = []
indices i (suc n) = i ∷ indices (suc i) n

unfoldable pub insert_index : List KvEntry → ℕ → List ℕ → List ℕ
insert_index l i [] = i ∷ []
insert_index l i (j ∷ js) =
    if ltb (record_at l j).key (record_at l i).key then j ∷ insert_index l i js else i ∷ j ∷ js

unfoldable pub sort_index : List KvEntry → List ℕ → List ℕ
unfolding insert_index
sort_index l [] = []
sort_index l (i ∷ is) = insert_index l i (sort_index l is)

unfoldable pub get_sorted_index : UnSortBuncket → List ℕ
unfolding sort_index
get_sorted_index b = sort_index b.records (indices 0 b.entries)

-- The records in the order of the sorted indices.
abbrev pub insert_record : KvEntry → List KvEntry → List KvEntry
insert_record e [] = e ∷ []
insert_record e (x ∷ s) = if ltb x.key e.key then x ∷ insert_record e s else e ∷ x ∷ s

abbrev pub sort_records : List KvEntry → List KvEntry
sort_records [] = []
sort_records (e ∷ l) = insert_record e (sort_records l)

abbrev pub AllAbove : ℕ → List KvEntry → Type 0
AllAbove k [] = Unit
AllAbove k (e ∷ l) = (k < e.key) × AllAbove k l

abbrev pub IsAscending : List KvEntry → Type 0
IsAscending [] = Unit
IsAscending (e ∷ l) = AllAbove e.key l × IsAscending l

map-insert_index :
    (l : List KvEntry) (i : ℕ) (js : List ℕ)
    → map (record_at l) (insert_index l i js) ≡ insert_record (record_at l i) (map (record_at l) js)
unfolding insert_index
map-insert_index l i [] = refl
map-insert_index l i (j ∷ js) = ground (arith, map-insert_index l i js)

map-sort_index :
    (l : List KvEntry) (is : List ℕ)
    → map (record_at l) (sort_index l is) ≡ sort_records (map (record_at l) is)
unfolding sort_index
map-sort_index l [] = refl
map-sort_index l (i ∷ is) =
    map-insert_index l i (sort_index l is)
    ∙ ap (insert_record (record_at l i)) (map-sort_index l is)

map-indices-suc :
    (x : KvEntry) (l : List KvEntry) (i n : ℕ)
    → map (record_at (x ∷ l)) (indices (suc i) n) ≡ map (record_at l) (indices i n)
map-indices-suc x l i zero = refl
map-indices-suc x l i (suc n) = ap (◌∷◌ (record_at l i)) (map-indices-suc x l (suc i) n)

map-indices : (l : List KvEntry) (n : ℕ) → n ≤ length l → map (record_at l) (indices 0 n) ≡ take n l
map-indices l zero h = refl
map-indices [] (suc n) h = absurd (omega arith)
map-indices (x ∷ l) (suc n) h = ap (◌∷◌ x) (map-indices-suc x l 0 n ∙ map-indices l n (omega arith))

-- The records that the sorted indices name are the sorted live records.
pub map-get_sorted_index :
    (b : UnSortBuncket)
    → b.entries ≤ length b.records
    → map (record_at b.records) (get_sorted_index b) ≡ sort_records (take b.entries b.records)
unfolding get_sorted_index
map-get_sorted_index b h =
    map-sort_index b.records (indices 0 b.entries)
    ∙ ap sort_records (map-indices b.records b.entries h)

value_of-insert_record :
    (j : ℕ) (e : KvEntry) (s : List KvEntry) → value_of j (insert_record e s) ≡ value_of j (e ∷ s)
unfolding value_of
value_of-insert_record j e [] = refl
value_of-insert_record j e (x ∷ s) = ground (arith, value_of-insert_record j e s)

pub value_of-sort_records : (j : ℕ) (l : List KvEntry) → value_of j (sort_records l) ≡ value_of j l
unfolding value_of
value_of-sort_records j [] = refl
value_of-sort_records j (e ∷ l) =
    ground (arith, value_of-insert_record j e (sort_records l), value_of-sort_records j l)

length-insert_record :
    (e : KvEntry) (s : List KvEntry) → length (insert_record e s) ≡ suc (length s)
length-insert_record e [] = refl
length-insert_record e (x ∷ s) = ground (arith, length-insert_record e s)

pub length-sort_records : (l : List KvEntry) → length (sort_records l) ≡ length l
length-sort_records [] = refl
length-sort_records (e ∷ l) =
    omega (arith, length-insert_record e (sort_records l), length-sort_records l)

AllAbove-insert_record :
    (k : ℕ) (e : KvEntry) (s : List KvEntry)
    → k < e.key
    → AllAbove k s
    → AllAbove k (insert_record e s)
AllAbove-insert_record k e [] h a = (h, tt)
AllAbove-insert_record k e (x ∷ s) h a = ground (arith, AllAbove-insert_record k e s)

AllAbove-trans : (k m : ℕ) (s : List KvEntry) → k ≤ m → AllAbove m s → AllAbove k s
AllAbove-trans k m [] h a = tt
AllAbove-trans k m (x ∷ s) h a = (omega arith, AllAbove-trans k m s h a.1)

IsAscending-insert_record :
    (e : KvEntry) (s : List KvEntry)
    → value_of e.key s ≡ none
    → IsAscending s
    → IsAscending (insert_record e s)
unfolding value_of
IsAscending-insert_record e [] h a = (tt, tt)
IsAscending-insert_record e (x ∷ s) h a = ground (
  arith,
  IsAscending-insert_record e s,
  AllAbove-insert_record x.key e s,
  AllAbove-trans e.key x.key s,
)

pub IsAscending-sort_records : (l : List KvEntry) → IsDistinct l → IsAscending (sort_records l)
IsAscending-sort_records [] d = tt
IsAscending-sort_records (e ∷ l) d =
    IsAscending-insert_record e (sort_records l) (value_of-sort_records e.key l ∙ d.0)
      (IsAscending-sort_records l d.1)

value_of-AllAbove : (k j : ℕ) (s : List KvEntry) → AllAbove k s → j ≤ k → value_of j s ≡ none
unfolding value_of
value_of-AllAbove k j [] a h = refl
value_of-AllAbove k j (x ∷ s) a h = ground (arith, value_of-AllAbove k j s a.1)

pub IsDistinct-of_IsAscending : (s : List KvEntry) → IsAscending s → IsDistinct s
IsDistinct-of_IsAscending [] a = tt
IsDistinct-of_IsAscending (x ∷ s) a =
    (value_of-AllAbove x.key x.key s a.0 (omega arith), IsDistinct-of_IsAscending s a.1)

pub IsAscending-drop : (m : ℕ) (s : List KvEntry) → IsAscending s → IsAscending (drop m s)
IsAscending-drop zero s a = a
IsAscending-drop (suc m) [] a = a
IsAscending-drop (suc m) (x ∷ s) a = IsAscending-drop m s a.1

lt-record_at : (k m : ℕ) (s : List KvEntry) → AllAbove k s → m < length s → k < (record_at s m).key
lt-record_at k m [] a h = absurd (omega arith)
lt-record_at k zero (x ∷ s) a h = a.0
lt-record_at k (suc m) (x ∷ s) a h = lt-record_at k m s a.1 (omega arith)

-- An ascending list cut at its record `m`: the keys from that record's on, and those below it.
pub value_of-drop :
    (j m : ℕ) (s : List KvEntry)
    → IsAscending s
    → m < length s
    → value_of j (drop m s) ≡ (if leb (record_at s m).key j then value_of j s else none)
unfolding value_of
value_of-drop j m [] a h = absurd (omega arith)
value_of-drop j zero (x ∷ s) a h = ground (arith, value_of-AllAbove x.key j s a.0)
value_of-drop j (suc m) (x ∷ s) a h =
    ground (arith, value_of-drop j m s a.1, lt-record_at x.key m s a.0)

-- The first record lies below the cut.
pub head-lt-record_at :
    (m : ℕ) (s : List KvEntry)
    → IsAscending s
    → 0 < m
    → m < length s
    → (record_at s 0).key < (record_at s m).key
head-lt-record_at m [] a p h = absurd (omega arith)
head-lt-record_at zero (x ∷ s) a p h = absurd (omega arith)
head-lt-record_at (suc m) (x ∷ s) a p h = lt-record_at x.key m s a.0 (omega arith)
