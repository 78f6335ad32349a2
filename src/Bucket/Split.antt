-- ===== src/Bucket/Split.antt =====
-- What `Expand_` does to the contents: the keys from the split key on move, the others stay.
use nali.Prelude.{
  ℕ, ◌-◌, ◌/◌, ◌≤◌, ◌<◌, ◌≡◌, refl, sym, ◌∙◌, ap, none, some, List, map, arith, leb, if◌then◌else◌,
  length, get_or, take, drop, length-map, length-drop, length-take,
}
use nali.Bucket.Defs.{KvEntry, UnSortBuncket, entry_count, record_at, create}
use nali.Bucket.Contents
use nali.Bucket.Contents.{value_of, IsDistinct}
use nali.Bucket.Valid.{live, contents, IsValid}
use nali.Bucket.Sort
use nali.Bucket.Expand.{copy_loop, remove_loop, Expansion, expand}
use nali.Bucket.Copied.{Copied, record_at-map, map-drop, copy_loop-Copied}
use nali.Bucket.Emptied.{Emptied, remove_loop-Emptied}

-- A full bucket is split at its middle key: the result of `Expand_`.
pub record Halves (b : UnSortBuncket) (x : Expansion) : Type 0 where
  pub self_valid : IsValid x.self
  pub next_valid : IsValid x.next
  pub no_prefix : x.prefix_len ≡ 0
  pub self_entries : x.self.entries ≡ b.entries / 2
  pub next_entries : x.next.entries ≡ b.entries - b.entries / 2
  pub self_contents :
      (j : ℕ) → contents x.self j ≡ (if leb x.split_key j then none else contents b j)
  pub next_contents :
      (j : ℕ) → contents x.next j ≡ (if leb x.split_key j then contents b j else none)
  pub split_present : (v : ℕ) × (contents b x.split_key ≡ some v)
  pub below : (k v : ℕ) × (contents b k ≡ some v) × (k < x.split_key)

module _ (b : UnSortBuncket) (memory : List KvEntry) (valid : IsValid b)
    (size : length memory ≡ entry_count) (two : 2 ≤ b.entries) where
  abbrev m : ℕ
  m = b.entries / 2

  abbrev sorted : List ℕ
  sorted = Sort.get_sorted_index b

  abbrev ordered : List KvEntry
  ordered = Sort.sort_records (live b)

  abbrev upper : List ℕ
  upper = drop m sorted

  abbrev split : ℕ
  split = (record_at b.records (get_or sorted m 0)).key

  named : map (record_at b.records) sorted ≡ ordered
  named = Sort.map-get_sorted_index b (omega (arith, valid.size, valid.bounded))

  length-ordered : length ordered ≡ b.entries
  length-ordered =
      Sort.length-sort_records (live b)
      ∙ length-take b.entries b.records (omega (arith, valid.size, valid.bounded))

  length-sorted : length sorted ≡ b.entries
  length-sorted = sym (length-map (record_at b.records) sorted) ∙ ap length named ∙ length-ordered

  length-upper : length upper ≡ b.entries - m
  length-upper = length-drop m sorted ∙ ap (λ n. n - m) length-sorted

  upper_records : map (record_at b.records) upper ≡ drop m ordered
  upper_records = map-drop b.records m sorted ∙ ap (drop m) named

  split_record : split ≡ (record_at ordered m).key
  split_record =
      ap (λ (r : KvEntry). r.key)
        (record_at-map b.records sorted m (omega (arith, length-sorted))
          ∙ ap (λ t. record_at t m) named)

  ascending : Sort.IsAscending ordered
  ascending = Sort.IsAscending-sort_records (live b) valid.distinct

  upper_contents :
      (j : ℕ)
      → value_of j (map (record_at b.records) upper) ≡ (if leb split j then contents b j else none)
  upper_contents j =
      rw (upper_records, split_record, ← Sort.value_of-sort_records j (live b))
        (Sort.value_of-drop j m ordered ascending (omega (arith, length-ordered)))

  upper-IsDistinct : IsDistinct (map (record_at b.records) upper)
  upper-IsDistinct =
      rw upper_records (
        Sort.IsDistinct-of_IsAscending (drop m ordered) (Sort.IsAscending-drop m ordered ascending))

  ordered_at :
      (i : ℕ)
      → i < b.entries
      → contents b (record_at ordered i).key ≡ some (record_at ordered i).value
  ordered_at i h =
      sym (Sort.value_of-sort_records _ (live b))
      ∙ Contents.value_of-record_at ordered i (Sort.IsDistinct-of_IsAscending ordered ascending)
          (omega (arith, length-ordered))

  copied : Copied b.records upper 0 (create memory) (copy_loop upper 0 b.records (create memory))
  unfolding create
  copied =
      copy_loop-Copied b.records upper 0 (create memory) refl size
        (omega (arith, length-upper, valid.bounded))

  emptied : Emptied upper m b.entries b (remove_loop upper b.entries b)
  emptied =
      remove_loop-Emptied upper m b.entries b (omega (arith, length-upper)) valid.shape
        (omega arith) valid.distinct upper-IsDistinct (λ k v p. ground (arith, upper_contents k))

  -- `Expand_` of a valid bucket with at least two records leaves two valid buckets: the entries
  -- divide at the half, the new bucket holds exactly the keys from the split key on, the old one
  -- exactly the keys below it, the split key was present, and some key lay below it.
  pub expand-Halves : Halves b (expand b memory)
  unfolding expand create
  expand-Halves = record {
    self_valid = record {
      shape = record {
        capacity = emptied.shape.capacity;
        size = emptied.shape.size;
        bounded = omega (arith, valid.bounded);
      };
      distinct = emptied.distinct;
    };
    next_valid = record {
      shape = record {
        capacity = copied.capacity;
        size = copied.size ∙ size;
        bounded = omega (arith, valid.bounded);
      };
      distinct = rw next_live upper-IsDistinct;
    };
    no_prefix = refl;
    self_entries = refl;
    next_entries = refl;
    self_contents = λ j. ground (arith, emptied.contents j, upper_contents j);
    next_contents = λ j. rw next_live (upper_contents j);
    split_present = ((record_at ordered m).value, rw split_record (ordered_at m (omega arith)));
    below = (
      (record_at ordered 0).key,
      (record_at ordered 0).value,
      ordered_at 0 (omega arith),
      rw split_record (
          Sort.head-lt-record_at m ordered ascending (omega arith) (omega (arith, length-ordered))),
    );
  }
    where
      next_live :
          take (b.entries - b.entries / 2) (copy_loop upper 0 b.records (create memory)).records
          ≡ map (record_at b.records) upper
      next_live =
          ap (λ n. take n (copy_loop upper 0 b.records (create memory)).records)
            (omega (arith, length-upper))
          ∙ copied.prefix
