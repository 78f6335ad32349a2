-- ===== src/Examples/BucketRuns.antt =====
-- Buckets of three and of fifteen records: src/nali_entry.h.
use nali.Prelude.{
  ℕ, ◌+◌, ◌*◌, ◌≡◌, refl, none, some, List, [], ◌∷◌, ◌++◌, arith, ◌==◌, if◌then◌else◌, replicate,
  map, take,
}
use nali.Bucket.Defs.{
  ok, full, no_exist, KvEntry, UnSortBuncket, blank, put, update, get, delete, min_key, put_buf_kv,
  remove_key,
}
use nali.Bucket.Contents.{value_of}
use nali.Bucket.Valid.{IsValid, contents}
use nali.Bucket.Laws
use nali.Bucket.Remove
use nali.Bucket.Sort.{get_sorted_index}
use nali.Bucket.Expand.{expand}
use nali.Bucket.Split.{Halves, expand-Halves}

abbrev pub memory : List KvEntry
memory = replicate 15 blank

abbrev pub pair : ℕ → KvEntry
pair k = record { key = k; value = k * 10 }

abbrev pub few : UnSortBuncket
few = record {
  entries = 3;
  max_entries = 15;
  records = map pair (7 ∷ 3 ∷ 9 ∷ []) ++ replicate 12 blank;
}

abbrev pub many : UnSortBuncket
many = record {
  entries = 15;
  max_entries = 15;
  records = map pair (8 ∷ 3 ∷ 15 ∷ 1 ∷ 12 ∷ 6 ∷ 10 ∷ 2 ∷ 14 ∷ 5 ∷ 9 ∷ 4 ∷ 13 ∷ 7 ∷ 11 ∷ []);
}

pub few-IsValid : IsValid few
unfolding value_of
few-IsValid = record {
  shape = record { capacity = refl; size = refl; bounded = omega arith };
  distinct = (refl, (refl, (refl, tt)));
}

pub many-IsValid : IsValid many
unfolding value_of
many-IsValid = record {
  shape = record { capacity = refl; size = refl; bounded = omega arith };
  distinct = (
    refl,
    (
      refl,
      (
        refl,
        (
          refl,
          (
            refl,
            (refl, (refl, (refl, (refl, (refl, (refl, (refl, (refl, (refl, (refl, tt)))))))))),
          ),
        ),
      ),
    ),
  );
}

runs :
    (get few 3 ≡ (ok, 30))
    × (get few 4 ≡ (no_exist, 0))
    × ((put many 20 1).1 ≡ full)
    × ((put few 4 40).1 ≡ ok)
    × ((delete few 7).0.records ≡ map pair (9 ∷ 3 ∷ 9 ∷ []) ++ replicate 12 blank)
    × ((update few 9 1).2 ≡ 90)
    × (min_key many ≡ 1)
unfolding get put delete update min_key
runs = (refl, refl, refl, refl, refl, refl, refl)

expand_run :
    ((expand many memory).split_key ≡ 8)
    × ((expand many memory).self.entries ≡ 7)
    × (take 8 (expand many memory).next.records
        ≡ map pair (8 ∷ 9 ∷ 10 ∷ 11 ∷ 12 ∷ 13 ∷ 14 ∷ 15 ∷ []))
    × (take 7 (expand many memory).self.records ≡ map pair (4 ∷ 3 ∷ 2 ∷ 1 ∷ 7 ∷ 6 ∷ 5 ∷ []))
unfolding expand get_sorted_index put_buf_kv remove_key
expand_run = (refl, refl, refl, refl)

expand-Halves_example : Halves many (expand many memory)
expand-Halves_example = expand-Halves many memory many-IsValid refl (omega arith)

put-Stored_example :
    (b' : UnSortBuncket) × (put few 4 40 ≡ (b', ok))
    × IsValid b'
    × ((j : ℕ) → contents b' j ≡ (if 4 == j then some 40 else contents few j))
    × (b'.entries ≡ few.entries + 1)
put-Stored_example = Laws.put-Stored few few-IsValid 4 40 (omega arith) (unfold value_of in refl)

get_lem_example : get few 9 ≡ elim (contents few 9) [ some v ↦ (ok, v) | none ↦ (no_exist, 0) ]
get_lem_example = Laws.get_lem few few-IsValid 9

update-Stored_example :
    (b' : UnSortBuncket) × (update few 9 1 ≡ (b', ok, 90))
    × IsValid b'
    × ((j : ℕ) → contents b' j ≡ (if 9 == j then some 1 else contents few j))
    × (b'.entries ≡ few.entries)
update-Stored_example = Laws.update-Stored few few-IsValid 9 1 90 (unfold value_of in refl)

delete-Removed_example :
    (b' : UnSortBuncket) × (delete few 7 ≡ (b', ok, 70))
    × IsValid b'
    × ((j : ℕ) → contents b' j ≡ (if 7 == j then none else contents few j))
    × (b'.entries + 1 ≡ few.entries)
delete-Removed_example = Remove.delete-Removed few few-IsValid 7 70 (unfold value_of in refl)
