-- ===== src/Bucket/Scan.antt =====
-- `Scan` of a bucket, as src/nali_entry.h has it: what it appends to the results.
use nali.Prelude.{
  ℕ, zero, suc, ◌+◌, ◌-◌, ◌≤◌, ◌<◌, ◌≡◌, refl, sym, ◌∙◌, ap, Bool, false, ◌&&◌, List, [], ◌∷◌, ◌++◌,
  arith, leb, ltb, if◌then◌else◌, length, get_or, take, drop,
}
use mathlib.Core.List.{append_assoc, append-nil}
use nali.Bucket.Defs.{Status, ok, failed, KvEntry, UnSortBuncket, record_at}
use nali.Bucket.Sort.{get_sorted_index, sort_records}
use nali.Bucket.Valid.{IsShaped}

-- `for (i = sorted_index_[0]; i < entries && len > 0; i++)`, with the rounds left as fuel
unfoldable pub first_loop : ℕ → ℕ → UnSortBuncket → ℕ → ℕ → List KvEntry → ℕ × List KvEntry
first_loop zero i b start_key len results = (len, results)
first_loop (suc fuel) i b start_key len results =
    let e = record_at b.records (get_or (get_sorted_index b) i 0) in
    let taken = first_loop fuel (i + 1) b start_key (len - 1) (results ++ e ∷ []) in
    let passed = first_loop fuel (i + 1) b start_key len results in
    if ltb i b.entries && ltb 0 len
    then (if leb start_key e.key then taken else passed)
    else (len, results)

-- `for (; pos < entries; pos++)`
unfoldable pub all_loop : ℕ → ℕ → UnSortBuncket → ℕ → List KvEntry → ℕ × List KvEntry
all_loop zero pos b len results = (len, results)
all_loop (suc rounds) pos b len results =
    all_loop rounds (pos + 1) b (len - 1) (results ++ record_at b.records pos ∷ [])

-- `while (len > 0)`, where `pos` stays 0
unfoldable pub same_loop : UnSortBuncket → ℕ → List KvEntry → List KvEntry
same_loop b zero results = results
same_loop b (suc len) results = same_loop b len (results ++ record_at b.records 0 ∷ [])

-- `len`, the results and the status, for a `len` that is not negative
unfoldable pub scan : UnSortBuncket → ℕ → ℕ → List KvEntry → Bool → ℕ × List KvEntry × Status
unfolding first_loop all_loop same_loop
scan b start_key len results if_first =
    let (left, found) =
      if if_first
      then (let i = get_or (get_sorted_index b) 0 0 in
          first_loop (b.entries - i) i b start_key len results)
      else (if leb b.entries len
          then all_loop b.entries 0 b len results
          else (0, same_loop b len results)) in
    (left, found, if ltb 0 left then failed else ok)

drop-record_at :
    (l : List KvEntry) (i : ℕ) → i < length l → drop i l ≡ record_at l i ∷ drop (suc i) l
drop-record_at [] i h = absurd (omega arith)
drop-record_at (x ∷ l) zero h = refl
drop-record_at (x ∷ l) (suc i) h = drop-record_at l i (omega arith)

all_loop_lem :
    (rounds pos : ℕ) (b : UnSortBuncket) (len : ℕ) (results : List KvEntry)
    → pos + rounds ≤ length b.records
    → all_loop rounds pos b len results
      ≡ (len - rounds, results ++ take rounds (drop pos b.records))
unfolding all_loop
all_loop_lem zero pos b len results h =
    let same : len ≡ len - 0 = omega arith in
    let none_more : results ≡ results ++ [] = sym (append-nil results) in λ i. (same i, none_more i)
all_loop_lem (suc rounds) pos b len results h =
    let e = record_at b.records pos in
    let left : len - 1 - rounds ≡ len - suc rounds = omega arith in
    let next : pos + 1 ≡ suc pos = omega arith in
    let found : (results ++ e ∷ []) ++ take rounds (drop (pos + 1) b.records)
        ≡ results ++ take (suc rounds) (drop pos b.records) =
      append_assoc results (e ∷ []) (take rounds (drop (pos + 1) b.records))
      ∙ ap (λ n. results ++ e ∷ take rounds (drop n b.records)) next
      ∙ sym
          (ap (λ t. results ++ take (suc rounds) t) (drop-record_at b.records pos (omega arith))) in
    all_loop_lem rounds (pos + 1) b (len - 1) (results ++ e ∷ []) (omega arith) ∙ λ i.
    (left i, found i)

-- A scan that is not the first appends every record, in the order of the slots, if `len` is large enough.
module _ (b : UnSortBuncket) (shape : IsShaped b) (start_key len : ℕ) (results : List KvEntry) where
  -- In a bucket of the right shape, `Scan` that is not a first one, with `len` at least the number
  -- of entries, appends every live record in the order of the slots, and reports Failed when `len`
  -- is larger.
  pub scan-all :
      b.entries ≤ len
      → scan b start_key len results false ≡ (
        len - b.entries,
        results ++ take b.entries b.records,
        if ltb b.entries len then failed else ok,
      )
  unfolding scan
  scan-all enough =
      rw (all_loop_lem b.entries 0 b len results (omega (arith, shape.size, shape.bounded)))
        (ground arith)

module _ (b : UnSortBuncket) (shape : IsShaped b) where
  abbrev pub sorted : List KvEntry
  sorted = sort_records (take b.entries b.records)
