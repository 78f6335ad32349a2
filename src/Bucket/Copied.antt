-- ===== src/Bucket/Copied.antt =====
-- The loop of `Expand_` that fills the new bucket.
use mathlib.Core.List.{append_assoc, append-nil}
use native.Mathlib.Numerals.{add-one}
use native.Mathlib.Nat.{add-zero}
use nali.Prelude.{
  ℕ, zero, suc, ◌+◌, ◌≤◌, ◌<◌, ◌≡◌, refl, ◌∙◌, ap, List, [], ◌∷◌, ◌++◌, map, arith, length, get_or,
  set, take, drop, length-set, take-set_end,
}
use nali.Bucket.Defs.{KvEntry, UnSortBuncket, entry_count, record_at, put_buf_kv}
use nali.Bucket.Expand.{copy_loop}

module _ (l : List KvEntry) where
  pub record_at-map :
      (is : List ℕ) (m : ℕ)
      → m < length is
      → record_at l (get_or is m 0) ≡ record_at (map (record_at l) is) m
  record_at-map [] m h = absurd (omega arith)
  record_at-map (i ∷ is) zero h = refl
  record_at-map (i ∷ is) (suc m) h = record_at-map is m (omega arith)

  pub map-drop :
      (m : ℕ) (is : List ℕ) → map (record_at l) (drop m is) ≡ drop m (map (record_at l) is)
  map-drop zero is = refl
  map-drop (suc m) [] = refl
  map-drop (suc m) (i ∷ is) = map-drop m is

  pub record Copied (is : List ℕ) (idx : ℕ) (next next' : UnSortBuncket) : Type 0 where
    pub capacity : next'.max_entries ≡ next.max_entries
    pub size : length next'.records ≡ length next.records
    pub prefix :
        take (idx + length is) next'.records ≡ take idx next.records ++ map (record_at l) is

  pub copy_loop-Copied :
      (is : List ℕ) (idx : ℕ) (next : UnSortBuncket)
      → next.max_entries ≡ entry_count
      → length next.records ≡ entry_count
      → idx + length is ≤ entry_count
      → Copied is idx next (copy_loop is idx l next)
  unfolding copy_loop
  copy_loop-Copied [] idx next c s h = record {
    capacity = refl;
    size = refl;
    prefix = rw (add-zero, append-nil);
  }
  copy_loop-Copied (i ∷ is) idx next c s h =
      let e = record_at l i in
      let next1 : UnSortBuncket = record next { records = set next.records idx e } in
      let written : (put_buf_kv next e.key e.value idx).0 ≡ next1 =
        unfold put_buf_kv in ground arith in
      let ih = copy_loop-Copied is (idx + 1) next1 c (length-set _ _ _ ∙ s) (omega arith) in
      rw written (record {
        capacity = ih.capacity;
        size = ih.size ∙ length-set _ _ _;
        prefix =
            ap (λ n. take n (copy_loop is (idx + 1) l next1).records) (omega arith)
            ∙ ih.prefix
            ∙ ap (λ t. t ++ map (record_at l) is)
                (rw add-one (take-set_end idx next.records e (omega arith)))
            ∙ append_assoc (take idx next.records) (e ∷ []) (map (record_at l) is);
      })
