-- ===== src/Bucket/Expand.antt =====
-- `Expand_`: the split of a full bucket, the upper half of its keys moved into a new one.
use nali.Prelude.{ℕ, ◌+◌, ◌-◌, ◌/◌, List, [], ◌∷◌, get_or, drop}
use nali.Bucket.Defs.{KvEntry, UnSortBuncket, record_at, create, put_buf_kv, remove_key}
use nali.Bucket.Sort

-- `for (i = entries / 2; i < entries; i++) { next->PutBufKV(...); idx++; }`, over the indices left
unfoldable pub copy_loop : List ℕ → ℕ → List KvEntry → UnSortBuncket → UnSortBuncket
copy_loop [] idx l next = next
copy_loop (i ∷ is) idx l next =
    copy_loop is (idx + 1) l (put_buf_kv next (record_at l i).key (record_at l i).value idx).0

-- `for (i = entries / 2; i < entries; i++) { remove_key(...); idx--; }`
unfoldable pub remove_loop : List ℕ → ℕ → UnSortBuncket → UnSortBuncket
remove_loop [] idx b = b
remove_loop (i ∷ is) idx b =
    remove_loop is (idx - 1) (remove_key b (record_at b.records i).key idx).0

pub record Expansion : Type 0 where
  pub self : UnSortBuncket
  pub next : UnSortBuncket
  pub split_key : ℕ
  pub prefix_len : ℕ

-- `memory` is what the slots of the new bucket hold before they are written.
unfoldable pub expand : UnSortBuncket → List KvEntry → Expansion
unfolding copy_loop remove_loop create
expand b memory =
    let sorted = Sort.get_sorted_index b in
    let upper = drop (b.entries / 2) sorted in
    let next = copy_loop upper 0 b.records (create memory) in
    let self = remove_loop upper b.entries b in
    record {
      self = record self { entries = b.entries / 2 };
      next = record next { entries = b.entries - b.entries / 2 };
      split_key = (record_at b.records (get_or sorted (b.entries / 2) 0)).key;
      prefix_len = 0;
    }
