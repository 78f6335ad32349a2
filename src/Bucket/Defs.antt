-- ===== src/Bucket/Defs.antt =====
-- UnSortBuncket of src/nali_entry.h: the 256 byte leaf node. `records` is its array of 15 slots,
-- of which the first `entries` are in use. The fingerprint code (USE_FINGER) is compiled out. The
-- field `next_bucket`, which is written and never read, is left out.
use nali.Prelude.{
  ℕ, zero, suc, ◌+◌, ◌-◌, Bool, true, false, List, leb, ltb, ◌==◌, if◌then◌else◌, get_or, set,
}

pub data Status : Type 0 where
  failed ok full exist no_exist : Status

pub record KvEntry : Type 0 where
  pub key : ℕ
  pub value : ℕ

pub record UnSortBuncket : Type 0 where
  pub entries : ℕ
  pub max_entries : ℕ
  pub records : List KvEntry

-- buf_size / entry_size, with buf_size = 256 - (8 + 8) and entry_size = 8 + 8
abbrev pub entry_count : ℕ
entry_count = 15

abbrev pub blank : KvEntry
blank = record { key = 0; value = 0 }

abbrev pub record_at : List KvEntry → ℕ → KvEntry
record_at l i = get_or l i blank

-- The records of a new bucket are not initialised; they are given as `memory`.
unfoldable pub create : List KvEntry → UnSortBuncket
create memory = record { entries = 0; max_entries = entry_count; records = memory }

unfoldable pub put_buf_kv : UnSortBuncket → ℕ → ℕ → ℕ → UnSortBuncket × Status
put_buf_kv b new_key value data_index = if leb b.max_entries data_index then (b, full) else (
  record b { records = set b.records data_index (record { key = new_key; value = value }) },
  ok,
)

-- `for (i = 0; i < entries; i++) if (key(i) == target) ...`, with the rounds left as fuel
unfoldable pub find_loop : ℕ → ℕ → ℕ → List KvEntry → ℕ × Bool
find_loop zero i target l = (i, false)
find_loop (suc n) i target l =
    let rest = find_loop n (suc i) target l in
    if (record_at l i).key == target then (i, true) else rest

-- the index, and the flag `find`
unfoldable pub find : UnSortBuncket → ℕ → ℕ × Bool
unfolding find_loop
find b target = find_loop b.entries 0 target b.records

unfoldable pub put : UnSortBuncket → ℕ → ℕ → UnSortBuncket × Status
unfolding put_buf_kv
put b key value =
    let (b', ret) = put_buf_kv b key value b.entries in
    elim ret [ ok ↦ (record b' { entries = b'.entries + 1 }, ok) | other ↦ (b', other) ]

abbrev pub set_value : UnSortBuncket → ℕ → ℕ → UnSortBuncket
set_value b pos value = record b {
  records = set b.records pos (record { key = (record_at b.records pos).key; value = value });
}

-- the status, and what is written through `old_offset` if it is `ok`
unfoldable pub update : UnSortBuncket → ℕ → ℕ → UnSortBuncket × Status × ℕ
unfolding find
update b key value =
    let (pos, found) = find b key in
    if found then (set_value b pos value, ok, (record_at b.records pos).value) else (b, no_exist, 0)

-- the status, and what is written through `value` if it is `ok`
unfoldable pub get : UnSortBuncket → ℕ → Status × ℕ
unfolding find
get b key =
    let (pos, found) = find b key in
    if found then (ok, (record_at b.records pos).value) else (no_exist, 0)

-- `idx` is one more than the index of the last record that counts
unfoldable pub remove_key : UnSortBuncket → ℕ → ℕ → UnSortBuncket × Bool × ℕ
unfolding find
remove_key b key idx =
    let (pos, found) = find b key in
    if found
    then if pos == idx - 1 then (b, true, (record_at b.records pos).value) else (
      record b { records = set b.records pos (record_at b.records (idx - 1)) },
      true,
      (record_at b.records pos).value,
    )
    else (b, false, 0)

unfoldable pub delete : UnSortBuncket → ℕ → UnSortBuncket × Status × ℕ
unfolding remove_key
delete b key =
    let (b', removed, value) = remove_key b key b.entries in
    if removed then (record b' { entries = b'.entries - 1 }, ok, value) else (b', no_exist, 0)

-- `for (i = 1; i < entries; i++)` of min_key
unfoldable pub min_key_loop : ℕ → ℕ → ℕ → List KvEntry → ℕ
min_key_loop zero i min l = min
min_key_loop (suc n) i min l =
    min_key_loop n (suc i) (if ltb (record_at l i).key min then (record_at l i).key else min) l

unfoldable pub min_key : UnSortBuncket → ℕ
unfolding min_key_loop
min_key b = min_key_loop (b.entries - 1) 1 (record_at b.records 0).key b.records
