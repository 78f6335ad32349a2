-- ===== src/Entry/Defs.antt =====
-- PointerBEntry and eentry of src/nali_entry.h: up to four buckets, each behind the smallest key
-- that is routed to it. `entry_key` and `buf` of the union are those of `entrys[0]`. A null
-- pointer is `none`, and a call through one is `none`.
use nali.Prelude.{
  ℕ, zero, suc, ◌+◌, ◌-◌, ◌*◌, ◌%◌, Bool, true, false, not, ◌&&◌, ◌||◌, Option, none, some, List,
  [], ◌∷◌, leb, ltb, ◌==◌, if◌then◌else◌, get_or, set, ◌>>=◌,
}
use nali.Bucket
use nali.Bucket.Defs.{Status, ok, full, KvEntry, UnSortBuncket}
use nali.Bucket.Expand.{expand}

pub record Eentry : Type 0 where
  pub entry_key : ℕ
  pub pointer : Option UnSortBuncket
  pub prefix_bytes : ℕ
  pub suffix_bytes : ℕ
  pub entries : ℕ

-- `buf.meta`: two fields of 4 bits and one of 8
abbrev pub meta : Eentry → ℕ
meta x = x.prefix_bytes + 16 * x.suffix_bytes + 256 * x.entries

unfoldable pub is_valid : Eentry → Bool
is_valid x = not (meta x == 0)

abbrev pub pb_entry_count : ℕ
pb_entry_count = 4

pub record PointerBEntry : Type 0 where
  pub entrys : List Eentry

-- after `memset(this, 0, sizeof(PointerBEntry))`
abbrev pub zeroed : Eentry
zeroed = record { entry_key = 0; pointer = none; prefix_bytes = 0; suffix_bytes = 0; entries = 0 }

abbrev pub entry_at : List Eentry → ℕ → Eentry
entry_at l i = get_or l i zeroed

-- `buf.entries`
abbrev pub count : PointerBEntry → ℕ
count e = (entry_at e.entrys 0).entries

abbrev rest : List Eentry
rest = zeroed ∷ zeroed ∷ zeroed ∷ []

abbrev first : ℕ → ℕ → UnSortBuncket → Eentry
first key prefix_len b = record {
  entry_key = key;
  pointer = some b;
  prefix_bytes = prefix_len % 16;
  suffix_bytes = (8 - prefix_len) % 16;
  entries = 1;
}

-- PointerBEntry(key, prefix_len), for prefix_len up to 8
unfoldable pub create_empty : List KvEntry → ℕ → ℕ → PointerBEntry
create_empty memory key prefix_len = record {
  entrys = first key prefix_len (Bucket.Defs.create memory) ∷ rest;
}

-- PointerBEntry(key, value, prefix_len)
unfoldable pub create : List KvEntry → ℕ → ℕ → ℕ → PointerBEntry
create memory key value prefix_len = record {
  entrys = first key prefix_len (Bucket.Defs.put (Bucket.Defs.create memory) key value).0 ∷ rest;
}

-- PointerBEntry(const eentry *)
unfoldable pub of_entry : Eentry → PointerBEntry
of_entry x = record { entrys = record x { entries = 1 } ∷ rest }

-- `while (pos < buf.entries && entrys[pos].entry_key <= key) pos++`
unfoldable pub find_pos_loop : ℕ → ℕ → ℕ → List Eentry → ℕ
find_pos_loop zero pos key l = pos
find_pos_loop (suc n) pos key l =
    let more = find_pos_loop n (suc pos) key l in
    if leb (entry_at l pos).entry_key key then more else pos

unfoldable pub find_pos : PointerBEntry → ℕ → ℕ
unfolding find_pos_loop
find_pos e key =
    let pos = find_pos_loop (count e) 0 key e.entrys in if pos == 0 then pos else pos - 1

-- `for (i = buf.entries - 1; i > pos; i--) entrys[i + 1] = entrys[i]`
unfoldable pub shift_loop : ℕ → ℕ → List Eentry → List Eentry
shift_loop zero i l = l
shift_loop (suc n) i l = shift_loop n (i - 1) (set l (i + 1) (entry_at l i))

abbrev pub write_bucket : List Eentry → ℕ → UnSortBuncket → List Eentry
write_bucket l pos b = set l pos (record (entry_at l pos) { pointer = some b })

-- `entrys[0].buf.entries++` on 8 bits
abbrev pub inc_entries : List Eentry → List Eentry
inc_entries l = set l 0 (record (entry_at l 0) { entries = ((entry_at l 0).entries + 1) % 256 })

-- The block of `Put` that splits the full bucket `b` at `pos`.
unfoldable pub grow : List KvEntry → List Eentry → ℕ → ℕ → UnSortBuncket → List Eentry
unfolding shift_loop
grow memory l n pos b =
    let x = expand b memory in
    let shifted = write_bucket (shift_loop (n - 1 - pos) (n - 1) l) pos x.self in
    inc_entries (
      set shifted (pos + 1) (record (entry_at shifted (pos + 1)) {
        entry_key = x.split_key;
        pointer = some x.next;
        prefix_bytes = x.prefix_len;
        suffix_bytes = 8 - x.prefix_len;
      }))

abbrev pub is_full : Status → Bool
is_full full = true
is_full s = false

abbrev pub is_ok : Status → Bool
is_ok ok = true
is_ok s = false

-- `if (ret == status::OK && entry_key > key) entry_key = key`
abbrev pub lower_key : Status → ℕ → List Eentry → List Eentry
lower_key ret key l =
    if is_ok ret && ltb key (entry_at l 0).entry_key
    then set l 0 (record (entry_at l 0) { entry_key = key })
    else l

-- How one run of the body of `Put` ends: at `goto retry`, after a split, or at `return ret`.
pub data Pass : Type 0 where
  retry : PointerBEntry → Pass
  done : PointerBEntry → Status → Pass

-- The body of `Put`, up to `goto retry` or `return`.
unfoldable pub pass : List KvEntry → PointerBEntry → ℕ → ℕ → Option Pass
unfolding find_pos grow
pass memory e key value = do
  b ← (entry_at e.entrys (find_pos e key)).pointer
  let (b', ret) = Bucket.Defs.put b key value
  let pos = find_pos e key
  let l = write_bucket e.entrys pos b'
  some (
      if is_full ret && ltb (count e) pb_entry_count
      then retry (record { entrys = grow memory l (count e) pos b' })
      else done (record { entrys = lower_key ret key l }) ret)

-- `goto retry` takes fuel; `none` is a null pointer or no fuel. The flag is `*split`.
unfoldable pub put :
    ℕ → List KvEntry → PointerBEntry → ℕ → ℕ → Bool → Option (PointerBEntry × Status × Bool)
unfolding pass
put zero memory e key value split = none
put (suc fuel) memory e key value split = do
  p ← pass memory e key value
  elim p [ retry e' ↦ put fuel memory e' key value true | done e' ret ↦ some (e', ret, split) ]

-- `pos >= pb_entry_count || !entrys[pos].IsValid()`
abbrev pub out_of_reach : PointerBEntry → ℕ → Bool
out_of_reach e pos = leb pb_entry_count pos || not (is_valid (entry_at e.entrys pos))

-- the flag returned, and what is written through `value`
unfoldable pub get : PointerBEntry → ℕ → Option (Bool × ℕ)
unfolding find_pos
get e key =
    let pos = find_pos e key in
    if out_of_reach e pos then some (false, 0) else (do
      b ← (entry_at e.entrys pos).pointer
      let (ret, value) = Bucket.Defs.get b key
      some (is_ok ret, value))

unfoldable pub update : PointerBEntry → ℕ → ℕ → Option (PointerBEntry × Bool × ℕ)
unfolding find_pos
update e key value =
    let pos = find_pos e key in
    if out_of_reach e pos then some (e, false, 0) else (do
      b ← (entry_at e.entrys pos).pointer
      let (b', ret, old) = Bucket.Defs.update b key value
      some (record { entrys = write_bucket e.entrys pos b' }, is_ok ret, old))

unfoldable pub delete : PointerBEntry → ℕ → Option (PointerBEntry × Bool × ℕ)
unfolding find_pos
delete e key =
    let pos = find_pos e key in
    if out_of_reach e pos then some (e, false, 0) else (do
      b ← (entry_at e.entrys pos).pointer
      let (b', ret, old) = Bucket.Defs.delete b key
      some (record { entrys = write_bucket e.entrys pos b' }, is_ok ret, old))

-- AdjustEntryKey
unfoldable pub adjust_entry_key : PointerBEntry → Option PointerBEntry
adjust_entry_key e = do
  b ← (entry_at e.entrys 0).pointer
  some (record {
    entrys = set e.entrys 0 (record (entry_at e.entrys 0) { entry_key = Bucket.Defs.min_key b });
  })

-- get_num_keys: the loop over the buckets
unfoldable pub num_keys_loop : ℕ → ℕ → List Eentry → Option ℕ
num_keys_loop zero i l = some 0
num_keys_loop (suc n) i l = do
  b ← (entry_at l i).pointer
  sum ← num_keys_loop n (suc i) l
  some (b.entries + sum)

unfoldable pub get_num_keys : PointerBEntry → Option ℕ
unfolding num_keys_loop
get_num_keys e = num_keys_loop (count e) 0 e.entrys
