-- ===== src/KvLog/Defs.antt =====
-- PPage, LogKV and Pair_t<KEY, VALUE> of src/nali_kvlog.h, for logs of 32 bytes.
-- A `char *` into a mapped file is the file's block and an offset; an offset to a null pointer is
-- `none`, and so is an access through it. A latch is held around `alloc`, so a call is one step.
use nali.Prelude.{
  ℕ, ◌+◌, ◌-◌, ◌%◌, ◌^◌, ◌*◌, Bool, ◌&&◌, Option, some, ltb, ◌==◌, if◌then◌else◌, ◌>>=◌,
}
use nali.KvLog.Address.{LastLogOffest}

pub data Op : Type 0 where
  insert_op delete_op update_op trash_op : Op

pub record PairT : Type 0 where
  pub op : Op
  pub version : ℕ
  pub key : ℕ
  pub value : ℕ
  pub u_offset : ℕ

abbrev pub ppage_size : ℕ
ppage_size = 16 * 1024 * 1024

-- sizeof(OP_VERSION) + sizeof(KEY) + sizeof(VALUE) + sizeof(last_log_offest)
abbrev pub size : ℕ
size = 32

abbrev pub uint64_max : ℕ
uint64_max = 2 ^ 64 - 1

-- a record of a new file, all bits 1
abbrev pub all_ones : PairT
all_ones = record {
  op = trash_op;
  version = 2 ^ 62 - 1;
  key = uint64_max;
  value = uint64_max;
  u_offset = uint64_max;
}

-- `global_numa_map`, as `init_numa_map` fills it
unfoldable pub get_numa_id : ℕ → ℕ
get_numa_id thread_id =
    if ltb thread_id 16
    then 0
    else if ltb thread_id 32
    then 1
    else if ltb thread_id 48
    then 0
    else 1

-- `g_ppage_s_addr_arr_->start_addr_arr_`, and the mapped files: block and offset to record
pub record Pmem : Type 0 where
  pub start_addr_arr : ℕ → ℕ → ℕ → Option ℕ
  pub memory : ℕ → ℕ → PairT

pub record PPage : Type 0 where
  pub numa_id : ℕ
  pub hash_id : ℕ
  pub ppage_id : ℕ
  pub sz_allocated : ℕ
  pub sz_freed : ℕ
  pub start_addr : Option ℕ

abbrev pub put_start : (ℕ → ℕ → ℕ → Option ℕ) → ℕ → ℕ → ℕ → Option ℕ → ℕ → ℕ → ℕ → Option ℕ
put_start arr n h p b n' h' p' = if (n == n') && ((h == h') && (p == p')) then b else arr n' h' p'

abbrev pub put_memory : (ℕ → ℕ → PairT) → ℕ → ℕ → PairT → ℕ → ℕ → PairT
put_memory mem b o x b' o' = if (b == b') && (o == o') then x else mem b' o'

abbrev pub clear_block : (ℕ → ℕ → PairT) → ℕ → ℕ → ℕ → PairT
clear_block mem b b' o' = if b == b' then all_ones else mem b' o'

-- `map_file numa hash page` is the block that pmem_map_file creates for the file of that name;
-- `none` when the file exists or cannot be mapped, where the program exits.
module _ (map_file : ℕ → ℕ → ℕ → Option ℕ) where
  unfoldable pub alloc_new_ppage : Pmem → ℕ → ℕ → ℕ → Option (Pmem × ℕ)
  alloc_new_ppage s numa_id hash_id ppage_id = do
    ptr ← map_file numa_id hash_id ppage_id
    some (
      record {
        start_addr_arr = put_start s.start_addr_arr numa_id hash_id ppage_id (some ptr);
        memory = clear_block s.memory ptr;
      },
      ptr,
    )

  -- The first `if` of `alloc`.
  unfoldable pub next_ppage : Pmem → PPage → Option (Pmem × PPage)
  unfolding alloc_new_ppage
  next_ppage s page = do
    let ppage_id = (page.ppage_id + 1) % 2 ^ 64
    (s', start) ← alloc_new_ppage s page.numa_id page.hash_id ppage_id
    some (
      s',
      record page { ppage_id = ppage_id; start_addr = some start; sz_allocated = 0; sz_freed = 0 },
    )

  abbrev pub is_short : PPage → ℕ → Bool
  is_short page alloc_size = ltb ((ppage_size + 2 ^ 64 - page.sz_allocated) % 2 ^ 64) alloc_size

  -- The state, the page, what is written to `log_info`, and the address.
  unfoldable pub alloc :
      Pmem → PPage → ℕ → ℕ → Option (Pmem × PPage × LastLogOffest × Option (ℕ × ℕ))
  unfolding next_ppage
  alloc s page vlen alloc_size = do
    (s', page') ← (if is_short page alloc_size then next_ppage s page else some (s, page))
    some (
      s',
      record page' { sz_allocated = (page'.sz_allocated + alloc_size) % 2 ^ 64 },
      record {
        vlen = vlen;
        numa_id = page'.numa_id % 2 ^ 8;
        ppage_id = page'.ppage_id % 2 ^ 8;
        log_offset = page'.sz_allocated % 2 ^ 32;
      },
      (do b ← page'.start_addr; some (b, page'.sz_allocated)),
    )
