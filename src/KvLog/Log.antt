-- ===== src/KvLog/Log.antt =====
-- LogKV of src/nali_kvlog.h: a page per NUMA node and shard, and the operations that append logs.
use nali.Prelude.{ℕ, ◌+◌, ◌%◌, ◌^◌, ◌&&◌, Option, some, ◌==◌, if◌then◌else◌, ◌>>=◌}
use nali.KvLog.Address.{LastLogOffest, to_uint64}
use nali.KvLog.Defs.{
  insert_op, delete_op, update_op, PairT, size, uint64_max, get_numa_id, Pmem, PPage, put_memory,
  alloc,
}

pub record LogKv : Type 0 where
  pub ppage : ℕ → ℕ → PPage
  pub version : ℕ → ℕ
  pub pmem : Pmem

abbrev pub put_page : (ℕ → ℕ → PPage) → ℕ → ℕ → PPage → ℕ → ℕ → PPage
put_page t n h x n' h' = if (n == n') && (h == h') then x else t n' h'

abbrev pub put_version : (ℕ → ℕ) → ℕ → ℕ → ℕ → ℕ
put_version t h x h' = if h == h' then x else t h'

-- `p.store_persist(addr)`
unfoldable pub store_persist : LogKv → Option (ℕ × ℕ) → PairT → Option LogKv
store_persist m addr p = do
  (b, o) ← addr
  some (record m { pmem = record m.pmem { memory = put_memory m.pmem.memory b o p } })

-- the log at an address
unfoldable pub load : LogKv → Option (ℕ × ℕ) → Option PairT
load m addr = do (b, o) ← addr; some (m.pmem.memory b o)

-- `set_version`: a field of 62 bits
abbrev pub set_version : ℕ → ℕ
set_version old = (old + 1) % 2 ^ 62

module _ (map_file : ℕ → ℕ → ℕ → Option ℕ) (shards : ℕ) where
  unfoldable pub get_addr : LogKv → LastLogOffest → ℕ → Option (ℕ × ℕ)
  get_addr m log_info hash_key = do
    b ← m.pmem.start_addr_arr log_info.numa_id (hash_key % shards) log_info.ppage_id
    some (b, log_info.log_offset)

  unfoldable pub alloc_log : LogKv → ℕ → ℕ → ℕ → ℕ → Option (LogKv × LastLogOffest × Option (ℕ × ℕ))
  alloc_log m thread hash_key vlen alloc_size = do
    let n = get_numa_id thread
    let h = hash_key % shards
    (s, page, log_info, addr) ← alloc map_file m.pmem (m.ppage n h) vlen alloc_size
    some (record m { pmem = s; ppage = put_page m.ppage n h page }, log_info, addr)

  -- `version_allocator_[hash_key % NALI_VERSION_SHARDS].get_version()`
  unfoldable pub get_version : LogKv → ℕ → LogKv × ℕ
  get_version m hash_key =
      let h = hash_key % shards in
      (record m { version = put_version m.version h ((m.version h + 1) % 2 ^ 64) }, m.version h)

  -- the packed address of the log
  unfoldable pub insert : LogKv → ℕ → ℕ → ℕ → ℕ → Option (LogKv × ℕ)
  unfolding get_version alloc_log store_persist
  insert m thread key payload hash_key = do
    let (m1, v) = get_version m hash_key
    let p : PairT = record {
      op = insert_op;
      version = set_version v;
      key = key;
      value = payload;
      u_offset = uint64_max;
    }
    (m2, log_info, log_addr) ← alloc_log m1 thread hash_key 8 size
    m3 ← store_persist m2 log_addr p
    some (m3, to_uint64 log_info)

  -- The value of the log and the length in `log_info` are not initialised: `value` and `vlen`.
  unfoldable pub erase : LogKv → ℕ → ℕ → ℕ → ℕ → ℕ → ℕ → Option LogKv
  unfolding get_version alloc_log store_persist
  erase m thread key hash_key old_log_offset value vlen = do
    let (m1, v) = get_version m hash_key
    let p : PairT = record {
      op = delete_op;
      version = set_version v;
      key = key;
      value = value;
      u_offset = old_log_offset;
    }
    (m2, log_info, log_addr) ← alloc_log m1 thread hash_key vlen size
    store_persist m2 log_addr p

  -- the log `p` made ready, its address, and `cur_log_addr`
  unfoldable pub update_step1 : LogKv → ℕ → ℕ → PairT → Option (LogKv × PairT × Option (ℕ × ℕ) × ℕ)
  unfolding get_version alloc_log
  update_step1 m thread hash_key p = do
    let (m1, v) = get_version m hash_key
    (m2, log_info, log_addr) ← alloc_log m1 thread hash_key 8 size
    some (m2, record p { op = update_op; version = set_version v }, log_addr, to_uint64 log_info)
