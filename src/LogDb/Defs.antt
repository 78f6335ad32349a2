-- ===== src/LogDb/Defs.antt =====
-- logdb of include/logdb.h, with USE_CACHE and USE_CLHT_CACHE and values of eight bytes.
-- XXH3_64bits of a key is `hash`. The counters of cache hits are left out.
use nali.Prelude.{
  ℕ, ◌+◌, ◌%◌, ◌^◌, Bool, true, false, Option, none, some, ◌==◌, if◌then◌else◌, ◌>>=◌,
}
use nali.KvLog.Address.{of_uint64}
use nali.KvLog.Defs.{PairT, insert_op, uint64_max}
use nali.KvLog.Log
use nali.KvLog.Log.{LogKv, get_addr, load, update_step1, store_persist}
use nali.LogDb.Interfaces.{Index, Cache}

pub record LogDb (I C : Type 0) : Type 0 where
  pub db : I
  pub log_kv : LogKv
  pub clht_cache : C
  pub get_cnt : ℕ

abbrev pub cache_sample : ℕ
cache_sample = 4

module _ {I C : Type 0} (index : Index I) (cache : Cache C) (map_file : ℕ → ℕ → ℕ → Option ℕ)
    (shards : ℕ) (hash : ℕ → ℕ) where
  unfoldable pub insert : LogDb I C → ℕ → ℕ → ℕ → Option (LogDb I C × Bool)
  insert d thread key payload = do
    (log', log_offset) ← Log.insert map_file shards d.log_kv thread key payload (hash key)
    let (db', ret) = index.insert d.db key log_offset
    some (record d { db = db'; log_kv = log' }, ret)

  -- the value that a packed address leads to: 8 bytes from offset 16 of the log
  unfoldable pub read_value : LogKv → ℕ → ℕ → Option ℕ
  read_value log key addr_info = do
    p ← load log (get_addr map_file shards log (of_uint64 addr_info) (hash key))
    some p.value

  abbrev counted : LogDb I C → LogDb I C
  counted d = record d { get_cnt = (d.get_cnt + 1) % 2 ^ 64 }

  -- The part of `search` after a miss in the cache: the flag, and `payload`.
  unfoldable pub search_index : LogDb I C → ℕ → Option (LogDb I C × Bool × ℕ)
  unfolding read_value
  search_index d key = elim (index.search d.db key) [
    | none ↦ some (d, false, 0)
    | some addr_info ↦ (do
      payload ← read_value d.log_kv key addr_info
      some (
          if d.get_cnt % cache_sample == 0
          then (record d { clht_cache = cache.clht_put d.clht_cache key payload }, true, payload)
          else (d, true, payload)))
  ]

  unfoldable pub search : LogDb I C → ℕ → Option (LogDb I C × Bool × ℕ)
  unfolding search_index
  search d key =
      let payload = cache.clht_get d.clht_cache key in
      if payload == 0 then search_index (counted d) key else some (counted d, true, payload)

  -- `value` and `vlen` are what the log's value and `log_info.vlen_` hold, which nothing sets.
  unfoldable pub erase : LogDb I C → ℕ → ℕ → ℕ → ℕ → Option (LogDb I C × Bool)
  erase d thread key value vlen = do
    let addr_info : ℕ = elim (index.search d.db key) [ none ↦ 0 | some a ↦ a ]
    let (db', ret) = index.erase d.db key
    log' ← Log.erase map_file shards d.log_kv thread key (hash key) addr_info value vlen
    some (record d { db = db'; log_kv = log' }, ret)

  unfoldable pub update : LogDb I C → ℕ → ℕ → ℕ → Option (LogDb I C × Bool)
  update d thread key payload = do
    let p0 : PairT = record {
      op = insert_op;
      version = 0;
      key = key;
      value = payload;
      u_offset = uint64_max;
    }
    (log', p, log_addr, cur_log_addr) ← update_step1 map_file shards d.log_kv thread (hash key) p0
    let (db', ret, log_offset) = index.update d.db key cur_log_addr
    log'' ←
        (if ret
          then store_persist log' log_addr (record p { u_offset = log_offset })
          else some log')
    some (record d { db = db'; log_kv = log'' }, ret)
