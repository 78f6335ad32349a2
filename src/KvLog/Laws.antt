-- ===== src/KvLog/Laws.antt =====
-- `insert`, `erase` and `update_step1` of the log: what is written can be read, and stays.
use nali.Prelude.{ℕ, ◌+◌, ◌%◌, ◌^◌, ◌<◌, ◌≡◌, refl, ◌∙◌, sym, Option, some, arith}
use mathlib.Core.Path.{subst}
use nali.KvLog.Address.{LastLogOffest, of_uint64, to_uint64, of_uint64-to_uint64}
use nali.KvLog.Defs.{
  insert_op, delete_op, update_op, PairT, size, uint64_max, get_numa_id, put_memory,
}
use nali.KvLog.Log.{
  LogKv, get_addr, load, store_persist, insert, erase, update_step1, set_version, get_version,
  put_version, alloc_log,
}
use nali.KvLog.Valid.{IsValid, Allocated, Appended, IsRoomy}
use nali.KvLog.Ready.{AreSeparate}
use nali.KvLog.Append.{alloc_log-Appended}

-- the same pages and files, with other versions and other contents
abbrev pub refilled : LogKv → (ℕ → ℕ) → (ℕ → ℕ → PairT) → LogKv
refilled m v mem = record m { version = v; pmem = record m.pmem { memory = mem } }

module _ (map_file : ℕ → ℕ → ℕ → Option ℕ) (shards : ℕ) where
  refilled-IsValid :
      (m : LogKv) (v : ℕ → ℕ) (mem : ℕ → ℕ → PairT)
      → IsValid map_file shards m
      → IsValid map_file shards (refilled m v mem)
  refilled-IsValid m v mem valid = record {
    page = λ n h p q.
        (let g = valid.page n h p q in
          record {
            numa_id = g.numa_id;
            hash_id = g.hash_id;
            filled = g.filled;
            few = g.few;
            mapped = g.mapped;
            there = g.there;
            unused = g.unused;
          });
    named = valid.named;
  }

  refilled-Allocated :
      (m : LogKv) (v : ℕ → ℕ) (mem : ℕ → ℕ → PairT) (h : ℕ) (l : LastLogOffest)
      → Allocated map_file shards m h l
      → Allocated map_file shards (refilled m v mem) h l
  refilled-Allocated m v mem h l a = record {
    node = a.node;
    shard = a.shard;
    fits = a.fits;
    block = a.block;
    pointed = a.pointed;
    before = a.before;
  }

  -- The log at an address of the shard `h` is `p`.
  pub record WrittenAt (m : LogKv) (h : ℕ) (l : LastLogOffest) (p : PairT) : Type 0 where
    pub place : Allocated map_file shards m h l
    pub content : m.pmem.memory place.block l.log_offset ≡ p

  -- the same, for the packed address `addr_info`
  abbrev pub Written : LogKv → ℕ → ℕ → PairT → Type 0
  Written m hash_key addr_info p = WrittenAt m (hash_key % shards) (of_uint64 addr_info) p

  pub Written-load :
      (m : LogKv) (hash_key addr_info : ℕ) (p : PairT)
      → Written m hash_key addr_info p
      → load m (get_addr map_file shards m (of_uint64 addr_info) hash_key) ≡ some p
  unfolding load get_addr
  Written-load m hash_key addr_info p w = rw (w.place.pointed, w.content) refl

  -- A log put where one was handed out, and every older log still in place.
  pub record Logged (m m' : LogKv) (hash_key addr_info : ℕ) (p : PairT) : Type 0 where
    pub valid' : IsValid map_file shards m'
    pub written : Written m' hash_key addr_info p
    pub kept : (hash_key' a : ℕ) (q : PairT) → Written m hash_key' a q → Written m' hash_key' a q

  module _ (m m1 m' : LogKv) (hash_key : ℕ) (info : LastLogOffest) (addr : Option (ℕ × ℕ))
      (p : PairT) (before : (h a : ℕ) (q : PairT) → Written m h a q → Written m1 h a q)
      (done : Appended map_file shards m1 (hash_key % shards) m' info addr) where
    abbrev mem : ℕ → ℕ → PairT
    mem = put_memory m'.pmem.memory done.new.block info.log_offset p

    abbrev stored : LogKv
    stored = refilled m' m'.version mem

    packed : of_uint64 (to_uint64 info) ≡ info
    packed = of_uint64-to_uint64 info done.new.fits

    new-WrittenAt : WrittenAt stored (hash_key % shards) info p
    unfolding refilled-Allocated
    new-WrittenAt = record {
      place = refilled-Allocated m' m'.version mem (hash_key % shards) info done.new;
      content = ground arith;
    }

    old-WrittenAt :
        (h : ℕ) (l : LastLogOffest) (q : PairT) → WrittenAt m1 h l q → WrittenAt stored h l q
    unfolding refilled-Allocated
    old-WrittenAt h l q w =
        let a = done.old h l w.place in
        let same : a.block ≡ w.place.block =
          ground (arith, a.pointed, done.old_block h l w.place) in
        record {
          place = refilled-Allocated m' m'.version mem h l a;
          content =
              ground (arith, same, done.apart h l w.place, done.old_memory h l w.place, w.content);
        }

    kept_in_place :
        (h : ℕ) (l : LastLogOffest) (q : PairT) → WrittenAt m1 h l q → WrittenAt m' h l q
    kept_in_place h l q w =
        let a = done.old h l w.place in
        let same : a.block ≡ w.place.block =
          ground (arith, a.pointed, done.old_block h l w.place) in
        record { place = a; content = rw same (done.old_memory h l w.place ∙ w.content) }

    stored-Logged : Logged m stored hash_key (to_uint64 info) p
    stored-Logged = record {
      valid' = refilled-IsValid m' m'.version mem done.valid';
      written = subst (λ l. WrittenAt stored (hash_key % shards) l p) (sym packed) new-WrittenAt;
      kept = λ h a q w. old-WrittenAt (h % shards) (of_uint64 a) q (before h a q w);
    }

  module _ (positive : 0 < shards) (files : AreSeparate map_file) (m : LogKv)
      (valid : IsValid map_file shards m) (thread hash_key : ℕ)
      (roomy : IsRoomy map_file m (get_numa_id thread) (hash_key % shards)) where
    abbrev next_version : LogKv
    next_version = (get_version map_file shards m hash_key).0

    versioned : ℕ → ℕ
    versioned =
        put_version m.version (hash_key % shards) ((m.version (hash_key % shards) + 1) % 2 ^ 64)

    -- `get_version`, `alloc_log` and `store_persist`, one after the other
    appended :
        (vlen : ℕ)
        → vlen < 2 ^ 16
        → (m' : LogKv) × (info : LastLogOffest) × (addr : Option (ℕ × ℕ)) × (alloc_log map_file
              shards next_version thread hash_key vlen size
            ≡ some (m', info, addr))
          × Appended map_file shards next_version (hash_key % shards) m' info addr
    unfolding get_version versioned
    appended vlen short =
        alloc_log-Appended map_file shards positive files next_version
          (refilled-IsValid m versioned m.pmem.memory valid) thread hash_key vlen short roomy

    still : (h a : ℕ) (q : PairT) → Written m h a q → Written next_version h a q
    unfolding get_version versioned refilled-Allocated
    still h a q w = record {
      place = refilled-Allocated m versioned m.pmem.memory (h % shards) (of_uint64 a) w.place;
      content = w.content;
    }

    abbrev version : ℕ
    version = set_version (m.version (hash_key % shards))

    -- In a valid log with room for the thread and shard, or a next file, and files that never
    -- share a block, `insert` returns a packed address at which the insert log of the pair lies,
    -- with the next version and no older log; the log stays valid, and every log that was written
    -- before is still in place.
    pub insert-Logged :
        (key payload : ℕ)
        → (m' : LogKv) × (addr_info : ℕ) × (insert map_file shards m thread key payload hash_key
            ≡ some (m', addr_info))
          × Logged m m' hash_key addr_info (record {
            op = insert_op;
            version = set_version (m.version (hash_key % shards));
            key = key;
            value = payload;
            u_offset = uint64_max;
          })
    unfolding insert store_persist get_version
    insert-Logged key payload =
        let (m', info, addr, run, done) = appended 8 (omega arith) in
        (
          _,
          _,
          rw (run, done.address) refl,
          stored-Logged m next_version m' hash_key info addr _ still done,
        )

    -- Under the same conditions as for an insertion, `erase` appends a delete log that points to
    -- the older log; the log stays valid, and every log that was written before is still in place.
    pub erase-Logged :
        (key old_log_offset value vlen : ℕ)
        → vlen < 2 ^ 16
        → (m' : LogKv) × (addr_info : ℕ) × (erase map_file shards m thread key hash_key
              old_log_offset value vlen
            ≡ some m')
          × Logged m m' hash_key addr_info (record {
            op = delete_op;
            version = set_version (m.version (hash_key % shards));
            key = key;
            value = value;
            u_offset = old_log_offset;
          })
    unfolding erase store_persist get_version
    erase-Logged key old_log_offset value vlen short =
        let (m', info, addr, run, done) = appended vlen short in
        (
          _,
          to_uint64 info,
          rw (run, done.address) refl,
          stored-Logged m next_version m' hash_key info addr _ still done,
        )

    -- Under the same conditions as for an insertion, `update_step1` makes a log ready without
    -- disturbing any other; stored at its address with the address of the older log, it lies at
    -- the packed address that was given out, the log stays valid, and every log that was written
    -- before is still in place.
    pub update_step1-Logged :
        (p : PairT) (old_log_offset : ℕ)
        → (m' : LogKv) × (p' : PairT) × (addr : Option (ℕ × ℕ)) × (addr_info : ℕ) × (m'' : LogKv)
          × (update_step1 map_file shards m thread hash_key p ≡ some (m', p', addr, addr_info))
          × (store_persist m' addr (record p' { u_offset = old_log_offset }) ≡ some m'')
          × IsValid map_file shards m'
          × ((h a : ℕ) (q : PairT) → Written m h a q → Written m' h a q)
          × Logged m m'' hash_key addr_info (record {
            op = update_op;
            version = set_version (m.version (hash_key % shards));
            key = p.key;
            value = p.value;
            u_offset = old_log_offset;
          })
    unfolding update_step1 store_persist get_version
    update_step1-Logged p old_log_offset =
        let (m', info, addr, run, done) = appended 8 (omega arith) in
        (
          m',
          record p { op = update_op; version = version },
          addr,
          to_uint64 info,
          stored m next_version m' hash_key info addr
              (record p { op = update_op; version = version; u_offset = old_log_offset }) still
              done,
          rw run refl,
          rw done.address refl,
          done.valid',
          λ h a q w.
              kept_in_place m next_version m' hash_key info addr p still done (h % shards)
                (of_uint64 a) q (still h a q w),
          stored-Logged m next_version m' hash_key info addr _ still done,
        )
