-- ===== src/KvLog/Valid.antt =====
-- When the pages of a log are in order, and which logs are in place.
use nali.Prelude.{ℕ, ◌+◌, ◌≤◌, ◌<◌, ◌≡◌, ◌⊎◌, Option, none, some, arith}
use nali.KvLog.Address.{LastLogOffest, Fits}
use nali.KvLog.Defs.{ppage_size, size, get_numa_id}
use nali.KvLog.Log.{LogKv}

abbrev pub max_lof_file_id : ℕ
max_lof_file_id = 32

pub get_numa_id_lt : (t : ℕ) → get_numa_id t < 2
unfolding get_numa_id
get_numa_id_lt t = ground arith

module _ (map_file : ℕ → ℕ → ℕ → Option ℕ) (shards : ℕ) where
  -- The page of a node and shard.
  pub record PageIsValid (m : LogKv) (n h : ℕ) : Type 0 where
    pub numa_id : (m.ppage n h).numa_id ≡ n
    pub hash_id : (m.ppage n h).hash_id ≡ h
    pub filled : (m.ppage n h).sz_allocated ≤ ppage_size
    pub few : (m.ppage n h).ppage_id < max_lof_file_id
    pub mapped : m.pmem.start_addr_arr n h (m.ppage n h).ppage_id ≡ (m.ppage n h).start_addr
    pub there : (b : ℕ) × ((m.ppage n h).start_addr ≡ some b)
    pub unused : (p : ℕ) → (m.ppage n h).ppage_id < p → m.pmem.start_addr_arr n h p ≡ none

  pub record IsValid (m : LogKv) : Type 0 where
    pub page : (n h : ℕ) → n < 2 → h < shards → PageIsValid m n h
    -- every block in the table is that of its file
    pub named : (n h p b : ℕ) → m.pmem.start_addr_arr n h p ≡ some b → map_file n h p ≡ some b

  -- The 32 bytes at `info` have been handed out, in the file of `n`, `h` and `info.ppage_id`.
  pub record Allocated (m : LogKv) (h : ℕ) (info : LastLogOffest) : Type 0 where
    pub node : info.numa_id < 2
    pub shard : h < shards
    pub fits : Fits info
    pub block : ℕ
    pub pointed : m.pmem.start_addr_arr info.numa_id h info.ppage_id ≡ some block
    pub before :
        (info.ppage_id < (m.ppage info.numa_id h).ppage_id)
        ⊎ ((info.ppage_id ≡ (m.ppage info.numa_id h).ppage_id)
            × (info.log_offset + size ≤ (m.ppage info.numa_id h).sz_allocated))

  -- The log at `info` in `m'`, handed out after `m`; it overlaps none that was there before.
  pub record Appended (m : LogKv) (h : ℕ) (m' : LogKv) (info : LastLogOffest)
      (addr : Option (ℕ × ℕ)) : Type 0 where
    pub valid' : IsValid m'
    pub new : Allocated m' h info
    pub address : addr ≡ some (new.block, info.log_offset)
    pub version : m'.version ≡ m.version
    pub old : (h' : ℕ) (l : LastLogOffest) → Allocated m h' l → Allocated m' h' l
    pub old_block :
        (h' : ℕ) (l : LastLogOffest) (a : Allocated m h' l)
        → m'.pmem.start_addr_arr l.numa_id h' l.ppage_id ≡ some a.block
    pub old_memory :
        (h' : ℕ) (l : LastLogOffest) (a : Allocated m h' l)
        → m'.pmem.memory a.block l.log_offset ≡ m.pmem.memory a.block l.log_offset
    pub apart :
        (h' : ℕ) (l : LastLogOffest) (a : Allocated m h' l)
        → a.block ≡ new.block
        → l.log_offset + size ≤ info.log_offset

-- The page of a node and shard has room for a log, or the next file can be made.
abbrev pub IsRoomy : (ℕ → ℕ → ℕ → Option ℕ) → LogKv → ℕ → ℕ → Type 0
IsRoomy map_file m n h =
    ((m.ppage n h).sz_allocated + size ≤ ppage_size)
    ⊎ (((m.ppage n h).ppage_id + 1 < max_lof_file_id)
        × (b : ℕ) × (map_file n h ((m.ppage n h).ppage_id + 1) ≡ some b))
