-- ===== src/Lib.antt =====
-- NALI is a key-value store for persistent memory: a learned index in DRAM over a log in persistent memory.
-- The database appends a log for every change and keeps, in the index, the packed address of the log of
-- each key; the leaves of the index are nodes of small buckets. This library models the nodes, the groups and
-- the tree of the index, the log, the database, a cache and two locks.
--
-- The parts and their files (paths from the repository's root):
-- - Bucket: UnSortBuncket of src/nali_entry.h, a leaf of fifteen unsorted records. Bucket/Defs has the
--   state and Put, Get, Update, Delete, Find, PutBufKV, remove_key, min_key; Bucket/Sort has
--   getSortedIndex; Bucket/Expand has Expand_; Bucket/Scan has Scan. A record slot that the constructor leaves
--   uninitialised holds an arbitrary value, which the definitions take as an argument. Bucket/Contents
--   and Bucket/Valid say which map a bucket stands for, and when it is valid.
-- - Entry: eentry and PointerBEntry of src/nali_entry.h, up to four buckets behind the smallest keys
--   routed to them. Entry/Defs has the constructors, Find_pos, Put, Get, Update, Delete,
--   AdjustEntryKey and get_num_keys; Entry/Route and Entry/Valid say which bucket a key is routed to
--   and when an entry is valid. A call through a null pointer is none. `goto retry` in Put takes fuel;
--   two runs of the body are enough, since a split leaves room in the bucket of the key.
-- - KvLog: last_log_offest, PPage and LogKV of src/nali_kvlog.h, and get_numa_id of src/nali_alloc.h.
--   KvLog/Address has the packed addresses, KvLog/Defs the pages and their allocation, KvLog/Log
--   insert, erase and update_step1, KvLog/Create the constructors. A pointer into a mapped file is the
--   file's block and an offset; pmem_map_file is a parameter, map_file, and two files never share a
--   block. A log record of 32 bytes is written and read as a whole. A page is below its limit of 32
--   files. KvLog/Valid has the invariant of the pages, and which logs have been handed out.
-- - LogDb: logdb of include/logdb.h. LogDb/Interfaces has the index behind Tree of include/tree.h and
--   the table of CLHT as records of operations and their laws; LogDb/Defs has insert, search, erase and
--   update; LogDb/Valid has the map that a database stands for. The hash XXH3_64bits is a parameter.
-- - Group: group of src/nali.h, a row of entries in ascending order. Group/Search has find_entry with its
--   searches, over the entry keys; Group/Defs has Init, Put, Get, fast_fail, Update, Delete and expand;
--   Group/Chain and Group/Valid say which map a row of entries stands for, and when a group is valid. A
--   search loop takes as fuel the length of its range, which is enough; `goto retry0` in Put takes fuel, and
--   two runs of the body are enough, since an expansion leaves room in every entry. The asserts are off
--   (NDEBUG). The learned model is a parameter: a function from the keys it was built from to predictions.
-- - Tree: Nali of src/nali.h, run by one thread: the locks on groups and the wait for an expansion are left
--   out. Tree/Defs has Init, find_group, find_fast, find_slow, Get, Update and Delete; Tree/Expand has
--   ExpandTree and Put; Tree/Sampled, Tree/Spread and Tree/Refilled follow its loops. `goto retry0` in Put
--   takes fuel; two runs of the body are enough. The theorems on the tree suppose that the predictions do not fall while the keys
--   grow, as they do for a line that does not fall; those on a group suppose nothing of them. An expansion takes
--   the least key of the first bucket of a group: the theorems suppose that this bucket holds a key.
-- - Cache: NumaCache of include/new_cache.h, one call at a time, as its latch makes it. Cache/Defs has the
--   constructor, put, get and evict; Cache/Laws says when a cache is valid and which map it stands for. A
--   pointer to an entry is a place in a list of nodes. evict is run in the tests; no theorem covers it.
-- - Locks: SpinLatch of include/util/rwlock.h, as a step relation on the number of threads at
--   each place; OptLock of src/nali_concurrency.h, as a step relation on its word and the data it guards.
--
-- An insertion into a node or an index of a key that is present is outside the theorems: a bucket stores
-- a second record. Fingerprints (USE_FINGER) are off in the source and not modelled, nor is
-- next_bucket, which nothing reads. Keys and values are natural numbers: the code compares and copies
-- them only. Values are of eight bytes (VARVALUE is off), thread ids are below 64, and the latch of a page
-- makes an allocation one step.
--
-- Not modelled: bulk loads and threads of the tree (src/nali.h), the learned models
-- (src/rmi_model.h), recovery and garbage collection of the log, the scans above a bucket,
-- iterators, the LRU cache of include/logdb.h, the other locks; printing, memory-mapped files and the
-- copies of other projects.
pub mod Prelude
pub mod Bucket
pub mod Entry
pub mod KvLog
pub mod LogDb
pub mod Group
pub mod Tree
pub mod Cache
pub mod Locks
mod Examples
