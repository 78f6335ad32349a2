-- ===== src/Examples.antt =====
-- Concrete inputs for the theorems, and runs of the definitions.
mod BucketRuns
mod EntryRuns
mod KvLogRuns
mod LogDbRuns
mod GroupRuns
mod TreeRuns
mod CacheRuns
mod LatchRuns
mod ScanRuns
mod OptLockRuns
