-- ===== src/Locks.antt =====
-- The latches of include/util/rwlock.h and the optimistic lock of src/nali_concurrency.h.
pub mod SpinLatch
pub mod Exclusion
pub mod OptLock
