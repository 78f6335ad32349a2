-- ===== src/Examples/OptLockRuns.antt =====
-- A new OptLock, and a writer that changes the data from 7 to 9 while a reader reads.
