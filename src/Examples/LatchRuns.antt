-- ===== src/Examples/LatchRuns.antt =====
-- A latch with three threads: two readers, one of them behind a writer.
use nali.Prelude.{refl, arith}
use nali.Locks.SpinLatch.{
  State, lock_write, wait_read, try_read, Reachable, started, stepped, IsConsistent,
}
use nali.Locks.Exclusion.{Reachable-IsConsistent}

abbrev busy : State
busy = record { lock = 5; idle = 0; waiting = 1; trying = 1; failing = 0; readers = 0; writers = 1 }

busy-Reachable : Reachable 3 busy
busy-Reachable = stepped (stepped (stepped started lock_write) (wait_read refl)) try_read

Reachable-IsConsistent_example : IsConsistent 3 busy
Reachable-IsConsistent_example = Reachable-IsConsistent 3 busy (omega arith) busy-Reachable
