-- ===== src/Locks/Exclusion.antt =====
-- A SpinLatch excludes: the steps are those of include/util/rwlock.h.
use nali.Prelude.{ℕ, ◌<◌, refl, inl, arith}
use nali.Locks.SpinLatch.{
  State, Step, lock_write, unlock_write, lock_read, wait_read, stop_waiting, try_read, try_succeeds,
  try_fails, give_up, unlock_read, Reachable, started, stepped, IsConsistent,
}

Step-IsConsistent :
    {threads : ℕ} {s s' : State}
    → threads < 128
    → IsConsistent threads s
    → Step s s'
    → IsConsistent threads s'
Step-IsConsistent h c lock_write = record {
  total = omega (arith, c.total);
  byte = omega (arith, c.byte);
  one_writer = omega (arith, c.byte);
  exclusive = ground (arith, c.byte);
}
Step-IsConsistent h c unlock_write = record {
  total = omega (arith, c.total);
  byte = ground (arith, c.byte, c.one_writer);
  one_writer = omega (arith, c.one_writer);
  exclusive = ground (arith, c.one_writer);
}
Step-IsConsistent h c (lock_read e) = record {
  total = omega (arith, c.total);
  byte = omega (arith, c.byte, c.total);
  one_writer = c.one_writer;
  exclusive = ground (arith, c.byte, c.one_writer, e);
}
Step-IsConsistent h c (wait_read e) = record {
  total = omega (arith, c.total);
  byte = omega (arith, c.byte, c.total);
  one_writer = c.one_writer;
  exclusive = c.exclusive;
}
Step-IsConsistent h c (stop_waiting e) = record {
  total = omega (arith, c.total);
  byte = omega (arith, c.byte);
  one_writer = c.one_writer;
  exclusive = ground (arith, c.byte, c.one_writer, e);
}
Step-IsConsistent h c try_read = record {
  total = omega (arith, c.total);
  byte = omega (arith, c.byte, c.total);
  one_writer = c.one_writer;
  exclusive = c.exclusive;
}
Step-IsConsistent h c (try_succeeds e) = record {
  total = omega (arith, c.total);
  byte = omega (arith, c.byte);
  one_writer = c.one_writer;
  exclusive = ground (arith, c.byte, c.one_writer, e);
}
Step-IsConsistent h c (try_fails e) = record {
  total = omega (arith, c.total);
  byte = omega (arith, c.byte);
  one_writer = c.one_writer;
  exclusive = c.exclusive;
}
Step-IsConsistent h c give_up = record {
  total = omega (arith, c.total);
  byte = omega (arith, c.byte, c.total);
  one_writer = c.one_writer;
  exclusive = c.exclusive;
}
Step-IsConsistent h c unlock_read = record {
  total = omega (arith, c.total);
  byte = omega (arith, c.byte, c.total);
  one_writer = c.one_writer;
  exclusive = ground (arith, c.exclusive);
}

-- With fewer than 128 threads, in every reachable state of a SpinLatch there is at most one
-- writer, none while a reader holds the latch, and the byte is the number of writers plus twice
-- that of the threads that have announced a read.
pub Reachable-IsConsistent :
    (threads : ℕ) (s : State) → threads < 128 → Reachable threads s → IsConsistent threads s
Reachable-IsConsistent threads s h started = record {
  total = omega arith;
  byte = omega arith;
  one_writer = omega arith;
  exclusive = inl refl;
}
Reachable-IsConsistent threads s h (stepped r step) =
    Step-IsConsistent h (Reachable-IsConsistent threads _ h r) step
