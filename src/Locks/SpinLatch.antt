-- ===== src/Locks/SpinLatch.antt =====
-- SpinLatch of include/util/rwlock.h. A step is one atomic operation of one thread. The state counts the
-- threads at each place of the code; `_lock` is a byte, a writer is its low bit, a reader adds 2.
use nali.Prelude.{ℕ, suc, ◌+◌, ◌-◌, ◌*◌, ◌%◌, ◌≤◌, ◌≡◌, ◌⊎◌, ◌==◌, if◌then◌else◌}

pub record State : Type 0 where
  pub lock : ℕ
  -- outside the latch
  pub idle : ℕ
  -- in RLock, after fetch_add
  pub waiting : ℕ
  -- in TryRLock, after fetch_add, and after a load that saw a writer
  pub trying : ℕ
  pub failing : ℕ
  -- holding the latch
  pub readers : ℕ
  pub writers : ℕ

abbrev pub add : ℕ → ℕ → ℕ
add lock n = (lock + n) % 256

-- `fetch_xor(1)`
abbrev pub xor_one : ℕ → ℕ
xor_one lock = if lock % 2 == 1 then lock - 1 else lock + 1

pub data Step : State → State → Type 0 where
  -- WLock, TryWLock: the exchange of 0 for 1 succeeds
  lock_write :
      {i w t f r n : ℕ}
      → Step
          (record {
            lock = 0;
            idle = suc i;
            waiting = w;
            trying = t;
            failing = f;
            readers = r;
            writers = n;
          })
          (record {
            lock = 1;
            idle = i;
            waiting = w;
            trying = t;
            failing = f;
            readers = r;
            writers = suc n;
          })
  unlock_write :
      {l i w t f r n : ℕ}
      → Step
          (record {
            lock = l;
            idle = i;
            waiting = w;
            trying = t;
            failing = f;
            readers = r;
            writers = suc n;
          })
          (record {
            lock = xor_one l;
            idle = suc i;
            waiting = w;
            trying = t;
            failing = f;
            readers = r;
            writers = n;
          })
  -- RLock: fetch_add(2) returned an even value, or an odd one
  lock_read :
      {l i w t f r n : ℕ}
      → l % 2 ≡ 0
      → Step
          (record {
            lock = l;
            idle = suc i;
            waiting = w;
            trying = t;
            failing = f;
            readers = r;
            writers = n;
          })
          (record {
            lock = add l 2;
            idle = i;
            waiting = w;
            trying = t;
            failing = f;
            readers = suc r;
            writers = n;
          })
  wait_read :
      {l i w t f r n : ℕ}
      → l % 2 ≡ 1
      → Step
          (record {
            lock = l;
            idle = suc i;
            waiting = w;
            trying = t;
            failing = f;
            readers = r;
            writers = n;
          })
          (record {
            lock = add l 2;
            idle = i;
            waiting = suc w;
            trying = t;
            failing = f;
            readers = r;
            writers = n;
          })
  -- RLock: a load in the loop sees no writer
  stop_waiting :
      {l i w t f r n : ℕ}
      → l % 2 ≡ 0
      → Step
          (record {
            lock = l;
            idle = i;
            waiting = suc w;
            trying = t;
            failing = f;
            readers = r;
            writers = n;
          })
          (record {
            lock = l;
            idle = i;
            waiting = w;
            trying = t;
            failing = f;
            readers = suc r;
            writers = n;
          })
  -- TryRLock: fetch_add(2), the load, and fetch_add(-2)
  try_read :
      {l i w t f r n : ℕ}
      → Step
          (record {
            lock = l;
            idle = suc i;
            waiting = w;
            trying = t;
            failing = f;
            readers = r;
            writers = n;
          })
          (record {
            lock = add l 2;
            idle = i;
            waiting = w;
            trying = suc t;
            failing = f;
            readers = r;
            writers = n;
          })
  try_succeeds :
      {l i w t f r n : ℕ}
      → l % 2 ≡ 0
      → Step
          (record {
            lock = l;
            idle = i;
            waiting = w;
            trying = suc t;
            failing = f;
            readers = r;
            writers = n;
          })
          (record {
            lock = l;
            idle = i;
            waiting = w;
            trying = t;
            failing = f;
            readers = suc r;
            writers = n;
          })
  try_fails :
      {l i w t f r n : ℕ}
      → l % 2 ≡ 1
      → Step
          (record {
            lock = l;
            idle = i;
            waiting = w;
            trying = suc t;
            failing = f;
            readers = r;
            writers = n;
          })
          (record {
            lock = l;
            idle = i;
            waiting = w;
            trying = t;
            failing = suc f;
            readers = r;
            writers = n;
          })
  give_up :
      {l i w t f r n : ℕ}
      → Step
          (record {
            lock = l;
            idle = i;
            waiting = w;
            trying = t;
            failing = suc f;
            readers = r;
            writers = n;
          })
          (record {
            lock = add l 254;
            idle = suc i;
            waiting = w;
            trying = t;
            failing = f;
            readers = r;
            writers = n;
          })
  unlock_read :
      {l i w t f r n : ℕ}
      → Step
          (record {
            lock = l;
            idle = i;
            waiting = w;
            trying = t;
            failing = f;
            readers = suc r;
            writers = n;
          })
          (record {
            lock = add l 254;
            idle = suc i;
            waiting = w;
            trying = t;
            failing = f;
            readers = r;
            writers = n;
          })

abbrev pub start : ℕ → State
start threads = record {
  lock = 0;
  idle = threads;
  waiting = 0;
  trying = 0;
  failing = 0;
  readers = 0;
  writers = 0;
}

pub data Reachable (threads : ℕ) : State → Type 0 where
  started : Reachable threads (start threads)
  stepped : {s s' : State} → Reachable threads s → Step s s' → Reachable threads s'

abbrev pub inside : State → ℕ
inside s = s.waiting + s.trying + s.failing + s.readers

-- The byte tells who is inside, and a writer is alone with those that wait.
pub record IsConsistent (threads : ℕ) (s : State) : Type 0 where
  pub total : s.idle + inside s + s.writers ≡ threads
  pub byte : s.lock ≡ s.writers + 2 * inside s
  pub one_writer : s.writers ≤ 1
  pub exclusive : (s.writers ≡ 0) ⊎ (s.readers ≡ 0)
