-- ===== src/RwLock/System.antt =====
-- 202110421_assign5/rwlock.c: threads that call the lock, interleaved in any order. One step is one
-- stretch of one thread between taking the mutex and giving it back.
use system_programming.Base.{ℕ, ◌<◌, ◌≡◌, false, if◌then◌else◌}
use system_programming.Base.Int.{is_neg}
use system_programming.RwLock.{RwLock}
use system_programming.Base.Family.{update}
use system_programming.RwLock.Ops.{
  Outcome, returned, waits, acquire, initialised, quick_start, quick_round, read_start, read_round,
  write_start, write_round, rwlock_read_unlock, rwlock_write_unlock,
}

-- Where a thread stands: outside the lock, waiting in one of the three loops, or holding the lock.
pub data Pc : Type 0 where
  idle quick_waiting reading writing : Pc
  read_waiting write_waiting : ℕ → Pc

-- What an idle thread calls.
pub data Call : Type 0 where
  quick_read normal_read write : Call

-- A call that returned 0 has the lock; one that returned -1 has not.
abbrev pub settle : RwLock × Outcome → Pc → Pc → RwLock × Pc
settle (u, waits) asleep inside = (u, asleep)
settle (u, returned r) asleep inside = (u, if is_neg r then idle else inside)

-- A thread from `n` on does not exist: it is never picked.
pub record System : Type 0 where
  pub lock : RwLock
  pub pc : ℕ → Pc

module _ (ring : ℕ) where
  -- What the thread does next, with the mutex just taken. A thread that holds the lock releases it.
  unfoldable pub advance : Call → Pc → RwLock → RwLock × Pc
  advance quick_read idle u = settle (quick_start u) quick_waiting reading
  advance normal_read idle u = settle (read_start ring u) (read_waiting u.next_element) reading
  advance write idle u = settle (write_start ring u) (write_waiting u.next_element) writing
  advance _ quick_waiting u = settle (quick_round u) quick_waiting reading
  advance _ (read_waiting t) u = settle (read_round ring u t) (read_waiting t) reading
  advance _ (write_waiting t) u = settle (write_round ring u t) (write_waiting t) writing
  advance _ reading u = settle (rwlock_read_unlock u) idle idle
  advance _ writing u = settle (rwlock_write_unlock u) idle idle

  -- A thread moves only while no other holds the mutex.
  pub data Step (n : ℕ) (s : System) : System → Type 0 where
    pick :
        (i : ℕ) (call : Call)
        → i < n
        → s.lock.mutex ≡ false
        → Step n s (record {
          lock = (advance call (s.pc i) (acquire s.lock)).0;
          pc = update s.pc i (advance call (s.pc i) (acquire s.lock)).1;
        })

  pub data Reach (n : ℕ) : System → Type 0 where
    created : (delay : ℕ) → Reach n (record { lock = initialised delay; pc = λ i. idle })
    later : {s t : System} → Reach n s → Step n s t → Reach n t
