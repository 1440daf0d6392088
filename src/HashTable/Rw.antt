-- ===== src/HashTable/Rw.antt =====
-- 202110421_assign5: the locks of hashtable.c are those of rwlock.c.
mod Alone
pub use Alone.{Idle}
use system_programming.Base.{
  ℕ, zero, suc, ◌+◌, ◌-◌, ◌<◌, ◌≤◌, ◌≡◌, refl, Bool, true, false, not, Option, none, some,
  if◌then◌else◌, ◌==◌, ◌&&◌, ◌||◌, ◌%◌, if-cases, arith,
}
use system_programming.Base.Int.{ℤ, pos, minus_one, is_neg, is_pos, nat_le, eq_nat}
use system_programming.RwLock.{RwLock, req_read, req_write}
use system_programming.RwLock.Ring.{
  same_type, slot_matches, get_request_type, consume_entry, join_fifo, seek, find_valid_head,
  extend_batch,
}
use system_programming.RwLock.Ops.{
  Outcome, returned, waits, success, acquire, initialised, rwlock_init, finish, open_batch,
  read_head, read_round, read_start, quick_round, quick_start, take_write, write_head, write_round,
  write_start, rwlock_read_unlock, rwlock_write_unlock, rwlock_destroy,
}
use system_programming.RwLock.Tickets.{
  find_valid_head-le, find_valid_head_bounds, extend_batch_bounds, extend_batch-first,
}
use system_programming.HashTable.Locks.{LockApi}
use Alone.{Written, Read, write_start-Written, read_start-Read, quick_start-Read}

-- A call of rwlock.c as the table sees it: `none` if it waits, and whether it returned 0.
abbrev pub called : RwLock × Outcome → Option (Bool × RwLock)
called (u, waits) = none
called (u, returned z) = some (not (is_neg z), u)

called-success : (r : RwLock × Outcome) → r.1 ≡ returned success → called r ≡ some (true, r.0)
called-success (u, o) e = rw e

abbrev pub read_call : ℕ → Bool → RwLock → Option (Bool × RwLock)
read_call ring quick l =
    if quick then called (quick_start (acquire l)) else called (read_start ring (acquire l))

pub read_call-Idle :
    (ring : ℕ) (quick : Bool) (l : RwLock)
    → Idle l
    → (l' : RwLock) × (read_call ring quick l ≡ some (true, l')) × Idle (rwlock_read_unlock l').0
read_call-Idle ring true l i =
    let r = quick_start-Read ring l i in (_, called-success (quick_start (acquire l)) r.0, r.1)
read_call-Idle ring false l i =
    let r = read_start-Read ring l i in (_, called-success (read_start ring (acquire l)) r.0, r.1)

pub initialised-Idle : (delay : ℕ) (l : RwLock) → rwlock_init delay true true true ≡ some l → Idle l
unfolding rwlock_init
initialised-Idle delay l e = ground arith

pub destroy-Idle : (l : RwLock) → Idle l → rwlock_destroy l ≡ (none, pos 0)
unfolding rwlock_destroy
destroy-Idle l i = ground (arith, i.readers, i.writers, i.waiters, i.served)

pub write_call-Idle :
    (ring : ℕ) (l : RwLock)
    → Idle l
    → (l' : RwLock) × (called (write_start ring (acquire l)) ≡ some (true, l'))
      × Idle (rwlock_write_unlock l').0
write_call-Idle ring l i =
    let r = write_start-Written ring l i in
    (_, called-success (write_start ring (acquire l)) r.0, r.1)

-- The locks of rwlock.c keep what the table relies on.
abbrev pub rw_api : ℕ → LockApi
rw_api ring = record {
  Lock = RwLock;
  init = λ delay. rwlock_init delay true true true;
  destroy = rwlock_destroy;
  write_lock = λ l. called (write_start ring (acquire l));
  write_unlock = λ l. (rwlock_write_unlock l).0;
  read_lock = λ quick l. read_call ring quick l;
  read_unlock = λ l. (rwlock_read_unlock l).0;
  Free = Idle;
  init-Free = initialised-Idle;
  destroy-Free = destroy-Idle;
  write_lock-Free = write_call-Idle ring;
  read_lock-Free = read_call-Idle ring;
}
