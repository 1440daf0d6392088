-- ===== src/RwLock.antt =====
-- 202110421_assign5/rwlock.c: a reader-writer lock with tickets in a ring, read batches and quick
-- readers. This file holds the data; `Ring` has the helpers over the ring, `Ops` the entry points.
pub mod Ring
pub mod Ops
pub mod System
pub mod Exclusion
pub mod Tickets
pub mod Fairness
use system_programming.Base.{ℕ, Bool}
use system_programming.Base.Int.{ℤ}

pub data ReqType : Type 0 where
  req_none req_read req_write : ReqType

-- `rwlock_t` with its `struct uctx`. `mutex` is true while the mutex `lock` is held; the condition
-- variable has no state, since a wait may end at any time. Both ring arrays are read at an index below
-- WRITER_RING_SIZE only.
pub record RwLock : Type 0 where
  pub current_readers : ℤ
  pub current_writers : ℤ
  pub delay : ℕ
  pub mutex : Bool
  pub next_element : ℕ
  pub oldest_element : ℕ
  pub qr_waiters : ℤ
  pub read_batch_end : ℤ
  pub request_type : ℕ → ReqType
  pub slot_table : ℕ → ℤ
