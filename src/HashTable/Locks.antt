-- ===== src/HashTable/Locks.antt =====
-- 202110421_assign5/hashtable.c: what the table asks of its locks, the calls of rwlock.c with what they
-- promise when one thread uses the table. A call that waits is `none`.
use system_programming.Base.{ℕ, ◌≡◌, Bool, true, Option, none, some}
use system_programming.Base.Int.{ℤ, pos}

pub record LockApi : Type 1 where
  pub Lock : Type 0
  pub init : ℕ → Option Lock
  -- The lock, or `none` where it is destroyed, and the result.
  pub destroy : Lock → Option Lock × ℤ
  pub write_lock : Lock → Option (Bool × Lock)
  pub write_unlock : Lock → Lock
  pub read_lock : Bool → Lock → Option (Bool × Lock)
  pub read_unlock : Lock → Lock
  -- Nobody holds the lock or waits for it.
  pub Free : Lock → Type 0
  pub init-Free : (delay : ℕ) (l : Lock) → init delay ≡ some l → Free l
  pub destroy-Free : (l : Lock) → Free l → destroy l ≡ (none, pos 0)
  pub write_lock-Free :
      (l : Lock) → Free l → (l' : Lock) × (write_lock l ≡ some (true, l')) × Free (write_unlock l')
  pub read_lock-Free :
      (quick : Bool) (l : Lock)
      → Free l
      → (l' : Lock) × (read_lock quick l ≡ some (true, l')) × Free (read_unlock l')
