-- ===== src/RwLock/Exclusion.antt =====
-- 202110421_assign5/rwlock.c: who can hold the lock together.
use system_programming.Base.{ℕ, ◌+◌, ◌≤◌, ◌<◌, ◌≡◌, ◌≢◌, ◌⊎◌, refl, false, arith}
use system_programming.Base.Int.{ℤ, pos, negsuc, is_neg}
use system_programming.RwLock.{RwLock}
use system_programming.Base.Family.{
  weight_upto, weight_upto-update, weight_upto_zero, weight-le-weight_upto, weights-le-weight_upto,
}
use system_programming.RwLock.Ring.{consume_entry, join_fifo}
use system_programming.RwLock.Ops.{
  finish, read_head, write_head, open_batch, take_write, returned, acquire, success, initialised,
  quick_start, quick_round, read_start, read_round, write_start, write_round, rwlock_read_unlock,
  rwlock_write_unlock,
}
use system_programming.RwLock.System.{
  Pc, idle, quick_waiting, reading, writing, read_waiting, write_waiting, Call, quick_read,
  normal_read, write, settle, advance, System, Step, pick, Reach, created, later,
}

abbrev pub amount : ℤ → ℕ
amount (pos n) = n
amount (negsuc n) = 0

abbrev reads : Pc → ℕ
reads reading = 1
reads _ = 0

abbrev writes : Pc → ℕ
writes writing = 1
writes _ = 0

abbrev quicks : Pc → ℕ
quicks quick_waiting = 1
quicks _ = 0

-- The counters are not negative, and not both positive.
record Counted (u : RwLock) : Type 0 where
  readers : is_neg u.current_readers ≡ false
  writers : is_neg u.current_writers ≡ false
  waiters : is_neg u.qr_waiters ≡ false
  one : amount u.current_writers ≤ 1
  apart : (amount u.current_writers ≡ 0) ⊎ (amount u.current_readers ≡ 0)

-- A move from `p` to `p'` is covered by the counters.
record Covers (u u' : RwLock) (p p' : Pc) : Type 0 where
  counted : Counted u'
  readers : amount u.current_readers + reads p' ≤ amount u'.current_readers + reads p
  writers : amount u.current_writers + writes p' ≤ amount u'.current_writers + writes p
  waiters : amount u.qr_waiters + quicks p' ≤ amount u'.qr_waiters + quicks p

quick_start-Covers :
    (u : RwLock)
    → Counted u
    → Covers u
        (settle (quick_start u) quick_waiting reading).0
        idle
        (settle (quick_start u) quick_waiting reading).1
unfolding quick_start
quick_start-Covers u c = ground arith

quick_round-Covers :
    (u : RwLock)
    → Counted u
    → 0 < amount u.qr_waiters
    → Covers u
        (settle (quick_round u) quick_waiting reading).0
        quick_waiting
        (settle (quick_round u) quick_waiting reading).1
unfolding quick_round
quick_round-Covers u c h = ground arith

read_unlock-Covers :
    (u : RwLock)
    → Counted u
    → 0 < amount u.current_readers
    → Covers u
        (settle (rwlock_read_unlock u) idle idle).0
        reading
        (settle (rwlock_read_unlock u) idle idle).1
unfolding rwlock_read_unlock
read_unlock-Covers u c h = ground arith

write_unlock-Covers :
    (u : RwLock)
    → Counted u
    → 0 < amount u.current_writers
    → Covers u
        (settle (rwlock_write_unlock u) idle idle).0
        writing
        (settle (rwlock_write_unlock u) idle idle).1
unfolding rwlock_write_unlock
write_unlock-Covers u c h = ground arith

module _ (ring : ℕ) where
  read_round-Covers :
      (u : RwLock) (t : ℕ)
      → Counted u
      → Covers u
          (settle (read_round ring u t) (read_waiting t) reading).0
          (read_waiting t)
          (settle (read_round ring u t) (read_waiting t) reading).1
  unfolding read_round read_head finish open_batch consume_entry
  read_round-Covers u t c = ground arith

  write_round-Covers :
      (u : RwLock) (t : ℕ)
      → Counted u
      → Covers u
          (settle (write_round ring u t) (write_waiting t) writing).0
          (write_waiting t)
          (settle (write_round ring u t) (write_waiting t) writing).1
  unfolding write_round write_head take_write consume_entry
  write_round-Covers u t c = ground arith

  read_start-Covers :
      (u : RwLock)
      → Counted u
      → Covers u
          (settle (read_start ring u) (read_waiting u.next_element) reading).0
          idle
          (settle (read_start ring u) (read_waiting u.next_element) reading).1
  unfolding read_start join_fifo read_round read_head finish open_batch consume_entry
  read_start-Covers u c = ground arith

  write_start-Covers :
      (u : RwLock)
      → Counted u
      → Covers u
          (settle (write_start ring u) (write_waiting u.next_element) writing).0
          idle
          (settle (write_start ring u) (write_waiting u.next_element) writing).1
  unfolding write_start join_fifo write_round write_head take_write consume_entry
  write_start-Covers u c = ground arith

  -- What a thread may do next is covered, if the counters know of what it holds or waits for.
  advance-Covers :
      (call : Call) (p : Pc) (u : RwLock)
      → Counted u
      → reads p ≤ amount u.current_readers
      → writes p ≤ amount u.current_writers
      → quicks p ≤ amount u.qr_waiters
      → Covers u (advance ring call p u).0 p (advance ring call p u).1
  unfolding advance
  advance-Covers quick_read idle u c r w q = quick_start-Covers u c
  advance-Covers normal_read idle u c r w q = read_start-Covers u c
  advance-Covers write idle u c r w q = write_start-Covers u c
  advance-Covers _ quick_waiting u c r w q = quick_round-Covers u c q
  advance-Covers _ (read_waiting t) u c r w q = read_round-Covers u t c
  advance-Covers _ (write_waiting t) u c r w q = write_round-Covers u t c
  advance-Covers _ reading u c r w q = read_unlock-Covers u c r
  advance-Covers _ writing u c r w q = write_unlock-Covers u c w

record Inv (n : ℕ) (s : System) : Type 0 where
  counted : Counted s.lock
  readers : weight_upto reads s.pc n ≤ amount s.lock.current_readers
  writers : weight_upto writes s.pc n ≤ amount s.lock.current_writers
  waiters : weight_upto quicks s.pc n ≤ amount s.lock.qr_waiters

module _ (ring n : ℕ) where
  Step-Inv : {s t : System} → Step ring n s t → Inv n s → Inv n t
  Step-Inv {s} (pick i call lt free) inv =
      let p = s.pc i in
      let p' = (advance ring call p (acquire s.lock)).1 in
      let c : Covers (acquire s.lock) (advance ring call p (acquire s.lock)).0 p p' =
        advance-Covers ring call p (acquire s.lock)
          (record {
            readers = inv.counted.readers;
            writers = inv.counted.writers;
            waiters = inv.counted.waiters;
            one = inv.counted.one;
            apart = inv.counted.apart;
          })
          (omega (arith, inv.readers, weight-le-weight_upto reads s.pc i n lt))
          (omega (arith, inv.writers, weight-le-weight_upto writes s.pc i n lt))
          (omega (arith, inv.waiters, weight-le-weight_upto quicks s.pc i n lt)) in
      record {
        counted = c.counted;
        readers = omega (arith, inv.readers, c.readers, weight_upto-update reads s.pc i p' n lt);
        writers = omega (arith, inv.writers, c.writers, weight_upto-update writes s.pc i p' n lt);
        waiters = omega (arith, inv.waiters, c.waiters, weight_upto-update quicks s.pc i p' n lt);
      }

  init-Inv : (delay : ℕ) → Inv n (record { lock = initialised delay; pc = λ i. idle })
  init-Inv delay = record {
    counted = ground arith;
    readers = omega (arith, weight_upto_zero reads (λ i. idle) n (λ i. refl));
    writers = omega (arith, weight_upto_zero writes (λ i. idle) n (λ i. refl));
    waiters = omega (arith, weight_upto_zero quicks (λ i. idle) n (λ i. refl));
  }

  Reach-Inv : {s : System} → Reach ring n s → Inv n s
  Reach-Inv (created delay) = init-Inv delay
  Reach-Inv (later r st) = Step-Inv st (Reach-Inv r)

  -- In every reachable state of `n` threads, while one thread holds the lock for writing, no other
  -- thread holds it, neither for writing nor for reading.
  pub mutual_exclusion :
      {s : System} (i j : ℕ)
      → Reach ring n s
      → i < n
      → j < n
      → s.pc i ≡ writing
      → i ≢ j
      → (s.pc j ≢ writing) × (s.pc j ≢ reading)
  mutual_exclusion {s} i j r hi hj w ne =
      let inv = Reach-Inv r in
      let one : 1 ≤ weight_upto writes s.pc n =
        rw w at (weight-le-weight_upto writes s.pc i n hi) in
      let both = weights-le-weight_upto writes s.pc i j n hi hj ne in
      let reader = weight-le-weight_upto reads s.pc j n hj in
      (
        λ e. absurd (omega (arith, rw (w, e) at both, inv.writers, inv.counted.one)),
        λ e. absurd (ground (arith, rw e at reader, inv.readers, inv.writers, inv.counted.apart)),
      )

  -- In every reachable state a thread that holds the lock for reading releases it with the result 0,
  -- and so does a thread that holds it for writing.
  pub unlock-succeeds :
      {s : System} (i : ℕ)
      → Reach ring n s
      → i < n
      → (s.pc i ≡ reading → (rwlock_read_unlock (acquire s.lock)).1 ≡ returned success)
        × (s.pc i ≡ writing → (rwlock_write_unlock (acquire s.lock)).1 ≡ returned success)
  unfolding rwlock_read_unlock rwlock_write_unlock
  unlock-succeeds {s} i r hi =
      let inv = Reach-Inv r in
      let reader = weight-le-weight_upto reads s.pc i n hi in
      let writer = weight-le-weight_upto writes s.pc i n hi in
      (
        λ e. ground (arith, rw e at reader, inv.readers, inv.counted.readers),
        λ e. ground (arith, rw e at writer, inv.writers, inv.counted.writers, inv.counted.one),
      )
