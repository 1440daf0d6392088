-- ===== src/RwLock/Ops.antt =====
-- 202110421_assign5/rwlock.c: the entry points. A call that may wait is split where it waits: its start,
-- up to the loop, and one round of the loop, which returns a value or waits. A round runs with the mutex
-- held, so it is one atomic step; `pthread_cond_wait` gives the mutex back until the next round.
use system_programming.Base.{
  ℕ, ◌+◌, ◌-◌, Bool, true, false, ◌&&◌, ◌||◌, not, Option, none, some, ◌==◌, if◌then◌else◌,
}
use system_programming.Base.Int.{ℤ, pos, minus_one, incr, decr, is_neg, is_pos, eq_nat, nat_le}
use system_programming.RwLock.{RwLock, req_none, req_read, req_write}
use system_programming.RwLock.Ring.{
  same_type, slot_matches, get_request_type, consume_entry, join_fifo, find_valid_head,
  extend_batch,
}

pub data Outcome : Type 0 where
  returned : ℤ → Outcome
  waits : Outcome

-- Both end with the mutex given back; a return of -1 on two paths of the source keeps it.
abbrev pub leave : RwLock → ℤ → RwLock × Outcome
leave u r = (record u { mutex = false }, returned r)

abbrev pub wait : RwLock → RwLock × Outcome
wait u = (record u { mutex = false }, waits)

abbrev pub acquire : RwLock → RwLock
acquire u = record u { mutex = true }

abbrev pub success : ℤ
success = pos 0

-- What `rwlock_init` stores.
abbrev pub initialised : ℕ → RwLock
initialised delay = record {
  current_readers = pos 0;
  current_writers = pos 0;
  delay = delay;
  mutex = false;
  next_element = 0;
  oldest_element = 0;
  qr_waiters = pos 0;
  read_batch_end = minus_one;
  request_type = λ i. req_none;
  slot_table = λ i. minus_one;
}

-- `rwlock_init`, with the results of `pthread_mutex_init`, `malloc` and `pthread_cond_init`.
unfoldable pub rwlock_init : ℕ → (mutex_ok malloc_ok cond_ok : Bool) → Option RwLock
rwlock_init delay mutex_ok malloc_ok cond_ok =
    if mutex_ok && malloc_ok && cond_ok then some (initialised delay) else none

-- `rwlock_read_lock` with `quick`: one round of the loop.
unfoldable pub quick_round : RwLock → RwLock × Outcome
quick_round u =
    if is_pos u.current_writers
    then wait u
    else leave
        (record u { qr_waiters = decr u.qr_waiters; current_readers = incr u.current_readers })
        success

unfoldable pub quick_start : RwLock → RwLock × Outcome
unfolding quick_round
quick_start u =
    if eq_nat u.current_writers 0
    then leave (record u { current_readers = incr u.current_readers }) success
    else quick_round (record u { qr_waiters = incr u.qr_waiters })

module _ (ring : ℕ) where
  -- The consumption of the own ticket, with which each call that gets the lock ends.
  unfoldable pub finish : RwLock → ℕ → RwLock × Outcome
  finish u my_turn =
      let (consumed, u') = consume_entry ring u my_turn in
      leave u' (if consumed then success else minus_one)

  -- The reader `my_turn` stands at `head` and opens a batch.
  unfoldable pub open_batch : RwLock → ℕ → ℕ → RwLock × Outcome
  open_batch u my_turn head =
      let (batch_end, head') = extend_batch ring (u.next_element - head) u head (pos my_turn) in
      finish
        (record u {
          read_batch_end = batch_end;
          oldest_element = head';
          current_readers = incr u.current_readers;
        })
        my_turn

  -- A reader outside the batch repairs the head, and opens a batch if it stands there.
  unfoldable pub read_head : RwLock → ℕ → RwLock × Outcome
  read_head u my_turn =
      let head = find_valid_head ring u u.oldest_element in
      if head == u.next_element
      then wait u
      else (let u' = record u { oldest_element = head } in
          if (my_turn == head) && same_type (get_request_type ring u' head) req_read
          then open_batch u' my_turn head
          else wait u')

  -- `rwlock_read_lock` without `quick`: one round of the loop, for the ticket `my_turn`.
  unfoldable pub read_round : RwLock → ℕ → RwLock × Outcome
  read_round u my_turn =
      if is_pos u.current_writers
      then wait u
      else if nat_le my_turn u.read_batch_end && eq_nat u.current_writers 0
      then finish (record u { current_readers = incr u.current_readers }) my_turn
      else read_head u my_turn

  unfoldable pub read_start : RwLock → RwLock × Outcome
  read_start u =
      let my_turn = u.next_element in
      let (joined, u') = join_fifo ring u my_turn req_read in
      if joined then read_round u' my_turn else (u', returned minus_one)

  -- The writer `my_turn` stands at the head and takes the lock.
  unfoldable pub take_write : RwLock → ℕ → RwLock × Outcome
  take_write u my_turn =
      let (consumed, u') = consume_entry ring (record u { current_writers = pos 1 }) my_turn in
      if consumed
      then leave
          (record u' {
            oldest_element = find_valid_head ring u' (u'.oldest_element + 1);
            read_batch_end = minus_one;
          })
          success
      else leave u' minus_one

  -- A writer that finds the lock free repairs the head, and takes the lock if it stands there.
  unfoldable pub write_head : RwLock → ℕ → RwLock × Outcome
  write_head u my_turn =
      let head = find_valid_head ring u u.oldest_element in
      let u' = record u { oldest_element = head } in
      if head == u.next_element
      then (u', returned minus_one)
      else if (my_turn == head) && slot_matches ring u' my_turn (some req_write)
      then take_write u' my_turn
      else wait u'

  -- `rwlock_write_lock`: one round of the loop.
  unfoldable pub write_round : RwLock → ℕ → RwLock × Outcome
  write_round u my_turn =
      if is_pos u.current_readers || is_pos u.current_writers || is_pos u.qr_waiters
      then wait u
      else write_head u my_turn

  unfoldable pub write_start : RwLock → RwLock × Outcome
  write_start u =
      let my_turn = u.next_element in
      let (joined, u') = join_fifo ring u my_turn req_write in
      if joined then write_round u' my_turn else leave u' minus_one

unfoldable pub rwlock_read_unlock : RwLock → RwLock × Outcome
rwlock_read_unlock v =
    let u = record v { current_readers = decr v.current_readers } in
    if is_neg u.current_readers
    then leave u minus_one
    else if is_pos u.current_readers
    then leave u success
    else leave (record u { read_batch_end = minus_one }) success

unfoldable pub rwlock_write_unlock : RwLock → RwLock × Outcome
rwlock_write_unlock v =
    let u = record v { current_writers = decr v.current_writers; read_batch_end = minus_one } in
    leave u (if is_pos u.current_writers || is_neg u.current_writers then minus_one else success)

-- The test of `rwlock_destroy`; the lock is freed where it passes.
unfoldable pub rwlock_destroy : RwLock → Option RwLock × ℤ
rwlock_destroy u =
    if is_pos u.current_readers
      || is_pos u.current_writers
      || is_pos u.qr_waiters
      || not (u.oldest_element == u.next_element)
    then (some u, minus_one)
    else (none, success)
