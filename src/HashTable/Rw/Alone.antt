-- ===== src/HashTable/Rw/Alone.antt =====
-- 202110421_assign5/rwlock.c: a lock that one thread alone takes and releases.
use system_programming.Base.{
  ℕ, ◌+◌, ◌-◌, ◌≡◌, refl, false, some, ◌==◌, ◌&&◌, ◌||◌, ◌%◌, if-cases, arith,
}
use system_programming.Base.Int.{pos, minus_one, is_pos, nat_le, eq_nat}
use system_programming.RwLock.{RwLock, req_read, req_write}
use system_programming.RwLock.Ring.{
  same_type, slot_matches, get_request_type, consume_entry, join_fifo, find_valid_head,
}
use system_programming.RwLock.Ops.{
  Outcome, returned, success, acquire, finish, open_batch, read_head, read_round, read_start,
  quick_start, take_write, write_head, write_round, write_start, rwlock_read_unlock,
  rwlock_write_unlock,
}
use system_programming.RwLock.Tickets.{
  find_valid_head-le, find_valid_head_bounds, extend_batch_bounds, extend_batch-first,
}

-- Nobody holds the lock or waits for it, and every ticket has been served.
pub record Idle (u : RwLock) : Type 0 where
  pub readers : u.current_readers ≡ pos 0
  pub writers : u.current_writers ≡ pos 0
  pub waiters : u.qr_waiters ≡ pos 0
  pub unlocked : u.mutex ≡ false
  pub served : u.oldest_element ≡ u.next_element
  pub batch : u.read_batch_end ≡ minus_one

-- Nobody else holds the lock or waits for it, and `t` is the last ticket, in its slot at the head.
record Ready (ring : ℕ) (u : RwLock) (t : ℕ) : Type 0 where
  readers : u.current_readers ≡ pos 0
  writers : u.current_writers ≡ pos 0
  waiters : u.qr_waiters ≡ pos 0
  head : u.oldest_element ≡ t
  last : u.next_element ≡ t + 1
  slot : u.slot_table (t % ring) ≡ pos t

-- A call has returned 0, and the release that follows leaves the lock idle.
abbrev pub Written : RwLock × Outcome → Type 0
Written r = (r.1 ≡ returned success) × Idle (rwlock_write_unlock r.0).0

abbrev pub Read : RwLock × Outcome → Type 0
Read r = (r.1 ≡ returned success) × Idle (rwlock_read_unlock r.0).0

module _ (ring : ℕ) where
  Ready-head : (u : RwLock) (t : ℕ) → Ready ring u t → find_valid_head ring u u.oldest_element ≡ t
  unfolding slot_matches
  Ready-head u t r = omega (
    arith,
    r.head,
    find_valid_head-le ring u u.oldest_element t (ground (arith, r.slot)) (omega (arith, r.head)),
    find_valid_head_bounds ring u u.oldest_element (omega (arith, r.head, r.last)),
  )

  take_write-Written : (u : RwLock) (t : ℕ) → Ready ring u t → Written (take_write ring u t)
  unfolding take_write rwlock_write_unlock consume_entry slot_matches
  take_write-Written u t r =
      let v = (consume_entry ring (record u { current_writers = pos 1 }) t).1 in
      if-cases Written (consume_entry ring (record u { current_writers = pos 1 }) t).0
        (λ ok. (
          refl,
          record {
            readers = ground (arith, r.readers);
            writers = ground arith;
            waiters = ground (arith, r.waiters);
            unlocked = ground arith;
            served =
                ground
                  (arith, r.head, r.last, find_valid_head_bounds ring v (v.oldest_element + 1));
            batch = ground arith;
          },
        ))
        (λ failed. absurd (ground (arith, r.slot)))

  write_round-Written :
      (u : RwLock) (t : ℕ)
      → Ready ring u t
      → u.request_type (t % ring) ≡ req_write
      → Written (write_round ring u t)
  unfolding write_round write_head slot_matches
  write_round-Written u t r type =
      let head = find_valid_head ring u u.oldest_element in
      let at_head = Ready-head u t r in
      if-cases Written (is_pos u.current_readers || is_pos u.current_writers || is_pos u.qr_waiters)
        (λ busy. absurd (ground (arith, r.readers, r.writers, r.waiters)))
        (λ free.
          if-cases Written (head == u.next_element)
            (λ empty. absurd (ground (arith, at_head, r.last)))
            (λ some_head.
              if-cases Written
                ((t == head)
                  && slot_matches ring (record u { oldest_element = head }) t (some req_write))
                (λ mine.
                  take_write-Written (record u { oldest_element = head }) t
                    (record {
                      readers = r.readers;
                      writers = r.writers;
                      waiters = r.waiters;
                      head = at_head;
                      last = r.last;
                      slot = r.slot;
                    }))
                (λ other. absurd (ground (arith, at_head, r.slot, type)))))

  finish-Read :
      (u : RwLock) (t : ℕ)
      → u.current_readers ≡ pos 1
      → u.current_writers ≡ pos 0
      → u.qr_waiters ≡ pos 0
      → u.oldest_element ≡ u.next_element
      → u.slot_table (t % ring) ≡ pos t
      → Read (finish ring u t)
  unfolding finish consume_entry slot_matches rwlock_read_unlock
  finish-Read u t a b c d e = (
    ground arith,
    record {
      readers = ground arith;
      writers = ground arith;
      waiters = ground arith;
      unlocked = ground arith;
      served = ground arith;
      batch = ground arith;
    },
  )

  open_batch-Read :
      (u : RwLock) (t : ℕ)
      → Ready ring u t
      → u.request_type (t % ring) ≡ req_read
      → Read (open_batch ring u t t)
  unfolding open_batch slot_matches
  open_batch-Read u t r type =
      let rounds = u.next_element - t in
      finish-Read _ t (ground (arith, r.readers)) r.writers r.waiters
        (omega (
          arith,
          r.last,
          extend_batch_bounds ring rounds u t (pos t),
          extend_batch-first ring rounds u t (pos t) (omega (arith, r.last))
              (ground (arith, r.slot, type)),
        ))
        r.slot

  read_round-Read :
      (u : RwLock) (t : ℕ)
      → Ready ring u t
      → u.request_type (t % ring) ≡ req_read
      → u.read_batch_end ≡ minus_one
      → Read (read_round ring u t)
  unfolding read_round read_head get_request_type
  read_round-Read u t r type batch =
      let head = find_valid_head ring u u.oldest_element in
      let at_head = Ready-head u t r in
      if-cases Read (is_pos u.current_writers) (λ busy. absurd (ground (arith, r.writers)))
        (λ free.
          if-cases Read (nat_le t u.read_batch_end && eq_nat u.current_writers 0)
            (λ in_batch. absurd (ground (arith, batch)))
            (λ single.
              if-cases Read (head == u.next_element)
                (λ empty. absurd (ground (arith, at_head, r.last)))
                (λ some_head.
                  if-cases Read ((t == head) && same_type (u.request_type (head % ring)) req_read)
                    (λ mine. rw at_head (
                      open_batch-Read (record u { oldest_element = t }) t
                        (record {
                          readers = r.readers;
                          writers = r.writers;
                          waiters = r.waiters;
                          head = refl;
                          last = r.last;
                          slot = r.slot;
                        })
                        type))
                    (λ other. absurd (ground (arith, at_head, type))))))

  pub write_start-Written : (u : RwLock) → Idle u → Written (write_start ring (acquire u))
  unfolding write_start join_fifo
  write_start-Written u i =
      write_round-Written _ u.next_element
        (record {
          readers = i.readers;
          writers = i.writers;
          waiters = i.waiters;
          head = i.served;
          last = refl;
          slot = ground arith;
        })
        (ground arith)

  pub read_start-Read : (u : RwLock) → Idle u → Read (read_start ring (acquire u))
  unfolding read_start join_fifo
  read_start-Read u i =
      read_round-Read _ u.next_element
        (record {
          readers = i.readers;
          writers = i.writers;
          waiters = i.waiters;
          head = i.served;
          last = refl;
          slot = ground arith;
        })
        (ground arith) i.batch

  pub quick_start-Read : (u : RwLock) → Idle u → Read (quick_start (acquire u))
  unfolding quick_start rwlock_read_unlock
  quick_start-Read u i = (
    ground (arith, i.writers),
    record {
      readers = ground (arith, i.writers, i.readers);
      writers = ground (arith, i.writers, i.readers);
      waiters = ground (arith, i.writers, i.readers, i.waiters);
      unlocked = ground (arith, i.writers, i.readers);
      served = ground (arith, i.writers, i.readers, i.served);
      batch = ground (arith, i.writers, i.readers);
    },
  )
