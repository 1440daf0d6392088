-- ===== src/RwLock/Tickets/Rounds.antt =====
-- 202110421_assign5/rwlock.c: what a round of a loop does to the tickets of the threads that wait.
use system_programming.Base.{
  ℕ, ◌+◌, ◌-◌, ◌%◌, ◌≡◌, ◌≢◌, ◌⊎◌, inl, inr, refl, ◌&&◌, ◌||◌, some, ◌==◌, arith, if-cases,
}
use system_programming.Base.Int.{pos, minus_one, nat_le, eq_nat, is_pos, incr}
use system_programming.RwLock.{RwLock, req_read, req_write}
use system_programming.RwLock.System.{Pc, read_waiting, write_waiting}
use system_programming.RwLock.Ring.{
  same_type, slot_matches, get_request_type, consume_entry, find_valid_head, extend_batch,
}
use system_programming.RwLock.Ops.{
  Outcome, waits, finish, open_batch, read_head, write_head, read_round, take_write, write_round,
}
use system_programming.RwLock.Tickets.{
  Waiting, ticket, consume_entry-oldest, consume-Waiting, slot_matches-Slot, find_valid_head-le,
  extend_batch-stops,
}

module _ (ring : ℕ) where
  -- The head is repaired.
  abbrev pub repaired : RwLock → RwLock
  repaired u = record u { oldest_element = find_valid_head ring u u.oldest_element }

  pub repaired-Waiting : (u : RwLock) (p : Pc) → Waiting ring u p → Waiting ring (repaired u) p
  repaired-Waiting u (write_waiting t) w =
      ground (arith, (slot_matches-Slot ring u t).0, find_valid_head-le ring u u.oldest_element t)
  repaired-Waiting u (read_waiting t) w = w
  repaired-Waiting u _ w = tt

  -- After this outcome of a round for the ticket `t`, a thread at `p` is as before: `p` is another
  -- thread's place, or the round has ended in a wait.
  abbrev pub After : ℕ → Pc → RwLock × Outcome → Type 0
  After t p r = (r.1 ≡ waits) ⊎ (ticket p ≢ some t) → Waiting ring r.0 p

  finish-After : (u : RwLock) (t : ℕ) (p : Pc) → Waiting ring u p → After t p (finish ring u t)
  unfolding finish
  finish-After u t p w (inl e) = absurd (cc e)
  finish-After u t (read_waiting k) w (inr ok) = consume-Waiting ring u t (read_waiting k) w ok
  finish-After u t (write_waiting k) w (inr ok) = consume-Waiting ring u t (write_waiting k) w ok
  finish-After u t _ w (inr ok) = tt

  abbrev batched : RwLock → ℕ → RwLock
  batched u t = record u {
    read_batch_end = (extend_batch ring (u.next_element - t) u t (pos t)).0;
    oldest_element = (extend_batch ring (u.next_element - t) u t (pos t)).1;
    current_readers = incr u.current_readers;
  }

  batched-Waiting :
      (u : RwLock) (t : ℕ) (p : Pc)
      → Waiting ring u p
      → u.oldest_element ≡ t
      → u.request_type (t % ring) ≡ req_read
      → Waiting ring (batched u t) p
  batched-Waiting u t (read_waiting k) w e k' = w
  batched-Waiting u t (write_waiting k) w e f =
      ground (arith, extend_batch-stops ring (u.next_element - t) u t k (pos t))
  batched-Waiting u t _ w e f = tt

  open_batch-After :
      (u : RwLock) (t head : ℕ) (p : Pc)
      → Waiting ring u p
      → t ≡ head
      → u.oldest_element ≡ head
      → u.request_type (head % ring) ≡ req_read
      → After t p (open_batch ring u t head)
  unfolding open_batch
  open_batch-After u t head p w same e f =
      rw (← same) (finish-After (batched u t) t p (batched-Waiting u t p w (rw same e) (rw same f)))

  read_head-After :
      (u : RwLock) (t : ℕ) (p : Pc) → Waiting ring u p → After t p (read_head ring u t)
  unfolding read_head get_request_type
  read_head-After u t p w =
      let head = find_valid_head ring u u.oldest_element in
      let type = u.request_type (head % ring) in
      if-cases (After t p) (head == u.next_element) (λ empty _. w)
        (λ some_head.
          if-cases (After t p) ((t == head) && same_type type req_read)
            (λ mine.
              open_batch-After (repaired u) t head p (repaired-Waiting u p w) (ground arith) refl
                (ground (arith, mine)))
            (λ not_mine _. repaired-Waiting u p w))

  pub read_round-After :
      (u : RwLock) (t : ℕ) (p : Pc) → Waiting ring u p → After t p (read_round ring u t)
  unfolding read_round
  read_round-After u t p w =
      if-cases (After t p) (is_pos u.current_writers) (λ busy _. w)
        (λ free.
          if-cases (After t p) (nat_le t u.read_batch_end && eq_nat u.current_writers 0)
            (λ batch. finish-After (record u { current_readers = incr u.current_readers }) t p w)
            (λ single. read_head-After u t p w))

  -- The head moves behind the ticket of a writer that takes the lock.
  abbrev passed : RwLock → RwLock
  passed u = record u {
    oldest_element = find_valid_head ring u (u.oldest_element + 1);
    read_batch_end = minus_one;
  }

  passed-Waiting :
      (u : RwLock) (p : Pc)
      → Waiting ring u p
      → ticket p ≢ some u.oldest_element
      → Waiting ring (passed u) p
  passed-Waiting u (write_waiting k) w ok =
      ground
        (arith, (slot_matches-Slot ring u k).0, find_valid_head-le ring u (u.oldest_element + 1) k)
  passed-Waiting u (read_waiting k) w ok = w
  passed-Waiting u _ w ok = tt

  take_write-After :
      (u : RwLock) (t : ℕ) (p : Pc)
      → Waiting ring u p
      → u.oldest_element ≡ t
      → After t p (take_write ring u t)
  unfolding take_write
  take_write-After u t p w e =
      let taken = record u { current_writers = pos 1 } in
      let rest = (consume_entry ring taken t).1 in
      if-cases (After t p) (consume_entry ring taken t).0
        (λ ok. λ h. elim h [
          | inl stays ↦ absurd (cc stays)
          | inr other ↦
              passed-Waiting rest p (consume_after taken w other)
                (rw (consume_entry-oldest ring taken t, e) other)
        ])
        (λ failed.
          λ h. elim h [ inl stays ↦ absurd (cc stays) | inr other ↦ consume_after taken w other ])
    where
      consume_after :
          (v : RwLock)
          → Waiting ring v p
          → ticket p ≢ some t
          → Waiting ring (consume_entry ring v t).1 p
      consume_after v = consume-Waiting ring v t p

  write_head-After :
      (u : RwLock) (t : ℕ) (p : Pc) → Waiting ring u p → After t p (write_head ring u t)
  unfolding write_head
  write_head-After u t p w =
      let head = find_valid_head ring u u.oldest_element in
      if-cases (After t p) (head == u.next_element) (λ empty _. repaired-Waiting u p w)
        (λ some_head.
          if-cases (After t p) ((t == head) && slot_matches ring (repaired u) t (some req_write))
            (λ mine. take_write-After (repaired u) t p (repaired-Waiting u p w) (ground arith))
            (λ not_mine _. repaired-Waiting u p w))

  pub write_round-After :
      (u : RwLock) (t : ℕ) (p : Pc) → Waiting ring u p → After t p (write_round ring u t)
  unfolding write_round
  write_round-After u t p w =
      if-cases (After t p)
        (is_pos u.current_readers || is_pos u.current_writers || is_pos u.qr_waiters) (λ busy _. w)
        (λ free. write_head-After u t p w)
