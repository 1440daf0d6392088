-- ===== src/RwLock/Tickets/Results.antt =====
-- 202110421_assign5/rwlock.c: what a round of a loop returns to the thread whose ticket it is about.
use system_programming.Base.{
  ℕ, ◌+◌, ◌-◌, ◌%◌, ◌≤◌, ◌<◌, ◌≡◌, ◌⊎◌, inl, refl, true, ◌&&◌, ◌||◌, none, some, ◌==◌, arith,
  if-cases,
}
use system_programming.Base.Int.{pos, nat_le, eq_nat, is_pos}
use system_programming.RwLock.{RwLock, req_read, req_write}
use system_programming.RwLock.Ring.{
  same_type, slot_matches, get_request_type, consume_entry, find_valid_head,
}
use system_programming.RwLock.Ops.{
  Outcome, returned, waits, success, finish, open_batch, read_head, write_head, read_round,
  take_write, write_round,
}
use system_programming.RwLock.Tickets.{
  Bounded, consume_entry-oldest, consume_entry-next, find_valid_head-le, find_valid_head_bounds,
  extend_batch_bounds, extend_batch-below,
}

abbrev pub Fine : RwLock × Outcome → Type 0
Fine r = (r.1 ≡ waits) ⊎ (r.1 ≡ returned success)

abbrev Keeps : RwLock × Outcome → Type 0
Keeps r = Bounded r.0

module _ (ring : ℕ) where
  finish-Fine : (u : RwLock) (t : ℕ) → slot_matches ring u t none ≡ true → Fine (finish ring u t)
  unfolding finish consume_entry
  finish-Fine u t h = ground arith

  finish-Bounded : (u : RwLock) (t : ℕ) → Bounded u → Bounded (finish ring u t).0
  unfolding finish
  finish-Bounded u t b = ground (arith, consume_entry-oldest ring u t, consume_entry-next ring u t)

  open_batch-Fine :
      (u : RwLock) (t head : ℕ)
      → slot_matches ring u t none ≡ true
      → Fine (open_batch ring u t head)
  unfolding open_batch slot_matches
  open_batch-Fine u t head h = finish-Fine _ t h

  open_batch-Bounded :
      (u : RwLock) (t head : ℕ)
      → t < u.next_element
      → head ≤ u.next_element
      → Bounded (open_batch ring u t head).0
  unfolding open_batch
  open_batch-Bounded u t head h k =
      let rounds = u.next_element - head in
      finish-Bounded _ t (
        omega (arith, extend_batch_bounds ring rounds u head (pos t)),
        extend_batch-below ring rounds u head u.next_element (pos t) (omega arith) (ground arith),
      )

  read_head-Fine :
      (u : RwLock) (t : ℕ) → slot_matches ring u t none ≡ true → Fine (read_head ring u t)
  unfolding read_head slot_matches get_request_type
  read_head-Fine u t h =
      let head = find_valid_head ring u u.oldest_element in
      if-cases Fine (head == u.next_element) (λ _. inl refl)
        (λ _.
          if-cases Fine ((t == head) && same_type (u.request_type (head % ring)) req_read)
            (λ _. open_batch-Fine _ t head h) (λ _. inl refl))

  read_head-Bounded :
      (u : RwLock) (t : ℕ) → Bounded u → t < u.next_element → Bounded (read_head ring u t).0
  unfolding read_head get_request_type
  read_head-Bounded u t b h =
      let head = find_valid_head ring u u.oldest_element in
      let bounds = find_valid_head_bounds ring u u.oldest_element b.0 in
      if-cases Keeps (head == u.next_element) (λ _. b)
        (λ _.
          if-cases Keeps ((t == head) && same_type (u.request_type (head % ring)) req_read)
            (λ _. open_batch-Bounded (record u { oldest_element = head }) t head h bounds.1)
            (λ _. (bounds.1, b.1)))

  pub read_round-Fine :
      (u : RwLock) (t : ℕ) → slot_matches ring u t none ≡ true → Fine (read_round ring u t)
  unfolding read_round slot_matches
  read_round-Fine u t h =
      if-cases Fine (is_pos u.current_writers) (λ _. inl refl)
        (λ _.
          if-cases Fine (nat_le t u.read_batch_end && eq_nat u.current_writers 0)
            (λ _. finish-Fine _ t h) (λ _. read_head-Fine u t h))

  pub read_round-Bounded :
      (u : RwLock) (t : ℕ) → Bounded u → t < u.next_element → Bounded (read_round ring u t).0
  unfolding read_round
  read_round-Bounded u t b h =
      if-cases Keeps (is_pos u.current_writers) (λ _. b)
        (λ _.
          if-cases Keeps (nat_le t u.read_batch_end && eq_nat u.current_writers 0)
            (λ _. finish-Bounded _ t b) (λ _. read_head-Bounded u t b h))

  take_write-Fine :
      (u : RwLock) (t : ℕ) → slot_matches ring u t none ≡ true → Fine (take_write ring u t)
  unfolding take_write consume_entry slot_matches
  take_write-Fine u t h = ground arith

  take_write-Bounded :
      (u : RwLock) (t : ℕ)
      → u.oldest_element < u.next_element
      → Bounded u
      → Bounded (take_write ring u t).0
  unfolding take_write
  take_write-Bounded u t h b =
      let taken = record u { current_writers = pos 1 } in
      let rest = (consume_entry ring taken t).1 in
      let same = consume_entry-next ring taken t in
      let old = consume_entry-oldest ring taken t in
      let bounds = find_valid_head_bounds ring rest (rest.oldest_element + 1) in
      if-cases Keeps (consume_entry ring taken t).0 (λ _. ((bounds (omega arith)).1, refl))
        (λ _. ground (arith, same, old))

  -- The slot of the own ticket is found, so the queue is not empty.
  write_head-Fine :
      (u : RwLock) (t : ℕ)
      → slot_matches ring u t none ≡ true
      → u.oldest_element ≤ t
      → t < u.next_element
      → Fine (write_head ring u t)
  unfolding write_head slot_matches
  write_head-Fine u t h k l =
      let head = find_valid_head ring u u.oldest_element in
      let le = find_valid_head-le ring u u.oldest_element t h k in
      if-cases Fine (head == u.next_element) (λ e. absurd (ground (arith, le)))
        (λ _.
          if-cases Fine
            ((t == head)
              && slot_matches ring (record u { oldest_element = head }) t (some req_write))
            (λ _. take_write-Fine _ t h) (λ _. inl refl))

  write_head-Bounded : (u : RwLock) (t : ℕ) → Bounded u → Bounded (write_head ring u t).0
  unfolding write_head
  write_head-Bounded u t b =
      let head = find_valid_head ring u u.oldest_element in
      let u' = record u { oldest_element = head } in
      let bounds = find_valid_head_bounds ring u u.oldest_element b.0 in
      if-cases Keeps (head == u.next_element) (λ _. (bounds.1, b.1))
        (λ apart.
          if-cases Keeps ((t == head) && slot_matches ring u' t (some req_write))
            (λ _. take_write-Bounded u' t (ground (arith, bounds.1)) (bounds.1, b.1))
            (λ _. (bounds.1, b.1)))

  pub write_round-Fine :
      (u : RwLock) (t : ℕ)
      → slot_matches ring u t none ≡ true
      → u.oldest_element ≤ t
      → t < u.next_element
      → Fine (write_round ring u t)
  unfolding write_round
  write_round-Fine u t h k l =
      if-cases Fine (is_pos u.current_readers || is_pos u.current_writers || is_pos u.qr_waiters)
        (λ _. inl refl) (λ _. write_head-Fine u t h k l)

  pub write_round-Bounded : (u : RwLock) (t : ℕ) → Bounded u → Bounded (write_round ring u t).0
  unfolding write_round
  write_round-Bounded u t b =
      if-cases Keeps (is_pos u.current_readers || is_pos u.current_writers || is_pos u.qr_waiters)
        (λ _. b) (λ _. write_head-Bounded u t b)
