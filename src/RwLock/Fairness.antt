-- ===== src/RwLock/Fairness.antt =====
-- 202110421_assign5/rwlock.c: no call fails in its loop, and no later reader overtakes a writer.
use system_programming.Base.{
  ℕ, ◌+◌, ◌≤◌, ◌<◌, ◌≡◌, inl, inr, refl, false, some, ◌==◌, arith, if-cases,
}
use system_programming.Base.Int.{nat_le}
use system_programming.RwLock.{RwLock, req_read, req_write}
use system_programming.RwLock.System.{
  Pc, idle, read_waiting, write_waiting, advance, System, Step, pick, Reach, created, later,
}
use system_programming.RwLock.Ring.{find_valid_head}
use system_programming.RwLock.Ops.{waits, acquire, read_head, write_head, read_round, write_round}
use system_programming.RwLock.Tickets.{
  Slot, Waiting, ticket, Bounded, slot_matches-Slot, find_valid_head-le,
}
use system_programming.RwLock.Tickets.Results.{Fine, read_round-Fine, write_round-Fine}
use system_programming.RwLock.Tickets.Tidy.{Tidy, advance-Tidy}

module _ (ring n : ℕ) where
  record Queued (s : System) : Type 0 where
    bounded : Bounded s.lock
    waiting : (i : ℕ) → Waiting ring s.lock (s.pc i)
    unique : (i j t : ℕ) → ticket (s.pc i) ≡ some t → ticket (s.pc j) ≡ some t → i ≡ j

  Waiting-acquire : (u : RwLock) (p : Pc) → Waiting ring u p → Waiting ring (acquire u) p
  Waiting-acquire u (read_waiting t) w = w
  Waiting-acquire u (write_waiting t) w = w
  Waiting-acquire u _ w = tt

  ticket-lt :
      (u : RwLock) (p : Pc) (t : ℕ) → Waiting ring u p → ticket p ≡ some t → t < u.next_element
  ticket-lt u (read_waiting k) t w e = ground arith
  ticket-lt u (write_waiting k) t w e = ground arith
  ticket-lt u idle t w e = absurd (cc e)
  ticket-lt u _ t w e = absurd (cc e)

  Step-Queued : {s t : System} → Step ring n s t → Queued s → Queued t
  Step-Queued {s} (pick i call lt free) q =
      let u = acquire s.lock in
      let u' = (advance ring call (s.pc i) u).0 in
      let p' = (advance ring call (s.pc i) u).1 in
      let tidy : Tidy ring u (s.pc i) u' p' =
        advance-Tidy ring call (s.pc i) u q.bounded
          (Waiting-acquire s.lock (s.pc i) (q.waiting i)) in
      record {
        bounded = tidy.bounded;
        waiting = λ j.
            if-cases (Waiting ring u') (i == j) (λ same. tidy.own)
              (λ other.
                tidy.others (s.pc j) (Waiting-acquire s.lock (s.pc j) (q.waiting j))
                  (λ k e f. ground (arith, q.unique i j k e f)));
        unique = λ j k t e f. ground (
          arith,
          tidy.fresh,
          q.unique i j t,
          q.unique i k t,
          q.unique j k t,
          ticket-lt s.lock (s.pc j) t (q.waiting j),
          ticket-lt s.lock (s.pc k) t (q.waiting k),
        );
      }

  Reach-Queued : {s : System} → Reach ring n s → Queued s
  Reach-Queued (created delay) = record {
    bounded = (omega arith, refl);
    waiting = λ i. tt;
    unique = λ i j t e f. cc;
  }
  Reach-Queued (later r st) = Step-Queued st (Reach-Queued r)

  -- In every reachable state, a thread that waits with a ticket `t`, while fewer than a ring of tickets
  -- have been given out since, is never turned away by its next round: the round makes it wait on, or
  -- returns 0 with the lock.
  pub waiting-Fine :
      {s : System} (i t : ℕ)
      → Reach ring n s
      → s.lock.next_element ≤ t + ring
      → (s.pc i ≡ read_waiting t → Fine (read_round ring (acquire s.lock) t))
        × (s.pc i ≡ write_waiting t → Fine (write_round ring (acquire s.lock) t))
  waiting-Fine {s} i t r room =
      let u = acquire s.lock in
      let q = Reach-Queued r in
      (
        λ e.
            let w = rw e at (q.waiting i) in
            let slot : Slot ring u t req_read = elim w.1 [
              | inl a ↦ a
              | inr b ↦ absurd (omega arith)
            ] in
            read_round-Fine ring u t ((slot_matches-Slot ring u t).1 slot).0,
        λ e.
            let w = rw e at (q.waiting i) in
            let kept : Slot ring u t req_write
                × (u.oldest_element ≤ t)
                × (nat_le t u.read_batch_end ≡ false) =
              elim w.1 [ inl a ↦ a | inr b ↦ absurd (omega arith) ] in
            write_round-Fine ring u t ((slot_matches-Slot ring u t).0 kept.0).0 kept.1 w.0,
      )

  -- What the invariant says of a writer whose slot cannot have been taken.
  writer-kept :
      {s : System} (i t : ℕ)
      → Reach ring n s
      → s.lock.next_element ≤ t + ring
      → s.pc i ≡ write_waiting t
      → (t < s.lock.next_element)
        × (find_valid_head ring (acquire s.lock) s.lock.oldest_element ≤ t)
        × (nat_le t s.lock.read_batch_end ≡ false)
  writer-kept {s} i t r room e =
      let u = acquire s.lock in
      let w = rw e at ((Reach-Queued r).waiting i) in
      let kept : Slot ring u t req_write
          × (u.oldest_element ≤ t)
          × (nat_le t u.read_batch_end ≡ false) =
        elim w.1 [ inl a ↦ a | inr b ↦ absurd (omega arith) ] in
      let found = ((slot_matches-Slot ring u t).0 kept.0).0 in
      (w.0, find_valid_head-le ring u u.oldest_element t found kept.1, kept.2)

  -- In every reachable state, while a writer waits with a ticket `t` and fewer than a ring of tickets
  -- have been given out since, the next round of a normal reader or of a writer with a later ticket
  -- makes it wait on.
  pub writer-first :
      {s : System} (i j t k : ℕ)
      → Reach ring n s
      → s.lock.next_element ≤ t + ring
      → s.pc i ≡ write_waiting t
      → t < k
      → (s.pc j ≡ read_waiting k → (read_round ring (acquire s.lock) k).1 ≡ waits)
        × (s.pc j ≡ write_waiting k → (write_round ring (acquire s.lock) k).1 ≡ waits)
  unfolding read_round read_head write_round write_head
  writer-first {s} i j t k r room e h =
      let (given, found, unbatched) = writer-kept i t r room e in
      (λ f. ground (arith, found, unbatched), λ f. ground (arith, found))
