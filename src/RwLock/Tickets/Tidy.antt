-- ===== src/RwLock/Tickets/Tidy.antt =====
-- 202110421_assign5/rwlock.c: what any step of a thread leaves of the tickets, its own and the others'.
use system_programming.Base.{ℕ, ◌≡◌, ◌≢◌, ◌⊎◌, inl, inr, refl, false, none, some, arith}
use system_programming.Base.Int.{pos, negsuc, minus_one}
use system_programming.RwLock.{RwLock, ReqType, req_none, req_read, req_write}
use system_programming.RwLock.System.{
  Pc, idle, reading, writing, quick_waiting, read_waiting, write_waiting, Call, quick_read,
  normal_read, write, settle, advance,
}
use system_programming.RwLock.Ring.{same_type, join_fifo}
use system_programming.RwLock.Ops.{
  Outcome, returned, waits, read_round, read_start, write_round, write_start, quick_start,
  quick_round, rwlock_read_unlock, rwlock_write_unlock,
}
use system_programming.RwLock.Tickets.{Waiting, ticket, Bounded, join-Waiting}
use system_programming.RwLock.Tickets.Rounds.{After, read_round-After, write_round-After}
use system_programming.RwLock.Tickets.Results.{read_round-Bounded, write_round-Bounded}

-- A call that leaves the ring alone.
record Leaves (u u' : RwLock) : Type 0 where
  next : u'.next_element ≡ u.next_element
  oldest : u'.oldest_element ≡ u.oldest_element
  slots : u'.slot_table ≡ u.slot_table
  types : u'.request_type ≡ u.request_type
  batch : (u'.read_batch_end ≡ u.read_batch_end) ⊎ (u'.read_batch_end ≡ minus_one)

module _ (ring : ℕ) where
  Leaves-Waiting : {u u' : RwLock} (p : Pc) → Leaves u u' → Waiting ring u p → Waiting ring u' p
  Leaves-Waiting (read_waiting t) l w = rw (l.next, l.slots, l.types) w
  Leaves-Waiting {u} {u'} (write_waiting t) l w =
      rw (l.next, l.slots, l.types, l.oldest) (ground arith)
  Leaves-Waiting _ l w = tt

  Leaves-Bounded : {u u' : RwLock} → Leaves u u' → Bounded u → Bounded u'
  Leaves-Bounded l b = ground arith

  -- The state and the place of a thread after a call of the loop for its ticket.
  settle-Waiting :
      (r : RwLock × Outcome) (asleep inside : Pc)
      → ((r.1 ≡ waits) → Waiting ring r.0 asleep)
      → Waiting ring r.0 inside
      → Waiting ring (settle r asleep inside).0 (settle r asleep inside).1
  settle-Waiting (u, waits) asleep inside f g = f refl
  settle-Waiting (u, returned (pos n)) asleep inside f g = g
  settle-Waiting (u, returned (negsuc n)) asleep inside f g = tt

  settle-lock : (r : RwLock × Outcome) (asleep inside : Pc) → (settle r asleep inside).0 ≡ r.0
  settle-lock (u, waits) asleep inside = refl
  settle-lock (u, returned z) asleep inside = refl

  quick_start-Leaves : (u : RwLock) → Leaves u (quick_start u).0
  unfolding quick_start
  quick_start-Leaves u = ground arith

  quick_round-Leaves : (u : RwLock) → Leaves u (quick_round u).0
  unfolding quick_round
  quick_round-Leaves u = ground arith

  read_unlock-Leaves : (u : RwLock) → Leaves u (rwlock_read_unlock u).0
  unfolding rwlock_read_unlock
  read_unlock-Leaves u = ground arith

  write_unlock-Leaves : (u : RwLock) → Leaves u (rwlock_write_unlock u).0
  unfolding rwlock_write_unlock
  write_unlock-Leaves u = ground arith

  -- What a step of a thread at `p` leaves: the bounds, its own ticket, and those of the others.
  pub record Tidy (u : RwLock) (p : Pc) (u' : RwLock) (p' : Pc) : Type 0 where
    pub bounded : Bounded u'
    pub own : Waiting ring u' p'
    pub others :
        (k : Pc)
        → Waiting ring u k
        → ((t : ℕ) → ticket p ≡ some t → ticket k ≢ some t)
        → Waiting ring u' k
    pub fresh :
        (ticket p' ≡ none)
        ⊎ (ticket p' ≡ ticket p)
        ⊎ ((ticket p ≡ none) × (ticket p' ≡ some u.next_element))

  Leaves-Tidy :
      (u : RwLock) (p : Pc) (r : RwLock × Outcome) (asleep inside : Pc)
      → Leaves u r.0
      → Bounded u
      → Waiting ring r.0 asleep
      → Waiting ring r.0 inside
      → ticket asleep ≡ none
      → ticket inside ≡ none
      → Tidy u p (settle r asleep inside).0 (settle r asleep inside).1
  Leaves-Tidy u p (v, out) asleep inside l b wa wi ta ti = record {
    bounded = rw (settle-lock (v, out) asleep inside) (Leaves-Bounded l b);
    own = settle-Waiting (v, out) asleep inside (λ _. wa) wi;
    others = λ k w apart. rw (settle-lock (v, out) asleep inside) (Leaves-Waiting k l w);
    fresh = inl (ground arith);
  }

  -- A round for the ticket `t` of a thread that waits.
  round-Tidy :
      (u : RwLock) (t : ℕ) (r : RwLock × Outcome) (asleep inside : Pc)
      → ticket asleep ≡ some t
      → ticket inside ≡ none
      → Waiting ring r.0 inside
      → ((k : Pc) → Waiting ring u k → After ring t k r)
      → Bounded r.0
      → Waiting ring u asleep
      → Tidy u asleep (settle r asleep inside).0 (settle r asleep inside).1
  round-Tidy u t (v, out) asleep inside ea ei wi after b w = record {
    bounded = rw (settle-lock (v, out) asleep inside) b;
    own = settle-Waiting (v, out) asleep inside (λ e. after asleep w (inl e)) wi;
    others = λ k wk apart. rw (settle-lock (v, out) asleep inside) (after k wk (inr (apart t ea)));
    fresh = ground arith;
  }

  -- The first round, behind `join_fifo`, of a thread that was idle.
  start-Tidy :
      (u : RwLock) (req : ReqType) (r : RwLock × Outcome) (asleep inside : Pc)
      → same_type req req_none ≡ false
      → ticket asleep ≡ some u.next_element
      → ticket inside ≡ none
      → Waiting ring r.0 inside
      → ((k : Pc)
          → Waiting ring (join_fifo ring u u.next_element req).1 k
          → After ring u.next_element k r)
      → Bounded r.0
      → Waiting ring (join_fifo ring u u.next_element req).1 asleep
      → Tidy u idle (settle r asleep inside).0 (settle r asleep inside).1
  start-Tidy u req (v, out) asleep inside ok ea ei wi after b w = record {
    bounded = rw (settle-lock (v, out) asleep inside) b;
    own = settle-Waiting (v, out) asleep inside (λ e. after asleep w (inl e)) wi;
    others = λ k wk apart.
        rw (settle-lock (v, out) asleep inside)
          (after k (join-Waiting ring u req k wk ok) (inr (later_ticket k wk)));
    fresh = ground arith;
  }
    where
      later_ticket : (k : Pc) → Waiting ring u k → ticket k ≢ some u.next_element
      later_ticket (read_waiting t) wk = ground arith
      later_ticket (write_waiting t) wk = ground arith
      later_ticket _ wk = λ e. cc

  joined-Bounded :
      (u : RwLock) (req : ReqType) → Bounded u → Bounded (join_fifo ring u u.next_element req).1
  unfolding join_fifo
  joined-Bounded u req b = ground arith

  read_start-Tidy :
      (u : RwLock)
      → Bounded u
      → Tidy u idle
          (settle (read_start ring u) (read_waiting u.next_element) reading).0
          (settle (read_start ring u) (read_waiting u.next_element) reading).1
  unfolding read_start join_fifo
  read_start-Tidy u b =
      let t = u.next_element in
      let v = (join_fifo ring u t req_read).1 in
      start-Tidy u req_read (read_round ring v t) (read_waiting t) reading refl refl refl tt
        (λ k w. read_round-After ring v t k w)
        (read_round-Bounded ring v t (joined-Bounded u req_read b) (omega arith)) (ground arith)

  write_start-Tidy :
      (u : RwLock)
      → Bounded u
      → Tidy u idle
          (settle (write_start ring u) (write_waiting u.next_element) writing).0
          (settle (write_start ring u) (write_waiting u.next_element) writing).1
  unfolding write_start join_fifo
  write_start-Tidy u b =
      let t = u.next_element in
      let v = (join_fifo ring u t req_write).1 in
      start-Tidy u req_write (write_round ring v t) (write_waiting t) writing refl refl refl tt
        (λ k w. write_round-After ring v t k w)
        (write_round-Bounded ring v t (joined-Bounded u req_write b)) (ground arith)

  -- Every step of a thread is tidy.
  pub advance-Tidy :
      (call : Call) (p : Pc) (u : RwLock)
      → Bounded u
      → Waiting ring u p
      → Tidy u p (advance ring call p u).0 (advance ring call p u).1
  unfolding advance
  advance-Tidy quick_read idle u b w =
      Leaves-Tidy u idle (quick_start u) quick_waiting reading (quick_start-Leaves u) b tt tt refl
        refl
  advance-Tidy normal_read idle u b w = read_start-Tidy u b
  advance-Tidy write idle u b w = write_start-Tidy u b
  advance-Tidy _ quick_waiting u b w =
      Leaves-Tidy u quick_waiting (quick_round u) quick_waiting reading (quick_round-Leaves u) b tt
        tt refl refl
  advance-Tidy _ (read_waiting t) u b w =
      round-Tidy u t (read_round ring u t) (read_waiting t) reading refl refl tt
        (λ k v. read_round-After ring u t k v) (read_round-Bounded ring u t b w.0) w
  advance-Tidy _ (write_waiting t) u b w =
      round-Tidy u t (write_round ring u t) (write_waiting t) writing refl refl tt
        (λ k v. write_round-After ring u t k v) (write_round-Bounded ring u t b) w
  advance-Tidy _ reading u b w =
      Leaves-Tidy u reading (rwlock_read_unlock u) idle idle (read_unlock-Leaves u) b tt tt refl
        refl
  advance-Tidy _ writing u b w =
      Leaves-Tidy u writing (rwlock_write_unlock u) idle idle (write_unlock-Leaves u) b tt tt refl
        refl
