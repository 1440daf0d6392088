-- ===== src/RwLock/Tickets.antt =====
-- 202110421_assign5/rwlock.c: what the ring says of a ticket that a thread waits with.
pub mod Rounds
pub mod Results
pub mod Tidy
use system_programming.Base.{
  ℕ, zero, suc, ◌+◌, ◌-◌, ◌%◌, ◌≤◌, ◌<◌, ◌≡◌, ◌≢◌, ◌⊎◌, inl, inr, refl, Bool, true, false, ◌&&◌,
  not, Option, none, some, ltb, ◌==◌, if◌then◌else◌, arith, Bool-cases,
}
use native.Mathlib.Decide.{ℕ_discrete}
use system_programming.Base.Int.{ℤ, pos, negsuc, minus_one, nat_le, eq_nat}
use system_programming.RwLock.{RwLock, ReqType, req_none, req_read, req_write}
use system_programming.RwLock.System.{Pc, idle, read_waiting, write_waiting}
use system_programming.RwLock.Ring.{
  same_type, slot_matches, get_request_type, consume_entry, join_fifo, seek, find_valid_head,
  extend_batch,
}

-- Two tickets in one slot are at least a ring apart.
same_slot : (r a b : ℕ) → a < b → a % r ≡ b % r → a + r ≤ b
same_slot r a b h e = grind arith

-- Neither the head nor a batch goes past the tickets that have been given out.
abbrev pub Bounded : RwLock → Type 0
Bounded u = (u.oldest_element ≤ u.next_element) × (nat_le u.next_element u.read_batch_end ≡ false)

-- The ticket that a thread waits with.
abbrev pub ticket : Pc → Option ℕ
ticket (read_waiting t) = some t
ticket (write_waiting t) = some t
ticket _ = none

module _ (ring : ℕ) where
  -- The ring holds this ticket.
  abbrev pub Slot : RwLock → ℕ → ReqType → Type 0
  Slot u t req = (u.slot_table (t % ring) ≡ pos t) × (u.request_type (t % ring) ≡ req)

  pub slot_matches-Slot :
      (u : RwLock) (t : ℕ)
      → (Slot u t req_write
          → (slot_matches ring u t none ≡ true)
            × (slot_matches ring u t (some req_read) ≡ false)
            × (slot_matches ring u t (some req_write) ≡ true))
        × (Slot u t req_read
            → (slot_matches ring u t none ≡ true)
              × (slot_matches ring u t (some req_read) ≡ true)
              × (slot_matches ring u t (some req_write) ≡ false))
  unfolding slot_matches
  slot_matches-Slot u t = (λ s. rw (s.0, s.1) (ground arith), λ s. rw (s.0, s.1) (ground arith))

  pub Slot-slot_matches :
      (u : RwLock) (t : ℕ) → slot_matches ring u t (some req_write) ≡ true → Slot u t req_write
  unfolding slot_matches
  Slot-slot_matches u t h = ground arith

  seek-le :
      (rounds : ℕ) (u : RwLock) (head t : ℕ)
      → slot_matches ring u t none ≡ true
      → head ≤ t
      → seek ring rounds u head ≤ t
  unfolding seek
  seek-le zero u head t m h = h
  seek-le (suc rounds) u head t m h = elim (ℕ_discrete head t) [
    | yes e ↦ let m' = rw (← e) at m in ground arith
    | no apart ↦ ground (arith, seek-le rounds u (head + 1) t)
  ]

  seek_bounds :
      (rounds : ℕ) (u : RwLock) (head : ℕ)
      → (head ≤ seek ring rounds u head) × (seek ring rounds u head ≤ head + rounds)
  unfolding seek
  seek_bounds zero u head = omega arith
  seek_bounds (suc rounds) u head = ground (arith, seek_bounds rounds u (head + 1))

  -- A batch ends before a writer's slot, whatever it started from.
  pub extend_batch-stops :
      (rounds : ℕ) (u : RwLock) (head t : ℕ) (end : ℤ)
      → Slot u t req_write
      → head ≤ t
      → nat_le t end ≡ false
      → (nat_le t (extend_batch ring rounds u head end).0 ≡ false)
        × ((extend_batch ring rounds u head end).1 ≤ t)
  unfolding extend_batch
  extend_batch-stops zero u head t end s h e = (e, h)
  extend_batch-stops (suc rounds) u head t end s h e = elim (ℕ_discrete head t) [
    | yes same ↦ rw (same, ((slot_matches-Slot u t).0 s).1) (e, ground arith)
    | no apart ↦ ground (arith, extend_batch-stops rounds u (head + 1) t (pos head))
  ]

  pub extend_batch_bounds :
      (rounds : ℕ) (u : RwLock) (head : ℕ) (end : ℤ)
      → (head ≤ (extend_batch ring rounds u head end).1)
        × ((extend_batch ring rounds u head end).1 ≤ head + rounds)
  unfolding extend_batch
  extend_batch_bounds zero u head end = omega arith
  extend_batch_bounds (suc rounds) u head end =
      ground (arith, extend_batch_bounds rounds u (head + 1) (pos head))

  -- A reader at the head is in its own batch.
  pub extend_batch-first :
      (rounds : ℕ) (u : RwLock) (head : ℕ) (end : ℤ)
      → 0 < rounds
      → slot_matches ring u head (some req_read) ≡ true
      → head + 1 ≤ (extend_batch ring rounds u head end).1
  unfolding extend_batch
  extend_batch-first zero u head end h m = absurd (omega arith)
  extend_batch-first (suc rounds) u head end h m =
      rw m (extend_batch_bounds rounds u (head + 1) (pos head)).0

  pub extend_batch-below :
      (rounds : ℕ) (u : RwLock) (head m : ℕ) (end : ℤ)
      → head + rounds ≤ m
      → nat_le m end ≡ false
      → nat_le m (extend_batch ring rounds u head end).0 ≡ false
  unfolding extend_batch
  extend_batch-below zero u head m end h e = e
  extend_batch-below (suc rounds) u head m end h e =
      ground (arith, extend_batch-below rounds u (head + 1) m (pos head))

  -- A ticket in a slot is found at the latest where it stands.
  pub find_valid_head-le :
      (u : RwLock) (head t : ℕ)
      → slot_matches ring u t none ≡ true
      → head ≤ t
      → find_valid_head ring u head ≤ t
  unfolding find_valid_head
  find_valid_head-le u head t = seek-le (u.next_element - head) u head t

  pub find_valid_head_bounds :
      (u : RwLock) (head : ℕ)
      → head ≤ u.next_element
      → (head ≤ find_valid_head ring u head) × (find_valid_head ring u head ≤ u.next_element)
  unfolding find_valid_head
  find_valid_head_bounds u head h = omega (arith, seek_bounds (u.next_element - head) u head)

  -- What holds of a thread that waits with a ticket: the ticket has been given out; its slot holds it
  -- still, unless a later ticket has taken the slot; and the head has not gone past a writer, nor has a
  -- batch taken it in.
  abbrev pub Waiting : RwLock → Pc → Type 0
  Waiting u (read_waiting t) =
      (t < u.next_element) × (Slot u t req_read ⊎ (t + ring < u.next_element))
  Waiting u (write_waiting t) =
      (t < u.next_element)
      × ((Slot u t req_write × (u.oldest_element ≤ t) × (nat_le t u.read_batch_end ≡ false))
          ⊎ (t + ring < u.next_element))
  Waiting u _ = Unit {0}

  -- A new ticket.
  pub join-Waiting :
      (u : RwLock) (req : ReqType) (p : Pc)
      → Waiting u p
      → same_type req req_none ≡ false
      → Waiting (join_fifo ring u u.next_element req).1 p
  unfolding join_fifo
  join-Waiting u req (read_waiting t) w ok = ground (arith, same_slot ring t u.next_element)
  join-Waiting u req (write_waiting t) w ok = ground (arith, same_slot ring t u.next_element)
  join-Waiting u req _ w ok = tt

  -- Another thread consumes its ticket.
  pub consume-Waiting :
      (u : RwLock) (t : ℕ) (p : Pc)
      → Waiting u p
      → ticket p ≢ some t
      → Waiting (consume_entry ring u t).1 p
  unfolding consume_entry slot_matches
  consume-Waiting u t (read_waiting k) w ok = ground arith
  consume-Waiting u t (write_waiting k) w ok = ground arith
  consume-Waiting u t _ w ok = tt

  pub consume_entry-oldest :
      (u : RwLock) (t : ℕ) → (consume_entry ring u t).1.oldest_element ≡ u.oldest_element
  unfolding consume_entry
  consume_entry-oldest u t = ground arith

  pub consume_entry-next :
      (u : RwLock) (t : ℕ)
      → ((consume_entry ring u t).1.next_element ≡ u.next_element)
        × ((consume_entry ring u t).1.read_batch_end ≡ u.read_batch_end)
  unfolding consume_entry
  consume_entry-next u t = ground arith
