-- ===== src/RwLock/Ring.antt =====
-- 202110421_assign5/rwlock.c: the helper functions over the ring of tickets.
use system_programming.Base.{
  ℕ, zero, suc, ◌+◌, ◌-◌, ◌%◌, Bool, true, false, ◌&&◌, not, Option, none, some, ltb, if◌then◌else◌,
}
use system_programming.Base.Int.{ℤ, pos, minus_one, eq_nat}
use system_programming.Base.Family.{update}
use system_programming.RwLock.{RwLock, ReqType, req_none, req_read, req_write}

abbrev pub same_type : ReqType → ReqType → Bool
same_type req_none req_none = true
same_type req_read req_read = true
same_type req_write req_write = true
same_type _ _ = false

-- WRITER_RING_SIZE stands in a header that is not in the repository.
module _ (ring : ℕ) where
  -- `none` is the request type -1, which every entry matches.
  unfoldable pub slot_matches : RwLock → ℕ → Option ReqType → Bool
  slot_matches u num none = eq_nat (u.slot_table (num % ring)) num
  slot_matches u num (some req) =
      eq_nat (u.slot_table (num % ring)) num && same_type (u.request_type (num % ring)) req

  unfoldable pub get_request_type : RwLock → ℕ → ReqType
  get_request_type u num = u.request_type (num % ring)

  unfoldable pub consume_entry : RwLock → ℕ → Bool × RwLock
  consume_entry u num =
      if slot_matches u num none
      then (
        true,
        record u {
          slot_table = update u.slot_table (num % ring) minus_one;
          request_type = update u.request_type (num % ring) req_none;
        },
      )
      else (false, u)

  -- A request of type REQ_NONE is refused, after the ticket has been taken.
  unfoldable pub join_fifo : RwLock → ℕ → ReqType → Bool × RwLock
  join_fifo u num req =
      let u' = record u {
        next_element = u.next_element + 1;
        slot_table = update u.slot_table (num % ring) (pos num);
      } in
      if same_type req req_none
      then (false, u')
      else (true, record u' { request_type = update u.request_type (num % ring) req })

  -- The `while` of `find_valid_head`: it ends at `next_element` at the latest, which the rounds allow.
  unfoldable pub seek : ℕ → RwLock → ℕ → ℕ
  seek zero u head = head
  seek (suc rounds) u head =
      let onward = seek rounds u (head + 1) in
      if ltb head u.next_element && not (slot_matches u head none) then onward else head

  unfoldable pub find_valid_head : RwLock → ℕ → ℕ
  unfolding seek
  find_valid_head u head = seek (u.next_element - head) u head

  -- The loop that extends a batch over the readers in front: the new `read_batch_end` and `head`.
  unfoldable pub extend_batch : ℕ → RwLock → ℕ → ℤ → ℤ × ℕ
  extend_batch zero u head end = (end, head)
  extend_batch (suc rounds) u head end =
      let onward = extend_batch rounds u (head + 1) (pos head) in
      if slot_matches u head (some req_read) then onward else (end, head)
