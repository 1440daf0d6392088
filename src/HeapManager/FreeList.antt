-- ===== src/HeapManager/FreeList.antt =====
-- Lab3/src/heapmgr1.c: the operations on the free list and on neighbouring blocks.
use system_programming.Base.{ℕ, ◌+◌, ◌-◌, ◌&&◌, Option, none, some, ◌==◌, ltb, if◌then◌else◌}
use system_programming.HeapManager.{Heap}
use system_programming.HeapManager.Chunk.{
  chunk_free, chunk_used, chunk_get_status, chunk_set_status, chunk_get_span_units,
  chunk_set_span_units, chunk_get_next_free, chunk_get_prev_free, chunk_set_next_free,
  chunk_set_prev_free, chunk_get_adjacent, chunk_get_prev_adjacent,
}
use system_programming.HeapManager.Validity.{chunk_is_valid, ptr_eq, is_null}

-- `if (p) chunk_set_next_free(p, n)`, and the same with prev.
abbrev pub set_next_if : Heap → Option ℕ → Option ℕ → Heap
set_next_if h none n = h
set_next_if h (some p) n = chunk_set_next_free h p n

abbrev pub set_prev_if : Heap → Option ℕ → Option ℕ → Heap
set_prev_if h none p = h
set_prev_if h (some n) p = chunk_set_prev_free h n p

abbrev pub set_head : Heap → Option ℕ → Heap
set_head h p = record h { free_head = p }

-- The successor of a node that goes, stored in its predecessor or in the head.
abbrev pub bypass : Heap → ℕ → Option ℕ → Option ℕ → Heap
bypass h c none next = if ptr_eq h.free_head c then set_head h next else h
bypass h c (some p) next = chunk_set_next_free h p next

unfoldable pub freelist_unlink : Heap → ℕ → Heap
freelist_unlink h c =
    let prev = chunk_get_prev_free h c in
    let next = chunk_get_next_free h c in
    let h₁ = bypass h c prev next in
    let h₂ = set_prev_if h₁ next prev in
    let h₃ = chunk_set_prev_free h₂ c none in chunk_set_next_free h₃ c none

-- The part of `coalesce_two` behind the unlinking: `a` grows over `b`.
unfoldable pub widen : Heap → ℕ → ℕ → Option ℕ → Heap
unfolding chunk_set_span_units
widen h₁ a b an =
    let a_prev = chunk_get_prev_free h₁ a in
    let h₂ = chunk_set_span_units h₁ a (chunk_get_span_units h₁ a + chunk_get_span_units h₁ b) in
    let h₃ = chunk_set_next_free h₂ a an in
    let h₄ = set_prev_if h₃ an (some a) in
    let h₅ = chunk_set_prev_free h₄ a a_prev in if is_null a_prev then set_head h₅ (some a) else h₅

-- The two blocks in the order of their addresses.
unfoldable pub merge : Heap → ℕ → ℕ → Heap
unfolding freelist_unlink widen
merge h a b =
    let an = chunk_get_next_free h a in
    let bn = chunk_get_next_free h b in
    widen (freelist_unlink h b) a b (if ptr_eq an b then bn else an)

unfoldable pub coalesce_two : Heap → ℕ → ℕ → Heap × ℕ
coalesce_two h a b = if ltb b a then (merge h b a, b) else (merge h a b, a)

-- `c` keeps the front, what is returned is behind it.
unfoldable pub split_for_alloc : Heap → ℕ → ℕ → Heap × ℕ
unfolding chunk_set_span_units
split_for_alloc h c need_units =
    let c_prev = chunk_get_prev_free h c in
    let alloc_span = 2 + need_units in
    let remain_span = chunk_get_span_units h c - alloc_span in
    let h₁ = chunk_set_span_units h c remain_span in
    let alloc = c + chunk_get_span_units h₁ c in
    let h₂ = chunk_set_span_units h₁ alloc alloc_span in
    let h₃ = chunk_set_status h₂ alloc chunk_used in
    let h₄ = chunk_set_next_free h₃ alloc none in
    let h₅ = chunk_set_prev_free h₄ alloc none in (chunk_set_prev_free h₅ c c_prev, alloc)

-- The first part of `freelist_push_front`.
unfoldable pub push_head : Heap → ℕ → Heap
push_head h c =
    let h₁ = chunk_set_status h c chunk_free in
    let h₂ = chunk_set_prev_free h₁ c none in
    let h₃ = chunk_set_next_free h₂ c h₂.free_head in
    let h₄ = set_prev_if h₃ h₃.free_head (some c) in set_head h₄ (some c)

-- The block behind, if it is free, joins `c`.
unfoldable pub join_next : Heap → ℕ → Heap × ℕ
unfolding coalesce_two
join_next h c = elim (chunk_get_adjacent h c h.hi) [
  | none ↦ (h, c)
  | some nxt ↦ if chunk_get_status h nxt == chunk_free then coalesce_two h c nxt else (h, c)
]

-- The block in front, if it is free, takes `c` in.
unfoldable pub join_prev : Heap → ℕ → Heap
unfolding coalesce_two freelist_unlink chunk_is_valid
join_prev h c = elim (chunk_get_prev_adjacent h c h.lo) [
  | none ↦ h
  | some prv ↦
      if chunk_is_valid h prv h.lo h.hi
        && ptr_eq (chunk_get_adjacent h prv h.hi) c
        && (chunk_get_status h prv == chunk_free)
      then (let h₁ = freelist_unlink h c in
          let (h₂, survivor) = coalesce_two h₁ prv c in
          if is_null (chunk_get_prev_free h₂ survivor) then set_head h₂ (some survivor) else h₂)
      else h
]

unfoldable pub freelist_push_front : Heap → ℕ → Heap
unfolding push_head join_next join_prev
freelist_push_front h c = let h₁ = push_head h c in let (h₂, c') = join_next h₁ c in join_prev h₂ c'

-- `prev == NULL` of `freelist_detach`: the head moves on.
abbrev pub detach_front : Heap → ℕ → Option ℕ → Option ℕ → Heap
detach_front h c none next = set_prev_if (set_head h next) next none
detach_front h c (some p) next = chunk_set_next_free h p (chunk_get_next_free h c)

unfoldable pub freelist_detach : Heap → ℕ → Heap
freelist_detach h c =
    let prev = chunk_get_prev_free h c in
    let next = chunk_get_next_free h c in
    let h₁ = detach_front h c prev next in
    let h₂ = set_prev_if h₁ next prev in
    let h₃ = chunk_set_next_free h₂ c none in
    let h₄ = chunk_set_prev_free h₃ c none in chunk_set_status h₄ c chunk_used
