-- ===== src/HeapManager/Alloc.antt =====
-- Lab3/src/heapmgr1.c: `heapmgr_malloc` and `heapmgr_free`. `sbrk` grants or refuses, by the arguments of
-- type `Bool`; nothing else moves the program break.
use system_programming.Base.{
  ℕ, zero, suc, ◌+◌, ◌-◌, ◌/◌, ◌%◌, ◌^◌, Bool, Option, none, some, ◌==◌, ltb, leb, true,
  if◌then◌else◌,
}
use system_programming.HeapManager.{Heap}
use system_programming.HeapManager.Chunk.{
  chunk_free, chunk_unit, chunk_get_span_units, chunk_set_span_units, chunk_set_status,
  chunk_set_next_free, chunk_set_prev_free, chunk_get_next_free,
}
use system_programming.HeapManager.FreeList.{split_for_alloc, freelist_push_front, freelist_detach}

-- The sum is of type `size_t`.
unfoldable pub bytes_to_payload_units : ℕ → ℕ
bytes_to_payload_units bytes = (bytes + (chunk_unit - 1)) % 2 ^ 64 / chunk_unit

abbrev pub header_from_payload : ℕ → ℕ
header_from_payload p = p - 1

unfoldable pub heap_bootstrap : Heap → Heap
heap_bootstrap h =
    if h.booted then h else record h { lo = h.program_break; hi = h.program_break; booted = true }

abbrev pub sys_min_alloc_units : ℕ
sys_min_alloc_units = 1024

abbrev pub grow_span : ℕ → ℕ
grow_span need_units =
    2 + (if ltb need_units sys_min_alloc_units then sys_min_alloc_units else need_units)

-- The block that is returned is the one that `sbrk` gave, also where it was joined with another.
unfoldable pub sys_grow_and_link : Bool → Heap → ℕ → Heap × Option ℕ
unfolding chunk_set_span_units freelist_push_front
sys_grow_and_link granted h need_units =
    if granted
    then (let c = h.program_break in
        let brk = c + grow_span need_units in
        let h₁ = record h { program_break = brk; hi = brk } in
        let h₂ = chunk_set_span_units h₁ c (grow_span need_units) in
        let h₃ = chunk_set_next_free h₂ c none in
        let h₄ = chunk_set_prev_free h₃ c none in
        let h₅ = chunk_set_status h₄ c chunk_free in (freelist_push_front h₅ c, some c))
    else (h, none)

-- A block that is large enough is split if the rest can be a block, and taken whole otherwise. The result
-- is the payload.
unfoldable pub take_block : Heap → ℕ → ℕ → Heap × ℕ
unfolding split_for_alloc freelist_detach
take_block h cur need_units =
    if leb (2 + need_units + 2) (chunk_get_span_units h cur)
    then (let (h', alloc) = split_for_alloc h cur need_units in (h', alloc + 1))
    else (freelist_detach h cur, cur + 1)

-- The scan: the first block that fits; the outer `none` is for fuel that ran out.
unfoldable pub first_fit : ℕ → Heap → Option ℕ → ℕ → Option (Option ℕ)
first_fit fuel h none need_units = some none
first_fit zero h (some cur) need_units = none
first_fit (suc fuel) h (some cur) need_units =
    let onward = first_fit fuel h (chunk_get_next_free h cur) need_units in
    if leb need_units (chunk_get_span_units h cur - 2) then some (some cur) else onward

-- The part of `heapmgr_malloc` behind the scan.
unfoldable pub grow_and_take : Bool → Heap → ℕ → Heap × Option ℕ
unfolding sys_grow_and_link take_block
grow_and_take granted h need_units =
    let (h', grown) = sys_grow_and_link granted h need_units in
    elim grown [
      | none ↦ (h', none)
      | some cur ↦ (let (h'', p) = take_block h' cur need_units in (h'', some p))
    ]

unfoldable pub heapmgr_malloc : ℕ → Bool → Heap → ℕ → Option (Heap × Option ℕ)
unfolding bytes_to_payload_units heap_bootstrap first_fit grow_and_take take_block
heapmgr_malloc fuel granted h size =
    if size == 0
    then some (h, none)
    else (let h₁ = heap_bootstrap h in
        let need_units = bytes_to_payload_units size in
        elim (first_fit fuel h₁ h₁.free_head need_units) [
          | none ↦ none
          | some none ↦ some (grow_and_take granted h₁ need_units)
          | some (some cur) ↦ (let (h₂, p) = take_block h₁ cur need_units in some (h₂, some p))
        ])

unfoldable pub heapmgr_free : Heap → Option ℕ → Heap
unfolding freelist_push_front
heapmgr_free h none = h
heapmgr_free h (some p) = freelist_push_front h (header_from_payload p)
