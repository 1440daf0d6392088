-- ===== src/HeapManager/Bins.antt =====
-- Lab3/src/heapmgr2.c: the second heap manager, with the free blocks in bins by their span. The memory is that
-- of the first one, whose `free_head` is not used, and so are `bytes_to_payload_units`, `heap_bootstrap` and
-- `split_for_alloc`, which the two files have alike. Assertions are compiled out, as in the builds
-- with NDEBUG.
pub mod Index
pub mod Search
pub mod Taken
pub mod Malloc
pub mod Frame
pub mod Detach
pub mod Link
use system_programming.Base.{
  ℕ, zero, suc, ◌+◌, ◌-◌, ◌&&◌, Bool, Option, none, some, ◌==◌, ltb, leb, if◌then◌else◌,
}
use system_programming.Base.Family.{update}
use system_programming.HeapManager.{Heap}
use system_programming.HeapManager.Chunk.{
  chunk_free, chunk_used, chunk_get_status, chunk_set_status, chunk_get_span_units,
  chunk_set_span_units, chunk_get_next_free, chunk_get_prev_free, chunk_set_next_free,
  chunk_set_prev_free, chunk_get_adjacent, chunk_get_prev_adjacent,
}
use system_programming.HeapManager.Validity.{chunk_is_valid, ptr_eq}
use system_programming.HeapManager.FreeList.{set_prev_if, split_for_alloc}
use system_programming.HeapManager.Alloc.{
  bytes_to_payload_units, header_from_payload, heap_bootstrap, grow_span, first_fit,
}

abbrev pub num_bins : ℕ
num_bins = 10

-- `s_bins`, of which the first `num_bins` are used.
pub record BinHeap : Type 0 where
  pub heap : Heap
  pub bins : ℕ → Option ℕ

unfoldable pub get_bin_index : ℕ → ℕ
get_bin_index span_units =
    if ltb span_units 8
    then 0
    else if ltb span_units 16
    then 1
    else if ltb span_units 32
    then 2
    else if ltb span_units 64
    then 3
    else if ltb span_units 128
    then 4
    else if ltb span_units 256
    then 5
    else if ltb span_units 512
    then 6
    else if ltb span_units 1024
    then 7
    else if ltb span_units 2048
    then 8
    else 9

-- The successor of a block that goes, stored in its bin or in its predecessor.
unfoldable pub bypass_in_bin : BinHeap → ℕ → Option ℕ → Option ℕ → BinHeap
unfolding get_bin_index
bypass_in_bin b c none next =
    let bin_index = get_bin_index (chunk_get_span_units b.heap c) in
    record b { bins = update b.bins bin_index next; heap = set_prev_if b.heap next none }
bypass_in_bin b c (some p) next =
    let h = chunk_set_next_free b.heap p next in record b { heap = set_prev_if h next (some p) }

unfoldable pub bin_detach : BinHeap → ℕ → BinHeap
unfolding bypass_in_bin
bin_detach b c =
    let b' = bypass_in_bin b c (chunk_get_prev_free b.heap c) (chunk_get_next_free b.heap c) in
    let h = chunk_set_next_free b'.heap c none in record b' { heap = chunk_set_prev_free h c none }

-- `a` grows over `b`, which is behind it.
unfoldable pub cover : Heap → ℕ → ℕ → Heap
unfolding chunk_set_span_units
cover h a b =
    let h₁ = chunk_set_span_units h a (chunk_get_span_units h a + chunk_get_span_units h b) in
    let h₂ = chunk_set_prev_free h₁ a none in chunk_set_next_free h₂ a none

unfoldable pub coalesce_two : Heap → ℕ → ℕ → Heap × ℕ
unfolding cover
coalesce_two h a b = if ltb b a then (cover h b a, b) else (cover h a b, a)

-- The block behind, if it is free, leaves its bin and joins `c`.
unfoldable pub absorb_next : BinHeap → ℕ → BinHeap × ℕ
unfolding bin_detach coalesce_two
absorb_next b c = elim (chunk_get_adjacent b.heap c b.heap.hi) [
  | none ↦ (b, c)
  | some nxt ↦
      if chunk_get_status b.heap nxt == chunk_free
      then (let b' = bin_detach b nxt in
          let (h, c') = coalesce_two b'.heap c nxt in (record b' { heap = h }, c'))
      else (b, c)
]

-- The block in front, if it is free, leaves its bin and takes `c` in.
unfoldable pub absorb_prev : BinHeap → ℕ → BinHeap × ℕ
unfolding bin_detach coalesce_two chunk_is_valid
absorb_prev b c = elim (chunk_get_prev_adjacent b.heap c b.heap.lo) [
  | none ↦ (b, c)
  | some prv ↦
      if chunk_is_valid b.heap prv b.heap.lo b.heap.hi
        && ptr_eq (chunk_get_adjacent b.heap prv b.heap.hi) c
        && (chunk_get_status b.heap prv == chunk_free)
      then (let b' = bin_detach b prv in
          let (h, c') = coalesce_two b'.heap prv c in (record b' { heap = h }, c'))
      else (b, c)
]

-- In front of the other blocks of its bin.
unfoldable pub link_in_bin : BinHeap → ℕ → BinHeap
unfolding get_bin_index
link_in_bin b c =
    let bin_index = get_bin_index (chunk_get_span_units b.heap c) in
    let h₁ = chunk_set_prev_free b.heap c none in
    let h₂ = chunk_set_next_free h₁ c (b.bins bin_index) in
    record {
      heap = set_prev_if h₂ (b.bins bin_index) (some c);
      bins = update b.bins bin_index (some c);
    }

unfoldable pub bin_push_front : BinHeap → ℕ → BinHeap
unfolding absorb_next absorb_prev link_in_bin
bin_push_front b c =
    let h₁ = chunk_set_status b.heap c chunk_free in
    let h₂ = chunk_set_prev_free h₁ c none in
    let h₃ = chunk_set_next_free h₂ c none in
    let (b₁, c₁) = absorb_next (record b { heap = h₃ }) c in
    let (b₂, c₂) = absorb_prev b₁ c₁ in link_in_bin b₂ c₂

-- The block is found again in its bin, so that only the answer of `sbrk` is returned.
unfoldable pub sys_grow_and_link : Bool → BinHeap → ℕ → BinHeap × Bool
unfolding chunk_set_span_units bin_push_front
sys_grow_and_link granted b need_units =
    if granted
    then (let c = b.heap.program_break in
        let brk = c + grow_span need_units in
        let h₁ = record b.heap { program_break = brk; hi = brk } in
        let h₂ = chunk_set_span_units h₁ c (grow_span need_units) in
        let h₃ = chunk_set_next_free h₂ c none in
        let h₄ = chunk_set_prev_free h₃ c none in
        let h₅ = chunk_set_status h₄ c chunk_free in
        (bin_push_front (record b { heap = h₅ }) c, granted))
    else (b, granted)

-- The two loops of a scan: the bins from `i` on, `left` of them, and the blocks of a bin. The outer `none` is
-- for fuel that ran out.
unfoldable pub scan_bins : ℕ → BinHeap → ℕ → ℕ → ℕ → Option (Option ℕ)
unfolding first_fit
scan_bins fuel b need_units i zero = some none
scan_bins fuel b need_units i (suc left) =
    let onward = scan_bins fuel b need_units (i + 1) left in
    elim (first_fit fuel b.heap (b.bins i) need_units) [
      | none ↦ none
      | some none ↦ onward
      | some (some cur) ↦ some (some cur)
    ]

-- The rest of a block that is split goes back to a bin. The result is the payload.
unfoldable pub take_from_bin : BinHeap → ℕ → ℕ → BinHeap × ℕ
unfolding bin_detach split_for_alloc bin_push_front
take_from_bin b cur need_units =
    let b' = bin_detach b cur in
    if leb (2 + need_units + 2) (chunk_get_span_units b'.heap cur)
    then (let (h, alloc) = split_for_alloc b'.heap cur need_units in
        (bin_push_front (record b' { heap = h }) cur, alloc + 1))
    else (record b' { heap = chunk_set_status b'.heap cur chunk_used }, cur + 1)

-- The scan from the bin of a span on, and what is done with the block that it finds.
unfoldable pub scan_and_take : ℕ → BinHeap → ℕ → ℕ → Option (BinHeap × Option ℕ)
unfolding get_bin_index scan_bins take_from_bin
scan_and_take fuel b need_units span =
    let bin_index = get_bin_index span in
    elim (scan_bins fuel b need_units bin_index (num_bins - bin_index)) [
      | none ↦ none
      | some none ↦ some (b, none)
      | some (some cur) ↦ (let (b', p) = take_from_bin b cur need_units in some (b', some p))
    ]

unfoldable pub grow_and_scan : ℕ → Bool → BinHeap → ℕ → Option (BinHeap × Option ℕ)
unfolding sys_grow_and_link scan_and_take
grow_and_scan fuel granted b need_units =
    let (b', grown) = sys_grow_and_link granted b need_units in
    if grown then scan_and_take fuel b' need_units (grow_span need_units) else some (b', none)

unfoldable pub heapmgr_malloc : ℕ → Bool → BinHeap → ℕ → Option (BinHeap × Option ℕ)
unfolding bytes_to_payload_units heap_bootstrap scan_and_take grow_and_scan
heapmgr_malloc fuel granted b size =
    if size == 0
    then some (b, none)
    else (let b₁ = record b { heap = heap_bootstrap b.heap } in
        let need_units = bytes_to_payload_units size in
        elim (scan_and_take fuel b₁ need_units (2 + need_units)) [
          | none ↦ none
          | some (b₂, none) ↦ grow_and_scan fuel granted b₁ need_units
          | some (b₂, some p) ↦ some (b₂, some p)
        ])

unfoldable pub heapmgr_free : BinHeap → Option ℕ → BinHeap
unfolding bin_push_front
heapmgr_free b none = b
heapmgr_free b (some p) = bin_push_front b (header_from_payload p)
