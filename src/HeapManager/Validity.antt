-- ===== src/HeapManager/Validity.antt =====
-- Lab3/src/chunk.c: `chunk_is_valid`; Lab3/src/heapmgr1.c: `check_heap_validity`. Alignment to units is
-- part of the model. A loop runs on fuel; `none` means that it ran out.
use system_programming.Base.{
  ℕ, zero, suc, ◌+◌, Bool, true, false, ◌&&◌, ◌||◌, not, Option, none, some, ◌==◌, ltb, leb,
  if◌then◌else◌,
}
use system_programming.HeapManager.{Heap}
use system_programming.HeapManager.Chunk.{
  chunk_free, chunk_used, get_footer_from_header, chunk_get_status, chunk_get_next_free,
  chunk_get_prev_free, chunk_get_adjacent,
}

unfoldable pub chunk_is_valid : Heap → ℕ → ℕ → ℕ → Bool
chunk_is_valid h c start end =
    let f = get_footer_from_header h c in
    not (ltb (h.word1 c) 2)
    && not (ltb end start)
    && not (ltb c start)
    && not (leb end c)
    && ((h.word0 c == chunk_free) || (h.word0 c == chunk_used))
    && not (ltb f start)
    && not (leb end f)
    && not (ltb (h.word0 f) 2)
    && (h.word1 c == h.word0 f)
    && not (ltb end (c + h.word1 c))

abbrev pub ptr_eq : Option ℕ → ℕ → Bool
ptr_eq none c = false
ptr_eq (some p) c = p == c

abbrev pub is_null : Option ℕ → Bool
is_null none = true
is_null (some p) = false

-- The first loop: `some none` is its `return FALSE`, else the expected end.
unfoldable pub walk_blocks : ℕ → Heap → Option ℕ → ℕ → Option (Option ℕ)
walk_blocks fuel h none expected = some (some expected)
walk_blocks zero h (some w) expected = none
walk_blocks (suc fuel) h (some w) expected =
    let onward = walk_blocks fuel h (chunk_get_adjacent h w h.hi) (w + h.word1 w) in
    if leb h.hi w
    then some (some expected)
    else if chunk_is_valid h w h.lo h.hi
    then onward
    else some none

-- The status of a neighbour, if there is one.
abbrev pub is_free : Heap → Option ℕ → Bool
is_free h none = false
is_free h (some n) = h.word0 n == chunk_free

abbrev pub prev_is : Heap → Option ℕ → ℕ → Bool
prev_is h none w = true
prev_is h (some n) w = ptr_eq (chunk_get_prev_free h n) w

-- The head has no predecessor; any other node is the successor of its own.
abbrev pub next_is : Heap → Option ℕ → ℕ → Bool
next_is h none w = false
next_is h (some p) w = ptr_eq (chunk_get_next_free h p) w

-- The tests on a node of the free list.
unfoldable pub node_ok : Heap → ℕ → Bool
unfolding chunk_is_valid
node_ok h w =
    (not (ptr_eq h.free_head w) || is_null (chunk_get_prev_free h w))
    && (chunk_get_status h w == chunk_free)
    && chunk_is_valid h w h.lo h.hi
    && not (is_free h (chunk_get_adjacent h w h.hi))
    && prev_is h (chunk_get_next_free h w) w
    && (ptr_eq h.free_head w || next_is h (chunk_get_prev_free h w) w)

unfoldable pub walk_free : ℕ → Heap → Option ℕ → Option Bool
walk_free fuel h none = some true
walk_free zero h (some w) = none
walk_free (suc fuel) h (some w) =
    let onward = walk_free fuel h (chunk_get_next_free h w) in
    if node_ok h w then onward else some false

unfoldable pub check_heap_validity : ℕ → Heap → Option Bool
unfolding walk_blocks walk_free
check_heap_validity fuel h =
    if not h.booted
    then some false
    else if h.lo == h.hi
    then some (is_null h.free_head)
    else elim (walk_blocks fuel h (some h.lo) h.lo) [
      | none ↦ none
      | some none ↦ some false
      | some (some expected) ↦ if expected == h.hi then walk_free fuel h h.free_head else some false
    ]
