-- ===== src/HeapManager/Chunk.antt =====
-- Lab3/src/chunk.c: getters, setters and neighbours. Assertions are compiled out, as in the
-- builds with NDEBUG.
use system_programming.Base.{ℕ, ◌+◌, ◌-◌, Option, none, some, ltb, leb, if◌then◌else◌}
use system_programming.Base.Family.{update}
use system_programming.HeapManager.{Heap}

abbrev pub chunk_free : ℕ
chunk_free = 0

abbrev pub chunk_used : ℕ
chunk_used = 1

abbrev pub chunk_unit : ℕ
chunk_unit = 16

abbrev pub chunk_get_status : Heap → ℕ → ℕ
chunk_get_status h c = h.word0 c

abbrev pub chunk_set_status : Heap → ℕ → ℕ → Heap
chunk_set_status h c status = record h { word0 = update h.word0 c status }

abbrev pub chunk_get_span_units : Heap → ℕ → ℕ
chunk_get_span_units h c = h.word1 c

-- The footer is the last unit.
abbrev pub get_footer_from_header : Heap → ℕ → ℕ
get_footer_from_header h c = c + h.word1 c - 1

abbrev pub get_header_from_footer : Heap → ℕ → ℕ
get_header_from_footer h f = f + 1 - h.word0 f

-- The header first, since the footer is where the new span puts it.
abbrev pub set_header_span : Heap → ℕ → ℕ → Heap
set_header_span h c span = record h { word1 = update h.word1 c span }

unfoldable pub chunk_set_span_units : Heap → ℕ → ℕ → Heap
chunk_set_span_units h c span =
    let h' = set_header_span h c span in
    record h' { word0 = update h'.word0 (get_footer_from_header h' c) span }

abbrev pub chunk_get_next_free : Heap → ℕ → Option ℕ
chunk_get_next_free h c = h.link c

abbrev pub chunk_get_prev_free : Heap → ℕ → Option ℕ
chunk_get_prev_free h c = h.link (get_footer_from_header h c)

abbrev pub chunk_set_next_free : Heap → ℕ → Option ℕ → Heap
chunk_set_next_free h c n = record h { link = update h.link c n }

abbrev pub chunk_set_prev_free : Heap → ℕ → Option ℕ → Heap
chunk_set_prev_free h c p = record h { link = update h.link (get_footer_from_header h c) p }

abbrev pub chunk_get_adjacent : Heap → ℕ → ℕ → Option ℕ
chunk_get_adjacent h c end = if leb end (c + h.word1 c) then none else some (c + h.word1 c)

-- The last test is on a difference that may be below the heap.
abbrev pub chunk_get_prev_adjacent : Heap → ℕ → ℕ → Option ℕ
chunk_get_prev_adjacent h c start =
    if leb c start
    then none
    else if ltb c (start + h.word0 (c - 1))
    then none
    else some (get_header_from_footer h (c - 1))
