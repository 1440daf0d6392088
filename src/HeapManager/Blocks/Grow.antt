-- ===== src/HeapManager/Blocks/Grow.antt =====
-- Lab3/src/heapmgr1.c: `sys_grow_and_link`, and the part of `heapmgr_malloc` behind the scan.
use system_programming.Base.{ℕ, ◌+◌, ◌-◌, ◌≡◌, Option, none, some, List, [], ◌∷◌}
use system_programming.Base.Family.{update}
use system_programming.HeapManager.{Heap}
use system_programming.HeapManager.Chunk.{
  chunk_used, chunk_set_span_units, chunk_set_next_free, chunk_set_prev_free,
}
use system_programming.HeapManager.Alloc.{grow_span}
use system_programming.HeapManager.Limits.{limits}
use system_programming.HeapManager.Blocks.{Block, free, Blocks, Wf}
use system_programming.HeapManager.Blocks.Release.{release}

-- The heap with the new block as a used one, before it goes to the free list.
abbrev extended : Heap → ℕ → Heap
extended h s =
    let c = h.program_break in
    record h {
      word0 = update (update h.word0 (c + s - 1) s) c chunk_used;
      word1 = update h.word1 c s;
      link = update (update h.link c none) (c + s - 1) none;
      hi = c + s;
      program_break = c + s;
    }

module _ (h : Heap) (need_units : ℕ) where
  abbrev more : ℕ
  more = grow_span need_units

  -- The header and the footer of the new block, without a status.
  framed : Heap
  framed =
      let c = h.program_break in
      let h₁ = record h { program_break = c + more; hi = c + more } in
      chunk_set_prev_free (chunk_set_next_free (chunk_set_span_units h₁ c more) c none) c none

-- What `sys_grow_and_link` makes of a heap of blocks, and the block that it returns.
abbrev pub Grown : Heap → List Block → ℕ → Heap × Option ℕ → Type 0
Grown h bs s (g, r) =
    (r ≡ some h.hi)
    × (limits g ≡ (h.lo, h.hi + s, h.booted, h.program_break + s))
    × ((zs : List ℕ) × Wf g (release bs (free s ∷ [])) zs)
