-- ===== src/HeapManager/Blocks/Keeps.antt =====
-- Lab3/src/heapmgr1.c: the calls leave a heap that passes `check_heap_validity`.
use mathlib.Core.Path.{subst}
use system_programming.Base.{
  ℕ, ◌+◌, ◌≤◌, ◌≡◌, ◌≢◌, ◌∙◌, ap, Bool, true, some, List, ◌∷◌, ◌++◌, length, arith,
}
use system_programming.HeapManager.{Heap}
use system_programming.HeapManager.Validity.{check_heap_validity}
use system_programming.HeapManager.Alloc.{bytes_to_payload_units, heapmgr_malloc, heapmgr_free}
use system_programming.HeapManager.Links.{◌∈◌}
use system_programming.HeapManager.Limits.{limits, limits-heapmgr_free}
use system_programming.HeapManager.Blocks.{Block, free, used, total, Wf}
use system_programming.HeapManager.Blocks.Next.{meet}
use system_programming.HeapManager.Blocks.Release.{release, heapmgr_free-Wf}
use system_programming.HeapManager.Blocks.Take.{front, taken}
use system_programming.HeapManager.Blocks.Malloc.{heapmgr_malloc-Taken}
use system_programming.HeapManager.Blocks.Settled.{Settled, release-Settled, taken-Settled}
use system_programming.HeapManager.Blocks.Check.{check_heap_validity-Wf}

-- The check comes to an end and passes the heap.
abbrev pub Passes : Heap → Type 0
Passes h = (fuel : ℕ) × (check_heap_validity fuel h ≡ some true)

Wf-Passes :
    (h : Heap) (bs : List Block) (xs : List ℕ)
    → Wf h bs xs
    → Settled bs
    → h.booted ≡ true
    → Passes h
Wf-Passes h bs xs w k b = (
  length bs + length xs,
  check_heap_validity-Wf (length bs + length xs) h bs xs w k b (omega arith) (omega arith),
)

booted_of : (g h : Heap) → limits g ≡ limits h → g.booted ≡ h.booted
booted_of g h e = ap (λ (l : ℕ × ℕ × Bool × ℕ). l.2) e

-- On a heap of blocks that is set up and on which no two free blocks stand side by side, `heapmgr_free` of
-- the payload of a used block leaves a heap that passes `check_heap_validity`.
pub heapmgr_free-Passes :
    (h : Heap) (ds bs : List Block) (s : ℕ) (xs : List ℕ)
    → Wf h (ds ++ used s ∷ bs) xs
    → Settled (ds ++ used s ∷ bs)
    → h.booted ≡ true
    → Passes (heapmgr_free h (some (h.lo + total ds + 1)))
heapmgr_free-Passes h ds bs s xs w k b =
    let p = some (h.lo + total ds + 1) in
    let (zs, w') = heapmgr_free-Wf h ds bs s xs w in
    Wf-Passes (heapmgr_free h p) (release ds (meet (free s) bs)) zs w' (release-Settled ds s bs k)
      (booted_of (heapmgr_free h p) h (limits-heapmgr_free h p) ∙ b)

-- On a heap of blocks that is set up, on which no two free blocks stand side by side and whose free list
-- has at most `fuel` nodes, `heapmgr_malloc` of a size other than 0, for which the block of some node has
-- the units that it needs and two more, returns a payload and leaves a heap that passes
-- `check_heap_validity`.
pub heapmgr_malloc-Passes :
    (fuel : ℕ) (granted : Bool) (h : Heap) (bs : List Block) (xs : List ℕ) (size x : ℕ)
    → Wf h bs xs
    → Settled bs
    → h.booted ≡ true
    → size ≢ 0
    → length xs ≤ fuel
    → x ∈ xs
    → bytes_to_payload_units size + 2 ≤ h.word1 x
    → (h' : Heap) × (p : ℕ) × (heapmgr_malloc fuel granted h size ≡ some (h', some p)) × Passes h'
heapmgr_malloc-Passes fuel granted h bs xs size x w k b ne le i fit =
    let n = bytes_to_payload_units size in
    let (ds, s, cs, h', p, run, blocks, room, (same_limits, at_p, (zs, w₁))) =
      heapmgr_malloc-Taken fuel granted h bs xs size x w b ne le i fit in
    let k' = taken-Settled ds n s cs (subst Settled blocks k) in
    (
      h',
      p,
      run,
      Wf-Passes h' (ds ++ (front n s ++ used (taken n s) ∷ cs)) zs w₁ k'
          (booted_of h' h same_limits ∙ b),
    )
