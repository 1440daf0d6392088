-- ===== src/HeapManager/Blocks/Extend.antt =====
-- Lab3/src/heapmgr1.c: `heapmgr_malloc` where no block of the free list fits and `sbrk` grants.
use system_programming.Base.{ℕ, ◌+◌, ◌≡◌, List, [], ◌∷◌, ◌++◌}
use system_programming.HeapManager.{Heap}
use system_programming.HeapManager.Limits.{limits}
use system_programming.HeapManager.Blocks.{Block, free, used, total, Wf}
use system_programming.HeapManager.Blocks.Take.{front, taken}

abbrev pub EndsUsed : List Block → Type 0
EndsUsed [] = Unit {0}
EndsUsed (used s ∷ []) = Unit {0}
EndsUsed (free s ∷ []) = ⊥
EndsUsed (b ∷ c ∷ bs) = EndsUsed (c ∷ bs)

-- What is handed out when the heap of `bs` has grown by `s` units.
abbrev pub Extended : Heap → List Block → ℕ → ℕ → Heap × ℕ → Type 0
Extended h bs s n (h', p) =
    (limits h' ≡ (h.lo, h.hi + s, h.booted, h.program_break + s))
    × (p ≡ h.hi + total (front n s) + 1)
    × ((zs : List ℕ) × Wf h' (bs ++ (front n s ++ used (taken n s) ∷ [])) zs)
