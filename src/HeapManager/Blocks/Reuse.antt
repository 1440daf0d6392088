-- ===== src/HeapManager/Blocks/Reuse.antt =====
-- Lab3/src/heapmgr1.c: `heapmgr_malloc` and then `heapmgr_free` of what it returned.
use mathlib.Core.Path.{subst}
use system_programming.Base.{
  ℕ, ◌+◌, ◌-◌, ◌≤◌, ◌≡◌, ◌≢◌, inl, inr, sym, ◌∙◌, ap, Bool, true, Option, some, List, ◌∷◌, ◌++◌,
  append_assoc, append-nil, leb, length, Bool-cases, arith,
}
use system_programming.HeapManager.{Heap}
use system_programming.HeapManager.Alloc.{bytes_to_payload_units, heapmgr_malloc, heapmgr_free}
use system_programming.HeapManager.Links.{◌∈◌}
use system_programming.HeapManager.Blocks.{Block, free, used, total, Wf, total-append}
use system_programming.HeapManager.Limits.{limits, limits-heapmgr_free}
use system_programming.HeapManager.Blocks.Next.{meet}
use system_programming.HeapManager.Blocks.Release.{release, release-snoc, heapmgr_free-Wf}
use system_programming.HeapManager.Blocks.Take.{front, taken}
use system_programming.HeapManager.Blocks.Malloc.{heapmgr_malloc-Taken}
use system_programming.HeapManager.Blocks.Settled.{
  Settled, Settled-behind, meet-alone, release-alone,
}

module _ (ds cs : List Block) (s n : ℕ) (k : Settled (ds ++ free s ∷ cs)) (room : n + 2 ≤ s) where
  alone : meet (free (taken n s)) cs ≡ free (taken n s) ∷ cs
  alone = meet-alone (taken n s) cs (Settled-behind ds (free s ∷ cs) k).0

  -- What was taken joins what stayed free.
  release-taken : release (ds ++ front n s) (meet (free (taken n s)) cs) ≡ ds ++ free s ∷ cs
  release-taken = elim (Bool-cases (leb (2 + n + 2) s)) [
    | inl e ↦
        let sum : s - (2 + n) + (2 + n) ≡ s = omega (arith, room) in
        rw alone (
          rw e (
            release-snoc ds (free (s - (2 + n))) (free (2 + n) ∷ cs)
            ∙ ap (λ z. ds ++ free z ∷ cs) sum))
    | inr e ↦ rw alone (rw (e, append-nil ds) (release-alone ds s cs k))
  ]

-- On a heap of blocks that is set up, on which no two free blocks stand side by side and whose free list
-- has at most `fuel` nodes, for a size other than 0: if the block of some node has the units that the size
-- needs and two more, `heapmgr_malloc` returns, and `heapmgr_free` of what it returns gives back what was
-- taken. After both calls the heap has the blocks it had at first, of the same spans at the same addresses,
-- and the free list has exactly the free ones.
pub heapmgr_malloc-heapmgr_free :
    (fuel : ℕ) (granted : Bool) (h : Heap) (bs : List Block) (xs : List ℕ) (size x : ℕ)
    → Wf h bs xs
    → Settled bs
    → h.booted ≡ true
    → size ≢ 0
    → length xs ≤ fuel
    → x ∈ xs
    → bytes_to_payload_units size + 2 ≤ h.word1 x
    → (h' : Heap) × (p : Option ℕ) × (zs : List ℕ) × (heapmgr_malloc fuel granted h size
        ≡ some (h', p))
      × (limits (heapmgr_free h' p) ≡ limits h)
      × Wf (heapmgr_free h' p) bs zs
heapmgr_malloc-heapmgr_free fuel granted h bs xs size x w k b ne le i fit =
    let n = bytes_to_payload_units size in
    let (ds, s, cs, h', p, run, blocks, room, (same_limits, at_p, (zs, w₁))) =
      heapmgr_malloc-Taken fuel granted h bs xs size x w b ne le i fit in
    let lo' : h'.lo ≡ h.lo = ap (λ (l : ℕ × ℕ × Bool × ℕ). l.0) same_limits in
    let k' : Settled (ds ++ free s ∷ cs) = subst Settled blocks k in
    let w₂ : Wf h' ((ds ++ front n s) ++ used (taken n s) ∷ cs) zs =
      rw (append_assoc ds (front n s) (used (taken n s) ∷ cs)) w₁ in
    let at_h' : p ≡ h'.lo + total (ds ++ front n s) + 1 =
      omega (arith, at_p, lo', total-append ds (front n s)) in
    let (vs, w₃) = heapmgr_free-Wf h' (ds ++ front n s) cs (taken n s) zs w₂ in
    let same : release (ds ++ front n s) (meet (free (taken n s)) cs) ≡ bs =
      release-taken ds cs s n k' room ∙ sym blocks in
    let w₄ : Wf (heapmgr_free h' (some p)) bs vs =
      subst (λ q. Wf (heapmgr_free h' (some q)) bs vs) (sym at_h')
        (subst (λ z. Wf (heapmgr_free h' (some (h'.lo + total (ds ++ front n s) + 1))) z vs) same
          w₃) in
    (h', some p, vs, run, limits-heapmgr_free h' (some p) ∙ same_limits, w₄)
