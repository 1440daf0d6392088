-- ===== src/HeapManager/Blocks/Malloc.antt =====
-- Lab3/src/heapmgr1.c: `heapmgr_malloc`, on a heap that has been set up.
use mathlib.Core.Path.{subst}
use native.Mathlib.Decide.{ℕ_discrete}
use system_programming.Base.{
  if-cases, ℕ, ◌+◌, ◌-◌, ◌≤◌, ◌≡◌, ◌≢◌, inl, inr, refl, sym, ◌∙◌, ap, Bool, true, false, Option,
  none, some, List, ◌∷◌, ◌++◌, ==_ne, length, Option-cases, arith,
}
use system_programming.HeapManager.{Heap}
use system_programming.HeapManager.Alloc.{
  bytes_to_payload_units, heap_bootstrap, take_block, first_fit, grow_and_take, heapmgr_malloc,
  sys_grow_and_link,
}
use system_programming.HeapManager.Links.{◌∈◌}
use system_programming.HeapManager.Scan.{pick, first_fit-pick, pick-some}
use system_programming.HeapManager.Blocks.{Block, free, Blocks-split, total, Wf}
use system_programming.HeapManager.Blocks.Regions.{mem-split}
use system_programming.HeapManager.Blocks.Take.{Taken, take_block-Wf, block-at}

-- What `heapmgr_malloc` does once the heap is set up.
abbrev pub serve : Bool → Heap → ℕ → Option (Option ℕ) → Option (Heap × Option ℕ)
serve granted h n none = none
serve granted h n (some none) = some (grow_and_take granted h n)
serve granted h n (some (some c)) = some ((take_block h c n).0, some (take_block h c n).1)

heap_bootstrap-same : (h : Heap) → h.booted ≡ true → heap_bootstrap h ≡ h
unfolding heap_bootstrap
heap_bootstrap-same h b = if-cases (λ (g : Heap). g ≡ h) h.booted (λ _. refl) (λ e. absurd cc)

heapmgr_malloc-zero :
    (fuel : ℕ) (granted : Bool) (h : Heap) → heapmgr_malloc fuel granted h 0 ≡ some (h, none)
unfolding heapmgr_malloc
heapmgr_malloc-zero fuel granted h = refl

module _ (fuel : ℕ) (granted : Bool) (h : Heap) (size : ℕ) (ne : size ≢ 0) where
  abbrev need : ℕ
  need = bytes_to_payload_units size

  malloc-served :
      heapmgr_malloc fuel granted h size
      ≡ serve granted
          (heap_bootstrap h)
          need
          (first_fit fuel (heap_bootstrap h) (heap_bootstrap h).free_head need)
  unfolding heapmgr_malloc
  malloc-served = by_scan (first_fit fuel (heap_bootstrap h) (heap_bootstrap h).free_head need) refl
    where
      by_scan :
          (o : Option (Option ℕ))
          → first_fit fuel (heap_bootstrap h) (heap_bootstrap h).free_head need ≡ o
          → heapmgr_malloc fuel granted h size ≡ serve granted (heap_bootstrap h) need o
      by_scan none e = rw (==_ne size 0 ne, e) refl
      by_scan (some none) e = rw (==_ne size 0 ne, e) refl
      by_scan (some (some c)) e = rw (==_ne size 0 ne, e) refl

  pub malloc-found :
      (o : Option (Option ℕ))
      → h.booted ≡ true
      → first_fit fuel h h.free_head need ≡ o
      → heapmgr_malloc fuel granted h size ≡ serve granted h need o
  malloc-found o b e =
      malloc-served
      ∙ ap (λ (g : Heap). serve granted g need (first_fit fuel g g.free_head need))
          (heap_bootstrap-same h b)
      ∙ ap (serve granted h need) e

grow_and_take-refused : (h : Heap) (n : ℕ) → grow_and_take false h n ≡ (h, none)
unfolding grow_and_take sys_grow_and_link
grow_and_take-refused h n = refl

-- On a heap of blocks that is set up and whose free list has at most `fuel` nodes, `heapmgr_malloc` of a
-- size other than 0 returns a payload if the block of some node has the units that the size needs and two
-- more, whether `sbrk` would grant or not. It has taken a free block of at least so many units: the payload
-- is one unit behind the start of a used block, all other blocks are as they were, and the free list has
-- exactly the blocks that are still free.
pub heapmgr_malloc-Taken :
    (fuel : ℕ) (granted : Bool) (h : Heap) (bs : List Block) (xs : List ℕ) (size x : ℕ)
    → Wf h bs xs
    → h.booted ≡ true
    → size ≢ 0
    → length xs ≤ fuel
    → x ∈ xs
    → bytes_to_payload_units size + 2 ≤ h.word1 x
    → (ds : List Block) × (s : ℕ) × (cs : List Block) × (h' : Heap) × (p : ℕ) × (heapmgr_malloc fuel
          granted h size
        ≡ some (h', some p))
      × (bs ≡ ds ++ free s ∷ cs)
      × (bytes_to_payload_units size + 2 ≤ s)
      × Taken h ds s cs (bytes_to_payload_units size) (h', p)
heapmgr_malloc-Taken fuel granted h bs xs size x w b ne le i fit =
    let n = bytes_to_payload_units size in
    let (c, picked, j, room) = pick-some h.word1 n xs x i fit in
    let scan = first_fit-pick fuel h n xs w.linked le ∙ ap some picked in
    let (ds, s, cs, blocks, at_c) = block-at h.lo bs c (rw (← w.same c) j) in
    let (vs, ys, nodes) = mem-split xs c j in
    let w₁ : Wf h (ds ++ free s ∷ cs) xs = subst (λ z. Wf h z xs) blocks w in
    let w₂ : Wf h (ds ++ free s ∷ cs) (vs ++ c ∷ ys) = subst (Wf h (ds ++ free s ∷ cs)) nodes w₁ in
    let w₃ : Wf h (ds ++ free s ∷ cs) (vs ++ (h.lo + total ds) ∷ ys) =
      subst (λ z. Wf h (ds ++ free s ∷ cs) (vs ++ z ∷ ys)) at_c w₂ in
    let l = (Blocks-split h.word0 h.word1 h.lo ds (free s ∷ cs) h.hi w₃.layout).1 in
    let room' : n ≤ h.word1 (h.lo + total ds) - 2 = subst (λ z. n ≤ h.word1 z - 2) at_c room in
    let big : n + 2 ≤ s = omega (arith, l.0, l.2, room') in
    let r = take_block h c n in
    (
      ds,
      s,
      cs,
      r.0,
      r.1,
      malloc-found fuel granted h size ne (some (some c)) b scan,
      blocks,
      big,
      subst (λ z. Taken h ds s cs n (take_block h z n)) (sym at_c)
          (take_block-Wf h ds cs s n vs ys w₃ big),
    )

-- On a heap of blocks that is set up and whose free list has at most `fuel` nodes: if no node has the units
-- that the size needs and `sbrk` refuses, `heapmgr_malloc` returns NULL and the heap is as it was.
pub heapmgr_malloc-refused :
    (fuel : ℕ) (h : Heap) (bs : List Block) (xs : List ℕ) (size : ℕ)
    → Wf h bs xs
    → h.booted ≡ true
    → length xs ≤ fuel
    → pick h.word1 (bytes_to_payload_units size) xs ≡ none
    → heapmgr_malloc fuel false h size ≡ some (h, none)
heapmgr_malloc-refused fuel h bs xs size w b le e =
    let n = bytes_to_payload_units size in
    let scan = first_fit-pick fuel h n xs w.linked le ∙ ap some e in
    elim (ℕ_discrete size 0) [
      | yes zero_size ↦ rw zero_size (heapmgr_malloc-zero fuel false h)
      | no ne ↦
          malloc-found fuel false h size ne (some none) b scan ∙ ap some (grow_and_take-refused h n)
    ]

-- On a heap of blocks that is set up and whose free list has at most `fuel` nodes, `heapmgr_malloc`
-- returns, for every size and whether `sbrk` grants or not.
pub heapmgr_malloc-returns :
    (fuel : ℕ) (granted : Bool) (h : Heap) (bs : List Block) (xs : List ℕ) (size : ℕ)
    → Wf h bs xs
    → h.booted ≡ true
    → length xs ≤ fuel
    → (r : Heap × Option ℕ) × (heapmgr_malloc fuel granted h size ≡ some r)
heapmgr_malloc-returns fuel granted h bs xs size w b le =
    let n = bytes_to_payload_units size in
    let scan = first_fit-pick fuel h n xs w.linked le in
    elim (ℕ_discrete size 0) [
      | yes zero_size ↦ ((h, none), rw zero_size (heapmgr_malloc-zero fuel granted h))
      | no ne ↦ elim (Option-cases (pick h.word1 n xs)) [
        | inl e ↦ (
          grow_and_take granted h n,
          malloc-found fuel granted h size ne (some none) b (scan ∙ ap some e),
        )
        | inr (c, e) ↦ (
          ((take_block h c n).0, some (take_block h c n).1),
          malloc-found fuel granted h size ne (some (some c)) b (scan ∙ ap some e),
        )
      ]
    ]
