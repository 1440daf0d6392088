-- ===== src/HeapManager/Blocks/Take.antt =====
-- Lab3/src/heapmgr1.c: `heapmgr_malloc` where a block of the free list fits.
use mathlib.Core.Path.{subst}
use system_programming.Base.{
  ℕ, ◌+◌, ◌-◌, ◌≤◌, ◌≡◌, inl, inr, refl, sym, ◌∙◌, ap, true, false, List, [], ◌∷◌, ◌++◌, leb,
  if◌then◌else◌, Bool-cases, arith,
}
use native.Mathlib.Decide.{ℕ_discrete}
use system_programming.HeapManager.{Heap}
use system_programming.HeapManager.FreeList.{split_for_alloc, freelist_detach}
use system_programming.HeapManager.Alloc.{take_block}
use system_programming.HeapManager.Links.{◌∈◌}
use system_programming.HeapManager.Blocks.{Block, free, used, Blocks-split, total, frees, Wf}
use system_programming.HeapManager.Blocks.Split.{split_for_alloc-Wf}
use system_programming.HeapManager.Blocks.Detach.{freelist_detach-Wf}
use system_programming.HeapManager.Limits.{limits, limits-take_block}

-- What stays free in front of the block that is handed out, and the span of that block.
abbrev pub front : ℕ → ℕ → List Block
front need_units s = if leb (2 + need_units + 2) s then free (s - (2 + need_units)) ∷ [] else []

abbrev pub taken : ℕ → ℕ → ℕ
taken need_units s = if leb (2 + need_units + 2) s then 2 + need_units else s

-- A free block of `s` units gives way to what stays free and to the used block; `p` is its payload.
abbrev pub Taken : Heap → List Block → ℕ → List Block → ℕ → Heap × ℕ → Type 0
Taken h ds s bs need_units (h', p) =
    (limits h' ≡ limits h)
    × (p ≡ h.lo + total ds + total (front need_units s) + 1)
    × ((zs : List ℕ) × Wf h' (ds ++ (front need_units s ++ used (taken need_units s) ∷ bs)) zs)

module _ (h : Heap) (c need_units : ℕ) where
  take_block-split :
      leb (2 + need_units + 2) (h.word1 c) ≡ true
      → take_block h c need_units
        ≡ ((split_for_alloc h c need_units).0, (split_for_alloc h c need_units).1 + 1)
  unfolding take_block
  take_block-split e = rw e refl

  take_block-whole :
      leb (2 + need_units + 2) (h.word1 c) ≡ false
      → take_block h c need_units ≡ (freelist_detach h c, c + 1)
  unfolding take_block
  take_block-whole e = rw e refl

module _ (h : Heap) (ds bs : List Block) (s need_units : ℕ) (xs ys : List ℕ)
    (w : Wf h (ds ++ free s ∷ bs) (xs ++ (h.lo + total ds) ∷ ys)) where
  abbrev c : ℕ
  c = h.lo + total ds

  span_c : h.word1 c ≡ s
  span_c = (Blocks-split h.word0 h.word1 h.lo ds (free s ∷ bs) h.hi w.layout).1.2

  pub take_block-Wf :
      need_units + 2 ≤ s → Taken h ds s bs need_units (take_block h (h.lo + total ds) need_units)
  take_block-Wf fit = elim (Bool-cases (leb (2 + need_units + 2) s)) [
    | inl e ↦
        let (w', at_alloc) =
          split_for_alloc-Wf h ds bs s need_units (xs ++ c ∷ ys) w (ground (arith, e)) in
        let limits_split =
          ap (λ (r : Heap × ℕ). limits r.0) (sym (take_block-split h c need_units (rw span_c e)))
          ∙ limits-take_block h c need_units in
        let big : leb (2 + need_units + 2) (h.word1 c) ≡ true = rw span_c e in
        subst (λ r. Taken h ds s bs need_units r) (sym (take_block-split h c need_units big))
          (rw e (limits_split, omega (arith, at_alloc), (xs ++ c ∷ ys, w')))
    | inr e ↦
        let limits_whole =
          ap (λ (r : Heap × ℕ). limits r.0) (sym (take_block-whole h c need_units (rw span_c e)))
          ∙ limits-take_block h c need_units in
        let small : leb (2 + need_units + 2) (h.word1 c) ≡ false = rw span_c e in
        subst (λ r. Taken h ds s bs need_units r) (sym (take_block-whole h c need_units small))
          (rw e (limits_whole, omega arith, (xs ++ ys, freelist_detach-Wf h ds bs s xs ys w)))
  ]

-- The block at a free address.
pub block-at :
    (a : ℕ) (bs : List Block) (x : ℕ)
    → x ∈ frees a bs
    → (ds : List Block) × (s : ℕ) × (cs : List Block) × (bs ≡ ds ++ free s ∷ cs)
      × (x ≡ a + total ds)
block-at a [] x i = absurd (omega (arith, i))
block-at a (free s ∷ bs) x i = elim (ℕ_discrete a x) [
  | yes same ↦ ([], s, bs, refl, omega (arith, same))
  | no other ↦
      let (ds, t, cs, e, e') = block-at (a + s) bs x (ground (arith, i, other)) in
      (free s ∷ ds, t, cs, ap (λ z. free s ∷ z) e, omega (arith, e'))
]
block-at a (used s ∷ bs) x i =
    let (ds, t, cs, e, e') = block-at (a + s) bs x i in
    (used s ∷ ds, t, cs, ap (λ z. used s ∷ z) e, omega (arith, e'))
