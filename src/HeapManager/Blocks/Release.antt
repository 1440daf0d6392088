-- ===== src/HeapManager/Blocks/Release.antt =====
-- Lab3/src/heapmgr1.c: `freelist_push_front` and `heapmgr_free` give a used block back.
use mathlib.Core.Path.{subst}
use system_programming.Base.{
  append_assoc, ℕ, ◌+◌, ◌-◌, ◌≡◌, ◌⊎◌, inl, inr, refl, sym, ◌∙◌, ap, Option, none, some, List, [],
  ◌∷◌, ◌++◌, ==_refl, arith,
}
use system_programming.HeapManager.{Heap}
use system_programming.HeapManager.Chunk.{chunk_get_prev_adjacent}
use system_programming.HeapManager.FreeList.{push_head}
use system_programming.HeapManager.Links.{◌∈◌}
use system_programming.HeapManager.FreeList.{join_next, join_prev, freelist_push_front}
use system_programming.HeapManager.Blocks.{Block, free, used, span_of, total, Wf, total-append}
use system_programming.HeapManager.Alloc.{heapmgr_free}
use system_programming.HeapManager.Blocks.Next.{leb-true, meet, Next, join_next-Next}
use system_programming.HeapManager.Blocks.Merge.{occurrences-joined}
use system_programming.HeapManager.Blocks.Push.{push_head-Wf}
use system_programming.HeapManager.Blocks.Prev.{join_prev-none, join_prev-same, join_prev-Wf}
use system_programming.HeapManager.Blocks.Regions.{mem-split}

-- The last block in front meets those behind.
abbrev pub release : List Block → List Block → List Block
release [] r = r
release (d ∷ []) r = meet d r
release (d ∷ e ∷ ds) r = d ∷ release (e ∷ ds) r

pub release-snoc :
    (es : List Block) (d : Block) (r : List Block) → release (es ++ d ∷ []) r ≡ es ++ meet d r
release-snoc [] d r = refl
release-snoc (e ∷ []) d r = refl
release-snoc (e ∷ f ∷ es) d r = ap (λ t. e ∷ t) (release-snoc (f ∷ es) d r)

snoc-cases : (ds : List Block) → (ds ≡ []) ⊎ ((es : List Block) × (d : Block) × (ds ≡ es ++ d ∷ []))
snoc-cases [] = inl refl
snoc-cases (d ∷ ds) = elim (snoc-cases ds) [
  | inl e ↦ inr ([], d, ap (λ t. d ∷ t) e)
  | inr (es, f, e) ↦ inr (d ∷ es, f, ap (λ t. d ∷ t) e)
]

abbrev Done : Heap → List Block → Type 0
Done h bs = (zs : List ℕ) × Wf h bs zs

module _ (h : Heap) (bs : List Block) (s : ℕ) (zs : List ℕ) where
  last_start :
      (es : List Block) (d : Block) → h.lo + total (es ++ d ∷ []) ≡ h.lo + total es + span_of d
  last_start es d = omega (arith, total-append es (d ∷ []))

  prev_snoc :
      (es : List Block) (d : Block)
      → Wf h (es ++ d ∷ free s ∷ bs) zs
      → Done (join_prev h (h.lo + total es + span_of d)) (es ++ meet d (free s ∷ bs))
  prev_snoc es (used t) w =
      subst (λ g. Done g (es ++ used t ∷ free s ∷ bs)) (sym (join_prev-same h es bs t s zs w))
        (zs, w)
  prev_snoc es (free t) w =
      let c = h.lo + total es + t in
      let in_list : c ∈ zs =
        rw (w.same c, occurrences-joined h.lo es bs t s c, ==_refl c) (omega arith) in
      let (xs, ys, e) = mem-split zs c in_list in
      let w' : Wf h (es ++ free t ∷ free s ∷ bs) (xs ++ c ∷ ys) =
        subst (Wf h (es ++ free t ∷ free s ∷ bs)) e w in
      (xs ++ ys, join_prev-Wf h es bs t s xs ys w')

  prev_first : Wf h (free s ∷ bs) zs → Done (join_prev h (h.lo + 0)) (free s ∷ bs)
  prev_first w =
      let none_before : chunk_get_prev_adjacent h (h.lo + 0) h.lo ≡ none =
        rw (leb-true (h.lo + 0) h.lo (omega arith)) refl in
      subst (λ g. Done g (free s ∷ bs)) (sym (join_prev-none h (h.lo + 0) none_before)) (zs, w)

  prev_step :
      (ds : List Block)
      → Wf h (ds ++ free s ∷ bs) zs
      → Done (join_prev h (h.lo + total ds)) (release ds (free s ∷ bs))
  prev_step ds w = elim (snoc-cases ds) [
    | inl e ↦
        subst (λ fs. Done (join_prev h (h.lo + total fs)) (release fs (free s ∷ bs))) (sym e)
          (prev_first (subst (λ fs. Wf h (fs ++ free s ∷ bs) zs) e w))
    | inr (es, d, e) ↦
        let w' : Wf h ((es ++ d ∷ []) ++ free s ∷ bs) zs =
          subst (λ fs. Wf h (fs ++ free s ∷ bs) zs) e w in
        let w'' : Wf h (es ++ d ∷ free s ∷ bs) zs =
          rw (append_assoc es (d ∷ []) (free s ∷ bs)) at w' in
        rw (e, release-snoc es d (free s ∷ bs), last_start es d) (prev_snoc es d w'')
  ]

meet-free :
    (s : ℕ) (bs : List Block) → (t : ℕ) × (cs : List Block) × (meet (free s) bs ≡ free t ∷ cs)
meet-free s [] = (s, [], refl)
meet-free s (used t ∷ bs) = (s, used t ∷ bs, refl)
meet-free s (free t ∷ bs) = (s + t, bs, refl)

push_head_lo :
    (h : Heap) (c : ℕ) (first : Option ℕ) → h.free_head ≡ first → (push_head h c).lo ≡ h.lo
unfolding push_head
push_head_lo h c none e = rw e refl
push_head_lo h c (some n) e = rw e refl

-- A used block that is given back becomes free and joins the free block in front of it and the one behind
-- it, where there are such; the free list then has exactly the free blocks of the new heap.
pub freelist_push_front-Wf :
    (h : Heap) (ds bs : List Block) (s : ℕ) (xs : List ℕ)
    → Wf h (ds ++ used s ∷ bs) xs
    → (zs : List ℕ) × Wf
        (freelist_push_front h (h.lo + total ds))
        (release ds (meet (free s) bs))
        zs
unfolding freelist_push_front Next
freelist_push_front-Wf h ds bs s xs w =
    let c = h.lo + total ds in
    let w₁ = push_head-Wf h ds bs s xs w in
    let lo₁ = push_head_lo h c h.free_head refl in
    let at₁ : (push_head h c).lo + total ds ≡ c = ap (λ (z : ℕ). z + total ds) lo₁ in
    let next : Next (push_head h c) ds s bs (join_next (push_head h c) c) =
      subst (λ z. Next (push_head h c) ds s bs (join_next (push_head h c) z)) at₁
        (join_next-Next (push_head h c) ds bs s (c ∷ xs) w₁) in
    let (e, lo₂, (zs, w₂)) = next in
    let (t, cs, m) = meet-free s bs in
    let w₃ : Wf (join_next (push_head h c) c).0 (ds ++ free t ∷ cs) zs = rw m at w₂ in
    let at₂ : (join_next (push_head h c) c).1 ≡ (join_next (push_head h c) c).0.lo + total ds =
      e ∙ ap (λ (z : ℕ). z + total ds) (sym lo₂) in
    rw (m, at₂) (prev_step (join_next (push_head h c) c).0 cs t zs ds w₃)

-- On a heap of blocks, `heapmgr_free` of the payload of a used block makes that block free and joins it
-- with the free block in front of it and the one behind it, where there are such; all other blocks are as
-- they were, and the free list has exactly the free blocks.
pub heapmgr_free-Wf :
    (h : Heap) (ds bs : List Block) (s : ℕ) (xs : List ℕ)
    → Wf h (ds ++ used s ∷ bs) xs
    → (zs : List ℕ) × Wf
        (heapmgr_free h (some (h.lo + total ds + 1)))
        (release ds (meet (free s) bs))
        zs
unfolding heapmgr_free
heapmgr_free-Wf h ds bs s xs w =
    let e : h.lo + total ds + 1 - 1 ≡ h.lo + total ds = omega arith in
    rw e (freelist_push_front-Wf h ds bs s xs w)
