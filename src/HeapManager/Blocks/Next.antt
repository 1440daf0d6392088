-- ===== src/HeapManager/Blocks/Next.antt =====
-- Lab3/src/heapmgr1.c: the block behind one that has become free joins it.
use mathlib.Core.Path.{subst}
use system_programming.Base.{
  ℕ, ◌+◌, ◌≤◌, ◌<◌, ◌≡◌, refl, sym, ◌∙◌, ap, true, false, Option, none, some, List, [], ◌∷◌, ◌++◌,
  ==_refl, arith,
}
use system_programming.HeapManager.{Heap}
use system_programming.HeapManager.Chunk.{
  chunk_free, chunk_used, chunk_set_span_units, chunk_get_prev_free, chunk_get_adjacent,
}
use system_programming.HeapManager.Validity.{is_null}
use system_programming.HeapManager.FreeList.{freelist_unlink}
use system_programming.HeapManager.Links.{◌∈◌}
use system_programming.HeapManager.FreeList.{merge, coalesce_two, join_next}
use system_programming.HeapManager.Blocks.{
  Block, free, used, Blocks, total, Wf, Blocks-end, Blocks-split,
}
use system_programming.HeapManager.FreeList.{widen}
use system_programming.HeapManager.Nodes.Unlink.{freelist_unlink-Linked}
use system_programming.HeapManager.Nodes.Place.{SameWords}
use system_programming.HeapManager.Blocks.Regions.{mem-split}
use system_programming.Base.{if-cases, ltb, leb}
use system_programming.HeapManager.Blocks.Merge.{merge-Wf, occurrences-joined}

-- A block and those behind it, of which the first joins it if both are free.
abbrev pub meet : Block → List Block → List Block
meet (used s) bs = used s ∷ bs
meet (free s) [] = free s ∷ []
meet (free s) (used t ∷ bs) = free s ∷ used t ∷ bs
meet (free s) (free t ∷ bs) = free (s + t) ∷ bs

pub leb-true : (m n : ℕ) → m ≤ n → leb m n ≡ true
leb-true m n h = ground arith

pub leb-false : (m n : ℕ) → n < m → leb m n ≡ false
leb-false m n h = ground arith

pub ltb-false : (m n : ℕ) → n ≤ m → ltb m n ≡ false
ltb-false m n h = ground arith

module _ (h : Heap) (ds bs : List Block) (s : ℕ) (zs : List ℕ)
    (w : Wf h (ds ++ free s ∷ bs) zs) where
  abbrev c : ℕ
  c = h.lo + total ds

  abbrev here : Blocks h.word0 h.word1 c (free s ∷ bs) h.hi
  here = (Blocks-split h.word0 h.word1 h.lo ds (free s ∷ bs) h.hi w.layout).1

  -- The next block, if there is one.
  adjacent-none : bs ≡ [] → chunk_get_adjacent h c h.hi ≡ none
  adjacent-none e =
      let last = Blocks-end h.word0 h.word1 (c + s) bs h.hi here.4 in
      let end : c + s ≡ h.hi = omega (arith, last, ap total e) in
      rw (here.2, leb-true h.hi (c + s) (omega (arith, end))) refl

  adjacent-some :
      (b : Block) (bs' : List Block) → bs ≡ b ∷ bs' → chunk_get_adjacent h c h.hi ≡ some (c + s)
  adjacent-some b bs' e =
      let last = Blocks-end h.word0 h.word1 (c + s) bs h.hi here.4 in
      let next : Blocks h.word0 h.word1 (c + s) (b ∷ bs') h.hi = rw e at (here.4) in
      rw (here.2, leb-false h.hi (c + s) (omega (arith, last, ap total e, next.0))) refl

widen_lo : (h : Heap) (a b : ℕ) (an : Option ℕ) → (widen h a b an).lo ≡ h.lo
unfolding widen chunk_set_span_units
widen_lo h a b none =
    if-cases (λ (g : Heap). g.lo ≡ h.lo) (is_null (chunk_get_prev_free h a)) (λ _. refl) (λ _. refl)
widen_lo h a b (some n) =
    if-cases (λ (g : Heap). g.lo ≡ h.lo) (is_null (chunk_get_prev_free h a)) (λ _. refl) (λ _. refl)

merge_lo : (h : Heap) (a b : ℕ) → SameWords h (freelist_unlink h b) → (merge h a b).lo ≡ h.lo
unfolding merge
merge_lo h a b words = widen_lo (freelist_unlink h b) a b _ ∙ words.lo

module _ (h : Heap) (c : ℕ) where
  join_next-none : chunk_get_adjacent h c h.hi ≡ none → join_next h c ≡ (h, c)
  unfolding join_next
  join_next-none e = rw (e, join_next) refl

  join_next-used :
      (n : ℕ)
      → chunk_get_adjacent h c h.hi ≡ some n
      → h.word0 n ≡ chunk_used
      → join_next h c ≡ (h, c)
  unfolding join_next
  join_next-used n e u = rw (e, join_next, u) refl

  join_next-free :
      (n : ℕ)
      → chunk_get_adjacent h c h.hi ≡ some n
      → h.word0 n ≡ chunk_free
      → c ≤ n
      → join_next h c ≡ (merge h c n, c)
  unfolding join_next coalesce_two
  join_next-free n e u le = rw (e, join_next, u, ltb-false n c le) refl

unfoldable pub Next : Heap → List Block → ℕ → List Block → Heap × ℕ → Type 0
Next h ds s bs (g, c) =
    (c ≡ h.lo + total ds) × (g.lo ≡ h.lo) × ((zs : List ℕ) × Wf g (ds ++ meet (free s) bs) zs)

pub join_next-Next :
    (h : Heap) (ds bs : List Block) (s : ℕ) (zs : List ℕ)
    → Wf h (ds ++ free s ∷ bs) zs
    → Next h ds s bs (join_next h (h.lo + total ds))
unfolding Next
join_next-Next h ds [] s zs w =
    subst (Next h ds s [])
      (sym (join_next-none h (h.lo + total ds) (adjacent-none h ds [] s zs w refl)))
      (refl, refl, (zs, w))
join_next-Next h ds (used t ∷ bs) s zs w =
    let l = (here h ds (used t ∷ bs) s zs w).4 in
    subst (Next h ds s (used t ∷ bs))
      (sym (
        join_next-used h (h.lo + total ds) (h.lo + total ds + s)
          (adjacent-some h ds (used t ∷ bs) s zs w (used t) bs refl) l.1))
      (refl, refl, (zs, w))
join_next-Next h ds (free t ∷ bs) s zs w =
    let c = h.lo + total ds in
    let l = (here h ds (free t ∷ bs) s zs w).4 in
    let in_list : (c + s) ∈ zs =
      rw (w.same (c + s), occurrences-joined h.lo ds bs s t (c + s), ==_refl (c + s))
        (omega arith) in
    let (xs, ys, e) = mem-split zs (c + s) in_list in
    let w' : Wf h (ds ++ free s ∷ free t ∷ bs) (xs ++ (c + s) ∷ ys) =
      subst (Wf h (ds ++ free s ∷ free t ∷ bs)) e w in
    let (_, words) = freelist_unlink-Linked h xs (c + s) ys w'.linked in
    subst (Next h ds s (free t ∷ bs))
      (sym (
        join_next-free h c (c + s) (adjacent-some h ds (free t ∷ bs) s zs w (free t) bs refl) l.1
          (omega arith)))
      (refl, merge_lo h c (c + s) words, (xs ++ ys, merge-Wf h ds bs s t xs ys w'))
