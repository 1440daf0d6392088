-- ===== src/HeapManager/Blocks/Merge.antt =====
-- Lab3/src/heapmgr1.c: `coalesce_two` makes one free block of two that are next to each other.
use system_programming.Base.{
  ℕ, ◌+◌, ◌≡◌, inl, inr, sym, ◌∙◌, ap, false, Option, none, some, List, ◌∷◌, ◌++◌, ◌==◌, ==_refl,
  if◌then◌else◌, occurrences, occurrences-append, Bool-cases, arith,
}
use system_programming.HeapManager.{Heap}
use system_programming.HeapManager.Chunk.{chunk_get_prev_free}
use system_programming.HeapManager.Validity.{ptr_eq}
use system_programming.HeapManager.FreeList.{freelist_unlink}
use system_programming.HeapManager.Links.{◌∈◌, head_or, last_or, NextTo-split}
use system_programming.HeapManager.Nodes.{Linked, in_without}
use system_programming.HeapManager.FreeList.{merge}
use system_programming.HeapManager.Blocks.{Block, free, Blocks, total, frees, Wf}
use system_programming.HeapManager.FreeList.{widen}
use system_programming.HeapManager.Links.{next-prev, last-next, ptr_eq_lem}
use system_programming.HeapManager.Nodes.Relink.{next-at, prev-at}
use system_programming.HeapManager.Nodes.Unlink.{freelist_unlink-Linked, freelist_unlink-Passed}
use system_programming.HeapManager.Nodes.Place.{SameWords}
use system_programming.HeapManager.Blocks.Regions.{occurrences-frees}
use system_programming.HeapManager.Blocks.Widen.{widen-Wf}

-- The free blocks before and after two of them are joined.
pub occurrences-joined :
    (a : ℕ) (ds bs : List Block) (s t x : ℕ)
    → occurrences (frees a (ds ++ free s ∷ free t ∷ bs)) x
      ≡ occurrences (frees a (ds ++ free (s + t) ∷ bs)) x + (if a + total ds + s == x then 1 else 0)
occurrences-joined a ds bs s t x =
    let e : a + total ds + (s + t) ≡ a + total ds + s + t = omega arith in
    rw
      (
        occurrences-frees a ds (free s) (free t ∷ bs) x,
        occurrences-frees a ds (free (s + t)) bs x,
        e,
      )
      (ground arith)

-- A heap with the words of another.
module _ (h h' : Heap) (words : SameWords h h') where
  pub SameWords-Blocks :
      (bs : List Block)
      → Blocks h.word0 h.word1 h.lo bs h.hi
      → Blocks h'.word0 h'.word1 h'.lo bs h'.hi
  SameWords-Blocks bs l = rw (words.word0, words.word1, words.lo, words.hi) l

module _ (h : Heap) (ds bs : List Block) (s t : ℕ) where
  abbrev a : ℕ
  a = h.lo + total ds

  abbrev b : ℕ
  b = a + s

  -- What is left of `coalesce_two` once `b` is in no list.
  pub widen-unlinked :
      (h' : Heap) (xs : List ℕ)
      → SameWords h h'
      → Blocks h.word0 h.word1 h.lo (ds ++ free s ∷ free t ∷ bs) h.hi
      → Linked h' xs
      → ((x : ℕ) → occurrences xs x ≡ occurrences (frees h.lo (ds ++ free (s + t) ∷ bs)) x)
      → (an : Option ℕ) → an ≡ h'.link a
      → Wf (widen h' a b an) (ds ++ free (s + t) ∷ bs) xs
  widen-unlinked h' xs words lay l same an e =
      let e' : h'.lo + total ds ≡ a = ap (λ (z : ℕ). z + total ds) words.lo in
      let w : Wf (widen h' (h'.lo + total ds) (h'.lo + total ds + s) (h'.link (h'.lo + total ds)))
          (ds ++ free (s + t) ∷ bs) xs =
        widen-Wf h' ds bs s t xs (SameWords-Blocks h h' words (ds ++ free s ∷ free t ∷ bs) lay) l
          (λ x. rw words.lo (same x)) in
      rw e (rw e' at w)

  module _ (xs ys : List ℕ) (w : Wf h (ds ++ free s ∷ free t ∷ bs) (xs ++ b ∷ ys)) where
    pub same-joined :
        (x : ℕ) → occurrences (xs ++ ys) x ≡ occurrences (frees h.lo (ds ++ free (s + t) ∷ bs)) x
    same-joined x = ground (
      arith,
      w.same x,
      occurrences-joined h.lo ds bs s t x,
      occurrences-append xs (b ∷ ys) x,
      occurrences-append xs ys x,
    )

    pub a-in : a ∈ (xs ++ ys)
    a-in =
        rw (same-joined a, occurrences-frees h.lo ds (free (s + t)) bs a, ==_refl a) (omega arith)

    -- The successor that `coalesce_two` gives to `a`.
    successor : (if ptr_eq (h.link a) b then h.link b else h.link a) ≡ (freelist_unlink h b).link a
    successor =
        let l = w.linked in
        let passed = (freelist_unlink-Passed h xs b ys l a a-in).0 in
        elim (Bool-cases (ptr_eq (h.link a) b)) [
          | inl hit ↦
              let link : h.link a ≡ some b = ptr_eq_lem (h.link a) b hit in
              let (_, back, _) =
                next-prev h.link (chunk_get_prev_free h) none (xs ++ b ∷ ys) l.next l.prev
                  l.distinct a b (in_without xs b ys a a-in) link in
              let last : last_or none xs ≡ some a = sym (prev-at h xs b ys l) ∙ back in
              let passed' : (freelist_unlink h b).link a ≡ head_or ys none =
                rw (last, ==_refl a) at passed in
              rw hit (next-at h xs b ys l ∙ sym passed')
          | inr miss ↦ elim (Bool-cases (ptr_eq (last_or none xs) a)) [
            | inl hit ↦
                let last = ptr_eq_lem (last_or none xs) a hit in
                let (front, _) = NextTo-split h.link xs (b ∷ ys) none l.next in
                let link : h.link a ≡ some b = last-next h.link xs (some b) a front last in
                let miss' : (b == b) ≡ false = rw link at miss in let hit' = ==_refl b in absurd cc
            | inr other ↦ rw miss (sym (rw other at passed))
          ]
        ]

    pub merge-Wf : Wf (merge h a b) (ds ++ free (s + t) ∷ bs) (xs ++ ys)
    unfolding merge
    merge-Wf =
        let (l, words) = freelist_unlink-Linked h xs b ys w.linked in
        widen-unlinked (freelist_unlink h b) (xs ++ ys) words w.layout l same-joined _ successor
