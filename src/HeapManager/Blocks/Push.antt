-- ===== src/HeapManager/Blocks/Push.antt =====
-- Lab3/src/heapmgr1.c: `freelist_push_front` up to the joining: a used block is made free.
use mathlib.Core.Path.{subst}
use native.Mathlib.Decide.{ℕ_discrete}
use system_programming.Base.{
  ℕ, ◌+◌, ◌≤◌, ◌≡◌, ◌≢◌, ◌⊎◌, inl, inr, refl, sym, ◌∙◌, Option, none, some, List, ◌∷◌, ◌++◌, ==_ne,
  ==_refl, if◌then◌else◌, occurrences, arith,
}
use system_programming.Base.Family.{update}
use system_programming.HeapManager.{Heap}
use system_programming.HeapManager.Chunk.{chunk_free, chunk_get_prev_free, get_footer_from_header}
use system_programming.HeapManager.Validity.{ptr_eq}
use system_programming.HeapManager.FreeList.{push_head}
use system_programming.HeapManager.Links.{◌∈◌, Distinct, head_or, NextTo-frame, PrevFrom-relink}
use system_programming.HeapManager.Nodes.{Separate, Linked}
use system_programming.HeapManager.Blocks.{
  Block, free, used, Blocks, total, frees, Wf, Blocks-split,
}
use system_programming.HeapManager.Links.{Distinct-head_tail, in_head, in_tail, head-in}
use system_programming.HeapManager.Nodes.Relink.{foot-ne}
use system_programming.HeapManager.Nodes.Place.{Clear, Separate-Clear}
use system_programming.HeapManager.Blocks.Regions.{Blocks-around, occurrences-frees}
use system_programming.HeapManager.Blocks.Regions.{elsewhere, Blocks-restatus}

module _ (h : Heap) (c : ℕ) where
  abbrev pub links : Option ℕ → ℕ → Option ℕ
  links none = update (update h.link (get_footer_from_header h c) none) c none
  links (some n) =
      update (update (update h.link (get_footer_from_header h c) none) c (some n))
        (get_footer_from_header h n) (some c)

  abbrev pub pushed : Option ℕ → Heap
  pushed first = record h {
    word0 = update h.word0 c chunk_free;
    link = links first;
    free_head = some c;
  }

  pub push_head-pushed : (first : Option ℕ) → h.free_head ≡ first → push_head h c ≡ pushed first
  unfolding push_head
  push_head-pushed none e = rw e refl
  push_head-pushed (some n) e = rw e refl

  pub links-other :
      (first : Option ℕ) (x : ℕ)
      → Clear h c x
      → ((n : ℕ) → first ≡ some n → (get_footer_from_header h n ≢ x) × (n ≢ x → Clear h n x))
      → (links first x ≡ h.link x)
        × (links first (get_footer_from_header h x)
            ≡ (if ptr_eq first x then some c else chunk_get_prev_free h x))
  links-other none x k n = ground (arith, k.other, k.foot_other, k.other_foot, k.feet)
  links-other (some m) x k n = elim (ℕ_discrete m x) [
    | yes same ↦ ground (arith, k.other, k.foot_other, k.other_foot, k.feet, (n m refl).0, same)
    | no other ↦ ground (
      arith,
      k.other,
      k.foot_other,
      k.other_foot,
      k.feet,
      (n m refl).0,
      ((n m refl).1 other).feet,
    )
  ]

  pub links_self :
      (first : Option ℕ)
      → 2 ≤ h.word1 c
      → ((n : ℕ) → first ≡ some n → Clear h c n)
      → (links first c ≡ first) × (links first (get_footer_from_header h c) ≡ none)
  links_self none two k = ground (arith, two)
  links_self (some n) two k = ground (arith, two, (k n refl).other_foot, (k n refl).feet)

module _ (h : Heap) (ds bs : List Block) (s : ℕ) (xs : List ℕ)
    (w : Wf h (ds ++ used s ∷ bs) xs) where
  abbrev c : ℕ
  c = h.lo + total ds

  layout : Blocks (update h.word0 c chunk_free) h.word1 h.lo (ds ++ free s ∷ bs) h.hi
  layout = Blocks-restatus h.word0 h.word1 h.lo ds (used s) (free s) bs h.hi refl w.layout

  abbrev here : Blocks h.word0 h.word1 c (used s ∷ bs) h.hi
  here = (Blocks-split h.word0 h.word1 h.lo ds (used s ∷ bs) h.hi w.layout).1

  counted : (x : ℕ) → occurrences (c ∷ xs) x ≡ occurrences (frees h.lo (ds ++ free s ∷ bs)) x
  counted x = ground (
    arith,
    w.same x,
    occurrences-frees h.lo ds (used s) bs x,
    occurrences-frees h.lo ds (free s) bs x,
  )

  new : occurrences xs c ≡ 0
  new =
      let (p, q) = elsewhere h.word0 h.word1 h.lo ds (used s) bs h.hi w.layout in
      omega (arith, w.same c, occurrences-frees h.lo ds (used s) bs c, p, q)

  not-c : (x : ℕ) → x ∈ xs → x ≢ c
  not-c x i e = let i' : c ∈ xs = subst (λ z. z ∈ xs) e i in omega (arith, i', new)

  separate : Separate h.word1 (c ∷ xs)
  separate = record { two = two; apart = apart }
    where
      around : (x : ℕ) → x ∈ xs → (2 ≤ h.word1 x) × ((x + h.word1 x ≤ c) ⊎ (c + s ≤ x))
      around x i =
          Blocks-around h.word0 h.word1 h.lo ds (used s) bs h.hi w.layout x (rw (w.same x) at i)
            (not-c x i)

      two : (x : ℕ) → x ∈ (c ∷ xs) → 2 ≤ h.word1 x
      two x i = elim (ℕ_discrete x c) [
        | yes same ↦ rw (same, here.2) (here.0)
        | no other ↦ (around x (Distinct-head_tail x c xs other i)).0
      ]

      apart :
          (x y : ℕ)
          → x ∈ (c ∷ xs)
          → y ∈ (c ∷ xs)
          → x ≢ y
          → (x + h.word1 x ≤ y) ⊎ (y + h.word1 y ≤ x)
      apart x y i j ne = elim (ℕ_discrete x c) [
        | yes same ↦ elim (ℕ_discrete y c) [
          | yes same' ↦ absurd (ne (same ∙ sym same'))
          | no other ↦
              rw (same, here.2)
                (elim ((around y (Distinct-head_tail y c xs other j)).1) [
                  | inl before ↦ inr before
                  | inr behind ↦ inl behind
                ])
        ]
        | no other ↦ elim (ℕ_discrete y c) [
          | yes same ↦ rw (same, here.2) ((around x (Distinct-head_tail x c xs other i)).1)
          | no other' ↦
              w.linked.separate.apart x y (Distinct-head_tail x c xs other i)
                (Distinct-head_tail y c xs other' j) ne
        ]
      ]

  clear : (x : ℕ) → x ∈ xs → Clear h c x
  clear x i = Separate-Clear c x separate (in_head c xs) (in_tail x c xs i) (λ e. not-c x i (sym e))

  distinct : Distinct (c ∷ xs)
  distinct x = elim (ℕ_discrete x c) [
    | yes same ↦ rw (same, ==_refl c, new) (omega arith)
    | no other ↦ rw (==_ne c x (λ e. other (sym e))) (w.linked.distinct x)
  ]

  pushed-Linked : Linked (pushed h c (head_or xs none)) (c ∷ xs)
  pushed-Linked =
      let s' = w.linked.separate in
      let laws = (λ (x : ℕ) (i : x ∈ xs). links-other h c (head_or xs none) x (clear x i) (λ n e.
        let j = head-in xs n e in (foot-ne s' n x j i, λ ne. Separate-Clear n x s' j i ne))) in
      let (self, self') =
        links_self h c (head_or xs none) (separate.two c (in_head c xs))
          (λ n e. clear n (head-in xs n e)) in
      record {
        head = refl;
        next = (self, NextTo-frame xs none (λ x i. (laws x i).0) w.linked.next);
        prev = (
          self',
          PrevFrom-relink (chunk_get_prev_free h)
              (chunk_get_prev_free (pushed h c (head_or xs none))) xs none (some c)
              w.linked.distinct (λ x i. (laws x i).1) w.linked.prev,
        );
        distinct = distinct;
        separate = separate;
      }

  pub push_head-Wf : Wf (push_head h c) (ds ++ free s ∷ bs) (c ∷ xs)
  push_head-Wf =
      rw (push_head-pushed h c (head_or xs none) w.linked.head)
        (record { layout = layout; linked = pushed-Linked; same = counted })
