-- ===== src/HeapManager/Nodes/Relink.antt =====
-- Lab3/src/heapmgr1.c: what the free list is when one node has been passed by.
use mathlib.Core.Path.{subst}
use native.Mathlib.Decide.{ℕ_discrete}
use system_programming.Base.{
  ℕ, ◌+◌, ◌-◌, ◌≡◌, ◌≢◌, inl, inr, refl, sym, ◌∙◌, ap, false, none, some, List, [], ◌∷◌, ◌++◌,
  ==_ne, if◌then◌else◌, arith,
}
use system_programming.HeapManager.{Heap}
use system_programming.HeapManager.Chunk.{chunk_get_prev_free, get_footer_from_header}
use system_programming.HeapManager.Validity.{ptr_eq}
use system_programming.HeapManager.Links.{
  ◌∈◌, head_or, last_or, NextTo-frame, PrevFrom-frame, NextTo-split, NextTo-append, PrevFrom-split,
  PrevFrom-append, last-mem, NextTo-relink, PrevFrom-relink,
}
use system_programming.HeapManager.Nodes.{
  Separate, Linked, Distinct-parts, Distinct-front, Distinct-back, Distinct-without, in_without,
  without-front, without-back,
}

pub foot-ne :
    {span : ℕ → ℕ} {xs : List ℕ}
    → Separate span xs
    → (x y : ℕ) → x ∈ xs
    → y ∈ xs
    → x + span x - 1 ≢ y
foot-ne {span} s x y i j e = elim (ℕ_discrete x y) [
  | yes same ↦ omega (arith, s.two x i, e, same)
  | no other ↦ elim (s.apart x y i j other) [
    | inl before ↦ omega (arith, s.two x i, e, before)
    | inr after ↦ omega (arith, s.two x i, s.two y j, e, after)
  ]
]

pub foot-injective :
    {span : ℕ → ℕ} {xs : List ℕ}
    → Separate span xs
    → (x y : ℕ) → x ∈ xs
    → y ∈ xs
    → x ≢ y
    → x + span x - 1 ≢ y + span y - 1
foot-injective s x y i j other e = elim (s.apart x y i j other) [
  | inl before ↦ omega (arith, s.two x i, s.two y j, e, before)
  | inr after ↦ omega (arith, s.two x i, s.two y j, e, after)
]

pub Separate-sub :
    {span : ℕ → ℕ} {xs ys : List ℕ}
    → ((z : ℕ) → z ∈ ys → z ∈ xs)
    → Separate span xs
    → Separate span ys
Separate-sub sub s = record {
  two = λ x i. s.two x (sub x i);
  apart = λ x y i j. s.apart x y (sub x i) (sub y j);
}

module _ (h : Heap) (xs : List ℕ) (c : ℕ) (ys : List ℕ) (l : Linked h (xs ++ c ∷ ys)) where
  pub next-at : h.link c ≡ head_or ys none
  next-at = (NextTo-split h.link xs (c ∷ ys) none l.next).1.0

  pub prev-at : chunk_get_prev_free h c ≡ last_or none xs
  prev-at = (PrevFrom-split (chunk_get_prev_free h) none xs (c ∷ ys) l.prev).1.0

  -- The links of the other nodes, where the neighbours of `c` have been linked with each other.
  abbrev pub Passed : Heap → Type 0
  Passed h' =
      (x : ℕ)
      → x ∈ (xs ++ ys)
      → (h'.link x ≡ (if ptr_eq (last_or none xs) x then head_or ys none else h.link x))
        × (h'.link (get_footer_from_header h x)
            ≡ (if ptr_eq (head_or ys none) x then last_or none xs else chunk_get_prev_free h x))

  last-not-back : (z : ℕ) → z ∈ ys → ptr_eq (last_or none xs) z ≡ false
  last-not-back z i = by_front xs (λ w j. Distinct-parts xs c ys l.distinct w j)
    where
      by_front :
          (ws : List ℕ) → ((w : ℕ) → w ∈ ws → w ∈ ys → ⊥) → ptr_eq (last_or none ws) z ≡ false
      by_front [] apart = refl
      by_front (w ∷ ws) apart =
          let (q, e, j) = last-mem w ws in
          rw e (==_ne q z λ same. apart q j (subst (λ v. v ∈ ys) (sym same) i))

  head-not-front : (z : ℕ) → z ∈ xs → ptr_eq (head_or ys none) z ≡ false
  head-not-front z i = by_back ys (λ w j k. Distinct-parts xs c ys l.distinct w j k)
    where
      by_back : (ws : List ℕ) → ((w : ℕ) → w ∈ xs → w ∈ ws → ⊥) → ptr_eq (head_or ws none) z ≡ false
      by_back [] apart = refl
      by_back (w ∷ ws) apart = ==_ne w z λ same. apart z i (ground (arith, same))

  pub Passed-Linked :
      (h' : Heap)
      → h'.word1 ≡ h.word1
      → h'.free_head ≡ head_or (xs ++ ys) none
      → Passed h'
      → Linked h' (xs ++ ys)
  Passed-Linked h' words head passed =
      let d = l.distinct in
      let (n₁, n₂) = NextTo-split h.link xs (c ∷ ys) none l.next in
      let (p₁, p₂) = PrevFrom-split (chunk_get_prev_free h) none xs (c ∷ ys) l.prev in
      let foot : (x : ℕ) → get_footer_from_header h' x ≡ get_footer_from_header h x =
        (λ x. ap (λ (w : ℕ → ℕ). x + w x - 1) words) in
      record {
        head = head;
        next =
            NextTo-append h'.link xs ys none
              (NextTo-relink h.link h'.link xs (some c) (head_or ys none) (Distinct-front xs c ys d)
                (λ x i. (passed x (without-front xs c ys x i)).0) n₁)
              (NextTo-frame ys none
                (λ x i. rw (last-not-back x i) at ((passed x (without-back xs c ys x i)).0)) n₂.1);
        prev =
            PrevFrom-append (chunk_get_prev_free h') none xs ys
              (PrevFrom-frame none xs
                (λ x i.
                  ap h'.link (foot x)
                  ∙ (rw (head-not-front x i) at ((passed x (without-front xs c ys x i)).1)))
                p₁)
              (PrevFrom-relink (chunk_get_prev_free h) (chunk_get_prev_free h') ys (some c)
                (last_or none xs) (Distinct-back xs c ys d)
                (λ x i. ap h'.link (foot x) ∙ (passed x (without-back xs c ys x i)).1) p₂.1);
        distinct = Distinct-without xs c ys d;
        separate =
            subst (λ w. Separate w (xs ++ ys)) (sym words)
              (Separate-sub (in_without xs c ys) l.separate);
      }
