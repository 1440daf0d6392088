-- ===== src/HeapManager/Nodes.antt =====
-- Lab3/src/heapmgr1.c: the free list in memory, and the change of a link between two of its nodes.
pub mod Relink
pub mod Place
pub mod Unlink
use mathlib.Core.Path.{subst}
use system_programming.Base.{
  ℕ, zero, suc, ◌+◌, ◌-◌, ◌≤◌, ◌<◌, ◌≡◌, ◌≢◌, ◌⊎◌, inl, inr, refl, sym, ◌∙◌, ap, Bool, true, false,
  Option, none, some, List, [], ◌∷◌, ◌++◌, ◌==◌, ==_ne, ==_refl, if◌then◌else◌, occurrences,
  occurrences-append, arith,
}
use system_programming.HeapManager.{Heap}
use system_programming.HeapManager.Chunk.{get_footer_from_header, chunk_get_prev_free}
use system_programming.HeapManager.Validity.{ptr_eq, is_null}
use system_programming.HeapManager.Links.{
  ◌∈◌, Distinct, head_or, last_or, NextTo, PrevFrom, NextTo-frame, PrevFrom-frame, NextTo-split,
  NextTo-append, PrevFrom-split, PrevFrom-append, last-mem, Distinct-head, Distinct-tail,
  NextTo-relink, PrevFrom-relink,
}

-- Blocks of at least two units that do not overlap.
pub record Separate (span : ℕ → ℕ) (xs : List ℕ) : Type 0 where
  pub two : (x : ℕ) → x ∈ xs → 2 ≤ span x
  pub apart : (x y : ℕ) → x ∈ xs → y ∈ xs → x ≢ y → (x + span x ≤ y) ⊎ (y + span y ≤ x)

-- The list of free blocks, as the links and the head have it.
pub record Linked (h : Heap) (xs : List ℕ) : Type 0 where
  pub head : h.free_head ≡ head_or xs none
  pub next : NextTo h.link xs none
  pub prev : PrevFrom (chunk_get_prev_free h) none xs
  pub distinct : Distinct xs
  pub separate : Separate h.word1 xs

module _ (xs : List ℕ) (c : ℕ) (ys : List ℕ) where
  module _ (d : Distinct (xs ++ c ∷ ys)) where
    pub Distinct-parts : (z : ℕ) → z ∈ xs → z ∈ ys → ⊥
    Distinct-parts z i j = ground (arith, d z, occurrences-append xs (c ∷ ys) z)

    pub not-front : (z : ℕ) → z ∈ xs → z ≢ c
    not-front z i e =
        let i' : c ∈ xs = subst (λ w. w ∈ xs) e i in
        ground (arith, d c, occurrences-append xs (c ∷ ys) c, i')

    pub not-back : (z : ℕ) → z ∈ ys → z ≢ c
    not-back z i e =
        let i' : c ∈ ys = subst (λ w. w ∈ ys) e i in
        ground (arith, d c, occurrences-append xs (c ∷ ys) c, i')

    pub Distinct-front : Distinct xs
    Distinct-front z = ground (arith, d z, occurrences-append xs (c ∷ ys) z)

    pub Distinct-back : Distinct ys
    Distinct-back z = ground (arith, d z, occurrences-append xs (c ∷ ys) z)

    pub Distinct-without : Distinct (xs ++ ys)
    Distinct-without z =
        ground (arith, d z, occurrences-append xs (c ∷ ys) z, occurrences-append xs ys z)

    pub not-without : (z : ℕ) → z ∈ (xs ++ ys) → c ≢ z
    not-without z i e =
        let i' : c ∈ (xs ++ ys) = subst (λ w. w ∈ (xs ++ ys)) (sym e) i in
        ground (arith, d c, occurrences-append xs (c ∷ ys) c, occurrences-append xs ys c, i')

  pub in_front : (z : ℕ) → z ∈ xs → z ∈ (xs ++ c ∷ ys)
  in_front z i = ground (arith, occurrences-append xs (c ∷ ys) z)

  pub in_back : (z : ℕ) → z ∈ ys → z ∈ (xs ++ c ∷ ys)
  in_back z i = ground (arith, occurrences-append xs (c ∷ ys) z)

  pub in_middle : c ∈ (xs ++ c ∷ ys)
  in_middle = ground (arith, occurrences-append xs (c ∷ ys) c)

  pub in_without : (z : ℕ) → z ∈ (xs ++ ys) → z ∈ (xs ++ c ∷ ys)
  in_without z i = ground (arith, occurrences-append xs (c ∷ ys) z, occurrences-append xs ys z)

  pub without-front : (z : ℕ) → z ∈ xs → z ∈ (xs ++ ys)
  without-front z i = ground (arith, occurrences-append xs ys z)

  pub without-back : (z : ℕ) → z ∈ ys → z ∈ (xs ++ ys)
  without-back z i = ground (arith, occurrences-append xs ys z)
