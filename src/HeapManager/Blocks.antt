-- ===== src/HeapManager/Blocks.antt =====
-- Lab3/src/heapmgr1.c: the blocks of a heap in the order of their addresses.
pub mod Regions
pub mod Split
pub mod Widen
pub mod Merge
pub mod Push
pub mod Next
pub mod Adjacent
pub mod Prev
pub mod Release
pub mod Detach
pub mod Take
pub mod Malloc
pub mod Grow
pub mod Extend
pub mod Settled
pub mod Reuse
pub mod Check
pub mod Keeps
use mathlib.Core.Path.{subst}
use native.Mathlib.Decide.{ℕ_discrete}
use system_programming.Base.{
  ℕ, zero, suc, ◌+◌, ◌-◌, ◌≤◌, ◌<◌, ◌≡◌, ◌≢◌, ◌⊎◌, inl, inr, refl, sym, ◌∙◌, ap, Bool, true, false,
  Option, none, some, List, [], ◌∷◌, ◌++◌, ◌==◌, ==_ne, ==_refl, if◌then◌else◌, occurrences,
  occurrences-append, arith,
}
use system_programming.HeapManager.{Heap}
use system_programming.HeapManager.Chunk.{chunk_free, chunk_used}
use system_programming.HeapManager.Links.{◌∈◌, Distinct}
use system_programming.HeapManager.Nodes.{Separate, Linked}

pub data Block : Type 0 where
  free : ℕ → Block
  used : ℕ → Block

abbrev pub span_of : Block → ℕ
span_of (free s) = s
span_of (used s) = s

abbrev pub status_of : Block → ℕ
status_of (free s) = chunk_free
status_of (used s) = chunk_used

-- A header and a footer for each block, from `a` up to `end`.
abbrev pub Blocks : (ℕ → ℕ) → (ℕ → ℕ) → ℕ → List Block → ℕ → Type 0
Blocks word0 word1 a [] end = a ≡ end
Blocks word0 word1 a (b ∷ bs) end =
    (2 ≤ span_of b)
    × (word0 a ≡ status_of b)
    × (word1 a ≡ span_of b)
    × (word0 (a + span_of b - 1) ≡ span_of b)
    × Blocks word0 word1 (a + span_of b) bs end

abbrev pub total : List Block → ℕ
total [] = 0
total (b ∷ bs) = span_of b + total bs

-- The addresses of the free blocks.
abbrev pub frees : ℕ → List Block → List ℕ
frees a [] = []
frees a (free s ∷ bs) = a ∷ frees (a + s) bs
frees a (used s ∷ bs) = frees (a + s) bs

-- A heap is its blocks, and a list of the free ones in some order.
pub record Wf (h : Heap) (bs : List Block) (xs : List ℕ) : Type 0 where
  pub layout : Blocks h.word0 h.word1 h.lo bs h.hi
  pub linked : Linked h xs
  pub same : (x : ℕ) → occurrences xs x ≡ occurrences (frees h.lo bs) x

pub total-append : (ds bs : List Block) → total (ds ++ bs) ≡ total ds + total bs
total-append [] bs = omega arith
total-append (a ∷ ds) bs = omega (arith, total-append ds bs)

pub frees-append :
    (a : ℕ) (ds bs : List Block) → frees a (ds ++ bs) ≡ frees a ds ++ frees (a + total ds) bs
frees-append a [] bs = let e : a + 0 ≡ a = omega arith in rw e refl
frees-append a (free s ∷ ds) bs =
    let e : a + (s + total ds) ≡ a + s + total ds = omega arith in
    rw e (ap (λ t. a ∷ t) (frees-append (a + s) ds bs))
frees-append a (used s ∷ ds) bs =
    let e : a + (s + total ds) ≡ a + s + total ds = omega arith in rw e (frees-append (a + s) ds bs)

module _ (word0 word1 : ℕ → ℕ) where
  pub Blocks-end :
      (a : ℕ) (bs : List Block) (end : ℕ) → Blocks word0 word1 a bs end → a + total bs ≡ end
  Blocks-end a [] end l = omega (arith, l)
  Blocks-end a (b ∷ bs) end l = omega (arith, Blocks-end (a + span_of b) bs end l.4)

  pub Blocks-split :
      (a : ℕ) (ds bs : List Block) (end : ℕ)
      → Blocks word0 word1 a (ds ++ bs) end
      → Blocks word0 word1 a ds (a + total ds) × Blocks word0 word1 (a + total ds) bs end
  Blocks-split a [] bs end l = let e : a + 0 ≡ a = omega arith in (sym e, rw e l)
  Blocks-split a (b ∷ ds) bs end l =
      let e : a + (span_of b + total ds) ≡ a + span_of b + total ds = omega arith in
      let (f, g) = Blocks-split (a + span_of b) ds bs end l.4 in rw e ((l.0, l.1, l.2, l.3, f), g)

  pub Blocks-append :
      (a : ℕ) (ds bs : List Block) (end : ℕ)
      → Blocks word0 word1 a ds (a + total ds)
      → Blocks word0 word1 (a + total ds) bs end
      → Blocks word0 word1 a (ds ++ bs) end
  Blocks-append a [] bs end l m = let e : a + 0 ≡ a = omega arith in rw e at m
  Blocks-append a (b ∷ ds) bs end l m =
      let e : a + (span_of b + total ds) ≡ a + span_of b + total ds = omega arith in
      let m' : Blocks word0 word1 (a + span_of b + total ds) bs end = rw e at m in
      let l' : Blocks word0 word1 (a + span_of b) ds (a + span_of b + total ds) = rw e at (l.4) in
      (l.0, l.1, l.2, l.3, Blocks-append (a + span_of b) ds bs end l' m')

  -- Words outside do not matter.
  pub Blocks-frame :
      (word0' word1' : ℕ → ℕ) (a : ℕ) (bs : List Block) (end : ℕ)
      → ((i : ℕ) → a ≤ i → i < end → (word0' i ≡ word0 i) × (word1' i ≡ word1 i))
      → Blocks word0 word1 a bs end
      → Blocks word0' word1' a bs end
  Blocks-frame word0' word1' a [] end k l = l
  Blocks-frame word0' word1' a (b ∷ bs) end k l =
      let last = Blocks-end (a + span_of b) bs end l.4 in
      let here = k a (omega arith) (omega (arith, last, l.0)) in
      let foot = k (a + span_of b - 1) (omega (arith, l.0)) (omega (arith, last, l.0)) in
      (
        l.0,
        here.0 ∙ l.1,
        here.1 ∙ l.2,
        foot.0 ∙ l.3,
        Blocks-frame word0' word1' (a + span_of b) bs end (λ i lo hi. k i (omega (arith, lo)) hi)
            l.4,
      )

  pub frees-bounds :
      (a : ℕ) (bs : List Block) (end x : ℕ)
      → Blocks word0 word1 a bs end
      → x ∈ frees a bs
      → (a ≤ x) × (2 ≤ word1 x) × (x + word1 x ≤ end)
  frees-bounds a [] end x l i = absurd (omega (arith, i))
  frees-bounds a (free s ∷ bs) end x l i = elim (ℕ_discrete a x) [
    | yes same ↦
        let e : word1 x ≡ s = subst (λ z. word1 z ≡ s) same l.2 in
        rw e (omega (arith, same), l.0, omega (arith, same, Blocks-end (a + s) bs end l.4))
    | no other ↦
        let (p, q, r) = frees-bounds (a + s) bs end x l.4 (ground (arith, i, other)) in
        (omega (arith, p), q, r)
  ]
  frees-bounds a (used s ∷ bs) end x l i =
      let (p, q, r) = frees-bounds (a + s) bs end x l.4 i in (omega (arith, p), q, r)
