-- ===== src/HeapManager/Blocks/Adjacent.antt =====
-- Lab3/src/chunk.c: the neighbours of a block in memory, and `chunk_is_valid`.
use system_programming.Base.{ℕ, ◌+◌, ◌-◌, ◌≤◌, ◌≡◌, refl, true, some, List, ◌∷◌, ==_refl, arith}
use system_programming.HeapManager.{Heap}
use system_programming.HeapManager.Chunk.{chunk_get_adjacent, chunk_get_prev_adjacent}
use system_programming.HeapManager.Blocks.{Block, free, used, span_of, Blocks, Blocks-end}
use system_programming.HeapManager.Validity.{chunk_is_valid}
use system_programming.HeapManager.Blocks.Next.{leb-false, ltb-false}

-- The neighbours of a block in memory.
module _ (h : Heap) (p : ℕ) (b d : Block) (bs : List Block)
    (l : Blocks h.word0 h.word1 p (b ∷ d ∷ bs) h.hi) where
  pub adjacent-block : chunk_get_adjacent h p h.hi ≡ some (p + span_of b)
  adjacent-block =
      let last = Blocks-end h.word0 h.word1 (p + span_of b) (d ∷ bs) h.hi l.4 in
      rw (l.2, leb-false h.hi (p + span_of b) (omega (arith, last, l.4.0))) refl

  -- The block in front of the second is the first.
  pub prev_adjacent-block : h.lo ≤ p → chunk_get_prev_adjacent h (p + span_of b) h.lo ≡ some p
  prev_adjacent-block low =
      let c = p + span_of b in
      let back : c - 1 + 1 - span_of b ≡ p = omega (arith, l.0) in
      rw
        (
          leb-false c h.lo (omega (arith, low, l.0)),
          l.3,
          ltb-false c (h.lo + span_of b) (omega (arith, low)),
          back,
        )
        refl

-- A block of the heap passes `chunk_is_valid`.
pub chunk_is_valid-block :
    (h : Heap) (p : ℕ) (b : Block) (bs : List Block)
    → Blocks h.word0 h.word1 p (b ∷ bs) h.hi
    → h.lo ≤ p
    → chunk_is_valid h p h.lo h.hi ≡ true
unfolding chunk_is_valid
chunk_is_valid-block h p (free s) bs l low =
    let last = Blocks-end h.word0 h.word1 (p + s) bs h.hi l.4 in
    rw
      (
        l.2,
        l.3,
        l.1,
        ltb-false s 2 l.0,
        ltb-false h.hi h.lo (omega (arith, last, low)),
        ltb-false p h.lo low,
        leb-false h.hi p (omega (arith, last, l.0)),
        ltb-false (p + s - 1) h.lo (omega (arith, low, l.0)),
        leb-false h.hi (p + s - 1) (omega (arith, last, l.0)),
        ==_refl s,
        ltb-false h.hi (p + s) (omega (arith, last)),
      )
      refl
chunk_is_valid-block h p (used s) bs l low =
    let last = Blocks-end h.word0 h.word1 (p + s) bs h.hi l.4 in
    rw
      (
        l.2,
        l.3,
        l.1,
        ltb-false s 2 l.0,
        ltb-false h.hi h.lo (omega (arith, last, low)),
        ltb-false p h.lo low,
        leb-false h.hi p (omega (arith, last, l.0)),
        ltb-false (p + s - 1) h.lo (omega (arith, low, l.0)),
        leb-false h.hi (p + s - 1) (omega (arith, last, l.0)),
        ==_refl s,
        ltb-false h.hi (p + s) (omega (arith, last)),
      )
      refl
