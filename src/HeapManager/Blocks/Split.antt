-- ===== src/HeapManager/Blocks/Split.antt =====
-- Lab3/src/heapmgr1.c: `split_for_alloc` on a heap of blocks.
use native.Mathlib.Decide.{ℕ_discrete}
use system_programming.Base.{
  ℕ, ◌+◌, ◌-◌, ◌≤◌, ◌<◌, ◌≡◌, ◌≢◌, ◌⊎◌, inl, inr, refl, sym, ◌∙◌, ap, false, none, List, ◌∷◌, ◌++◌,
  ◌==◌, ==_ne, ==_refl, occurrences, occurrences-append, arith,
}
use system_programming.Base.Family.{update}
use system_programming.HeapManager.{Heap}
use system_programming.HeapManager.Chunk.{
  chunk_used, chunk_set_span_units, chunk_get_prev_free, get_footer_from_header,
}
use system_programming.HeapManager.Links.{◌∈◌, NextTo-frame, PrevFrom-frame}
use system_programming.HeapManager.Nodes.{Separate, Linked}
use system_programming.HeapManager.FreeList.{split_for_alloc}
use system_programming.HeapManager.Blocks.{
  Block, free, used, Blocks, total, frees, Wf, frees-append, Blocks-split, Blocks-append,
  Blocks-frame,
}

module _ (h : Heap) (ds bs : List Block) (s need : ℕ) (xs : List ℕ)
    (w : Wf h (ds ++ free s ∷ bs) xs) (fit : need + 4 ≤ s) where
  abbrev c : ℕ
  c = h.lo + total ds

  abbrev rest : ℕ
  rest = s - (2 + need)

  abbrev alloc : ℕ
  alloc = c + rest

  abbrev parts : Blocks h.word0 h.word1 h.lo ds c × Blocks h.word0 h.word1 c (free s ∷ bs) h.hi
  parts = Blocks-split h.word0 h.word1 h.lo ds (free s ∷ bs) h.hi w.layout

  span_c : h.word1 c ≡ s
  span_c = parts.1.2

  after : Heap
  after = record h {
    word0 =
        update (update (update h.word0 (c + rest - 1) rest) (alloc + (2 + need) - 1) (2 + need))
          alloc chunk_used;
    word1 = update (update h.word1 c rest) alloc (2 + need);
    link =
        update (update (update h.link alloc none) (alloc + (2 + need) - 1) none) (c + rest - 1)
          (chunk_get_prev_free h c);
  }

  split-after : split_for_alloc h c need ≡ (after, alloc)
  unfolding split_for_alloc chunk_set_span_units after
  split-after =
      let apart : (alloc == c) ≡ false = ==_ne alloc c (omega arith) in
      rw (span_c, ==_refl c, ==_refl alloc, apart) refl

  end : alloc + (2 + need) ≡ c + s
  end = omega (arith, fit)

  after_head : after.free_head ≡ h.free_head
  unfolding after
  after_head = refl

  -- The same blocks are free.
  frees-after : frees h.lo (ds ++ free s ∷ bs) ≡ frees h.lo (ds ++ free rest ∷ used (2 + need) ∷ bs)
  frees-after =
      rw
        (
          frees-append h.lo ds (free s ∷ bs),
          frees-append h.lo ds (free rest ∷ used (2 + need) ∷ bs),
          end,
        )
        refl

  c-in : c ∈ xs
  c-in = ground (
    arith,
    w.same c,
    ap (λ ys. occurrences ys c) (frees-append h.lo ds (free s ∷ bs)),
    occurrences-append (frees h.lo ds) (frees c (free s ∷ bs)) c,
  )

  -- Another free block is in front or behind.
  outside : (x : ℕ) → x ∈ xs → x ≢ c → (x + h.word1 x ≤ c) ⊎ (c + s ≤ x)
  outside x i ne = elim (w.linked.separate.apart x c i c-in ne) [
    | inl before ↦ inl before
    | inr behind ↦ inr (omega (arith, span_c, behind))
  ]

  -- The units that are written are no header or footer of another free block.
  spared : (x : ℕ) → x ∈ xs → (u : ℕ) → c < u → u < c + s → u ≢ x
  spared x i u low high e = elim (ℕ_discrete x c) [
    | yes same ↦ omega (arith, low, e, same)
    | no other ↦ elim (outside x i other) [
      | inl before ↦ omega (arith, low, e, before)
      | inr behind ↦ omega (arith, high, e, behind)
    ]
  ]

  spared-foot :
      (x : ℕ) → x ∈ xs → x ≢ c → (u : ℕ) → c ≤ u → u < c + s → u ≢ get_footer_from_header h x
  spared-foot x i other u low high e = elim (outside x i other) [
    | inl before ↦ omega (arith, low, e, before, w.linked.separate.two x i)
    | inr behind ↦ omega (arith, high, e, behind, w.linked.separate.two x i)
  ]

  after-link : (x : ℕ) → x ∈ xs → after.link x ≡ h.link x
  unfolding after
  after-link x i =
      rw
        (
          ==_ne (c + rest - 1) x
              (spared x i (c + rest - 1) (omega (arith, fit)) (omega (arith, fit))),
          ==_ne (alloc + (2 + need) - 1) x
              (spared x i (alloc + (2 + need) - 1) (omega (arith, fit)) (omega (arith, fit))),
          ==_ne alloc x (spared x i alloc (omega (arith, fit)) (omega (arith, fit))),
        )
        refl

  after-span : (x : ℕ) → x ∈ xs → x ≢ c → after.word1 x ≡ h.word1 x
  unfolding after
  after-span x i other =
      rw
        (
          ==_ne alloc x (spared x i alloc (omega (arith, fit)) (omega (arith, fit))),
          ==_ne c x (λ e. other (sym e)),
        )
        refl

  after-span_c : after.word1 c ≡ rest
  unfolding after
  after-span_c = rw (==_ne alloc c (omega (arith, fit)), ==_refl c) refl

  after-prev_c : after.link (c + rest - 1) ≡ chunk_get_prev_free h c
  unfolding after
  after-prev_c = rw (==_refl (c + rest - 1)) refl

  after-prev_other :
      (x : ℕ) → x ∈ xs → x ≢ c → after.link (get_footer_from_header h x) ≡ chunk_get_prev_free h x
  unfolding after
  after-prev_other x i other =
      let f = get_footer_from_header h x in
      rw
        (
          ==_ne (c + rest - 1) f
              (spared-foot x i other (c + rest - 1) (omega (arith, fit)) (omega (arith, fit))),
          ==_ne (alloc + (2 + need) - 1) f (
              spared-foot x i other (alloc + (2 + need) - 1) (omega (arith, fit))
                (omega (arith, fit))),
          ==_ne alloc f (spared-foot x i other alloc (omega (arith, fit)) (omega (arith, fit))),
        )
        refl

  after-prev : (x : ℕ) → x ∈ xs → chunk_get_prev_free after x ≡ chunk_get_prev_free h x
  unfolding after
  after-prev x i = elim (ℕ_discrete x c) [
    | yes same ↦ rw (same, after-span_c) after-prev_c
    | no other ↦ rw (after-span x i other) (after-prev_other x i other)
  ]

  after-Separate : Separate after.word1 xs
  after-Separate = record {
    two = λ x i. elim (ℕ_discrete x c) [
      | yes same ↦ rw (same, after-span_c) (omega (arith, fit))
      | no other ↦ rw (after-span x i other) (w.linked.separate.two x i)
    ];
    apart = λ x y i j ne. elim (w.linked.separate.apart x y i j ne) [
      | inl before ↦ inl (omega (arith, shorter x i, before))
      | inr behind ↦ inr (omega (arith, shorter y j, behind))
    ];
  }
    where
      shorter : (x : ℕ) → x ∈ xs → after.word1 x ≤ h.word1 x
      shorter x i = elim (ℕ_discrete x c) [
        | yes same ↦ rw (same, after-span_c) (omega (arith, span_c, fit))
        | no other ↦ rw (after-span x i other) (omega arith)
      ]

  after-Linked : Linked after xs
  after-Linked = record {
    head = after_head ∙ w.linked.head;
    next = NextTo-frame xs none after-link w.linked.next;
    prev = PrevFrom-frame none xs after-prev w.linked.prev;
    distinct = w.linked.distinct;
    separate = after-Separate;
  }

  after-Blocks : Blocks after.word0 after.word1 h.lo (ds ++ free rest ∷ used (2 + need) ∷ bs) h.hi
  unfolding after
  after-Blocks =
      let bs' : Blocks h.word0 h.word1 (alloc + (2 + need)) bs h.hi = rw end parts.1.4 in
      Blocks-append after.word0 after.word1 h.lo ds (free rest ∷ used (2 + need) ∷ bs) h.hi
        (Blocks-frame h.word0 h.word1 after.word0 after.word1 h.lo ds c
          (λ i lo hi. (ground (arith, hi, fit), ground (arith, hi, fit))) parts.0)
        (
          omega (arith, fit),
          ground (arith, fit, parts.1.1),
          ground (arith, fit),
          ground (arith, fit),
          (
            omega arith,
            ground (arith, fit),
            ground (arith, fit),
            ground (arith, fit),
            Blocks-frame h.word0 h.word1 after.word0 after.word1 (alloc + (2 + need)) bs h.hi
                (λ i lo hi. (ground (arith, lo, fit), ground (arith, lo, fit))) bs',
          ),
        )

  -- The front of a free block that is split stays in the list at its place; behind it is a used block with
  -- the units that were asked for. Every other block is as it was.
  pub split_for_alloc-Wf :
      Wf (split_for_alloc h c need).0 (ds ++ free (s - (2 + need)) ∷ used (2 + need) ∷ bs) xs
      × ((split_for_alloc h c need).1 ≡ c + (s - (2 + need)))
  unfolding after
  split_for_alloc-Wf = rw split-after (
    record {
      layout = after-Blocks;
      linked = after-Linked;
      same = λ x. w.same x ∙ ap (λ ys. occurrences ys x) frees-after;
    },
    refl,
  )
