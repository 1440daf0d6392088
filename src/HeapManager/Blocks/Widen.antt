-- ===== src/HeapManager/Blocks/Widen.antt =====
-- Lab3/src/heapmgr1.c: the part of `coalesce_two` in which a block grows over the next.
use native.Mathlib.Decide.{ℕ_discrete}
use system_programming.Base.{
  ℕ, ◌+◌, ◌-◌, ◌≤◌, ◌≡◌, ◌≢◌, ◌⊎◌, inl, inr, refl, sym, ◌∙◌, ap, true, false, Option, none, some,
  List, ◌∷◌, ◌++◌, ◌==◌, ==_ne, ==_refl, if◌then◌else◌, if-cases, occurrences, arith,
}
use system_programming.Base.Family.{update}
use system_programming.HeapManager.{Heap}
use system_programming.HeapManager.Chunk.{
  chunk_set_span_units, chunk_get_prev_free, get_footer_from_header,
}
use system_programming.HeapManager.Validity.{is_null}
use system_programming.HeapManager.Links.{◌∈◌, head_or, NextTo-frame, PrevFrom-frame}
use system_programming.HeapManager.Nodes.{Linked}
use system_programming.HeapManager.Blocks.{
  Block, free, Blocks, total, frees, Wf, Blocks-split, Blocks-append, Blocks-frame,
}
use system_programming.HeapManager.FreeList.{widen}
use system_programming.HeapManager.Links.{next-prev, prev-none}
use system_programming.HeapManager.Nodes.Relink.{foot-ne, foot-injective}
use system_programming.HeapManager.Blocks.Regions.{Blocks-around, occurrences-frees}

module _ (h : Heap) (ds bs : List Block) (s t : ℕ) (xs : List ℕ)
    (lay : Blocks h.word0 h.word1 h.lo (ds ++ free s ∷ free t ∷ bs) h.hi) (l : Linked h xs)
    (same : (x : ℕ) → occurrences xs x ≡ occurrences (frees h.lo (ds ++ free (s + t) ∷ bs)) x) where
  abbrev a : ℕ
  a = h.lo + total ds

  abbrev foot : ℕ
  foot = a + (s + t) - 1

  abbrev words0 : ℕ → ℕ
  words0 = update h.word0 foot (s + t)

  abbrev words1 : ℕ → ℕ
  words1 = update h.word1 a (s + t)

  abbrev parts :
      Blocks h.word0 h.word1 h.lo ds a × Blocks h.word0 h.word1 a (free s ∷ free t ∷ bs) h.hi
  parts = Blocks-split h.word0 h.word1 h.lo ds (free s ∷ free t ∷ bs) h.hi lay

  -- The links that are stored in nodes behind, in front and in the new footer.
  abbrev links : Option ℕ → ℕ → Option ℕ
  links none = update (update h.link a none) foot (chunk_get_prev_free h a)
  links (some n) =
      update (update (update h.link a (some n)) (n + words1 n - 1) (some a)) foot
        (chunk_get_prev_free h a)

  abbrev grown : Option ℕ → Option ℕ → Heap
  grown an first = record h { word0 = words0; word1 = words1; link = links an; free_head = first }

  widen-grown :
      (an : Option ℕ)
      → widen h a (a + s) an
        ≡ (if is_null (chunk_get_prev_free h a) then grown an (some a) else grown an h.free_head)
  unfolding widen chunk_set_span_units
  widen-grown none = rw (parts.1.2, parts.1.4.2, ==_refl a) refl
  widen-grown (some n) = rw (parts.1.2, parts.1.4.2, ==_refl a) refl

  grown-Blocks : Blocks words0 words1 h.lo (ds ++ free (s + t) ∷ bs) h.hi
  grown-Blocks =
      let two = parts.1.0 in
      let e : a + s + t ≡ a + (s + t) = omega arith in
      let bs' : Blocks h.word0 h.word1 (a + (s + t)) bs h.hi = rw e at (parts.1.4.4) in
      Blocks-append words0 words1 h.lo ds (free (s + t) ∷ bs) h.hi
        (Blocks-frame h.word0 h.word1 words0 words1 h.lo ds a
          (λ i lo hi. (ground (arith, hi, two), ground (arith, hi, two))) parts.0)
        (
          omega (arith, two),
          ground (arith, two, parts.1.1),
          rw (==_refl a) refl,
          rw (==_refl foot) refl,
          Blocks-frame h.word0 h.word1 words0 words1 (a + (s + t)) bs h.hi
              (λ i lo hi. (ground (arith, lo, two), ground (arith, lo, two))) bs',
        )

  -- The other free blocks.
  words1-other : (x : ℕ) → x ≢ a → words1 x ≡ h.word1 x
  words1-other x ne = rw (==_ne a x (λ e. ne (sym e))) refl

  around : (x : ℕ) → x ∈ xs → x ≢ a → (2 ≤ h.word1 x) × ((x + h.word1 x ≤ a) ⊎ (a + (s + t) ≤ x))
  around x i ne = rw (words1-other x ne) at (
      Blocks-around words0 words1 h.lo ds (free (s + t)) bs h.hi grown-Blocks x (rw (same x) at i)
        ne)

  foot-spares : (x : ℕ) → x ∈ xs → foot ≢ x
  foot-spares x i e = elim (ℕ_discrete x a) [
    | yes here ↦ omega (arith, parts.1.0, e, here)
    | no other ↦ elim ((around x i other).1) [
      | inl before ↦ omega (arith, parts.1.0, e, before)
      | inr behind ↦ omega (arith, parts.1.0, e, behind)
    ]
  ]

  spared-feet :
      (x : ℕ)
      → x ∈ xs
      → x ≢ a
      → (a ≢ get_footer_from_header h x) × (foot ≢ get_footer_from_header h x)
  spared-feet x i ne = elim ((around x i ne).1) [
    | inl before ↦
        let two = (around x i ne).0 in
        ((λ e. omega (arith, e, before, two)), (λ e. omega (arith, parts.1.0, e, before, two)))
    | inr behind ↦
        let two = (around x i ne).0 in
        (
          (λ e. omega (arith, e, behind, two, parts.1.0)),
          (λ e. omega (arith, parts.1.0, e, behind, two)),
        )
  ]

  a-in : a ∈ xs
  a-in = rw (same a, occurrences-frees h.lo ds (free (s + t)) bs a, ==_refl a) (omega arith)

  after-a : (n : ℕ) → h.link a ≡ some n → (n ∈ xs) × (chunk_get_prev_free h n ≡ some a) × (n ≢ a)
  after-a n e = next-prev h.link (chunk_get_prev_free h) none xs l.next l.prev l.distinct a n a-in e

  links-next : (an : Option ℕ) → h.link a ≡ an → (x : ℕ) → x ∈ xs → links an x ≡ h.link x
  links-next none e x i = elim (ℕ_discrete a x) [
    | yes here ↦
        rw (==_ne foot x (foot-spares x i), ap (λ z. z == x) here, ==_refl x)
          (sym e ∙ ap h.link here)
    | no other ↦ rw (==_ne foot x (foot-spares x i), ==_ne a x other) refl
  ]
  links-next (some n) e x i =
      let (j, _, ne) = after-a n e in
      let away : (n + words1 n - 1 == x) ≡ false =
        rw (words1-other n ne)
          (==_ne (get_footer_from_header h n) x (foot-ne l.separate n x j i)) in
      elim (ℕ_discrete a x) [
        | yes here ↦
            rw (==_ne foot x (foot-spares x i), away, ap (λ z. z == x) here, ==_refl x)
              (sym e ∙ ap h.link here)
        | no other ↦ rw (==_ne foot x (foot-spares x i), away, ==_ne a x other) refl
      ]

  links-here : (an : Option ℕ) → links an foot ≡ chunk_get_prev_free h a
  links-here none = rw (==_refl foot) refl
  links-here (some n) = rw (==_refl foot) refl

  links-prev :
      (an : Option ℕ)
      → h.link a ≡ an
      → (x : ℕ) → x ∈ xs
      → x ≢ a
      → links an (get_footer_from_header h x) ≡ chunk_get_prev_free h x
  links-prev none e x i ne =
      let (p, q) = spared-feet x i ne in
      rw (==_ne foot (get_footer_from_header h x) q, ==_ne a (get_footer_from_header h x) p) refl
  links-prev (some n) e x i ne =
      let f = get_footer_from_header h x in
      let (p, q) = spared-feet x i ne in
      let (j, back, ne') = after-a n e in
      elim (ℕ_discrete n x) [
        | yes here ↦
            let hit : (n + words1 n - 1 == f) ≡ true = rw (words1-other n ne', here) (==_refl f) in
            rw (==_ne foot f q, hit) (sym back ∙ ap (λ z. chunk_get_prev_free h z) here)
        | no other ↦
            let away : (n + words1 n - 1 == f) ≡ false =
              rw (words1-other n ne')
                (==_ne (get_footer_from_header h n) f (foot-injective l.separate n x j i other)) in
            rw (==_ne foot f q, away, ==_ne a f p) refl
      ]

  grown-Linked :
      (an first : Option ℕ) → h.link a ≡ an → first ≡ head_or xs none → Linked (grown an first) xs
  grown-Linked an first e e' = record {
    head = e';
    next = NextTo-frame xs none (links-next an e) l.next;
    prev = PrevFrom-frame none xs prevs l.prev;
    distinct = l.distinct;
    separate = record { two = two; apart = apart };
  }
    where
      prevs : (x : ℕ) → x ∈ xs → links an (x + words1 x - 1) ≡ chunk_get_prev_free h x
      prevs x i = elim (ℕ_discrete x a) [
        | yes here ↦ rw (here, ==_refl a) (links-here an)
        | no other ↦ rw (words1-other x other) (links-prev an e x i other)
      ]

      two : (x : ℕ) → x ∈ xs → 2 ≤ words1 x
      two x i = elim (ℕ_discrete x a) [
        | yes here ↦ rw (here, ==_refl a) (omega (arith, parts.1.0))
        | no other ↦ rw (words1-other x other) ((around x i other).0)
      ]

      apart : (x y : ℕ) → x ∈ xs → y ∈ xs → x ≢ y → (x + words1 x ≤ y) ⊎ (y + words1 y ≤ x)
      apart x y i j ne = elim (ℕ_discrete x a) [
        | yes here ↦ elim (ℕ_discrete y a) [
          | yes there ↦ absurd (ne (here ∙ sym there))
          | no other ↦
              rw (here, ==_refl a, words1-other y other)
                (elim ((around y j other).1) [ inl before ↦ inr before | inr behind ↦ inl behind ])
        ]
        | no other ↦ elim (ℕ_discrete y a) [
          | yes there ↦ rw (there, ==_refl a, words1-other x other) ((around x i other).1)
          | no another ↦
              rw (words1-other x other, words1-other y another) (l.separate.apart x y i j ne)
        ]
      ]

  -- The two blocks are one, and the list has the same nodes.
  pub widen-Wf : Wf (widen h a (a + s) (h.link a)) (ds ++ free (s + t) ∷ bs) xs
  widen-Wf = rw (widen-grown (h.link a)) (
      if-cases (λ g. Wf g (ds ++ free (s + t) ∷ bs) xs) (is_null (chunk_get_prev_free h a))
        (λ e.
          whole (some a)
            (sym (prev-none h.link (chunk_get_prev_free h) xs l.prev a a-in (null-none _ e))))
        (λ _. whole h.free_head l.head))
    where
      null-none : (p : Option ℕ) → is_null p ≡ true → p ≡ none
      null-none none e = refl
      null-none (some p) e = absurd cc

      whole :
          (first : Option ℕ)
          → first ≡ head_or xs none
          → Wf (grown (h.link a) first) (ds ++ free (s + t) ∷ bs) xs
      whole first e = record {
        layout = grown-Blocks;
        linked = grown-Linked (h.link a) first refl e;
        same = same;
      }
