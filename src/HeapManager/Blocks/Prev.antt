-- ===== src/HeapManager/Blocks/Prev.antt =====
-- Lab3/src/heapmgr1.c: a block that has become free joins the block in front.
use mathlib.Core.Path.{subst}
use system_programming.Base.{
  ℕ, ◌+◌, ◌-◌, ◌≡◌, inl, inr, refl, sym, ◌∙◌, ap, true, false, Option, none, some, List, ◌∷◌, ◌++◌,
  ==_refl, if◌then◌else◌, Bool-cases, arith,
}
use system_programming.HeapManager.{Heap}
use system_programming.HeapManager.Chunk.{
  chunk_free, chunk_used, chunk_get_prev_free, chunk_get_adjacent, chunk_get_prev_adjacent,
}
use system_programming.HeapManager.Validity.{ptr_eq, is_null}
use system_programming.HeapManager.FreeList.{set_head, freelist_unlink}
use system_programming.HeapManager.Links.{◌∈◌}
use system_programming.HeapManager.Nodes.{Separate, Linked, in_middle, in_without, not-without}
use system_programming.HeapManager.FreeList.{merge, coalesce_two, join_prev}
use system_programming.HeapManager.Blocks.{
  Block, free, used, span_of, Blocks, total, Wf, Blocks-split,
}
use system_programming.HeapManager.Links.{next-prev, prev-none, ptr_eq_lem}
use system_programming.HeapManager.Nodes.Unlink.{
  freelist_unlink-Linked, freelist_unlink-none, freelist_unlink-again,
}
use system_programming.HeapManager.Nodes.Place.{SameWords, Clear, Separate-Clear}
use system_programming.Base.{if-cases}
use system_programming.HeapManager.Validity.{chunk_is_valid}
use system_programming.HeapManager.Blocks.Merge.{widen-unlinked, same-joined, a-in}
use system_programming.HeapManager.Blocks.Next.{ltb-false}
use system_programming.HeapManager.Blocks.Adjacent.{
  adjacent-block, prev_adjacent-block, chunk_is_valid-block,
}

module _ (h : Heap) (c : ℕ) where
  pub join_prev-none : chunk_get_prev_adjacent h c h.lo ≡ none → join_prev h c ≡ h
  unfolding join_prev
  join_prev-none e = rw (e, join_prev) refl

  join_prev-used :
      (p : ℕ)
      → chunk_get_prev_adjacent h c h.lo ≡ some p
      → chunk_is_valid h p h.lo h.hi ≡ true
      → chunk_get_adjacent h p h.hi ≡ some c
      → h.word0 p ≡ chunk_used
      → join_prev h c ≡ h
  unfolding join_prev
  join_prev-used p e v e' u = rw (e, join_prev, v, e', ==_refl c, u) refl

  -- What is done once the block in front is known to be free.
  abbrev joined : ℕ → Heap
  joined p =
      let (h₂, survivor) = coalesce_two (freelist_unlink h c) p c in
      if is_null (chunk_get_prev_free h₂ survivor) then set_head h₂ (some survivor) else h₂

  join_prev-free :
      (p : ℕ)
      → chunk_get_prev_adjacent h c h.lo ≡ some p
      → chunk_is_valid h p h.lo h.hi ≡ true
      → chunk_get_adjacent h p h.hi ≡ some c
      → h.word0 p ≡ chunk_free
      → join_prev h c ≡ joined p
  unfolding join_prev
  join_prev-free p e v e' u = rw (e, join_prev, v, e', ==_refl c, u) refl

module _ (h : Heap) (es : List Block) (d : Block) (bs : List Block) (s : ℕ) (zs : List ℕ)
    (w : Wf h (es ++ d ∷ free s ∷ bs) zs) where
  abbrev p : ℕ
  p = h.lo + total es

  abbrev there : Blocks h.word0 h.word1 p (d ∷ free s ∷ bs) h.hi
  there = (Blocks-split h.word0 h.word1 h.lo es (d ∷ free s ∷ bs) h.hi w.layout).1

  front : chunk_get_prev_adjacent h (p + span_of d) h.lo ≡ some p
  front = prev_adjacent-block h p d (free s) bs there (omega arith)

  back : chunk_get_adjacent h p h.hi ≡ some (p + span_of d)
  back = adjacent-block h p d (free s) bs there

  valid : chunk_is_valid h p h.lo h.hi ≡ true
  valid = chunk_is_valid-block h p d (free s ∷ bs) there (omega arith)

pub join_prev-same :
    (h : Heap) (es bs : List Block) (t s : ℕ) (zs : List ℕ)
    → Wf h (es ++ used t ∷ free s ∷ bs) zs
    → join_prev h (h.lo + total es + t) ≡ h
join_prev-same h es bs t s zs w =
    join_prev-used h (h.lo + total es + t) (h.lo + total es) (front h es (used t) bs s zs w)
      (valid h es (used t) bs s zs w) (back h es (used t) bs s zs w)
      ((there h es (used t) bs s zs w).1)

-- The head is stored once more.
Wf-set_head :
    (h : Heap) (bs : List Block) (xs : List ℕ) (x : ℕ)
    → Wf h bs xs
    → x ∈ xs
    → Wf (if is_null (chunk_get_prev_free h x) then set_head h (some x) else h) bs xs
Wf-set_head h bs xs x w i =
    if-cases (λ g. Wf g bs xs) (is_null (chunk_get_prev_free h x))
      (λ e.
        let first =
          prev-none h.link (chunk_get_prev_free h) xs w.linked.prev x i
            (null-none (chunk_get_prev_free h x) e) in
        record {
          layout = w.layout;
          linked = record {
            head = sym first;
            next = w.linked.next;
            prev = w.linked.prev;
            distinct = w.linked.distinct;
            separate = w.linked.separate;
          };
          same = w.same;
        })
      (λ _. w)
  where
    null-none : (q : Option ℕ) → is_null q ≡ true → q ≡ none
    null-none none e = refl
    null-none (some q) e = absurd cc

module _ (h : Heap) (es bs : List Block) (t s : ℕ) (xs ys : List ℕ)
    (w : Wf h (es ++ free t ∷ free s ∷ bs) (xs ++ (h.lo + total es + t) ∷ ys)) where
  abbrev q : ℕ
  q = h.lo + total es

  abbrev c : ℕ
  c = q + t

  abbrev once : Heap
  once = freelist_unlink h c

  abbrev twice : Heap
  twice = freelist_unlink once c

  first_unlink : Linked once (xs ++ ys) × SameWords h once
  first_unlink = freelist_unlink-Linked h xs c ys w.linked

  clear : (x : ℕ) → x ∈ (xs ++ ys) → Clear once c x
  clear x i =
      let sep : Separate once.word1 (xs ++ c ∷ ys) =
        subst (λ v. Separate v (xs ++ c ∷ ys)) (sym first_unlink.1.word1) w.linked.separate in
      Separate-Clear c x sep (in_middle xs c ys) (in_without xs c ys x i)
        (not-without xs c ys w.linked.distinct x i)

  second_unlink :
      Linked twice (xs ++ ys)
      × SameWords once twice
      × ((x : ℕ) → x ∈ (xs ++ ys) → twice.link x ≡ once.link x)
  second_unlink =
      let (same_span, gone, gone') = freelist_unlink-none h xs c ys w.linked in
      freelist_unlink-again once c (xs ++ ys) first_unlink.0 clear gone
        (ap (λ (z : ℕ). once.link (c + z - 1)) (sym same_span) ∙ gone')

  q-in : q ∈ (xs ++ ys)
  q-in = a-in h es bs t s xs ys w

  not_next : ptr_eq (once.link q) c ≡ false
  not_next = elim (Bool-cases (ptr_eq (once.link q) c)) [
    | inr e ↦ e
    | inl e ↦
        let l = first_unlink.0 in
        let (i, _, _) =
          next-prev once.link (chunk_get_prev_free once) none (xs ++ ys) l.next l.prev l.distinct q
            c q-in (ptr_eq_lem (once.link q) c e) in
        absurd (not-without xs c ys w.linked.distinct c i refl)
  ]

  both : SameWords h twice
  both =
      let f = first_unlink.1 in
      let g = second_unlink.1 in
      record {
        word0 = g.word0 ∙ f.word0;
        word1 = g.word1 ∙ f.word1;
        lo = g.lo ∙ f.lo;
        hi = g.hi ∙ f.hi;
      }

  merged : Wf (merge once q c) (es ++ free (t + s) ∷ bs) (xs ++ ys)
  unfolding merge
  merged =
      widen-unlinked h es bs t s twice (xs ++ ys) both w.layout second_unlink.0
        (same-joined h es bs t s xs ys w) _ (rw not_next (sym (second_unlink.2 q q-in)))

  coalesced : coalesce_two once q c ≡ (merge once q c, q)
  unfolding coalesce_two
  coalesced = rw (ltb-false c q (omega arith)) refl

  pub join_prev-Wf : Wf (join_prev h c) (es ++ free (t + s) ∷ bs) (xs ++ ys)
  join_prev-Wf =
      let w' = w in
      let zs = xs ++ c ∷ ys in
      let e : join_prev h c ≡ (
          if is_null (chunk_get_prev_free (merge once q c) q)
          then set_head (merge once q c) (some q)
          else merge once q c) =
        join_prev-free h c q (front h es (free t) bs s zs w) (valid h es (free t) bs s zs w)
          (back h es (free t) bs s zs w) ((there h es (free t) bs s zs w).1)
        ∙ ap
            (λ (r : Heap × ℕ).
              if is_null (chunk_get_prev_free r.0 r.1) then set_head r.0 (some r.1) else r.0)
            coalesced in
      subst (λ g. Wf g (es ++ free (t + s) ∷ bs) (xs ++ ys)) (sym e)
        (Wf-set_head (merge once q c) (es ++ free (t + s) ∷ bs) (xs ++ ys) q merged q-in)
