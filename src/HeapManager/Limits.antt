-- ===== src/HeapManager/Limits.antt =====
-- Lab3/src/heapmgr1.c: what the operations on blocks leave alone: where the heap begins and ends, and
-- that it is set up, and the program break.
use system_programming.Base.{
  ℕ, ◌+◌, ◌-◌, ◌≡◌, refl, ◌∙◌, Bool, ◌&&◌, Option, none, some, ◌==◌, ltb, leb, if-cases,
}
use system_programming.HeapManager.{Heap}
use system_programming.HeapManager.Chunk.{
  chunk_free, chunk_set_span_units, chunk_get_prev_free, chunk_get_next_free, chunk_get_status,
  chunk_get_adjacent, chunk_get_prev_adjacent,
}
use system_programming.HeapManager.Validity.{chunk_is_valid, ptr_eq, is_null}
use system_programming.HeapManager.FreeList.{
  set_prev_if, set_head, bypass, freelist_unlink, widen, merge, coalesce_two, push_head, join_next,
  join_prev, freelist_push_front, split_for_alloc, freelist_detach, detach_front,
}
use system_programming.HeapManager.Alloc.{take_block, heapmgr_free}

abbrev pub limits : Heap → ℕ × ℕ × Bool × ℕ
limits h = (h.lo, h.hi, h.booted, h.program_break)

limits-set_prev_if : (h : Heap) (n p : Option ℕ) → limits (set_prev_if h n p) ≡ limits h
limits-set_prev_if h none p = refl
limits-set_prev_if h (some n) p = refl

limits-bypass : (h : Heap) (c : ℕ) (prev next : Option ℕ) → limits (bypass h c prev next) ≡ limits h
limits-bypass h c none next =
    if-cases (λ (g : Heap). limits g ≡ limits h) (ptr_eq h.free_head c) (λ _. refl) (λ _. refl)
limits-bypass h c (some p) next = refl

limits-detach_front :
    (h : Heap) (c : ℕ) (prev next : Option ℕ) → limits (detach_front h c prev next) ≡ limits h
limits-detach_front h c none next = limits-set_prev_if (set_head h next) next none
limits-detach_front h c (some p) next = refl

module _ (h : Heap) (c : ℕ) where
  limits-freelist_unlink : limits (freelist_unlink h c) ≡ limits h
  unfolding freelist_unlink
  limits-freelist_unlink =
      let prev = chunk_get_prev_free h c in
      let next = chunk_get_next_free h c in
      limits-set_prev_if (bypass h c prev next) next prev ∙ limits-bypass h c prev next

  limits-freelist_detach : limits (freelist_detach h c) ≡ limits h
  unfolding freelist_detach
  limits-freelist_detach =
      let prev = chunk_get_prev_free h c in
      let next = chunk_get_next_free h c in
      limits-set_prev_if (detach_front h c prev next) next prev ∙ limits-detach_front h c prev next

  limits-push_head : limits (push_head h c) ≡ limits h
  unfolding push_head
  limits-push_head = by_head h.free_head refl
    where
      by_head : (first : Option ℕ) → h.free_head ≡ first → limits (push_head h c) ≡ limits h
      by_head none e = rw e refl
      by_head (some n) e = rw e refl

limits-widen : (h : Heap) (a b : ℕ) (an : Option ℕ) → limits (widen h a b an) ≡ limits h
unfolding widen chunk_set_span_units
limits-widen h a b none =
    if-cases (λ (g : Heap). limits g ≡ limits h) (is_null (chunk_get_prev_free h a)) (λ _. refl)
      (λ _. refl)
limits-widen h a b (some n) =
    if-cases (λ (g : Heap). limits g ≡ limits h) (is_null (chunk_get_prev_free h a)) (λ _. refl)
      (λ _. refl)

limits-merge : (h : Heap) (a b : ℕ) → limits (merge h a b) ≡ limits h
unfolding merge
limits-merge h a b = limits-widen (freelist_unlink h b) a b _ ∙ limits-freelist_unlink h b

limits-coalesce_two : (h : Heap) (a b : ℕ) → limits (coalesce_two h a b).0 ≡ limits h
unfolding coalesce_two
limits-coalesce_two h a b =
    if-cases (λ (r : Heap × ℕ). limits r.0 ≡ limits h) (ltb b a) (λ _. limits-merge h b a)
      (λ _. limits-merge h a b)

module _ (h : Heap) (c : ℕ) where
  limits-join_next : limits (join_next h c).0 ≡ limits h
  unfolding join_next
  limits-join_next = by_next (chunk_get_adjacent h c h.hi) refl
    where
      by_next :
          (next : Option ℕ)
          → chunk_get_adjacent h c h.hi ≡ next
          → limits (join_next h c).0 ≡ limits h
      by_next none e = rw (e, join_next) refl
      by_next (some n) e =
          rw (e, join_next)
            (if-cases (λ (r : Heap × ℕ). limits r.0 ≡ limits h) (chunk_get_status h n == chunk_free)
              (λ _. limits-coalesce_two h c n) (λ _. refl))

  limits-join_prev : limits (join_prev h c) ≡ limits h
  unfolding join_prev
  limits-join_prev = by_prev (chunk_get_prev_adjacent h c h.lo) refl
    where
      joined : (p : ℕ) → limits (coalesce_two (freelist_unlink h c) p c).0 ≡ limits h
      joined p = limits-coalesce_two (freelist_unlink h c) p c ∙ limits-freelist_unlink h c

      by_prev :
          (prev : Option ℕ)
          → chunk_get_prev_adjacent h c h.lo ≡ prev
          → limits (join_prev h c) ≡ limits h
      by_prev none e = rw (e, join_prev) refl
      by_prev (some p) e =
          rw (e, join_prev)
            (if-cases (λ (g : Heap). limits g ≡ limits h)
              (chunk_is_valid h p h.lo h.hi
                && ptr_eq (chunk_get_adjacent h p h.hi) c
                && (chunk_get_status h p == chunk_free))
              (λ _.
                let (h₂, survivor) = coalesce_two (freelist_unlink h c) p c in
                if-cases (λ (g : Heap). limits g ≡ limits h)
                  (is_null (chunk_get_prev_free h₂ survivor)) (λ _. joined p) (λ _. joined p))
              (λ _. refl))

pub limits-freelist_push_front : (h : Heap) (c : ℕ) → limits (freelist_push_front h c) ≡ limits h
unfolding freelist_push_front
limits-freelist_push_front h c =
    let h₁ = push_head h c in
    let (h₂, c') = join_next h₁ c in
    limits-join_prev h₂ c' ∙ limits-join_next h₁ c ∙ limits-push_head h c

pub limits-heapmgr_free : (h : Heap) (p : Option ℕ) → limits (heapmgr_free h p) ≡ limits h
unfolding heapmgr_free
limits-heapmgr_free h none = refl
limits-heapmgr_free h (some p) = limits-freelist_push_front h (p - 1)

limits-split_for_alloc :
    (h : Heap) (c need_units : ℕ) → limits (split_for_alloc h c need_units).0 ≡ limits h
unfolding split_for_alloc chunk_set_span_units
limits-split_for_alloc h c need_units = refl

pub limits-take_block :
    (h : Heap) (c need_units : ℕ) → limits (take_block h c need_units).0 ≡ limits h
unfolding take_block
limits-take_block h c need_units =
    if-cases (λ (r : Heap × ℕ). limits r.0 ≡ limits h) (leb (2 + need_units + 2) (h.word1 c))
      (λ _. limits-split_for_alloc h c need_units) (λ _. limits-freelist_detach h c)
