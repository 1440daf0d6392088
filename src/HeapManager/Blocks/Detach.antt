-- ===== src/HeapManager/Blocks/Detach.antt =====
-- Lab3/src/heapmgr1.c: `freelist_detach` makes a free block used.
use native.Mathlib.Decide.{ℕ_discrete}
use system_programming.Base.{
  ℕ, ◌+◌, ◌≡◌, refl, Option, none, some, List, [], ◌∷◌, ◌++◌, occurrences-append, arith,
}
use system_programming.Base.Family.{update}
use system_programming.HeapManager.{Heap}
use system_programming.HeapManager.Chunk.{chunk_used, chunk_get_prev_free, get_footer_from_header}
use system_programming.HeapManager.FreeList.{freelist_detach}
use system_programming.HeapManager.Links.{head_or, last_or, last-mem}
use system_programming.HeapManager.Blocks.{Block, free, used, total, Wf}
use system_programming.HeapManager.Nodes.Relink.{next-at, prev-at}
use system_programming.HeapManager.Blocks.Regions.{occurrences-frees}
use system_programming.HeapManager.Nodes.Relink.{Passed-Linked}
use system_programming.HeapManager.Nodes.Place.{Placed, at-Placed, LinksAt}
use system_programming.HeapManager.Blocks.Regions.{Blocks-restatus}

module _ (h : Heap) (c : ℕ) where
  -- The neighbours' links.
  abbrev around : Option ℕ → Option ℕ → ℕ → Option ℕ
  around none none = h.link
  around none (some n) =
      update (update h.link (get_footer_from_header h n) none) (get_footer_from_header h n) none
  around (some p) none = update h.link p none
  around (some p) (some n) = update (update h.link p (some n)) (get_footer_from_header h n) (some p)

  abbrev first : Option ℕ → Option ℕ → Option ℕ
  first none next = next
  first (some p) next = h.free_head

  abbrev detached : Option ℕ → Option ℕ → Heap
  detached prev next = record h {
    word0 = update h.word0 c chunk_used;
    link = update (update (around prev next) c none) (get_footer_from_header h c) none;
    free_head = first prev next;
  }

  freelist_detach-detached :
      (prev next : Option ℕ)
      → chunk_get_prev_free h c ≡ prev
      → h.link c ≡ next
      → freelist_detach h c ≡ detached prev next
  unfolding freelist_detach
  freelist_detach-detached none none e e' = rw (e, e') refl
  freelist_detach-detached none (some n) e e' = rw (e, e') refl
  freelist_detach-detached (some p) none e e' = rw (e, e') refl
  freelist_detach-detached (some p) (some n) e e' = rw (e, e') refl

  detached-LinksAt :
      (prev next : Option ℕ) (x : ℕ)
      → Placed h c prev next x
      → LinksAt h (detached prev next) prev next x
  detached-LinksAt none none x k =
      let q = k.clear in ground (arith, q.other, q.foot_other, q.other_foot, q.feet)
  detached-LinksAt (some p) none x k =
      let q = k.clear in
      ground (arith, q.other, q.foot_other, q.other_foot, q.feet, k.before p refl)
  detached-LinksAt none (some n) x k =
      let q = k.clear in
      elim (ℕ_discrete n x) [
        | yes same ↦
            ground (arith, q.other, q.foot_other, q.other_foot, q.feet, (k.behind n refl).0, same)
        | no other ↦ ground (
          arith,
          q.other,
          q.foot_other,
          q.other_foot,
          q.feet,
          (k.behind n refl).0,
          ((k.behind n refl).1 other).feet,
        )
      ]
  detached-LinksAt (some p) (some n) x k =
      let q = k.clear in
      elim (ℕ_discrete n x) [
        | yes same ↦ ground (
          arith,
          q.other,
          q.foot_other,
          q.other_foot,
          q.feet,
          (k.behind n refl).0,
          same,
          k.before p refl,
        )
        | no other ↦ ground (
          arith,
          q.other,
          q.foot_other,
          q.other_foot,
          q.feet,
          (k.behind n refl).0,
          ((k.behind n refl).1 other).feet,
          k.before p refl,
        )
      ]

module _ (h : Heap) (ds bs : List Block) (s : ℕ) (xs ys : List ℕ)
    (w : Wf h (ds ++ free s ∷ bs) (xs ++ (h.lo + total ds) ∷ ys)) where
  abbrev start : ℕ
  start = h.lo + total ds

  abbrev prev : Option ℕ
  prev = last_or none xs

  abbrev next : Option ℕ
  next = head_or ys none

  detached-head : first h start prev next ≡ head_or (xs ++ ys) none
  detached-head = by_list xs w.linked.head
    where
      by_list :
          (ws : List ℕ)
          → h.free_head ≡ head_or (ws ++ start ∷ ys) none
          → first h start (last_or none ws) next ≡ head_or (ws ++ ys) none
      by_list [] e = refl
      by_list (v ∷ ws) e = let (q, e', _) = last-mem v ws in rw e' e

  -- The block stays where it is, and the list keeps the other nodes in their order.
  pub freelist_detach-Wf : Wf (freelist_detach h start) (ds ++ used s ∷ bs) (xs ++ ys)
  freelist_detach-Wf =
      rw
        (freelist_detach-detached h start prev next (prev-at h xs start ys w.linked)
          (next-at h xs start ys w.linked))
        (record {
          layout = Blocks-restatus h.word0 h.word1 h.lo ds (free s) (used s) bs h.hi refl w.layout;
          linked =
              Passed-Linked h xs start ys w.linked (detached h start prev next) refl detached-head
                (λ x i.
                  detached-LinksAt h start prev next x (at-Placed h xs start ys w.linked x i));
          same = λ x. ground (
            arith,
            w.same x,
            occurrences-frees h.lo ds (free s) bs x,
            occurrences-frees h.lo ds (used s) bs x,
            occurrences-append xs (start ∷ ys) x,
            occurrences-append xs ys x,
          );
        })
