-- ===== src/HeapManager/Nodes/Unlink.antt =====
-- Lab3/src/heapmgr1.c: `freelist_unlink` and `freelist_detach` take a node out of the list.
use native.Mathlib.Decide.{ℕ_discrete}
use system_programming.Base.{
  ℕ, ◌≤◌, ◌≡◌, ◌≢◌, refl, sym, ◌∙◌, ap, false, Option, none, some, List, [], ◌∷◌, ◌++◌, ==_ne,
  ==_refl, arith,
}
use system_programming.Base.Family.{update}
use system_programming.HeapManager.{Heap}
use system_programming.HeapManager.Chunk.{
  chunk_get_prev_free, chunk_set_next_free, chunk_set_prev_free, get_footer_from_header,
}
use system_programming.HeapManager.Validity.{ptr_eq}
use system_programming.HeapManager.FreeList.{set_prev_if, set_head, bypass, freelist_unlink}
use system_programming.HeapManager.Links.{
  ◌∈◌, head_or, last_or, NextTo-frame, PrevFrom-frame, last-mem, in_head,
}
use system_programming.HeapManager.Nodes.{Linked, in_middle}
use system_programming.HeapManager.Nodes.Relink.{next-at, prev-at, Passed, Passed-Linked}
use system_programming.HeapManager.Nodes.Place.{Clear, LinksAt, SameWords, at-Placed}

-- The predecessor, or the head, has been given the successor.
abbrev pub bypassed : Heap → Option ℕ → Option ℕ → Heap
bypassed h none next = set_head h next
bypassed h (some p) next = chunk_set_next_free h p next

bypass-head :
    (h : Heap) (c : ℕ) (next : Option ℕ)
    → h.free_head ≡ some c
    → bypass h c none next ≡ set_head h next
bypass-head h c next e = rw (e, ==_refl c) refl

-- What both operations store behind that.
abbrev pub cleared : Heap → ℕ → Option ℕ → Option ℕ → Heap
cleared h c prev next =
    chunk_set_next_free (chunk_set_prev_free (set_prev_if (bypassed h prev next) next prev) c none)
      c none

cleared-LinksAt :
    (h : Heap) (c x : ℕ) (prev next : Option ℕ)
    → Clear h c x
    → ((p : ℕ) → prev ≡ some p → p ≢ get_footer_from_header h x)
    → ((n : ℕ) → next ≡ some n → (get_footer_from_header h n ≢ x) × (n ≢ x → Clear h n x))
    → LinksAt h (cleared h c prev next) prev next x
cleared-LinksAt h c x none none k p n = ground (arith, k.other, k.foot_other, k.other_foot, k.feet)
cleared-LinksAt h c x (some q) none k p n =
    ground (arith, k.other, k.foot_other, k.other_foot, k.feet, p q refl)
cleared-LinksAt h c x none (some m) k p n = elim (ℕ_discrete m x) [
  | yes same ↦ ground (arith, k.other, k.foot_other, k.other_foot, k.feet, (n m refl).0, same)
  | no other ↦
      ground (
        arith,
        k.other,
        k.foot_other,
        k.other_foot,
        k.feet,
        (n m refl).0,
        ((n m refl).1 other).feet,
      )
]
cleared-LinksAt h c x (some q) (some m) k p n = elim (ℕ_discrete m x) [
  | yes same ↦
      ground (arith, k.other, k.foot_other, k.other_foot, k.feet, (n m refl).0, same, p q refl)
  | no other ↦ ground (
    arith,
    k.other,
    k.foot_other,
    k.other_foot,
    k.feet,
    (n m refl).0,
    ((n m refl).1 other).feet,
    p q refl,
  )
]

cleared-SameWords : (h : Heap) (c : ℕ) (prev next : Option ℕ) → SameWords h (cleared h c prev next)
cleared-SameWords h c none none = record { word0 = refl; word1 = refl; lo = refl; hi = refl }
cleared-SameWords h c none (some n) = record { word0 = refl; word1 = refl; lo = refl; hi = refl }
cleared-SameWords h c (some p) none = record { word0 = refl; word1 = refl; lo = refl; hi = refl }
cleared-SameWords h c (some p) (some n) = record {
  word0 = refl;
  word1 = refl;
  lo = refl;
  hi = refl;
}

cleared-none :
    (h : Heap) (c : ℕ) (prev next : Option ℕ)
    → 2 ≤ h.word1 c
    → (h.word1 c ≡ (cleared h c prev next).word1 c)
      × ((cleared h c prev next).link c ≡ none)
      × ((cleared h c prev next).link (get_footer_from_header h c) ≡ none)
cleared-none h c none none two = (refl, ground arith, ground arith)
cleared-none h c none (some n) two = (refl, ground arith, ground arith)
cleared-none h c (some p) none two = (refl, ground arith, ground arith)
cleared-none h c (some p) (some n) two = (refl, ground arith, ground arith)

-- Unlinking a block that is in no list, with no links.
pub freelist_unlink-again :
    (h : Heap) (c : ℕ) (xs : List ℕ)
    → Linked h xs
    → ((x : ℕ) → x ∈ xs → Clear h c x)
    → h.link c ≡ none
    → chunk_get_prev_free h c ≡ none
    → Linked (freelist_unlink h c) xs
      × SameWords h (freelist_unlink h c)
      × ((x : ℕ) → x ∈ xs → (freelist_unlink h c).link x ≡ h.link x)
unfolding freelist_unlink
freelist_unlink-again h c xs l clear e e' =
    let outside : ptr_eq h.free_head c ≡ false = not_head xs l.head clear in
    rw (e, e', outside)
      (
        record {
          head = l.head;
          next = NextTo-frame xs none (λ x i. links x i) l.next;
          prev = PrevFrom-frame none xs (λ x i. feet x i) l.prev;
          distinct = l.distinct;
          separate = l.separate;
        },
        record { word0 = refl; word1 = refl; lo = refl; hi = refl },
        links,
      )
  where
    not_head :
        (zs : List ℕ)
        → h.free_head ≡ head_or zs none
        → ((x : ℕ) → x ∈ zs → Clear h c x)
        → ptr_eq h.free_head c ≡ false
    not_head [] e k = rw e refl
    not_head (z ∷ zs) e k = rw e (==_ne z c λ same. (k z (in_head z zs)).other (sym same))

    links :
        (x : ℕ)
        → x ∈ xs
        → update (update h.link (get_footer_from_header h c) none) c none x ≡ h.link x
    links x i =
        rw
          (==_ne c x (clear x i).other, ==_ne (get_footer_from_header h c) x (clear x i).foot_other)
          refl

    feet :
        (x : ℕ)
        → x ∈ xs
        → update
            (update h.link (get_footer_from_header h c) none)
            c
            none
            (get_footer_from_header h x)
          ≡ chunk_get_prev_free h x
    feet x i =
        rw
          (
            ==_ne c (get_footer_from_header h x) (clear x i).other_foot,
            ==_ne (get_footer_from_header h c) (get_footer_from_header h x) (clear x i).feet,
          )
          refl

module _ (h : Heap) (xs : List ℕ) (c : ℕ) (ys : List ℕ) (l : Linked h (xs ++ c ∷ ys)) where
  cleared-Passed : Passed h xs c ys l (cleared h c (last_or none xs) (head_or ys none))
  cleared-Passed x i =
      let p = at-Placed h xs c ys l x i in
      cleared-LinksAt h c x (last_or none xs) (head_or ys none) p.clear p.before p.behind

  cleared-head :
      (cleared h c (last_or none xs) (head_or ys none)).free_head ≡ head_or (xs ++ ys) none
  cleared-head = by_lists xs ys l.head
    where
      by_lists :
          (ws zs : List ℕ)
          → h.free_head ≡ head_or (ws ++ c ∷ zs) none
          → (cleared h c (last_or none ws) (head_or zs none)).free_head ≡ head_or (ws ++ zs) none
      by_lists [] [] e = refl
      by_lists [] (z ∷ zs) e = refl
      by_lists (w ∷ ws) [] e = let (q, e', _) = last-mem w ws in rw e' e
      by_lists (w ∷ ws) (z ∷ zs) e = let (q, e', _) = last-mem w ws in rw e' e

  bypass-bypassed :
      bypass h c (last_or none xs) (head_or ys none)
      ≡ bypassed h (last_or none xs) (head_or ys none)
  bypass-bypassed = by_list xs l.head
    where
      by_list :
          (ws : List ℕ)
          → h.free_head ≡ head_or (ws ++ c ∷ ys) none
          → bypass h c (last_or none ws) (head_or ys none)
            ≡ bypassed h (last_or none ws) (head_or ys none)
      by_list [] e = bypass-head h c (head_or ys none) e
      by_list (w ∷ ws) e = let (q, e', _) = last-mem w ws in rw e' refl

  pub freelist_unlink-cleared :
      freelist_unlink h c ≡ cleared h c (last_or none xs) (head_or ys none)
  unfolding freelist_unlink
  freelist_unlink-cleared =
      ap
        (λ (r : Option ℕ × Option ℕ).
          chunk_set_next_free
            (chunk_set_prev_free (set_prev_if (bypass h c r.0 r.1) r.1 r.0) c none) c none)
        (λ i. (prev-at h xs c ys l i, next-at h xs c ys l i))
      ∙ ap
          (λ g.
            chunk_set_next_free
              (chunk_set_prev_free (set_prev_if g (head_or ys none) (last_or none xs)) c none) c
              none)
          bypass-bypassed

  -- Unlinking a node of the free list leaves a list of the others in their order, and blocks as they were.
  pub freelist_unlink-Linked :
      Linked (freelist_unlink h c) (xs ++ ys) × SameWords h (freelist_unlink h c)
  freelist_unlink-Linked =
      let words = cleared-SameWords h c (last_or none xs) (head_or ys none) in
      rw freelist_unlink-cleared
        (Passed-Linked h xs c ys l _ words.word1 cleared-head cleared-Passed, words)

  pub freelist_unlink-Passed : Passed h xs c ys l (freelist_unlink h c)
  freelist_unlink-Passed = rw freelist_unlink-cleared cleared-Passed

  -- The links of the node itself are gone.
  pub freelist_unlink-none :
      (h.word1 c ≡ (freelist_unlink h c).word1 c)
      × ((freelist_unlink h c).link c ≡ none)
      × ((freelist_unlink h c).link (get_footer_from_header h c) ≡ none)
  freelist_unlink-none =
      rw freelist_unlink-cleared (
        cleared-none h c (last_or none xs) (head_or ys none) (l.separate.two c (in_middle xs c ys)))
