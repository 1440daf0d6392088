-- ===== src/HeapManager/Bins/Frame.antt =====
-- Lab3/src/heapmgr2.c: `bin_detach` by the blocks of one bin, as a free list of the first manager.
use system_programming.Base.{
  ℕ, ◌+◌, ◌≤◌, ◌≡◌, ◌≢◌, ◌⊎◌, refl, Option, none, some, List, ==_ne, ==_refl, arith,
}
use system_programming.Base.Family.{update}
use system_programming.HeapManager.{Heap}
use system_programming.HeapManager.Chunk.{
  chunk_get_prev_free, chunk_set_next_free, chunk_set_prev_free, get_footer_from_header,
}
use system_programming.HeapManager.Links.{◌∈◌, NextTo-frame, PrevFrom-frame}
use system_programming.HeapManager.Nodes.{Linked}
use system_programming.HeapManager.Nodes.Place.{Clear}
use system_programming.HeapManager.Nodes.Unlink.{cleared}
use system_programming.HeapManager.Bins.{BinHeap, get_bin_index, bypass_in_bin}

-- The heap as the first manager would have it, with one bin as its free list.
abbrev pub in_bin : BinHeap → ℕ → Heap
in_bin b i = record b.heap { free_head = b.bins i }

-- What `bin_detach` does behind `bypass_in_bin`.
abbrev pub unlinked : BinHeap → ℕ → BinHeap
unlinked b c =
    let h = chunk_set_next_free b.heap c none in record b { heap = chunk_set_prev_free h c none }

-- The last two writes of the two managers, in either order.
either_order :
    (link : ℕ → Option ℕ) (c f j : ℕ)
    → update (update link c none) f none j ≡ update (update link f none) c none j
either_order link c f j = ground arith

heap_path :
    (h : Heap) {link link' : ℕ → Option ℕ} {f f' : Option ℕ}
    → ((j : ℕ) → link j ≡ link' j)
    → f ≡ f'
    → (record h { link = link; free_head = f }) ≡ (record h { link = link'; free_head = f' })
heap_path h e q = λ t. record h { link = λ j. e j t; free_head = q t }

module _ (b : BinHeap) (c i : ℕ) where
  -- The block's own bin, as a free list, is left as the first manager leaves its list.
  pub own_bin :
      (p n : Option ℕ)
      → get_bin_index (b.heap.word1 c) ≡ i
      → in_bin (unlinked (bypass_in_bin b c p n) c) i ≡ cleared (in_bin b i) c p n
  unfolding bypass_in_bin
  own_bin none none at_i = heap_path b.heap (either_order _ c _) (rw (at_i, ==_refl i) refl)
  own_bin none (some n) at_i = heap_path b.heap (either_order _ c _) (rw (at_i, ==_refl i) refl)
  own_bin (some p) none at_i = heap_path b.heap (either_order _ c _) refl
  own_bin (some p) (some n) at_i = heap_path b.heap (either_order _ c _) refl

  -- Another bin has its head, and the same links.
  pub other_bin :
      (j : ℕ) (p n : Option ℕ)
      → get_bin_index (b.heap.word1 c) ≢ j
      → in_bin (unlinked (bypass_in_bin b c p n) c) j
        ≡ record (in_bin b j) { link = (cleared (in_bin b j) c p n).link }
  unfolding bypass_in_bin
  other_bin j none none apart = heap_path b.heap (either_order _ c _) (rw (==_ne _ j apart) refl)
  other_bin j none (some n) apart =
      heap_path b.heap (either_order _ c _) (rw (==_ne _ j apart) refl)
  other_bin j (some p) none apart = heap_path b.heap (either_order _ c _) refl
  other_bin j (some p) (some n) apart = heap_path b.heap (either_order _ c _) refl

-- Links of a block away from those that are written.
cleared-elsewhere :
    (h : Heap) (c x : ℕ) (p n : Option ℕ)
    → Clear h c x
    → ((q : ℕ) → p ≡ some q → Clear h q x)
    → ((m : ℕ) → n ≡ some m → Clear h m x)
    → ((cleared h c p n).link x ≡ h.link x)
      × ((cleared h c p n).link (get_footer_from_header h x) ≡ chunk_get_prev_free h x)
cleared-elsewhere h c x none none k kp kn =
    ground (arith, k.other, k.foot_other, k.other_foot, k.feet)
cleared-elsewhere h c x (some q) none k kp kn =
    let a = kp q refl in
    ground (arith, k.other, k.foot_other, k.other_foot, k.feet, a.other, a.other_foot)
cleared-elsewhere h c x none (some m) k kp kn =
    let a = kn m refl in
    ground (arith, k.other, k.foot_other, k.other_foot, k.feet, a.foot_other, a.feet)
cleared-elsewhere h c x (some q) (some m) k kp kn =
    let a = kp q refl in
    let d = kn m refl in
    ground (
      arith, k.other, k.foot_other, k.other_foot, k.feet, a.other, a.other_foot, d.foot_other,
      d.feet,
    )

-- A list of blocks that are all clear of those is linked as before.
pub Linked-elsewhere :
    (h : Heap) (c : ℕ) (p n : Option ℕ) (zs : List ℕ)
    → Linked h zs
    → ((x : ℕ) → x ∈ zs → Clear h c x)
    → ((x q : ℕ) → x ∈ zs → p ≡ some q → Clear h q x)
    → ((x m : ℕ) → x ∈ zs → n ≡ some m → Clear h m x)
    → Linked (record h { link = (cleared h c p n).link }) zs
Linked-elsewhere h c p n zs l k kp kn = record {
  head = l.head;
  next = NextTo-frame zs none (λ x m. (same x m).0) l.next;
  prev = PrevFrom-frame none zs (λ x m. (same x m).1) l.prev;
  distinct = l.distinct;
  separate = l.separate;
}
  where
    same :
        (x : ℕ)
        → x ∈ zs
        → ((cleared h c p n).link x ≡ h.link x)
          × ((cleared h c p n).link (get_footer_from_header h x) ≡ chunk_get_prev_free h x)
    same x m = cleared-elsewhere h c x p n (k x m) (λ q e. kp x q m e) (λ q e. kn x q m e)

pub Clear-apart :
    (h : Heap) (y x : ℕ)
    → 2 ≤ h.word1 y
    → 2 ≤ h.word1 x
    → (y + h.word1 y ≤ x) ⊎ (x + h.word1 x ≤ y)
    → Clear h y x
Clear-apart h y x two two' apart = record {
  other = λ e. ground (arith, two, two', apart, e);
  foot_other = λ e. ground (arith, two, two', apart, e);
  other_foot = λ e. ground (arith, two, two', apart, e);
  feet = λ e. ground (arith, two, two', apart, e);
}

pub unlinked_word1 :
    (b : BinHeap) (c : ℕ) (p n : Option ℕ)
    → (unlinked (bypass_in_bin b c p n) c).heap.word1 ≡ b.heap.word1
unfolding bypass_in_bin
unlinked_word1 b c none none = refl
unlinked_word1 b c none (some n) = refl
unlinked_word1 b c (some p) none = refl
unlinked_word1 b c (some p) (some n) = refl
