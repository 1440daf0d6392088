-- ===== src/HeapManager/Bins/Detach.antt =====
-- Lab3/src/heapmgr2.c: `bin_detach` takes a block out of its bin.
use mathlib.Core.Path.{subst}
use native.Mathlib.Decide.{ℕ_discrete}
use system_programming.Base.{
  ℕ, ◌+◌, ◌≤◌, ◌<◌, ◌≡◌, ◌≢◌, ◌⊎◌, refl, sym, ◌∙◌, ap, true, Option, none, some, List, [], ◌∷◌,
  ◌++◌, ◌==◌, ==_ne, arith,
}
use system_programming.Base.Family.{update}
use system_programming.HeapManager.Links.{◌∈◌, in_head, last-in, head_or, last_or}
use system_programming.HeapManager.Nodes.{Linked, in_middle, in_front, in_back, in_without}
use system_programming.HeapManager.Nodes.Place.{Clear}
use system_programming.HeapManager.Nodes.Relink.{next-at, prev-at}
use system_programming.HeapManager.Nodes.Unlink.{freelist_unlink-cleared, freelist_unlink-Linked}
use system_programming.HeapManager.Bins.{
  num_bins, BinHeap, get_bin_index, bypass_in_bin, bin_detach,
}
use system_programming.HeapManager.Bins.Frame.{
  in_bin, unlinked, own_bin, other_bin, Linked-elsewhere, Clear-apart, unlinked_word1,
}

-- The blocks of each bin: its list, in the bin of their span, and apart from those of the other bins.
pub record Filed (b : BinHeap) (lists : ℕ → List ℕ) : Type 0 where
  pub linked : (i : ℕ) → i < num_bins → Linked (in_bin b i) (lists i)
  pub place : (i x : ℕ) → i < num_bins → x ∈ lists i → get_bin_index (b.heap.word1 x) ≡ i
  pub apart :
      (i j x y : ℕ)
      → i < num_bins
      → j < num_bins
      → i ≢ j
      → x ∈ lists i
      → y ∈ lists j
      → (x + b.heap.word1 x ≤ y) ⊎ (y + b.heap.word1 y ≤ x)

module _ (b : BinHeap) (lists : ℕ → List ℕ) (f : Filed b lists) (i : ℕ) (lt : i < num_bins)
    (xs : List ℕ) (c : ℕ) (ys : List ℕ) (e : lists i ≡ xs ++ c ∷ ys) where
  own : Linked (in_bin b i) (xs ++ c ∷ ys)
  own = subst (Linked (in_bin b i)) e (f.linked i lt)

  abbrev before : Option ℕ
  before = last_or none xs

  abbrev behind : Option ℕ
  behind = head_or ys none

  abbrev detached : BinHeap
  detached = unlinked (bypass_in_bin b c before behind) c

  bin_detach-detached : bin_detach b c ≡ detached
  unfolding bin_detach
  bin_detach-detached =
      ap (λ (r : Option ℕ × Option ℕ). unlinked (bypass_in_bin b c r.0 r.1) c)
        (λ t. (prev-at (in_bin b i) xs c ys own t, next-at (in_bin b i) xs c ys own t))

  c-in : c ∈ lists i
  c-in = subst (λ l. c ∈ l) (sym e) (in_middle xs c ys)

  before-in : (q : ℕ) → before ≡ some q → q ∈ lists i
  before-in q p = subst (λ l. q ∈ l) (sym e) (in_front xs c ys q (last-in xs q p))

  behind-in : (m : ℕ) → behind ≡ some m → m ∈ lists i
  behind-in m p = subst (λ l. m ∈ l) (sym e) (in_back xs c ys m (head-in ys m p))
    where
      head-in : (ys : List ℕ) (m : ℕ) → head_or ys none ≡ some m → m ∈ ys
      head-in [] m p = absurd cc
      head-in (y ∷ ys) m p = let same : y ≡ m = cc in subst (λ z. z ∈ (y ∷ ys)) same (in_head y ys)

  -- Blocks of two bins are clear of each other.
  Clear-bins :
      (j y x : ℕ) → j < num_bins → i ≢ j → y ∈ lists i → x ∈ lists j → Clear (in_bin b j) y x
  Clear-bins j y x lt' ne m k =
      Clear-apart (in_bin b j) y x ((f.linked i lt).separate.two y m)
        ((f.linked j lt').separate.two x k) (f.apart i j y x lt lt' ne m k)

  abbrev lists' : ℕ → List ℕ
  lists' = update lists i (xs ++ ys)

  own-updated : (j : ℕ) → i ≡ j → lists' j ≡ xs ++ ys
  own-updated j same = let at_j : (i == j) ≡ true = ground (arith, same) in rw at_j refl

  other-updated : (j : ℕ) → i ≢ j → lists' j ≡ lists j
  other-updated j other = rw (==_ne i j other) refl

  in_updated : (j x : ℕ) → x ∈ lists' j → x ∈ lists j
  in_updated j x k = elim (ℕ_discrete i j) [
    | yes same ↦
        subst (λ t. x ∈ lists t) same
          (subst (λ l. x ∈ l) (sym e)
            (in_without xs c ys x (subst (λ l. x ∈ l) (own-updated j same) k)))
    | no other ↦ subst (λ l. x ∈ l) (other-updated j other) k
  ]

  own-Linked : Linked (in_bin detached i) (xs ++ ys)
  own-Linked =
      subst (λ h. Linked h (xs ++ ys))
        (freelist_unlink-cleared (in_bin b i) xs c ys own
          ∙ sym (own_bin b c i before behind (f.place i c lt c-in)))
        (freelist_unlink-Linked (in_bin b i) xs c ys own).0

  other-Linked : (j : ℕ) → j < num_bins → i ≢ j → Linked (in_bin detached j) (lists j)
  other-Linked j lt' other =
      subst (λ h. Linked h (lists j))
        (sym (other_bin b c i j before behind λ at_j. other (sym (f.place i c lt c-in) ∙ at_j)))
        (Linked-elsewhere (in_bin b j) c before behind (lists j) (f.linked j lt')
          (λ x k. Clear-bins j c x lt' other c-in k)
          (λ x q k p. Clear-bins j q x lt' other (before-in q p) k)
          (λ x m k p. Clear-bins j m x lt' other (behind-in m p) k))

  detached-Linked : (j : ℕ) → j < num_bins → Linked (in_bin detached j) (lists' j)
  detached-Linked j lt' = elim (ℕ_discrete i j) [
    | yes same ↦
        subst (Linked (in_bin detached j)) (sym (own-updated j same))
          (subst (λ t. Linked (in_bin detached t) (xs ++ ys)) same own-Linked)
    | no other ↦
        subst (Linked (in_bin detached j)) (sym (other-updated j other)) (other-Linked j lt' other)
  ]

  detached-Filed : Filed detached lists'
  detached-Filed = record {
    linked = detached-Linked;
    place = λ j x lt' k.
        subst (λ w. get_bin_index (w x) ≡ j) (sym (unlinked_word1 b c before behind))
          (f.place j x lt' (in_updated j x k));
    apart = λ j j' x y lt' lt'' ne k k'.
        subst (λ w. (x + w x ≤ y) ⊎ (y + w y ≤ x)) (sym (unlinked_word1 b c before behind))
          (f.apart j j' x y lt' lt'' ne (in_updated j x k) (in_updated j' y k'));
  }

  -- Where the bins are linked lists of blocks of their spans that do not overlap, a block that is detached
  -- leaves its bin, with the others of the bin in their order, and all other bins are as they were.
  pub bin_detach-Filed : Filed (bin_detach b c) (update lists i (xs ++ ys))
  bin_detach-Filed = subst (λ z. Filed z lists') (sym bin_detach-detached) detached-Filed
