-- ===== src/HeapManager/Bins/Search.antt =====
-- Lab3/src/heapmgr2.c: the scan of `heapmgr_malloc` over the bins.
use mathlib.Core.Path.{subst}
use native.Mathlib.Decide.{ℕ_discrete}
use system_programming.Base.{
  inl, inr, ℕ, zero, suc, ◌+◌, ◌-◌, ◌≤◌, ◌<◌, ◌≡◌, refl, sym, ◌∙◌, ap, false, Option, none, some,
  List, [], ◌∷◌, ◌++◌, leb, length, Bool-cases, Option-cases, occurrences-append, arith,
}
use system_programming.HeapManager.Alloc.{first_fit}
use system_programming.HeapManager.Links.{◌∈◌, head_or, NextTo, in_head, in_tail}
use system_programming.HeapManager.Scan.{pick, first_fit-nodes, pick-some}
use system_programming.HeapManager.Bins.{num_bins, BinHeap, get_bin_index, scan_bins}
use system_programming.HeapManager.Bins.Index.{get_bin_index-lt, get_bin_index_mono}

-- The blocks of each bin, as the links and the heads have them; each is in the bin of its span.
pub record Binned (b : BinHeap) (lists : ℕ → List ℕ) : Type 0 where
  pub head : (i : ℕ) → i < num_bins → b.bins i ≡ head_or (lists i) none
  pub next : (i : ℕ) → i < num_bins → NextTo b.heap.link (lists i) none
  pub place : (i x : ℕ) → i < num_bins → x ∈ lists i → get_bin_index (b.heap.word1 x) ≡ i

-- The blocks of `left` bins from `i` on.
abbrev pub from_bin : (ℕ → List ℕ) → ℕ → ℕ → List ℕ
from_bin lists i zero = []
from_bin lists i (suc left) = lists i ++ from_bin lists (i + 1) left

pick-append :
    (span : ℕ → ℕ) (need_units : ℕ) (xs ys : List ℕ)
    → pick span need_units (xs ++ ys)
      ≡ elim (pick span need_units xs) [ none ↦ pick span need_units ys | some c ↦ some c ]
pick-append span need_units [] ys = refl
pick-append span need_units (x ∷ xs) ys = elim (Bool-cases (leb need_units (span x - 2))) [
  | inl e ↦ rw e refl
  | inr e ↦ rw (e, pick-append span need_units xs ys) refl
]

in_bins :
    (lists : ℕ → List ℕ) (i left j x : ℕ)
    → i ≤ j
    → j < i + left
    → x ∈ lists j
    → x ∈ from_bin lists i left
in_bins lists i zero j x low high k = absurd (omega (arith, low, high))
in_bins lists i (suc left) j x low high k = elim (ℕ_discrete i j) [
  | yes same ↦
      let k' : x ∈ lists i = subst (λ t. x ∈ lists t) (sym same) k in
      omega (arith, k', occurrences-append (lists i) (from_bin lists (i + 1) left) x)
  | no other ↦ omega (
    arith,
    in_bins lists (i + 1) left j x (omega arith) (omega arith) k,
    occurrences-append (lists i) (from_bin lists (i + 1) left) x,
  )
]

-- A round of the loop over the bins, by what is in the bin.
module _ (fuel : ℕ) (b : BinHeap) (need_units i left : ℕ) where
  scan_bins-onward :
      first_fit fuel b.heap (b.bins i) need_units ≡ some none
      → scan_bins fuel b need_units i (suc left) ≡ scan_bins fuel b need_units (i + 1) left
  unfolding scan_bins
  scan_bins-onward e = rw (scan_bins, e) refl

  scan_bins-here :
      (c : ℕ)
      → first_fit fuel b.heap (b.bins i) need_units ≡ some (some c)
      → scan_bins fuel b need_units i (suc left) ≡ some (some c)
  unfolding scan_bins
  scan_bins-here c e = rw (scan_bins, e) refl

module _ (fuel : ℕ) (b : BinHeap) (need_units : ℕ) (lists : ℕ → List ℕ) (binned : Binned b lists)
    (enough : (i : ℕ) → length (lists i) ≤ fuel) where
  abbrev picked : List ℕ → Option ℕ
  picked = pick b.heap.word1 need_units

  -- The scan of some bins comes to an end, with the first block of these that fits, or NULL.
  pub scan_bins-pick :
      (i left : ℕ)
      → i + left ≤ num_bins
      → scan_bins fuel b need_units i left ≡ some (picked (from_bin lists i left))
  unfolding scan_bins
  scan_bins-pick i zero le = refl
  scan_bins-pick i (suc left) le =
      let here =
        ap (λ p. first_fit fuel b.heap p need_units) (binned.head i (omega (arith, le)))
        ∙ first_fit-nodes fuel b.heap need_units (lists i) (binned.next i (omega (arith, le)))
            (enough i) in
      let onward = scan_bins-pick (i + 1) left (omega (arith, le)) in
      let all = pick-append b.heap.word1 need_units (lists i) (from_bin lists (i + 1) left) in
      elim (Option-cases (picked (lists i))) [
        | inl e ↦
            scan_bins-onward fuel b need_units i left (here ∙ ap some e)
            ∙ onward
            ∙ ap some (sym (all ∙ rw e refl))
        | inr (c, e) ↦
            scan_bins-here fuel b need_units i left c (here ∙ ap some e)
            ∙ ap some (sym (all ∙ rw e refl))
      ]

  -- A block that fits is not in a bin in front of those that are scanned.
  fits-from_bin :
      (j x : ℕ)
      → j < num_bins
      → x ∈ lists j
      → need_units + 2 ≤ b.heap.word1 x
      → x
        ∈ from_bin lists
            (get_bin_index (2 + need_units))
            (num_bins - get_bin_index (2 + need_units))
  fits-from_bin j x lt k fit =
      let low = get_bin_index_mono (2 + need_units) (b.heap.word1 x) (omega (arith, fit)) in
      let at_j = binned.place j x lt k in
      let first = get_bin_index-lt (2 + need_units) in
      in_bins lists (get_bin_index (2 + need_units)) (num_bins - get_bin_index (2 + need_units)) j x
        (omega (arith, low, at_j)) (omega (arith, lt, first)) k

  -- Where a block of some bin fits, one is found.
  pub scan_bins-some :
      (j x : ℕ)
      → j < num_bins
      → x ∈ lists j
      → need_units + 2 ≤ b.heap.word1 x
      → (c : ℕ) × (scan_bins fuel b need_units
            (get_bin_index (2 + need_units))
            (num_bins - get_bin_index (2 + need_units))
          ≡ some (some c))
        × (c
            ∈ from_bin lists
                (get_bin_index (2 + need_units))
                (num_bins - get_bin_index (2 + need_units)))
        × (need_units ≤ b.heap.word1 c - 2)
  scan_bins-some j x lt k fit =
      let i = get_bin_index (2 + need_units) in
      let (c, e, k', le) =
        pick-some b.heap.word1 need_units (from_bin lists i (num_bins - i)) x
          (fits-from_bin j x lt k fit) fit in
      (
        c,
        scan_bins-pick i (num_bins - i) (omega (arith, get_bin_index-lt (2 + need_units)))
            ∙ ap some e,
        k',
        le,
      )

  -- Where no block of a bin fits, none is found.
  pub scan_bins-none :
      1 ≤ need_units
      → ((j x : ℕ) → j < num_bins → x ∈ lists j → b.heap.word1 x < need_units + 2)
      → (i left : ℕ) → i + left ≤ num_bins
      → scan_bins fuel b need_units i left ≡ some none
  scan_bins-none one small i left le = scan_bins-pick i left le ∙ ap some (none_picked i left le)
    where
      leb-short : (w : ℕ) → 1 ≤ need_units → w < need_units + 2 → leb need_units (w - 2) ≡ false
      leb-short w one short = ground (arith, one, short)

      none_of :
          (xs : List ℕ) → ((x : ℕ) → x ∈ xs → b.heap.word1 x < need_units + 2) → picked xs ≡ none
      none_of [] k = refl
      none_of (x ∷ xs) k =
          let big : leb need_units (b.heap.word1 x - 2) ≡ false =
            leb-short (b.heap.word1 x) one (k x (in_head x xs)) in
          rw (pick, big) (none_of xs λ y m. k y (in_tail y x xs m))

      none_picked : (i left : ℕ) → i + left ≤ num_bins → picked (from_bin lists i left) ≡ none
      none_picked i zero le = refl
      none_picked i (suc left) le =
          pick-append b.heap.word1 need_units (lists i) (from_bin lists (i + 1) left)
          ∙ rw (none_of (lists i) λ x m. small i x (omega (arith, le)) m)
              (none_picked (i + 1) left (omega (arith, le)))
