-- ===== src/HeapManager/Bins/Link.antt =====
-- Lab3/src/heapmgr2.c: the last part of `bin_push_front` puts a block in its bin.
use mathlib.Core.Path.{subst}
use native.Mathlib.Decide.{ℕ_discrete}
use system_programming.Base.{
  ℕ, ◌+◌, ◌≤◌, ◌<◌, ◌≡◌, ◌≢◌, ◌⊎◌, inl, inr, refl, sym, ◌∙◌, true, false, Option, none, some, List,
  ◌∷◌, ◌==◌, ==_ne, ==_refl, occurrences, arith,
}
use system_programming.Base.Family.{update}
use system_programming.HeapManager.Chunk.{chunk_get_prev_free, get_footer_from_header}
use system_programming.HeapManager.Validity.{ptr_eq}
use system_programming.HeapManager.Links.{
  ◌∈◌, head_or, NextTo-frame, PrevFrom-frame, PrevFrom-relink, Distinct-head_tail, head-in,
}
use system_programming.HeapManager.Nodes.{Separate, Linked}
use system_programming.HeapManager.Nodes.Relink.{foot-ne}
use system_programming.HeapManager.Nodes.Place.{Clear, Separate-Clear}
use system_programming.HeapManager.Blocks.Push.{links, links-other, links_self}
use system_programming.HeapManager.Bins.{num_bins, BinHeap, get_bin_index, link_in_bin}
use system_programming.HeapManager.Bins.Frame.{in_bin, Clear-apart}
use system_programming.HeapManager.Bins.Detach.{Filed}

abbrev stored : BinHeap → ℕ → ℕ → Option ℕ → BinHeap
stored b c i first = record {
  heap = record b.heap { link = links b.heap c first };
  bins = update b.bins i (some c);
}

link_in_bin-stored :
    (b : BinHeap) (c i : ℕ) (first : Option ℕ)
    → get_bin_index (b.heap.word1 c) ≡ i
    → b.bins i ≡ first
    → link_in_bin b c ≡ stored b c i first
unfolding link_in_bin
link_in_bin-stored b c i none at_i e = rw (link_in_bin, at_i, e) refl
link_in_bin-stored b c i (some n) at_i e = rw (link_in_bin, at_i, e) refl

module _ (b : BinHeap) (lists : ℕ → List ℕ) (f : Filed b lists) (c : ℕ) (two : 2 ≤ b.heap.word1 c)
    (new : (j x : ℕ)
      → j < num_bins
      → x ∈ lists j
      → (x + b.heap.word1 x ≤ c) ⊎ (c + b.heap.word1 c ≤ x))
    (i : ℕ) (lt : i < num_bins) (at_i : get_bin_index (b.heap.word1 c) ≡ i) where
  abbrev first : Option ℕ
  first = head_or (lists i) none

  swap-sides : {A B : Type 0} → A ⊎ B → B ⊎ A
  swap-sides (inl a) = inr a
  swap-sides (inr a) = inl a

  Clear-c : (j x : ℕ) → j < num_bins → x ∈ lists j → Clear (in_bin b j) c x
  Clear-c j x lt' k =
      Clear-apart (in_bin b j) c x two ((f.linked j lt').separate.two x k)
        (swap-sides (new j x lt' k))

  not-c : (j x : ℕ) → j < num_bins → x ∈ lists j → x ≢ c
  not-c j x lt' k e = (Clear-c j x lt' k).other (sym e)

  c-new : occurrences (lists i) c ≡ 0
  c-new = elim (ℕ_discrete (occurrences (lists i) c) 0) [
    | yes e ↦ e
    | no n ↦ absurd (not-c i c lt (omega (arith, n)) refl)
  ]

  separate : Separate b.heap.word1 (c ∷ lists i)
  separate = record {
    two = λ x k. elim (ℕ_discrete x c) [
      | yes same ↦ rw same two
      | no other ↦ (f.linked i lt).separate.two x (Distinct-head_tail x c (lists i) other k)
    ];
    apart = λ x y k m ne. elim (ℕ_discrete x c) [
      | yes same ↦ elim (ℕ_discrete y c) [
        | yes same' ↦ absurd (ne (same ∙ sym same'))
        | no other ↦ rw same (swap-sides (new i y lt (Distinct-head_tail y c (lists i) other m)))
      ]
      | no other ↦ elim (ℕ_discrete y c) [
        | yes same ↦ rw same (new i x lt (Distinct-head_tail x c (lists i) other k))
        | no other' ↦
            (f.linked i lt).separate.apart x y (Distinct-head_tail x c (lists i) other k)
              (Distinct-head_tail y c (lists i) other' m) ne
      ]
    ];
  }

  own-Linked : Linked (in_bin (stored b c i first) i) (c ∷ lists i)
  own-Linked =
      let l = f.linked i lt in
      let laws = (λ (x : ℕ) (k : x ∈ lists i).
        links-other (in_bin b i) c first x (Clear-c i x lt k) (λ n e.
          let j = head-in (lists i) n e in
          (foot-ne l.separate n x j k, λ ne. Separate-Clear n x l.separate j k ne))) in
      let (self, self') =
        links_self (in_bin b i) c first two (λ n e. Clear-c i n lt (head-in (lists i) n e)) in
      record {
        head = rw (==_refl i) refl;
        next = (self, NextTo-frame (lists i) none (λ x k. (laws x k).0) l.next);
        prev = (
          self',
          PrevFrom-relink (chunk_get_prev_free (in_bin b i))
              (chunk_get_prev_free (in_bin (stored b c i first) i)) (lists i) none (some c)
              l.distinct (λ x k. (laws x k).1) l.prev,
        );
        distinct = λ x. elim (ℕ_discrete x c) [
          | yes same ↦ rw (same, ==_refl c, c-new) (omega arith)
          | no other ↦ rw (==_ne c x (λ e. other (sym e))) (l.distinct x)
        ];
        separate = separate;
      }

  -- A block of another bin.
  links-elsewhere :
      (j x : ℕ)
      → j < num_bins
      → i ≢ j
      → x ∈ lists j
      → (links (in_bin b j) c first x ≡ b.heap.link x)
        × (links (in_bin b j) c first (get_footer_from_header b.heap x)
            ≡ chunk_get_prev_free b.heap x)
  links-elsewhere j x lt' other k =
      let laws =
        links-other (in_bin b j) c first x (Clear-c j x lt' k)
          (λ n e. ((clear n e).foot_other, λ ne. clear n e)) in
      (laws.0, laws.1 ∙ rw not-first refl)
    where
      clear : (n : ℕ) → first ≡ some n → Clear (in_bin b j) n x
      clear n e =
          let m = head-in (lists i) n e in
          Clear-apart (in_bin b j) n x ((f.linked i lt).separate.two n m)
            ((f.linked j lt').separate.two x k) (f.apart i j n x lt lt' other m k)

      not-first : ptr_eq first x ≡ false
      not-first = by_first first refl
        where
          by_first : (o : Option ℕ) → first ≡ o → ptr_eq o x ≡ false
          by_first none e = refl
          by_first (some n) e = ==_ne n x (clear n e).other

  other-Linked : (j : ℕ) → j < num_bins → i ≢ j → Linked (in_bin (stored b c i first) j) (lists j)
  other-Linked j lt' other =
      let l = f.linked j lt' in
      record {
        head = rw (==_ne i j other) l.head;
        next = NextTo-frame (lists j) none (λ x k. (links-elsewhere j x lt' other k).0) l.next;
        prev = PrevFrom-frame none (lists j) (λ x k. (links-elsewhere j x lt' other k).1) l.prev;
        distinct = l.distinct;
        separate = l.separate;
      }

  abbrev lists' : ℕ → List ℕ
  lists' = update lists i (c ∷ lists i)

  -- A block of the new lists is `c` in its bin, or one of the old lists.
  in_updated : (j x : ℕ) → x ∈ lists' j → ((x ≡ c) × (i ≡ j)) ⊎ (x ∈ lists j)
  in_updated j x k = elim (ℕ_discrete i j) [
    | yes same ↦
        let at_j : (i == j) ≡ true = ground (arith, same) in
        let k' : x ∈ (c ∷ lists i) = rw at_j at k in
        elim (ℕ_discrete x c) [
          | yes e ↦ inl (e, same)
          | no ne ↦ inr (subst (λ t. x ∈ lists t) same (Distinct-head_tail x c (lists i) ne k'))
        ]
    | no other ↦ inr (rw (==_ne i j other) at k)
  ]

  stored-Filed : Filed (stored b c i first) lists'
  stored-Filed = record {
    linked = λ j lt'. elim (ℕ_discrete i j) [
      | yes same ↦
          let at_j : (i == j) ≡ true = ground (arith, same) in
          subst (λ l. Linked (in_bin (stored b c i first) j) l) (sym (rw at_j refl))
            (subst (λ t. Linked (in_bin (stored b c i first) t) (c ∷ lists i)) same own-Linked)
      | no other ↦
          subst (λ l. Linked (in_bin (stored b c i first) j) l) (sym (rw (==_ne i j other) refl))
            (other-Linked j lt' other)
    ];
    place = λ j x lt' k. elim (in_updated j x k) [
      | inl (e, same) ↦ rw e (at_i ∙ same)
      | inr k' ↦ f.place j x lt' k'
    ];
    apart = λ j j' x y lt' lt'' ne k m. elim (in_updated j x k) [
      | inl (e, same) ↦ elim (in_updated j' y m) [
        | inl (e', same') ↦ absurd (ne (sym same ∙ same'))
        | inr m' ↦ rw e (swap-sides (new j' y lt'' m'))
      ]
      | inr k' ↦ elim (in_updated j' y m) [
        | inl (e', same') ↦ rw e' (new j x lt' k')
        | inr m' ↦ f.apart j j' x y lt' lt'' ne k' m'
      ]
    ];
  }

  -- Where the bins are linked lists of blocks of their spans that do not overlap, a block of at least two units
  -- that is apart from all of these comes to the front of the bin of its span, and all other bins are as they
  -- were.
  pub link_in_bin-Filed : Filed (link_in_bin b c) (update lists i (c ∷ lists i))
  link_in_bin-Filed =
      subst (λ z. Filed z lists') (sym (link_in_bin-stored b c i first at_i (f.linked i lt).head))
        stored-Filed
