-- ===== src/Tests/Bins.antt =====
-- Lab3/src/heapmgr2.c: a heap of one free block in a bin.
use system_programming.Base.{
  ℕ, ◌≡◌, refl, true, false, Option, none, some, List, [], ◌∷◌, ◌++◌, ◌==◌, if◌then◌else◌, inl, inr,
  Bool-cases, arith,
}
use system_programming.Base.Family.{update}
use system_programming.HeapManager.Bins.Detach.{Filed, bin_detach-Filed}
use system_programming.HeapManager.Bins.Link.{link_in_bin-Filed}
use system_programming.HeapManager.Chunk.{chunk_set_span_units}
use system_programming.HeapManager.Validity.{chunk_is_valid}
use system_programming.HeapManager.FreeList.{split_for_alloc}
use system_programming.HeapManager.Alloc.{bytes_to_payload_units, heap_bootstrap, first_fit}
use system_programming.HeapManager.Bins.{
  BinHeap, get_bin_index, bypass_in_bin, bin_detach, cover, coalesce_two, absorb_next, absorb_prev,
  link_in_bin, bin_push_front, sys_grow_and_link, scan_bins, take_from_bin, scan_and_take,
  grow_and_scan, heapmgr_malloc, heapmgr_free,
}

program : Unit {0}
unfolding chunk_set_span_units chunk_is_valid split_for_alloc bytes_to_payload_units heap_bootstrap
    first_fit get_bin_index bypass_in_bin bin_detach cover coalesce_two absorb_next absorb_prev
    link_in_bin bin_push_front sys_grow_and_link scan_bins take_from_bin scan_and_take grow_and_scan
    heapmgr_malloc heapmgr_free
program = tt

-- Twenty units from address 4 on.
abbrev sample : BinHeap
sample = record {
  heap = record {
    word0 = λ a. if a == 23 then 20 else 0;
    word1 = λ a. if a == 4 then 20 else 0;
    link = λ a. none;
    free_head = none;
    lo = 4;
    hi = 24;
    booted = true;
    program_break = 24;
  };
  bins = λ i. if i == 2 then some 4 else none;
}

abbrev sample_lists : ℕ → List ℕ
sample_lists i = if i == 2 then 4 ∷ [] else []

-- One of 1000 bytes does not fit, and is refused where `sbrk` refuses.
refused_sample : heapmgr_malloc 1 false sample 1000 ≡ some (sample, none)
unfolding program
refused_sample = refl

-- The payload is at the end of the block, and what is left of it goes to the bin of its span.
abbrev after : Option (BinHeap × Option ℕ) → Option (Option ℕ × List (Option ℕ))
after none = none
after (some (b, p)) = some (p, b.bins 0 ∷ b.bins 1 ∷ b.bins 2 ∷ [])

taken_sample : after (heapmgr_malloc 1 false sample 100) ≡ some (some 16, none ∷ some 4 ∷ none ∷ [])
unfolding program
taken_sample = refl

-- Freed again, it joins the block in front.
freed : Option (BinHeap × Option ℕ) → Option ℕ
unfolding program
freed none = none
freed (some (b, p)) = (heapmgr_free b p).bins 2

joined_again : freed (heapmgr_malloc 1 false sample 100) ≡ some 4
unfolding program freed
joined_again = refl

-- Two blocks in one bin, one in another, and one in no bin.
abbrev two_bins : BinHeap
two_bins = record {
  heap = record sample.heap {
    word1 = λ a.
        if a == 4
        then 20
        else if a == 30
        then 18
        else if a == 50
        then 4
        else if a == 60
        then 2
        else 0;
    link = λ a. if a == 30 then some 4 else if a == 23 then some 30 else none;
  };
  bins = λ i. if i == 2 then some 30 else if i == 0 then some 50 else none;
}

abbrev two_lists : ℕ → List ℕ
two_lists i = if i == 2 then 30 ∷ 4 ∷ [] else if i == 0 then 50 ∷ [] else []

two_bins-Filed : Filed two_bins two_lists
unfolding program
two_bins-Filed = record {
  linked = λ i lt. elim (Bool-cases (i == 2)) [
    | inl e ↦ rw e (record {
      head = refl;
      next = (refl, (refl, tt));
      prev = (refl, (refl, tt));
      distinct = λ x. ground arith;
      separate = record {
        two = λ x k. ground (arith, k);
        apart = λ x y k m ne. ground (arith, k, m, ne);
      };
    })
    | inr e ↦ elim (Bool-cases (i == 0)) [
      | inl e' ↦
          rw (e, e')
            (record {
              head = refl;
              next = (refl, tt);
              prev = (refl, tt);
              distinct = λ x. ground arith;
              separate = record {
                two = λ x k. ground (arith, k);
                apart = λ x y k m ne. ground (arith, k, m, ne);
              };
            })
      | inr e' ↦
          rw (e, e')
            (record {
              head = refl;
              next = tt;
              prev = tt;
              distinct = λ x. omega arith;
              separate = record {
                two = λ x k. ground (arith, k);
                apart = λ x y k m ne. ground (arith, k, m, ne);
              };
            })
    ]
  ];
  place = λ i x lt k. ground (arith, k);
  apart = λ i j x y lt lt' ne k m. ground (arith, ne, k, m);
}

bin_detach-Filed_example : Filed (bin_detach two_bins 4) (update two_lists 2 (30 ∷ [] ++ []))
bin_detach-Filed_example =
    bin_detach-Filed two_bins two_lists two_bins-Filed 2 (omega arith) (30 ∷ []) 4 [] refl

link_in_bin-Filed_example : Filed (link_in_bin two_bins 60) (update two_lists 0 (60 ∷ two_lists 0))
unfolding program
link_in_bin-Filed_example =
    link_in_bin-Filed two_bins two_lists two_bins-Filed 60 (omega arith)
      (λ j x lt k. ground (arith, k)) 0 (omega arith) refl
