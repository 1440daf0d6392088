-- ===== src/Tests/HeapManager.antt =====
-- Lab3/src/heapmgr1.c: sample runs.
use system_programming.Base.{
  ◌+◌, List, [], ◌∷◌, arith, ◌++◌, ◌≤◌, ◌≡◌, refl, true, false, Option, none, some, ℕ,
}
use system_programming.HeapManager.{Heap}
use system_programming.HeapManager.Chunk.{chunk_free, chunk_used, chunk_set_span_units}
use system_programming.HeapManager.Validity.{
  chunk_is_valid, walk_blocks, node_ok, walk_free, check_heap_validity,
}
use system_programming.HeapManager.FreeList.{
  freelist_unlink, widen, merge, coalesce_two, split_for_alloc, push_head, join_next, join_prev,
  freelist_push_front, freelist_detach,
}
use system_programming.HeapManager.Alloc.{
  bytes_to_payload_units, heap_bootstrap, sys_grow_and_link, take_block, first_fit, grow_and_take,
  heapmgr_malloc, heapmgr_free,
}
use system_programming.Base.Family.{update}
use system_programming.HeapManager.Blocks.{Block, free, used, Wf, total}
use system_programming.HeapManager.Blocks.Next.{meet}
use system_programming.HeapManager.Blocks.Release.{release, heapmgr_free-Wf}
use system_programming.HeapManager.Blocks.Take.{Taken}
use system_programming.HeapManager.Blocks.Malloc.{
  heapmgr_malloc-Taken, heapmgr_malloc-refused, heapmgr_malloc-returns,
}
use system_programming.HeapManager.Blocks.Settled.{Settled}
use system_programming.HeapManager.Blocks.Reuse.{heapmgr_malloc-heapmgr_free}
use system_programming.HeapManager.Blocks.Check.{check_heap_validity-Wf}
use system_programming.HeapManager.Blocks.Keeps.{Passes, heapmgr_free-Passes, heapmgr_malloc-Passes}
use system_programming.HeapManager.Limits.{limits}
use system_programming.HeapManager.Scan.{pick, first_fit-pick}

program : Unit {0}
unfolding chunk_set_span_units chunk_is_valid walk_blocks node_ok walk_free check_heap_validity
    freelist_unlink widen merge coalesce_two split_for_alloc push_head join_next join_prev
    freelist_push_front freelist_detach bytes_to_payload_units heap_bootstrap sys_grow_and_link
    take_block first_fit grow_and_take heapmgr_malloc heapmgr_free
program = tt

abbrev fresh : Heap
fresh = record {
  word0 = λ a. 0;
  word1 = λ a. 0;
  link = λ a. none;
  free_head = none;
  lo = 0;
  hi = 0;
  booted = false;
  program_break = 8;
}

-- One call each, from the heap before.
abbrev heap_of : Option (Heap × Option ℕ) → Heap
heap_of none = fresh
heap_of (some (h, p)) = h

abbrev payload_of : Option (Heap × Option ℕ) → Option ℕ
payload_of none = none
payload_of (some (h, p)) = p

first : Option (Heap × Option ℕ)
unfolding program
first = heapmgr_malloc 8 true fresh 100

first_payload : payload_of first ≡ some 1026
unfolding program first
first_payload = refl

first_valid : check_heap_validity 8 (heap_of first) ≡ some true
unfolding program first
first_valid = refl

freed_valid : check_heap_validity 8 (heapmgr_free (heap_of first) (payload_of first)) ≡ some true
unfolding program first
freed_valid = refl

-- The last block is free and too small: the block that the heap grows by is joined with it, and the payload
-- is taken from the new block all the same. The next call of the same size gives the same payload again.
second : Option (Heap × Option ℕ)
unfolding program
second = heapmgr_malloc 8 true (heap_of first) 16240

third : Option (Heap × Option ℕ)
unfolding program
third = heapmgr_malloc 8 true (heapmgr_free (heap_of second) (payload_of first)) 8000

fourth : Option (Heap × Option ℕ)
unfolding program
fourth = heapmgr_malloc 8 true (heap_of third) 8000

third_payload : payload_of third ≡ some 1559
unfolding program first second third
third_payload = refl

same_payload : payload_of fourth ≡ some 1559
unfolding program first second third fourth
same_payload = refl

-- A free block, a used one, a free one and a used one; the second free block is the head of the list.
abbrev sample : Heap
sample = record {
  word0 =
      update
        (update
          (update (update (update (update (update (λ a. 0) 9 4) 10 chunk_used) 12 3) 20 8) 21
            chunk_used)
          22 2)
        13 chunk_free;
  word1 = update (update (update (update (λ a. 0) 6 4) 10 3) 13 8) 21 2;
  link = update (update (λ a. none) 13 (some 6)) 9 (some 13);
  free_head = some 13;
  lo = 6;
  hi = 23;
  booted = true;
  program_break = 23;
}

abbrev sample_blocks : List Block
sample_blocks = free 4 ∷ used 3 ∷ free 8 ∷ used 2 ∷ []

abbrev sample_nodes : List ℕ
sample_nodes = 13 ∷ 6 ∷ []

sample-Wf : Wf sample sample_blocks sample_nodes
sample-Wf = record {
  layout = (
    omega arith,
    refl,
    refl,
    refl,
    (
      omega arith,
      refl,
      refl,
      refl,
      (omega arith, refl, refl, refl, (omega arith, refl, refl, refl, refl)),
    ),
  );
  linked = record {
    head = refl;
    next = (refl, (refl, tt));
    prev = (refl, (refl, tt));
    distinct = λ x. ground arith;
    separate = record {
      two = λ x i. ground (arith, i);
      apart = λ x y i j ne. ground (arith, i, j, ne);
    };
  };
  same = λ x. ground arith;
}

heapmgr_malloc-Taken_example :
    (ds : List Block) × (s : ℕ) × (cs : List Block) × (h' : Heap) × (p : ℕ) × (heapmgr_malloc 2
        false sample 32
      ≡ some (h', some p))
    × (sample_blocks ≡ ds ++ free s ∷ cs)
    × (bytes_to_payload_units 32 + 2 ≤ s)
    × Taken sample ds s cs (bytes_to_payload_units 32) (h', p)
unfolding bytes_to_payload_units
heapmgr_malloc-Taken_example =
    heapmgr_malloc-Taken 2 false sample sample_blocks sample_nodes 32 13 sample-Wf refl
      (omega arith) (omega arith) (omega arith) (omega arith)

heapmgr_free-Wf_example :
    (zs : List ℕ) × Wf
      (heapmgr_free sample (some (sample.lo + total (free 4 ∷ []) + 1)))
      (release (free 4 ∷ []) (meet (free 3) (free 8 ∷ used 2 ∷ [])))
      zs
heapmgr_free-Wf_example =
    heapmgr_free-Wf sample (free 4 ∷ []) (free 8 ∷ used 2 ∷ []) 3 sample_nodes sample-Wf

sample-Settled : Settled sample_blocks
sample-Settled = (tt, (tt, tt))

heapmgr_malloc-heapmgr_free_example :
    (h' : Heap) × (p : Option ℕ) × (zs : List ℕ) × (heapmgr_malloc 2 false sample 32 ≡ some (h', p))
    × (limits (heapmgr_free h' p) ≡ limits sample)
    × Wf (heapmgr_free h' p) sample_blocks zs
unfolding bytes_to_payload_units
heapmgr_malloc-heapmgr_free_example =
    heapmgr_malloc-heapmgr_free 2 false sample sample_blocks sample_nodes 32 13 sample-Wf
      sample-Settled refl (omega arith) (omega arith) (omega arith) (omega arith)

heapmgr_free-Passes_example :
    Passes (heapmgr_free sample (some (sample.lo + total (free 4 ∷ []) + 1)))
heapmgr_free-Passes_example =
    heapmgr_free-Passes sample (free 4 ∷ []) (free 8 ∷ used 2 ∷ []) 3 sample_nodes sample-Wf
      sample-Settled refl

heapmgr_malloc-Passes_example :
    (h' : Heap) × (p : ℕ) × (heapmgr_malloc 2 false sample 32 ≡ some (h', some p)) × Passes h'
unfolding bytes_to_payload_units
heapmgr_malloc-Passes_example =
    heapmgr_malloc-Passes 2 false sample sample_blocks sample_nodes 32 13 sample-Wf sample-Settled
      refl (omega arith) (omega arith) (omega arith) (omega arith)

check_heap_validity-Wf_example : check_heap_validity 4 sample ≡ some true
check_heap_validity-Wf_example =
    check_heap_validity-Wf 4 sample sample_blocks sample_nodes sample-Wf sample-Settled refl
      (omega arith) (omega arith)

first_fit-pick_example : first_fit 2 sample (some 13) 5 ≡ some (pick sample.word1 5 sample_nodes)
first_fit-pick_example = first_fit-pick 2 sample 5 sample_nodes sample-Wf.linked (omega arith)

heapmgr_malloc-returns_example :
    (r : Heap × Option ℕ) × (heapmgr_malloc 2 true sample 16000 ≡ some r)
heapmgr_malloc-returns_example =
    heapmgr_malloc-returns 2 true sample sample_blocks sample_nodes 16000 sample-Wf refl
      (omega arith)

heapmgr_malloc-refused_example : heapmgr_malloc 2 false sample 1000 ≡ some (sample, none)
unfolding bytes_to_payload_units
heapmgr_malloc-refused_example =
    heapmgr_malloc-refused 2 sample sample_blocks sample_nodes 1000 sample-Wf refl (omega arith)
      refl
