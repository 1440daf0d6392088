-- ===== src/HeapManager/Bins/Malloc.antt =====
-- Lab3/src/heapmgr2.c: `heapmgr_malloc` where a block of a bin fits, and where none does.
use system_programming.Base.{
  ℕ, ◌+◌, ◌-◌, ◌^◌, ◌≤◌, ◌<◌, ◌≡◌, refl, ◌∙◌, ap, Bool, true, false, Option, none, some, List, ◌==◌,
  length, arith,
}
use system_programming.HeapManager.{Heap}
use system_programming.HeapManager.Alloc.{bytes_to_payload_units, heap_bootstrap}
use system_programming.HeapManager.Links.{◌∈◌}
use system_programming.HeapManager.Bins.{
  num_bins, BinHeap, get_bin_index, scan_bins, sys_grow_and_link, take_from_bin, scan_and_take,
  grow_and_scan, heapmgr_malloc,
}
use system_programming.HeapManager.Bins.Index.{get_bin_index-lt}
use system_programming.HeapManager.Bins.Search.{Binned, scan_bins-none}

heap_bootstrap-booted : (h : Heap) → h.booted ≡ true → heap_bootstrap h ≡ h
unfolding heap_bootstrap
heap_bootstrap-booted h e = rw (heap_bootstrap, e) refl

-- The call with the block that was found.
abbrev pub taken : BinHeap → ℕ → ℕ → Option (BinHeap × Option ℕ)
taken b c need_units =
    some ((take_from_bin b c need_units).0, some ((take_from_bin b c need_units).1))

scan_and_take-none :
    (fuel : ℕ) (b : BinHeap) (need_units span : ℕ)
    → scan_bins fuel b need_units (get_bin_index span) (num_bins - get_bin_index span) ≡ some none
    → scan_and_take fuel b need_units span ≡ some (b, none)
unfolding scan_and_take
scan_and_take-none fuel b need_units span e = rw (scan_and_take, e) refl

-- The call behind `heap_bootstrap`.
abbrev booted_malloc : ℕ → Bool → ℕ → BinHeap → Option (BinHeap × Option ℕ)
booted_malloc fuel granted need_units b = elim (scan_and_take fuel b need_units (2 + need_units)) [
  | none ↦ none
  | some (b₂, none) ↦ grow_and_scan fuel granted b need_units
  | some (b₂, some p) ↦ some (b₂, some p)
]

module _ (fuel : ℕ) (granted : Bool) (b : BinHeap) (size : ℕ) (booted : b.heap.booted ≡ true)
    (positive : 0 < size) where
  heapmgr_malloc-booted :
      heapmgr_malloc fuel granted b size
      ≡ booted_malloc fuel granted (bytes_to_payload_units size) b
  unfolding heapmgr_malloc
  heapmgr_malloc-booted =
      let some_bytes : (size == 0) ≡ false = ground arith in
      rw some_bytes refl
      ∙ ap (λ h. booted_malloc fuel granted (bytes_to_payload_units size) (record b { heap = h }))
          (heap_bootstrap-booted b.heap booted)

  malloc-none :
      scan_and_take fuel b (bytes_to_payload_units size) (2 + bytes_to_payload_units size)
        ≡ some (b, none)
      → heapmgr_malloc fuel granted b size
        ≡ grow_and_scan fuel granted b (bytes_to_payload_units size)
  malloc-none e = heapmgr_malloc-booted ∙ rw (booted_malloc, e) refl

grow_and_scan-refused :
    (fuel : ℕ) (b : BinHeap) (need_units : ℕ)
    → grow_and_scan fuel false b need_units ≡ some (b, none)
unfolding grow_and_scan sys_grow_and_link
grow_and_scan-refused fuel b need_units = refl

one_unit : (size : ℕ) → 0 < size → size + 15 < 2 ^ 64 → 1 ≤ bytes_to_payload_units size
unfolding bytes_to_payload_units
one_unit size positive bounded = omega arith

-- Where no block of a bin has the units that are asked for, the size does not wrap round and `sbrk` refuses, the
-- call returns NULL and leaves the heap as it was.
pub heapmgr_malloc-unfit :
    (fuel : ℕ) (b : BinHeap) (lists : ℕ → List ℕ) (size : ℕ)
    → Binned b lists
    → ((i : ℕ) → length (lists i) ≤ fuel)
    → b.heap.booted ≡ true
    → 0 < size
    → size + 15 < 2 ^ 64
    → ((j x : ℕ) → j < num_bins → x ∈ lists j → b.heap.word1 x < bytes_to_payload_units size + 2)
    → heapmgr_malloc fuel false b size ≡ some (b, none)
heapmgr_malloc-unfit fuel b lists size binned enough booted positive bounded small =
    let need_units = bytes_to_payload_units size in
    let i = get_bin_index (2 + need_units) in
    malloc-none fuel false b size booted positive (
      scan_and_take-none fuel b need_units (2 + need_units) (
        scan_bins-none fuel b need_units lists binned enough (one_unit size positive bounded) small
          i (num_bins - i) (omega (arith, get_bin_index-lt (2 + need_units)))))
    ∙ grow_and_scan-refused fuel b need_units
