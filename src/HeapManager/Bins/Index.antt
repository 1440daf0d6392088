-- ===== src/HeapManager/Bins/Index.antt =====
-- Lab3/src/heapmgr2.c: the spans of a bin.
use system_programming.Base.{ℕ, ◌≤◌, ◌<◌, arith}
use system_programming.HeapManager.Bins.{num_bins, get_bin_index}

pub get_bin_index-lt : (s : ℕ) → get_bin_index s < num_bins
unfolding get_bin_index
get_bin_index-lt s = ground arith

-- A larger block is in the same bin or a later one.
pub get_bin_index_mono : (s t : ℕ) → s ≤ t → get_bin_index s ≤ get_bin_index t
unfolding get_bin_index
get_bin_index_mono s t le = ground arith
