-- ===== src/HeapManager.antt =====
-- Lab3/src/heapmgr1.c, Lab3/src/heapmgr2.c and Lab3/src/chunk.c: the memory of the heap and the global variables.
pub mod Chunk
pub mod Validity
pub mod FreeList
pub mod Alloc
pub mod Links
pub mod Nodes
pub mod Limits
pub mod Blocks
pub mod Scan
pub mod Units
pub mod Bins
use system_programming.Base.{ℕ, Bool, Option}

-- Addresses count units of CHUNK_UNIT bytes. A unit holds a header (status, span, next) or a footer (span,
-- prev), in the same bytes: `word0` has the status or the footer's span, `word1` the header's span, and
-- `link` next or prev. `none` is NULL.
pub record Heap : Type 0 where
  pub word0 : ℕ → ℕ
  pub word1 : ℕ → ℕ
  pub link : ℕ → Option ℕ
  pub free_head : Option ℕ
  pub lo : ℕ
  pub hi : ℕ
  pub booted : Bool
  -- The program break, of which `sbrk(0)` tells.
  pub program_break : ℕ
