-- ===== src/HashTable/Ops.antt =====
-- 202110421_assign5/hashtable.c: the table and its entry points, for one thread at a time. A result
-- `none` means that the call does not come back: a lock blocks, or an index is out of bounds. Allocations
-- succeed or fail by the arguments of type `Bool`; `errno` and trace output are left out.
use mathlib.Core.List.{map}
use system_programming.Base.{
  ℕ, zero, suc, ◌+◌, ◌-◌, ◌^◌, Bool, ◌&&◌, Option, none, some, List, [], ◌∷◌, ◌++◌, if◌then◌else◌,
  set, replicate,
}
use system_programming.Base.Int.{ℤ, pos, minus_one, eq_nat}
use system_programming.HashTable.Strings.{CString, strncpy, hash}
use system_programming.HashTable.Chain.{Node, Chain, new_node, find_node, assign, unlink}
use system_programming.HashTable.Locks.{LockApi}

infixl 5 ◌>>=◌
abbrev pub ◌>>=◌ {ℓ κ} : {A : Type ℓ} {B : Type κ} → Option A → (A → Option B) → Option B
none >>= f = none
some a >>= f = f a

unfoldable pub at {ℓ} : {A : Type ℓ} → List A → ℕ → Option A
at [] i = none
at (x ∷ xs) zero = some x
at (x ∷ xs) (suc i) = at xs i

-- What `hash_destroy` gives back: the two strings of a node, the node, the arrays and the table.
pub data Block : Type 0 where
  key_block : Node → Block
  value_block : Node → Block
  node_block : Node → Block
  buckets_block : Block
  locks_block : Block
  sizes_block : Block
  table_block : Block

-- The loop over the nodes of a bucket.
unfoldable pub free_nodes : Chain → List Block
free_nodes [] = []
free_nodes (n ∷ c) = key_block n ∷ value_block n ∷ node_block n ∷ free_nodes c

-- `--` on a `size_t`.
abbrev pub decr_size : ℕ → ℕ
decr_size zero = 2 ^ 64 - 1
decr_size (suc n) = n

module _ (api : LockApi) where
  open api use {Lock, init, destroy, write_lock, write_unlock, read_lock, read_unlock}

  -- `hashtable_t`
  pub record Table : Type 0 where
    pub hash_size : ℕ
    pub buckets : List Chain
    pub locks : List Lock
    pub bucket_sizes : List ℕ

  -- The loop of `hash_init` over the locks: `none` where one cannot be initialised.
  unfoldable pub init_locks : ℕ → ℕ → Option (List Lock)
  init_locks zero delay = some []
  init_locks (suc n) delay = do l ← init delay; ls ← init_locks n delay; some (l ∷ ls)

  unfoldable pub hash_init : ℕ → ℕ → (table_ok buckets_ok locks_ok sizes_ok : Bool) → Option Table
  unfolding init_locks
  hash_init hash_size delay table_ok buckets_ok locks_ok sizes_ok =
      if table_ok && buckets_ok && locks_ok && sizes_ok
      then (do
        ls ← init_locks hash_size delay
        some (record {
          hash_size = hash_size;
          buckets = replicate hash_size [];
          locks = ls;
          bucket_sizes = replicate hash_size 0;
        }))
      else none

  -- What `hash_destroy` leaves: the blocks that it has freed, in that order, the locks, `none` for one that
  -- is destroyed, and the result.
  pub record Destroyed : Type 0 where
    pub freed : List Block
    pub locks : List (Option Lock)
    pub result : ℤ

  abbrev pub in_front : List Block → Option Lock → Destroyed → Destroyed
  in_front blocks l d = record { freed = blocks ++ d.freed; locks = l ∷ d.locks; result = d.result }

  -- The loop over the buckets that are left. A lock that is not destroyed ends it.
  unfoldable pub destroy_buckets : ℕ → List Chain → List Lock → Option Destroyed
  destroy_buckets zero cs ls = some (record { freed = []; locks = map some ls; result = pos 0 })
  destroy_buckets (suc n) [] ls = none
  destroy_buckets (suc n) (c ∷ cs) [] = none
  destroy_buckets (suc n) (c ∷ cs) (l ∷ ls) =
      let onward = destroy_buckets n cs ls in
      let (left, result) = destroy l in
      if eq_nat result 0
      then (do d ← onward; some (in_front (free_nodes c) left d))
      else some (record { freed = free_nodes c; locks = left ∷ map some ls; result = minus_one })

  unfoldable pub hash_destroy : Table → Option Destroyed
  unfolding destroy_buckets
  hash_destroy t = do
    d ← destroy_buckets t.hash_size t.buckets t.locks
    if eq_nat d.result 0
        then some (record d {
          freed = d.freed ++ buckets_block ∷ locks_block ∷ sizes_block ∷ table_block ∷ [];
        })
        else some d

  -- The key's bucket is written back, with its size and its lock.
  abbrev pub store : Table → ℕ → Chain → ℕ → Lock → Table
  store t i c size l = record t {
    buckets = set t.buckets i c;
    bucket_sizes = set t.bucket_sizes i size;
    locks = set t.locks i l;
  }

  abbrev pub store_bucket : Table → ℕ → Chain → Lock → Table
  store_bucket t i c l = record t { buckets = set t.buckets i c; locks = set t.locks i l }

  abbrev pub store_lock : Table → ℕ → Lock → Table
  store_lock t i l = record t { locks = set t.locks i l }

  -- `hash_insert` behind the lock: the allocations are the node and its two strings.
  unfoldable pub insert_locked :
      (node_ok key_ok value_ok : Bool) → Table → ℕ → Lock → CString → CString → Option (Table × ℤ)
  insert_locked node_ok key_ok value_ok t idx rw key value = do
    bucket ← at t.buckets idx
    size ← at t.bucket_sizes idx
    elim (find_node key bucket) [
      | some n ↦ some (store_lock t idx (write_unlock rw), pos 0)
      | none ↦
          if node_ok && key_ok && value_ok
          then some (store t idx (new_node key value ∷ bucket) (size + 1) (write_unlock rw), pos 1)
          else some (store_lock t idx (write_unlock rw), minus_one)
    ]

  unfoldable pub hash_insert :
      (node_ok key_ok value_ok : Bool)
      → Table
      → Option CString
      → Option CString
      → Option (Table × ℤ)
  hash_insert node_ok key_ok value_ok t (some key) (some value) = do
    let idx = hash key t.hash_size
    l ← at t.locks idx
    (got, rw) ← write_lock l
    if got
        then insert_locked node_ok key_ok value_ok t idx rw key value
        else some (store_lock t idx rw, minus_one)
  hash_insert node_ok key_ok value_ok t _ _ = some (t, minus_one)

  -- `hash_read`: the third part is what is written to `dst`, if anything. `dst` is given.
  unfoldable pub read_locked : Table → ℕ → Lock → CString → Option (Table × ℤ × Option (List ℕ))
  read_locked t idx rw key = do
    bucket ← at t.buckets idx
    elim (find_node key bucket) [
      | some n ↦
          some (store_lock t idx (read_unlock rw), pos 1, some (strncpy n.value n.value_size))
      | none ↦ some (store_lock t idx (read_unlock rw), pos 0, none)
    ]

  unfoldable pub hash_read : Table → Option CString → Bool → Option (Table × ℤ × Option (List ℕ))
  hash_read t none quick = some (t, minus_one, none)
  hash_read t (some key) quick = do
    let idx = hash key t.hash_size
    l ← at t.locks idx
    (got, rw) ← read_lock quick l
    if got then read_locked t idx rw key else some (store_lock t idx rw, minus_one, none)

  unfoldable pub update_locked :
      (dup_ok : Bool) → Table → ℕ → Lock → CString → CString → Option (Table × ℤ)
  update_locked dup_ok t idx rw key value = do
    bucket ← at t.buckets idx
    elim (find_node key bucket) [
      | some n ↦
          if dup_ok
          then some (store_bucket t idx (assign key value bucket) (write_unlock rw), pos 1)
          else some (store_lock t idx (write_unlock rw), minus_one)
      | none ↦ some (store_lock t idx (write_unlock rw), pos 0)
    ]

  unfoldable pub hash_update :
      (dup_ok : Bool) → Table → Option CString → Option CString → Option (Table × ℤ)
  hash_update dup_ok t (some key) (some value) = do
    let idx = hash key t.hash_size
    l ← at t.locks idx
    (got, rw) ← write_lock l
    if got then update_locked dup_ok t idx rw key value else some (store_lock t idx rw, minus_one)
  hash_update dup_ok t _ _ = some (t, minus_one)

  unfoldable pub delete_locked : Table → ℕ → Lock → CString → Option (Table × ℤ)
  delete_locked t idx rw key = do
    bucket ← at t.buckets idx
    size ← at t.bucket_sizes idx
    elim (find_node key bucket) [
      | some n ↦ some (store t idx (unlink key bucket) (decr_size size) (write_unlock rw), pos 1)
      | none ↦ some (store_lock t idx (write_unlock rw), pos 0)
    ]

  unfoldable pub hash_delete : Table → Option CString → Option (Table × ℤ)
  hash_delete t none = some (t, minus_one)
  hash_delete t (some key) = do
    let idx = hash key t.hash_size
    l ← at t.locks idx
    (got, rw) ← write_lock l
    if got then delete_locked t idx rw key else some (store_lock t idx rw, minus_one)

  -- `total_entries` of `hash_dump`.
  unfoldable pub total_entries : List ℕ → ℕ
  total_entries [] = 0
  total_entries (n ∷ ns) = n + total_entries ns
