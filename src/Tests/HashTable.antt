-- ===== src/Tests/HashTable.antt =====
-- 202110421_assign5/hashtable.c: a table of four buckets over the locks of rwlock.c.
use mathlib.Core.List.{flat_map}
use system_programming.Base.{◌≡◌, ◌++◌, refl, true, false, none, some, [], ◌∷◌, replicate, arith}
use system_programming.Base.Int.{pos}
use system_programming.RwLock.Ops.{initialised, rwlock_init}
use system_programming.HashTable.Strings.{CString, hash}
use system_programming.HashTable.Ops.{
  Table, buckets_block, locks_block, sizes_block, table_block, init_locks, hash_init, hash_insert,
  hash_read, hash_update, hash_delete, hash_destroy,
}
use system_programming.HashTable.Valid.{IsValid, Holds, view}
use system_programming.HashTable.Spec.{insert_spec, update_spec, delete_spec, read_spec}
use system_programming.HashTable.Refine.{
  Returns, hash_insert-refines, hash_read-refines, hash_update-refines, hash_delete-refines,
}
use system_programming.HashTable.Lifetime.{blocks, hash_init-Holds, hash_destroy-IsValid}
use system_programming.HashTable.Rw.{rw_api}

abbrev T : Type 0
T = Table (rw_api 8)

abbrev empty : T
empty = record {
  hash_size = 4;
  buckets = replicate 4 [];
  locks = replicate 4 (initialised 0);
  bucket_sizes = replicate 4 0;
}

empty_made : hash_init (rw_api 8) 4 0 true true true true ≡ some empty
unfolding hash_init init_locks rwlock_init
empty_made = refl

hash_init-Holds_example : Holds (rw_api 8) (λ q. none) empty
hash_init-Holds_example =
    hash_init-Holds (rw_api 8) 4 0 true true true true empty (omega arith) empty_made

abbrev key : CString
key = b'k' ∷ b'1' ∷ []

abbrev other : CString
other = b'k' ∷ b'5' ∷ []

abbrev value : CString
value = b'v' ∷ []

-- The two keys stand in one bucket.
same_bucket : hash key 4 ≡ hash other 4
unfolding hash
same_bucket = refl

hash_insert-refines_example :
    Returns
      (rw_api 8)
      (hash_insert (rw_api 8) true true true empty (some key) (some value))
      (insert_spec true (view (rw_api 8) empty) key value)
hash_insert-refines_example =
    hash_insert-refines (rw_api 8) empty true true true key value hash_init-Holds_example.valid

abbrev one : T
one = hash_insert-refines_example.0

one-IsValid : IsValid (rw_api 8) one
one-IsValid = hash_insert-refines_example.2.valid

hash_update-refines_example :
    Returns
      (rw_api 8)
      (hash_update (rw_api 8) true one (some key) (some other))
      (update_spec true (view (rw_api 8) one) key other)
hash_update-refines_example = hash_update-refines (rw_api 8) one true key other one-IsValid

hash_delete-refines_example :
    Returns
      (rw_api 8)
      (hash_delete (rw_api 8) one (some key))
      (delete_spec (view (rw_api 8) one) key)
hash_delete-refines_example = hash_delete-refines (rw_api 8) one key one-IsValid

hash_read-refines_example :
    (t : T) × (hash_read (rw_api 8) one (some key) false
      ≡ some (t, (read_spec (view (rw_api 8) one) key).0, (read_spec (view (rw_api 8) one) key).1))
    × Holds (rw_api 8) (view (rw_api 8) one) t
hash_read-refines_example = hash_read-refines (rw_api 8) one false key one-IsValid

hash_destroy-IsValid_example :
    hash_destroy (rw_api 8) one
    ≡ some (record {
      freed =
          flat_map (flat_map blocks) one.buckets
          ++ buckets_block ∷ locks_block ∷ sizes_block ∷ table_block ∷ [];
      locks = replicate one.hash_size none;
      result = pos 0;
    })
hash_destroy-IsValid_example = hash_destroy-IsValid (rw_api 8) one one-IsValid
