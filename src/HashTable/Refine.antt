-- ===== src/HashTable/Refine.antt =====
-- 202110421_assign5/hashtable.c: each entry point implements an operation on maps, on every branch, and
-- gives its lock back.
use system_programming.Base.{
  ℕ, ◌+◌, ◌≡◌, refl, sym, Bool, ◌&&◌, Option, none, some, [], ◌∷◌, length, get_or, Option-cases,
  Bool-cases, inl, inr, arith,
}
use system_programming.Base.Int.{ℤ}
use system_programming.HashTable.Strings.{CString, hash, hash-lt, strncpy_whole}
use system_programming.HashTable.Chain.{Node, Chain, new_node, find_node, assign, unlink}
use system_programming.HashTable.Chain.Laws.{
  value_of, find, find-push, find-assign, find-unlink, length-assign, length-unlink, push-ChainOk,
  assign-ChainOk, unlink-ChainOk, find_node-Sized,
}
use system_programming.HashTable.Locks.{LockApi}
use system_programming.HashTable.Ops.{
  ◌>>=◌, at, Table, insert_locked, hash_insert, read_locked, hash_read, update_locked, hash_update,
  delete_locked, hash_delete,
}
use system_programming.HashTable.Spec.{
  insert_spec, update_spec, delete_spec, read_spec, insert_spec-none, insert_spec-some,
  update_spec-none, update_spec-some, delete_spec-none, delete_spec-some, read_spec-none,
  read_spec-some,
}
use system_programming.HashTable.Valid.{
  Map, at-inside, at-AllFree, IsValid, view, Holds, store_lock-Holds, store-Holds,
  store_bucket-Holds,
}

module _ (api : LockApi) where
  open api use {Lock, Free, write_lock, write_unlock}

  -- The call comes back with this result, and with a valid table that reads as the map.
  abbrev pub Returns : Option (Table api × ℤ) → ℤ × Map → Type 0
  Returns run (r, f) = (t : Table api) × (run ≡ some (t, r)) × Holds api f t

  module _ (t : Table api) (v : IsValid api t) (key : CString) where
    abbrev i : ℕ
    i = hash key t.hash_size

    abbrev bucket : Chain
    bucket = get_or t.buckets i []

    bucket-at : at t.buckets i ≡ some bucket
    bucket-at = sym (at-inside t.buckets i [] (rw v.width (hash-lt key t.hash_size v.some_bucket)))

    size-at : at t.bucket_sizes i ≡ some (length bucket)
    size-at = rw (
      sym (at-inside t.bucket_sizes i 0 (rw v.sizes (hash-lt key t.hash_size v.some_bucket))),
      v.counted i (hash-lt key t.hash_size v.some_bucket),
    )

    lock-at : (l : Lock) × (at t.locks i ≡ some l) × Free l
    lock-at =
        at-AllFree api t.locks i v.free (rw v.lock_count (hash-lt key t.hash_size v.some_bucket))

    view-some : (n : Node) → find_node key bucket ≡ some n → view api t key ≡ some n.value
    unfolding view find
    view-some n e = rw (e, value_of)

    view-none : find_node key bucket ≡ none → view api t key ≡ none
    unfolding view find
    view-none e = rw (e, value_of)

    insert_locked-Returns :
        (node_ok key_ok value_ok : Bool) (rw' : Lock) (value : CString)
        → Free (write_unlock rw')
        → Returns
            (insert_locked api node_ok key_ok value_ok t i rw' key value)
            (insert_spec (node_ok && key_ok && value_ok) (view api t) key value)
    unfolding insert_locked
    insert_locked-Returns node_ok key_ok value_ok rw' value f =
        let ok = node_ok && key_ok && value_ok in
        elim (Option-cases (find_node key bucket)) [
          | inr (n, e) ↦
              rw (bucket-at, size-at, e, insert_spec-some ok (view api t) key value (view-some n e))
                (_, refl, store_lock-Holds api t i _ v f)
          | inl e ↦
              rw (bucket-at, size-at, e, insert_spec-none ok (view api t) key value (view-none e))
                (elim (Bool-cases ok) [
                  | inl good ↦ rw good (
                    _,
                    refl,
                    store-Holds api t key (some value) (new_node key value ∷ bucket)
                        (length bucket + 1) _ v f
                        (push-ChainOk _ key value bucket refl e (v.chains i)) (omega arith)
                        (λ q. find-push q key value bucket),
                  )
                  | inr bad ↦ rw bad (_, refl, store_lock-Holds api t i _ v f)
                ])
        ]

    update_locked-Returns :
        (dup_ok : Bool) (rw' : Lock) (value : CString)
        → Free (write_unlock rw')
        → Returns
            (update_locked api dup_ok t i rw' key value)
            (update_spec dup_ok (view api t) key value)
    unfolding update_locked
    update_locked-Returns ok rw' value f = elim (Option-cases (find_node key bucket)) [
      | inl e ↦
          rw (bucket-at, ◌>>=◌, e, update_spec-none ok (view api t) key value (view-none e))
            (_, refl, store_lock-Holds api t i _ v f)
      | inr (n, e) ↦
          rw (bucket-at, ◌>>=◌, e, update_spec-some ok (view api t) key value (view-some n e))
            (elim (Bool-cases ok) [
              | inl good ↦ rw good (
                _,
                refl,
                store_bucket-Holds api t key (some value) (assign key value bucket) _ v f
                    (assign-ChainOk _ key value bucket (v.chains i))
                    (rw (length-assign key value bucket)
                      (v.counted i (hash-lt key t.hash_size v.some_bucket)))
                    (λ q. find-assign key q value bucket n e),
              )
              | inr bad ↦ rw bad (_, refl, store_lock-Holds api t i _ v f)
            ])
    ]

    delete_locked-Returns :
        (rw' : Lock)
        → Free (write_unlock rw')
        → Returns (delete_locked api t i rw' key) (delete_spec (view api t) key)
    unfolding delete_locked
    delete_locked-Returns rw' f = elim (Option-cases (find_node key bucket)) [
      | inl e ↦
          rw (bucket-at, size-at, e, delete_spec-none (view api t) key (view-none e))
            (_, refl, store_lock-Holds api t i _ v f)
      | inr (n, e) ↦
          rw (bucket-at, size-at, e, delete_spec-some (view api t) key (view-some n e))
            (
              _,
              refl,
              store-Holds api t key none (unlink key bucket) _ _ v f
                  (unlink-ChainOk _ key bucket (v.chains i))
                  (ground (arith, length-unlink key bucket n e))
                  (λ q. find-unlink key q _ bucket (v.chains i)),
            )
    ]

  -- On a valid table, whose locks are all free, `hash_insert` comes back with every lock free again and
  -- a valid table: a key that is there gives 0, a failed allocation -1, both with no change of the map;
  -- otherwise it gives 1 and the key has the new value.
  pub hash_insert-refines :
      (t : Table api) (node_ok key_ok value_ok : Bool) (key value : CString)
      → IsValid api t
      → Returns
          (hash_insert api node_ok key_ok value_ok t (some key) (some value))
          (insert_spec (node_ok && key_ok && value_ok) (view api t) key value)
  unfolding hash_insert
  hash_insert-refines t node_ok key_ok value_ok key value v =
      let (l, here, free) = lock-at t v key in
      let (l', got, released) = api.write_lock-Free l free in
      rw (here, got) (insert_locked-Returns t v key node_ok key_ok value_ok l' value released)

  -- The same of `hash_update`: a key that is not there gives 0, a failed allocation -1, both with no
  -- change; otherwise it gives 1 and the key has the new value.
  pub hash_update-refines :
      (t : Table api) (dup_ok : Bool) (key value : CString)
      → IsValid api t
      → Returns
          (hash_update api dup_ok t (some key) (some value))
          (update_spec dup_ok (view api t) key value)
  unfolding hash_update
  hash_update-refines t dup_ok key value v =
      let (l, here, free) = lock-at t v key in
      let (l', got, released) = api.write_lock-Free l free in
      rw (here, got) (update_locked-Returns t v key dup_ok l' value released)

  -- The same of `hash_delete`: a key that is not there gives 0 with no change; otherwise it gives 1 and
  -- the key has no value.
  pub hash_delete-refines :
      (t : Table api) (key : CString)
      → IsValid api t
      → Returns (hash_delete api t (some key)) (delete_spec (view api t) key)
  unfolding hash_delete
  hash_delete-refines t key v =
      let (l, here, free) = lock-at t v key in
      let (l', got, released) = api.write_lock-Free l free in
      rw (here, got) (delete_locked-Returns t v key l' released)

  -- The same of `hash_read`, quick or not: a key that is not there gives 0 and writes nothing; otherwise
  -- it gives 1 and writes the whole value with its final 0. The map does not change.
  pub hash_read-refines :
      (t : Table api) (quick : Bool) (key : CString)
      → IsValid api t
      → (t' : Table api) × (hash_read api t (some key) quick
          ≡ some (t', (read_spec (view api t) key).0, (read_spec (view api t) key).1))
        × Holds api (view api t) t'
  unfolding hash_read read_locked
  hash_read-refines t quick key v =
      let (l, here, free) = lock-at t v key in
      let (l', got, released) = api.read_lock-Free quick l free in
      elim (Option-cases (find_node key (bucket t v key))) [
        | inl e ↦
            rw
              (
                here,
                got,
                bucket-at t v key,
                ◌>>=◌,
                e,
                read_spec-none (view api t) key (view-none t v key e),
              )
              (_, refl, store_lock-Holds api t (i t v key) _ v released)
        | inr (n, e) ↦
            let sized = find_node-Sized _ key (bucket t v key) n (v.chains (i t v key)) e in
            rw
              (
                here,
                got,
                bucket-at t v key,
                ◌>>=◌,
                e,
                read_spec-some (view api t) key (view-some t v key n e),
                sized.1,
                strncpy_whole n.value,
              )
              (_, refl, store_lock-Holds api t (i t v key) _ v released)
      ]
