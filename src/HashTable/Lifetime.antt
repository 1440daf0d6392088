-- ===== src/HashTable/Lifetime.antt =====
-- 202110421_assign5/hashtable.c: a new table and the end of one.
use mathlib.Core.List.{flat_map}
use system_programming.Base.{
  ℕ, zero, suc, ◌<◌, ◌≡◌, refl, Bool, none, some, List, [], ◌∷◌, ◌++◌, sym, ◌∙◌, length, replicate,
  length-replicate, get_or-replicate, get_or, Option-cases, inl, inr, ap, arith,
}
use system_programming.Base.Int.{pos}
use system_programming.HashTable.Strings.{hash}
use system_programming.HashTable.Chain.{Node, Chain, find_node}
use system_programming.HashTable.Chain.Laws.{find}
use system_programming.HashTable.Locks.{LockApi}
use system_programming.HashTable.Ops.{
  ◌>>=◌, Table, init_locks, hash_init, Block, key_block, value_block, node_block, buckets_block,
  locks_block, sizes_block, table_block, free_nodes, Destroyed, destroy_buckets, hash_destroy,
}
use system_programming.HashTable.Valid.{AllFree, IsValid, view, Holds}

-- The blocks of a node.
abbrev pub blocks : Node → List Block
blocks n = key_block n ∷ value_block n ∷ node_block n ∷ []

free_nodes-blocks : (c : Chain) → free_nodes c ≡ flat_map blocks c
unfolding free_nodes flat_map
free_nodes-blocks [] = refl
free_nodes-blocks (n ∷ c) =
    ap (λ l. key_block n ∷ value_block n ∷ node_block n ∷ l) (free_nodes-blocks c)

no_chain : (n i : ℕ) → get_or {A = Chain} (replicate n []) i [] ≡ []
no_chain zero i = refl
no_chain (suc n) zero = refl
no_chain (suc n) (suc i) = no_chain n i

module _ (api : LockApi) where
  open api use {Lock, init}

  init_locks-AllFree :
      (n delay : ℕ) (ls : List Lock)
      → init_locks api n delay ≡ some ls
      → AllFree api ls × (length ls ≡ n)
  unfolding init_locks
  init_locks-AllFree zero delay [] h = (tt, refl)
  init_locks-AllFree zero delay (l ∷ ls) h = absurd (cc h)
  init_locks-AllFree (suc n) delay ls h = elim (Option-cases (init delay)) [
    | inl e ↦ absurd (cc (rw (e, ◌>>=◌) at h))
    | inr (l, e) ↦ elim (Option-cases (init_locks api n delay)) [
      | inl f ↦ absurd (cc (rw (e, f, ◌>>=◌) at h))
      | inr (ls', f) ↦
          let (free, width) = init_locks-AllFree n delay ls' f in
          let made : l ∷ ls' ≡ ls = cc (rw (e, f, ◌>>=◌) at h) in
          rw (← made) ((api.init-Free delay l e, free), ap suc width)
    ]
  ]

  abbrev fresh : ℕ → List Lock → Table api
  fresh n ls = record {
    hash_size = n;
    buckets = replicate n [];
    locks = ls;
    bucket_sizes = replicate n 0;
  }

  fresh-Holds :
      (n : ℕ) (ls : List Lock)
      → 0 < n
      → AllFree api ls
      → length ls ≡ n
      → Holds api (λ q. none) (fresh n ls)
  unfolding view find find_node
  fresh-Holds n ls h free width = record {
    valid = record {
      some_bucket = h;
      width = length-replicate n [];
      sizes = length-replicate n 0;
      lock_count = width;
      chains = λ i. rw (no_chain n i) tt;
      counted = λ i lt. rw (no_chain n i, get_or-replicate {A = ℕ} n i 0 0 lt) refl;
      free = free;
    };
    reads = λ q. rw (no_chain n (hash q n)) refl;
  }

  -- If `hash_init` gives a table of a positive size, the table is valid and maps no key.
  pub hash_init-Holds :
      (hash_size delay : ℕ) (table_ok buckets_ok locks_ok sizes_ok : Bool) (t : Table api)
      → 0 < hash_size
      → hash_init api hash_size delay table_ok buckets_ok locks_ok sizes_ok ≡ some t
      → Holds api (λ q. none) t
  unfolding hash_init
  hash_init-Holds n delay a b c d t h e = elim (Option-cases (init_locks api n delay)) [
    | inl f ↦ absurd (ground (arith, f))
    | inr (ls, f) ↦
        let made : fresh n ls ≡ t = ground (arith, f) in
        let (free, width) = init_locks-AllFree n delay ls f in
        rw (← made) (fresh-Holds n ls h free width)
  ]

  -- What the nodes and the locks of these buckets come to.
  abbrev emptied : List Chain → Destroyed api
  emptied cs = record {
    freed = flat_map (flat_map blocks) cs;
    locks = replicate (length cs) none;
    result = pos 0;
  }

  destroy_buckets-AllFree :
      (cs : List Chain) (ls : List Lock)
      → length ls ≡ length cs
      → AllFree api ls
      → destroy_buckets api (length cs) cs ls ≡ some (emptied cs)
  unfolding destroy_buckets flat_map
  destroy_buckets-AllFree [] [] e f = refl
  destroy_buckets-AllFree [] (l ∷ ls) e f = absurd (omega (arith, e))
  destroy_buckets-AllFree (c ∷ cs) [] e f = absurd (omega (arith, e))
  destroy_buckets-AllFree (c ∷ cs) (l ∷ ls) e f =
      rw
        (
          api.destroy-Free l f.0,
          destroy_buckets-AllFree cs ls (omega (arith, e)) f.1,
          free_nodes-blocks c,
        )
        refl

  -- `hash_destroy` of a valid table returns 0. It has freed the two strings and the node for each node of
  -- each bucket, in their order, and then the arrays and the table, and every lock is destroyed.
  pub hash_destroy-IsValid :
      (t : Table api)
      → IsValid api t
      → hash_destroy api t
        ≡ some (record {
          freed =
              flat_map (flat_map blocks) t.buckets
              ++ buckets_block ∷ locks_block ∷ sizes_block ∷ table_block ∷ [];
          locks = replicate t.hash_size none;
          result = pos 0;
        })
  unfolding hash_destroy
  hash_destroy-IsValid t v =
      rw (← v.width, destroy_buckets-AllFree t.buckets t.locks (v.lock_count ∙ sym v.width) v.free)
        refl
