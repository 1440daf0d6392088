-- ===== src/HashTable/Valid.antt =====
-- 202110421_assign5/hashtable.c: the invariant of the table, its abstract view as a map from keys to
-- values, and what a write to one bucket does to both.
use system_programming.Base.{
  ℕ, zero, suc, ◌<◌, ◌≡◌, refl, ap, ◌∙◌, Option, some, List, [], ◌∷◌, ◌==◌, length, if◌then◌else◌,
  get_or, set, length-set, get_or-set, if-cases, Bool-cases, inl, inr, arith,
}
use mathlib.Core.Path.{subst}
use system_programming.HashTable.Strings.{CString, str_eq, str_eq_iff, hash, hash-lt}
use system_programming.HashTable.Chain.{Chain, ChainOk}
use system_programming.HashTable.Chain.Laws.{find}
use system_programming.HashTable.Locks.{LockApi}
use system_programming.HashTable.Ops.{Table, at, store, store_bucket, store_lock}

-- A map from keys to values, and a change at one key.
abbrev pub Map : Type 0
Map = CString → Option CString

abbrev pub update : Map → CString → Option CString → Map
update f k v q = if str_eq k q then v else f q

-- A read inside the array finds the entry, whatever a read outside would give.
pub at-inside {ℓ} :
    {E : Type ℓ} (array : List E) (slot : ℕ) (outside : E)
    → slot < length array
    → some (get_or array slot outside) ≡ at array slot
unfolding at
at-inside [] slot outside bound = absurd (omega arith)
at-inside (e ∷ array) zero outside bound = refl
at-inside (e ∷ array) (suc slot) outside bound = at-inside array slot outside (omega arith)

set-get_or {ℓ} : {A : Type ℓ} (xs : List A) (i : ℕ) (d : A) → set xs i (get_or xs i d) ≡ xs
set-get_or [] i d = refl
set-get_or (x ∷ xs) zero d = refl
set-get_or (x ∷ xs) (suc i) d = ap (λ ys. x ∷ ys) (set-get_or xs i d)

module _ (api : LockApi) where
  open api use {Lock, Free}

  abbrev pub AllFree : List Lock → Type 0
  AllFree [] = Unit {0}
  AllFree (l ∷ ls) = Free l × AllFree ls

  pub at-AllFree :
      (ls : List Lock) (i : ℕ)
      → AllFree ls
      → i < length ls
      → (l : Lock) × (at ls i ≡ some l) × Free l
  unfolding at
  at-AllFree [] i f h = absurd (omega arith)
  at-AllFree (l ∷ ls) zero f h = (l, refl, f.0)
  at-AllFree (l ∷ ls) (suc i) f h = at-AllFree ls i f.1 (omega arith)

  set-AllFree : (ls : List Lock) (i : ℕ) (l : Lock) → AllFree ls → Free l → AllFree (set ls i l)
  set-AllFree [] i l f g = tt
  set-AllFree (m ∷ ls) zero l f g = (g, f.1)
  set-AllFree (m ∷ ls) (suc i) l f g = (f.0, set-AllFree ls i l f.1 g)

  -- Every array has an entry for each bucket, a node stands in the bucket of its key, no key stands
  -- twice, the bucket sizes count, and every lock is free.
  pub record IsValid (t : Table api) : Type 0 where
    pub some_bucket : 0 < t.hash_size
    pub width : length t.buckets ≡ t.hash_size
    pub sizes : length t.bucket_sizes ≡ t.hash_size
    pub lock_count : length t.locks ≡ t.hash_size
    pub chains : (i : ℕ) → ChainOk (λ k. hash k t.hash_size ≡ i) (get_or t.buckets i [])
    pub counted :
        (i : ℕ) → i < t.hash_size → get_or t.bucket_sizes i 0 ≡ length (get_or t.buckets i [])
    pub free : AllFree t.locks

  unfoldable pub view : Table api → Map
  view t q = find q (get_or t.buckets (hash q t.hash_size) [])

  -- A valid table that reads as the map.
  pub record Holds (f : Map) (t : Table api) : Type 0 where
    pub valid : IsValid t
    pub reads : (q : CString) → view t q ≡ f q

  pub store_lock-Holds :
      (t : Table api) (i : ℕ) (l : Lock)
      → IsValid t
      → Free l
      → Holds (view t) (store_lock api t i l)
  unfolding view
  store_lock-Holds t i l v f = record {
    valid = record {
      some_bucket = v.some_bucket;
      width = v.width;
      sizes = v.sizes;
      lock_count = length-set t.locks i l ∙ v.lock_count;
      chains = v.chains;
      counted = v.counted;
      free = set-AllFree t.locks i l v.free f;
    };
    reads = λ q. refl;
  }

  -- A write of the bucket of `k`, its size and its lock.
  pub store-Holds :
      (t : Table api) (k : CString) (r : Option CString) (c : Chain) (size : ℕ) (l : Lock)
      → IsValid t
      → Free l
      → ChainOk (λ j. hash j t.hash_size ≡ hash k t.hash_size) c
      → size ≡ length c
      → ((q : CString)
          → find q c
            ≡ (if str_eq k q then r else find q (get_or t.buckets (hash k t.hash_size) [])))
      → Holds (update (view t) k r) (store api t (hash k t.hash_size) c size l)
  unfolding view
  store-Holds t k r c size l v f ok counts reads =
      let i = hash k t.hash_size in
      let lt : i < length t.buckets = rw v.width (hash-lt k t.hash_size v.some_bucket) in
      let lt' : i < length t.bucket_sizes = rw v.sizes (hash-lt k t.hash_size v.some_bucket) in
      record {
        valid = record {
          some_bucket = v.some_bucket;
          width = length-set t.buckets i c ∙ v.width;
          sizes = length-set t.bucket_sizes i size ∙ v.sizes;
          lock_count = length-set t.locks i l ∙ v.lock_count;
          chains = λ j. rw (get_or-set t.buckets i j c [] lt) (
              if-cases (ChainOk (λ m. hash m t.hash_size ≡ j)) (i == j)
                (λ e. let e' : i ≡ j = ground arith in rw (← e') ok) (λ ne. v.chains j));
          counted = λ j h.
              rw (get_or-set t.buckets i j c [] lt, get_or-set t.bucket_sizes i j size 0 lt')
                (ground (arith, v.counted j h));
          free = set-AllFree t.locks i l v.free f;
        };
        reads = λ q. rw (get_or-set t.buckets i (hash q t.hash_size) c [] lt) (
            if-cases (λ b. find q b ≡ update (view t) k r q) (i == hash q t.hash_size)
              (λ e. let e' : i ≡ hash q t.hash_size = ground arith in rw (← e') (reads q))
              (λ ne. elim (Bool-cases (str_eq k q)) [
                | inl same ↦
                    absurd (ground (arith, ap (λ j. hash j t.hash_size) ((str_eq_iff k q).0 same)))
                | inr other ↦ rw other refl
              ]));
      }

  -- The same, where the size is not written.
  pub store_bucket-Holds :
      (t : Table api) (k : CString) (r : Option CString) (c : Chain) (l : Lock)
      → IsValid t
      → Free l
      → ChainOk (λ j. hash j t.hash_size ≡ hash k t.hash_size) c
      → get_or t.bucket_sizes (hash k t.hash_size) 0 ≡ length c
      → ((q : CString)
          → find q c
            ≡ (if str_eq k q then r else find q (get_or t.buckets (hash k t.hash_size) [])))
      → Holds (update (view t) k r) (store_bucket api t (hash k t.hash_size) c l)
  store_bucket-Holds t k r c l v f ok counts reads =
      let i = hash k t.hash_size in
      subst
        (λ sizes.
          Holds (update (view t) k r) (record t {
            buckets = set t.buckets i c;
            bucket_sizes = sizes;
            locks = set t.locks i l;
          }))
        (set-get_or t.bucket_sizes i 0)
        (store-Holds t k r c (get_or t.bucket_sizes i 0) l v f ok counts reads)
