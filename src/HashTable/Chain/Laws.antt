-- ===== src/HashTable/Chain/Laws.antt =====
-- 202110421_assign5/hashtable.c: what a bucket means, and what the writes to it change.
use system_programming.Base.{
  ◌+◌, ◌≡◌, refl, Option, none, some, [], ◌∷◌, length, if◌then◌else◌, arith, Bool-cases, inl, inr,
}
use system_programming.HashTable.Strings.{CString, str_eq, str_eq_iff}
use system_programming.HashTable.Chain.{
  Node, Chain, new_node, find_node, assign, unlink, Absent, Sized, ChainOk, find_node-Absent,
  Absent-find_node,
}

abbrev pub value_of : Option Node → Option CString
value_of none = none
value_of (some n) = some n.value

-- The value that a bucket holds for a key.
unfoldable pub find : CString → Chain → Option CString
find q c = value_of (find_node q c)

pub find-push :
    (q k v : CString) (c : Chain)
    → find q (new_node k v ∷ c) ≡ (if str_eq k q then some v else find q c)
unfolding find find_node
find-push q k v c = ground arith

module _ (k q : CString) where
  pub find-assign :
      (v : CString) (c : Chain) (n : Node)
      → find_node k c ≡ some n
      → find q (assign k v c) ≡ (if str_eq k q then some v else find q c)
  unfolding find find_node assign
  find-assign v [] n h = cc
  find-assign v (m ∷ c) n h =
      ground (arith, find-assign v c n, str_eq_iff m.key k, str_eq_iff m.key q, str_eq_iff k q)

  pub find-unlink :
      (P : CString → Type 0) (c : Chain)
      → ChainOk P c
      → find q (unlink k c) ≡ (if str_eq k q then none else find q c)
  unfolding find find_node unlink
  find-unlink P [] ok = ground arith
  find-unlink P (m ∷ c) ok = ground (
    arith,
    find-unlink P c ok.3,
    find_node-Absent m.key c ok.2,
    str_eq_iff m.key k,
    str_eq_iff m.key q,
    str_eq_iff k q,
  )

pub length-assign : (k v : CString) (c : Chain) → length (assign k v c) ≡ length c
unfolding assign
length-assign k v [] = refl
length-assign k v (n ∷ c) = ground (arith, length-assign k v c)

pub length-unlink :
    (k : CString) (c : Chain) (n : Node)
    → find_node k c ≡ some n
    → length (unlink k c) + 1 ≡ length c
unfolding unlink find_node
length-unlink k [] n h = cc
length-unlink k (m ∷ c) n h = ground (arith, length-unlink k c n)

Absent-assign : (j k v : CString) (c : Chain) → Absent j c → Absent j (assign k v c)
unfolding assign
Absent-assign j k v [] a = tt
Absent-assign j k v (n ∷ c) a = ground (arith, Absent-assign j k v c a.1)

Absent-unlink : (j k : CString) (c : Chain) → Absent j c → Absent j (unlink k c)
unfolding unlink
Absent-unlink j k [] a = tt
Absent-unlink j k (n ∷ c) a = ground (arith, Absent-unlink j k c a.1)

module _ (P : CString → Type 0) where
  pub push-ChainOk :
      (k v : CString) (c : Chain)
      → P k
      → find_node k c ≡ none
      → ChainOk P c
      → ChainOk P (new_node k v ∷ c)
  push-ChainOk k v c p h ok = (p, (refl, refl), Absent-find_node k c h, ok)

  pub assign-ChainOk : (k v : CString) (c : Chain) → ChainOk P c → ChainOk P (assign k v c)
  unfolding assign
  assign-ChainOk k v [] ok = tt
  assign-ChainOk k v (n ∷ c) ok = elim (Bool-cases (str_eq n.key k)) [
    | inl e ↦ rw e (ok.0, (ok.1.0, refl), ok.2, ok.3)
    | inr e ↦ rw e (ok.0, ok.1, Absent-assign n.key k v c ok.2, assign-ChainOk k v c ok.3)
  ]

  pub unlink-ChainOk : (k : CString) (c : Chain) → ChainOk P c → ChainOk P (unlink k c)
  unfolding unlink
  unlink-ChainOk k [] ok = tt
  unlink-ChainOk k (n ∷ c) ok = elim (Bool-cases (str_eq n.key k)) [
    | inl e ↦ rw e ok.3
    | inr e ↦ rw e (ok.0, ok.1, Absent-unlink n.key k c ok.2, unlink-ChainOk k c ok.3)
  ]

  pub find_node-Sized :
      (k : CString) (c : Chain) (n : Node) → ChainOk P c → find_node k c ≡ some n → Sized n
  unfolding find_node
  find_node-Sized k [] n ok h = absurd (cc h)
  find_node-Sized k (m ∷ c) n ok h = ground (arith, find_node-Sized k c n ok.3)
