-- ===== src/HashTable/Chain.antt =====
-- 202110421_assign5/hashtable.c: one bucket, a list of nodes, and the loops over it.
pub mod Laws
use system_programming.Base.{
  ℕ, zero, suc, ◌+◌, ◌≤◌, ◌≡◌, ◌≢◌, refl, Bool, true, false, Option, none, some, List, [], ◌∷◌,
  length, if◌then◌else◌, arith, Bool-cases, inl, inr,
}
use system_programming.HashTable.Strings.{CString, str_eq, str_eq_iff}

-- `node_t`; `next` is the rest of the list.
pub record Node : Type 0 where
  pub key : CString
  pub value : CString
  pub key_size : ℕ
  pub value_size : ℕ

abbrev pub Chain : Type 0
Chain = List Node

-- `newnode` as `hash_insert` fills it.
abbrev pub new_node : CString → CString → Node
new_node k v = record { key = k; value = v; key_size = length k + 1; value_size = length v + 1 }

-- The search loop: the first node with this key.
unfoldable pub find_node : CString → Chain → Option Node
find_node k [] = none
find_node k (n ∷ c) = if str_eq n.key k then some n else find_node k c

-- The loop of `hash_update`, where the node is found: its value is replaced.
unfoldable pub assign : CString → CString → Chain → Chain
assign k v [] = []
assign k v (n ∷ c) =
    if str_eq n.key k
    then (record n { value = v; value_size = length v + 1 }) ∷ c
    else n ∷ assign k v c

-- The loop of `hash_delete`: the first node with this key is unlinked.
unfoldable pub unlink : CString → Chain → Chain
unlink k [] = []
unlink k (n ∷ c) = if str_eq n.key k then c else n ∷ unlink k c

-- The nodes' sizes are those of their strings, and no key stands twice.
abbrev pub Absent : CString → Chain → Type 0
Absent k [] = Unit {0}
Absent k (n ∷ c) = (str_eq n.key k ≡ false) × Absent k c

abbrev pub Sized : Node → Type 0
Sized n = (n.key_size ≡ length n.key + 1) × (n.value_size ≡ length n.value + 1)

abbrev pub ChainOk : (CString → Type 0) → Chain → Type 0
ChainOk P [] = Unit {0}
ChainOk P (n ∷ c) = P n.key × Sized n × Absent n.key c × ChainOk P c

pub find_node-Absent : (k : CString) (c : Chain) → Absent k c → find_node k c ≡ none
unfolding find_node
find_node-Absent k [] a = refl
find_node-Absent k (n ∷ c) a = rw a.0 (find_node-Absent k c a.1)

pub Absent-find_node : (k : CString) (c : Chain) → find_node k c ≡ none → Absent k c
unfolding find_node
Absent-find_node k [] h = tt
Absent-find_node k (n ∷ c) h = ground (arith, Absent-find_node k c)
