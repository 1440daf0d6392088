-- ===== src/HeapManager/Scan.antt =====
-- Lab3/src/heapmgr1.c: the scan of `heapmgr_malloc` over the free list.
use system_programming.Base.{
  inl, inr, ℕ, zero, suc, ◌+◌, ◌-◌, ◌≤◌, ◌≡◌, refl, ◌∙◌, ap, Option, none, some, List, [], ◌∷◌, leb,
  if◌then◌else◌, length, Bool-cases, arith,
}
use system_programming.HeapManager.{Heap}
use system_programming.HeapManager.Alloc.{first_fit}
use system_programming.HeapManager.Links.{◌∈◌, head_or, NextTo, in_head, in_tail}
use system_programming.HeapManager.Nodes.{Linked}

-- The first of the nodes whose block has the units, apart from memory.
abbrev pub pick : (ℕ → ℕ) → ℕ → List ℕ → Option ℕ
pick span need_units [] = none
pick span need_units (x ∷ xs) =
    let later = pick span need_units xs in if leb need_units (span x - 2) then some x else later

pub first_fit-nodes :
    (fuel : ℕ) (h : Heap) (need_units : ℕ) (xs : List ℕ)
    → NextTo h.link xs none
    → length xs ≤ fuel
    → first_fit fuel h (head_or xs none) need_units ≡ some (pick h.word1 need_units xs)
unfolding first_fit
first_fit-nodes zero h need_units [] n le = refl
first_fit-nodes (suc fuel) h need_units [] n le = refl
first_fit-nodes zero h need_units (x ∷ xs) n le = absurd (omega (arith, le))
first_fit-nodes (suc fuel) h need_units (x ∷ xs) n le =
    let onward = first_fit-nodes fuel h need_units xs n.1 (omega (arith, le)) in
    elim (Bool-cases (leb need_units (h.word1 x - 2))) [
      | inl e ↦ rw e refl
      | inr e ↦ rw (e, n.0, onward) refl
    ]

-- On a free list of at most `fuel` nodes the scan comes to an end, and what it returns is the first node
-- of the list whose block has the units that are asked for, or NULL if none has.
pub first_fit-pick :
    (fuel : ℕ) (h : Heap) (need_units : ℕ) (xs : List ℕ)
    → Linked h xs
    → length xs ≤ fuel
    → first_fit fuel h h.free_head need_units ≡ some (pick h.word1 need_units xs)
first_fit-pick fuel h need_units xs l le =
    ap (λ p. first_fit fuel h p need_units) l.head ∙ first_fit-nodes fuel h need_units xs l.next le

-- A node that is picked fits; if one fits, one is picked.
pub pick-some :
    (span : ℕ → ℕ) (need_units : ℕ) (xs : List ℕ) (x : ℕ)
    → x ∈ xs
    → need_units + 2 ≤ span x
    → (c : ℕ) × (pick span need_units xs ≡ some c) × (c ∈ xs) × (need_units ≤ span c - 2)
pick-some span need_units [] x i fit = absurd (omega (arith, i))
pick-some span need_units (y ∷ ys) x i fit = elim (Bool-cases (leb need_units (span y - 2))) [
  | inl e ↦ (y, rw e refl, in_head y ys, ground (arith, e))
  | inr e ↦
      let j : x ∈ ys = ground (arith, i, fit, e) in
      let (c, p, k, le) = pick-some span need_units ys x j fit in (c, rw e p, in_tail c y ys k, le)
]
