-- ===== src/HeapManager/Blocks/Check.antt =====
-- Lab3/src/heapmgr1.c: what `check_heap_validity` says of a heap of blocks.
use mathlib.Core.Path.{subst}
use system_programming.Base.{
  ℕ, zero, suc, ◌+◌, ◌≤◌, ◌≡◌, refl, sym, ◌∙◌, ap, Bool, true, false, not, ◌&&◌, ◌||◌, Option, none,
  some, List, [], ◌∷◌, ◌++◌, ◌==◌, ==_ne, ==_refl, leb, if◌then◌else◌, length, occurrences, arith,
}
use system_programming.HeapManager.{Heap}
use system_programming.HeapManager.Chunk.{
  chunk_free, chunk_get_adjacent, chunk_get_prev_free, chunk_get_next_free,
}
use system_programming.HeapManager.Validity.{
  chunk_is_valid, ptr_eq, is_null, is_free, prev_is, next_is, walk_blocks, node_ok, walk_free,
  check_heap_validity,
}
use system_programming.HeapManager.Links.{
  ◌∈◌, head_or, NextTo, NextTo-split, PrevFrom-split, in_head, in_tail, last-mem, last-next,
}
use system_programming.HeapManager.Nodes.{Linked, not-front}
use system_programming.HeapManager.Nodes.Relink.{next-at, prev-at}
use system_programming.HeapManager.Blocks.{
  Block, free, used, span_of, Blocks, Blocks-end, Blocks-split, total, Wf,
}
use system_programming.HeapManager.Blocks.Regions.{mem-split}
use system_programming.HeapManager.Blocks.Next.{leb-true, leb-false}
use system_programming.HeapManager.Blocks.Adjacent.{adjacent-block, chunk_is_valid-block}
use system_programming.HeapManager.Blocks.Take.{block-at}
use system_programming.HeapManager.Blocks.Settled.{Settled, Settled-behind}

module _ (h : Heap) where
  walk_blocks-on :
      (fuel w : ℕ)
      → leb h.hi w ≡ false
      → chunk_is_valid h w h.lo h.hi ≡ true
      → walk_blocks (suc fuel) h (some w) w
        ≡ walk_blocks fuel h (chunk_get_adjacent h w h.hi) (w + h.word1 w)
  unfolding walk_blocks
  walk_blocks-on fuel w e v = rw (e, v) refl

  walk_blocks-none : (fuel a : ℕ) → walk_blocks fuel h none a ≡ some (some a)
  unfolding walk_blocks
  walk_blocks-none zero a = refl
  walk_blocks-none (suc fuel) a = refl

  -- The first loop arrives at the end.
  walk_blocks-Blocks :
      (fuel a : ℕ) (b : Block) (bs : List Block)
      → Blocks h.word0 h.word1 a (b ∷ bs) h.hi
      → h.lo ≤ a
      → length (b ∷ bs) ≤ fuel
      → walk_blocks fuel h (some a) a ≡ some (some h.hi)
  walk_blocks-Blocks zero a b bs l low le = absurd (omega (arith, le))
  walk_blocks-Blocks (suc fuel) a b bs l low le =
      let last = Blocks-end h.word0 h.word1 (a + span_of b) bs h.hi l.4 in
      let step =
        walk_blocks-on fuel a (leb-false h.hi a (omega (arith, last, l.0)))
          (chunk_is_valid-block h a b bs l low) in
      step
      ∙ onward (λ c cs m r. walk_blocks-Blocks fuel (a + span_of b) c cs m (omega (arith, low)) r)
          bs l.4 last (omega (arith, le))
    where
      onward :
          ((c : Block) (cs : List Block)
            → Blocks h.word0 h.word1 (a + span_of b) (c ∷ cs) h.hi
            → length (c ∷ cs) ≤ fuel
            → walk_blocks fuel h (some (a + span_of b)) (a + span_of b) ≡ some (some h.hi))
          → (cs : List Block) → Blocks h.word0 h.word1 (a + span_of b) cs h.hi
          → a + span_of b + total cs ≡ h.hi
          → length cs ≤ fuel
          → walk_blocks fuel h (chunk_get_adjacent h a h.hi) (a + h.word1 a) ≡ some (some h.hi)
      onward again [] m last le' =
          rw (l.2, leb-true h.hi (a + span_of b) (omega (arith, last)))
            (walk_blocks-none fuel (a + span_of b) ∙ ap (λ z. some (some z)) m)
      onward again (c ∷ cs) m last le' =
          rw (l.2, leb-false h.hi (a + span_of b) (omega (arith, last, m.0))) (again c cs m le')

  walk_free-on :
      (fuel w : ℕ)
      → node_ok h w ≡ true
      → walk_free (suc fuel) h (some w) ≡ walk_free fuel h (chunk_get_next_free h w)
  unfolding walk_free
  walk_free-on fuel w e = rw e refl

  walk_free-none : (fuel : ℕ) → walk_free fuel h none ≡ some true
  unfolding walk_free
  walk_free-none zero = refl
  walk_free-none (suc fuel) = refl

  walk_free-nodes :
      (fuel : ℕ) (ys : List ℕ)
      → NextTo h.link ys none
      → ((y : ℕ) → y ∈ ys → node_ok h y ≡ true)
      → length ys ≤ fuel
      → walk_free fuel h (head_or ys none) ≡ some true
  walk_free-nodes fuel [] n k le = walk_free-none fuel
  walk_free-nodes zero (y ∷ ys) n k le = absurd (omega (arith, le))
  walk_free-nodes (suc fuel) (y ∷ ys) n k le =
      walk_free-on fuel y (k y (in_head y ys))
      ∙ ap (walk_free fuel h) n.0
      ∙ walk_free-nodes fuel ys n.1 (λ z i. k z (in_tail z y ys i)) (omega (arith, le))

-- What the tests on a node see of its place in the list.
module _ (h : Heap) where
  ptr_eq-front :
      (u : ℕ) (us : List ℕ) (x : ℕ) (ys : List ℕ)
      → Linked h ((u ∷ us) ++ x ∷ ys)
      → ptr_eq h.free_head x ≡ false
  ptr_eq-front u us x ys l =
      ap (λ p. ptr_eq p x) l.head ∙ ==_ne u x (not-front (u ∷ us) x ys l.distinct u (in_head u us))

  ptr_eq-first : (x : ℕ) (ys : List ℕ) → Linked h (x ∷ ys) → ptr_eq h.free_head x ≡ true
  ptr_eq-first x ys l = ap (λ p. ptr_eq p x) l.head ∙ ==_refl x

  head-test :
      (vs : List ℕ) (x : ℕ) (ys : List ℕ)
      → Linked h (vs ++ x ∷ ys)
      → (not (ptr_eq h.free_head x) || is_null (chunk_get_prev_free h x)) ≡ true
  head-test [] x ys l = rw (ptr_eq-first x ys l, prev-at h [] x ys l) refl
  head-test (u ∷ us) x ys l = rw (ptr_eq-front u us x ys l) refl

  prev-test :
      (vs : List ℕ) (x : ℕ) (ys : List ℕ)
      → Linked h (vs ++ x ∷ ys)
      → (ptr_eq h.free_head x || next_is h (chunk_get_prev_free h x) x) ≡ true
  prev-test [] x ys l = rw (ptr_eq-first x ys l) refl
  prev-test (u ∷ us) x ys l =
      let (q, e, _) = last-mem u us in
      let before = (NextTo-split h.link (u ∷ us) (x ∷ ys) none l.next).0 in
      let link_q = last-next h.link (u ∷ us) (some x) q before e in
      rw (ptr_eq-front u us x ys l, prev-at h (u ∷ us) x ys l ∙ e, link_q, ==_refl x) refl

  next-test :
      (vs : List ℕ) (x : ℕ) (ys : List ℕ)
      → Linked h (vs ++ x ∷ ys)
      → prev_is h (chunk_get_next_free h x) x ≡ true
  next-test vs x [] l = rw (next-at h vs x [] l) refl
  next-test vs x (n ∷ ns) l =
      let back = (PrevFrom-split (chunk_get_prev_free h) none vs (x ∷ n ∷ ns) l.prev).1.1.0 in
      rw (next-at h vs x (n ∷ ns) l, back, ==_refl x) refl

  adjacent-test :
      (a s : ℕ) (cs : List Block)
      → Blocks h.word0 h.word1 a (free s ∷ cs) h.hi
      → Settled (free s ∷ cs)
      → is_free h (chunk_get_adjacent h a h.hi) ≡ false
  adjacent-test a s [] l k = rw (l.2, leb-true h.hi (a + s) (omega (arith, l.4))) refl
  adjacent-test a s (free t ∷ cs) l k = absurd k.0
  adjacent-test a s (used t ∷ cs) l k = rw (adjacent-block h a (free s) (used t) cs l, l.4.1) refl

all_true :
    {a b c d e f : Bool}
    → a ≡ true
    → b ≡ true
    → c ≡ true
    → d ≡ false
    → e ≡ true
    → f ≡ true
    → (a && b && c && not d && e && f) ≡ true
all_true p q r s t u = rw (p, q, r, s, t, u) refl

mem-nil : (xs : List ℕ) → ((x : ℕ) → occurrences xs x ≡ 0) → xs ≡ []
mem-nil [] k = refl
mem-nil (x ∷ xs) k = absurd (omega (arith, k x, in_head x xs))

-- `check_heap_validity`, by what it looks at.
abbrev verdict : Bool → Bool → Bool → Option (Option ℕ) → ℕ → Option Bool → Option Bool
verdict set_up same no_free walked hi rest =
    if not set_up then some false else if same then some no_free else elim walked [
      | none ↦ none
      | some none ↦ some false
      | some (some expected) ↦ if expected == hi then rest else some false
    ]

check-verdict :
    (fuel : ℕ) (h : Heap)
    → check_heap_validity fuel h
      ≡ verdict h.booted
          (h.lo == h.hi)
          (is_null h.free_head)
          (walk_blocks fuel h (some h.lo) h.lo)
          h.hi
          (walk_free fuel h h.free_head)
unfolding check_heap_validity
check-verdict fuel h = refl

verdict-empty :
    {b s n : Bool} (o : Option (Option ℕ)) (hi : ℕ) (r : Option Bool)
    → b ≡ true
    → s ≡ true
    → n ≡ true
    → verdict b s n o hi r ≡ some true
verdict-empty o hi r p q t = rw (p, q, t) refl

verdict-full :
    {b s : Bool} {o : Option (Option ℕ)} {hi : ℕ} {r : Option Bool} (n : Bool)
    → b ≡ true
    → s ≡ false
    → o ≡ some (some hi)
    → r ≡ some true
    → verdict b s n o hi r ≡ some true
verdict-full {hi = hi} n p q t u = rw (p, q, t, ==_refl hi, u) refl

module _ (h : Heap) (bs : List Block) (xs : List ℕ) (w : Wf h bs xs) (k : Settled bs) where
  node_ok-free : (x : ℕ) → x ∈ xs → node_ok h x ≡ true
  unfolding node_ok
  node_ok-free x i =
      let (ds, s, cs, blocks, at_x) = block-at h.lo bs x (rw (← w.same x) i) in
      let (vs, ys, nodes) = mem-split xs x i in
      let l : Linked h (vs ++ x ∷ ys) = subst (Linked h) nodes w.linked in
      let m : Blocks h.word0 h.word1 h.lo (ds ++ free s ∷ cs) h.hi =
        subst (λ z. Blocks h.word0 h.word1 h.lo z h.hi) blocks w.layout in
      let there : Blocks h.word0 h.word1 x (free s ∷ cs) h.hi =
        subst (λ z. Blocks h.word0 h.word1 z (free s ∷ cs) h.hi) (sym at_x)
          (Blocks-split h.word0 h.word1 h.lo ds (free s ∷ cs) h.hi m).1 in
      let k' : Settled (free s ∷ cs) = Settled-behind ds (free s ∷ cs) (subst Settled blocks k) in
      let valid = chunk_is_valid-block h x (free s) cs there (omega (arith, at_x)) in
      let status : (h.word0 x == chunk_free) ≡ true = rw there.1 refl in
      all_true (head-test h vs x ys l) status valid (adjacent-test h x s cs there k')
        (next-test h vs x ys l) (prev-test h vs x ys l)

-- `check_heap_validity` passes a heap of blocks that is set up, whose free list has exactly the free blocks,
-- and on which no two free blocks stand side by side, with fuel for the blocks and for the nodes.
pub check_heap_validity-Wf :
    (fuel : ℕ) (h : Heap) (bs : List Block) (xs : List ℕ)
    → Wf h bs xs
    → Settled bs
    → h.booted ≡ true
    → length bs ≤ fuel
    → length xs ≤ fuel
    → check_heap_validity fuel h ≡ some true
check_heap_validity-Wf fuel h [] xs w k b le le' =
    let none_free : h.free_head ≡ none =
      w.linked.head ∙ ap (λ z. head_or z none) (mem-nil xs w.same) in
    let same : (h.lo == h.hi) ≡ true = rw w.layout (==_refl h.hi) in
    check-verdict fuel h
    ∙ verdict-empty (walk_blocks fuel h (some h.lo) h.lo) h.hi (walk_free fuel h h.free_head) b same
        (ap is_null none_free)
check_heap_validity-Wf fuel h (c ∷ cs) xs w k b le le' =
    let last = Blocks-end h.word0 h.word1 h.lo (c ∷ cs) h.hi w.layout in
    let first = w.layout.0 in
    check-verdict fuel h
    ∙ verdict-full (is_null h.free_head) b (==_ne h.lo h.hi (omega (arith, last, first)))
        (walk_blocks-Blocks h fuel h.lo c cs w.layout (omega arith) le)
        (ap (walk_free fuel h) w.linked.head
          ∙ walk_free-nodes h fuel xs w.linked.next (node_ok-free h (c ∷ cs) xs w k) le')
