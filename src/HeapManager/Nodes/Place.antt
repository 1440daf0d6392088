-- ===== src/HeapManager/Nodes/Place.antt =====
-- Lab3/src/heapmgr1.c: where the nodes of the free list stand in memory, next to one that changes.
use system_programming.Base.{ℕ, ◌≡◌, ◌≢◌, sym, Option, none, some, List, ◌∷◌, ◌++◌, if◌then◌else◌}
use system_programming.HeapManager.{Heap}
use system_programming.HeapManager.Chunk.{chunk_get_prev_free, get_footer_from_header}
use system_programming.HeapManager.Validity.{ptr_eq}
use system_programming.HeapManager.Links.{◌∈◌, head_or, last_or, last-in, head-in}
use system_programming.HeapManager.Nodes.{
  Separate, Linked, in_front, in_back, in_middle, not-without, in_without,
}
use system_programming.HeapManager.Nodes.Relink.{foot-ne, foot-injective}

-- Where a node stands in memory, next to another one.
pub record Clear (h : Heap) (c x : ℕ) : Type 0 where
  pub other : c ≢ x
  pub foot_other : get_footer_from_header h c ≢ x
  pub other_foot : c ≢ get_footer_from_header h x
  pub feet : get_footer_from_header h c ≢ get_footer_from_header h x

pub Separate-Clear :
    {h : Heap} {xs : List ℕ} (c x : ℕ) → Separate h.word1 xs → c ∈ xs → x ∈ xs → c ≢ x → Clear h c x
Separate-Clear c x s i j ne = record {
  other = ne;
  foot_other = foot-ne s c x i j;
  other_foot = λ e. foot-ne s x c j i (sym e);
  feet = foot-injective s c x i j ne;
}

abbrev pub LinksAt : Heap → Heap → Option ℕ → Option ℕ → ℕ → Type 0
LinksAt h h' prev next x =
    (h'.link x ≡ (if ptr_eq prev x then next else h.link x))
    × (h'.link (get_footer_from_header h x)
        ≡ (if ptr_eq next x then prev else chunk_get_prev_free h x))

-- What the links of another node rest on.
pub record Placed (h : Heap) (c : ℕ) (prev next : Option ℕ) (x : ℕ) : Type 0 where
  pub clear : Clear h c x
  pub before : (p : ℕ) → prev ≡ some p → p ≢ get_footer_from_header h x
  pub behind : (n : ℕ) → next ≡ some n → (get_footer_from_header h n ≢ x) × (n ≢ x → Clear h n x)

-- Nothing but links and the head has changed.
pub record SameWords (h h' : Heap) : Type 0 where
  pub word0 : h'.word0 ≡ h.word0
  pub word1 : h'.word1 ≡ h.word1
  pub lo : h'.lo ≡ h.lo
  pub hi : h'.hi ≡ h.hi

module _ (h : Heap) (xs : List ℕ) (c : ℕ) (ys : List ℕ) (l : Linked h (xs ++ c ∷ ys)) where
  pub at-Placed : (x : ℕ) → x ∈ (xs ++ ys) → Placed h c (last_or none xs) (head_or ys none) x
  at-Placed x i =
      let s = l.separate in
      let at_x = in_without xs c ys x i in
      record {
        clear = Separate-Clear c x s (in_middle xs c ys) at_x (not-without xs c ys l.distinct x i);
        before = λ p e f. foot-ne s x p at_x (in_front xs c ys p (last-in xs p e)) (sym f);
        behind = λ n e.
            let at_n = in_back xs c ys n (head-in ys n e) in
            (foot-ne s n x at_n at_x, λ other. Separate-Clear n x s at_n at_x other);
      }
