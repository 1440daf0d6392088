-- ===== src/Dirtree/Entries/Order.antt =====
-- Lab2/202110421_assign2/dirtree.c: the order of `dirent_compare`.
use mathlib.Core.Path.{ap₂}
use mathlib.Core.List.{Perm, Pairwise, Mem, not-mem-nil, map, mem-cons_self, forall_mem-cons}
use mathlib.Core.List.Pairwise
use mathlib.Core.List.Perm
use system_programming.Base.{
  ℕ, ◌<◌, ◌≡◌, ◌≢◌, refl, sym, ◌∙◌, ap, false, List, [], ◌∷◌, ◌==◌, if◌then◌else◌, inl, inr, ◌⊎◌,
  ◌↔◌, arith,
}
use system_programming.Base.Int.{ℤ, is_neg, is_pos}
use system_programming.Dirtree.Sys.{Dirent}
use system_programming.Dirtree.Entries.{strcmp, dt_dir, dirent_compare}

-- At most, in the order of a dictionary.
abbrev pub Upto : List ℕ → List ℕ → Type 0
Upto [] t = Unit {0}
Upto (c ∷ s) [] = ⊥
Upto (c ∷ s) (d ∷ t) = (c < d) ⊎ ((c ≡ d) × Upto s t)

Upto-refl : (s : List ℕ) → Upto s s
Upto-refl [] = tt
Upto-refl (c ∷ s) = inr (refl, Upto-refl s)

pub Upto-trans : (s t u : List ℕ) → Upto s t → Upto t u → Upto s u
Upto-trans [] t u p q = tt
Upto-trans (c ∷ s) [] u p q = elim p [ ]
Upto-trans (c ∷ s) (d ∷ t) [] p q = elim q [ ]
Upto-trans (c ∷ s) (d ∷ t) (e ∷ u) (inl p) (inl q) = inl (omega arith)
Upto-trans (c ∷ s) (d ∷ t) (e ∷ u) (inl p) (inr (q, h)) = inl (omega arith)
Upto-trans (c ∷ s) (d ∷ t) (e ∷ u) (inr (p, h)) (inl q) = inl (omega arith)
Upto-trans (c ∷ s) (d ∷ t) (e ∷ u) (inr (p, h)) (inr (q, k)) = inr (p ∙ q, Upto-trans s t u h k)

pub Upto-antisymm : (s t : List ℕ) → Upto s t → Upto t s → s ≡ t
Upto-antisymm [] [] p q = refl
Upto-antisymm [] (d ∷ t) p q = elim q [ ]
Upto-antisymm (c ∷ s) [] p q = elim p [ ]
Upto-antisymm (c ∷ s) (d ∷ t) (inl p) (inl q) = absurd (omega arith)
Upto-antisymm (c ∷ s) (d ∷ t) (inl p) (inr (q, h)) = absurd (omega arith)
Upto-antisymm (c ∷ s) (d ∷ t) (inr (p, h)) (inl q) = absurd (omega arith)
Upto-antisymm (c ∷ s) (d ∷ t) (inr (p, h)) (inr (q, k)) = ap₂ ◌∷◌ p (Upto-antisymm s t h k)

pub strcmp-Upto : (s t : List ℕ) → (is_pos (strcmp s t) ≡ false) ↔ Upto s t
unfolding strcmp
strcmp-Upto [] [] = ((λ e. tt), λ h. refl)
strcmp-Upto [] (d ∷ t) = ((λ e. tt), λ h. refl)
strcmp-Upto (c ∷ s) [] = ((λ e. absurd cc), λ h. absurd h)
strcmp-Upto (c ∷ s) (d ∷ t) = let h = strcmp-Upto s t in (ground (arith, h), ground (arith, h))

pub strcmp-swapped : (s t : List ℕ) → is_neg (strcmp s t) ≡ is_pos (strcmp t s)
unfolding strcmp
strcmp-swapped [] [] = refl
strcmp-swapped [] (d ∷ t) = refl
strcmp-swapped (c ∷ s) [] = refl
strcmp-swapped (c ∷ s) (d ∷ t) = let h = strcmp-swapped s t in ground (arith, h)

-- A directory is in front of all else.
abbrev pub key : Dirent → List ℕ
key e = (if e.d_type == dt_dir then 0 else 1) ∷ e.d_name

pub dirent_compare-key : (a b : Dirent) → dirent_compare a b ≡ strcmp (key a) (key b)
unfolding dirent_compare strcmp
dirent_compare-key a b = ground arith

-- A directory, by its type 4, and what is none, or two of the same kind in the order of their names.
abbrev Before : Dirent → Dirent → Type 0
Before a b =
    ((a.d_type ≡ 4) × (b.d_type ≢ 4)) ⊎ (((a.d_type ≡ 4) ↔ (b.d_type ≡ 4)) × Upto a.d_name b.d_name)

Before-keys : (a b : Dirent) → Before a b → Upto (key a) (key b)
Before-keys a b (inl (kind, not_b)) = inl (ground (arith, kind, not_b))
Before-keys a b (inr (kinds, upto)) = inr (ground (arith, kinds.0, kinds.1), upto)

-- What `qsort` asks of a comparison: swapped arguments give the opposite sign, and it is transitive.
abbrev pub Consistent : (Dirent → Dirent → ℤ) → Type 0
Consistent cmp =
    ((a b : Dirent) → is_neg (cmp a b) ≡ is_pos (cmp b a))
    × ((a b c : Dirent)
        → is_pos (cmp a b) ≡ false
        → is_pos (cmp b c) ≡ false
        → is_pos (cmp a c) ≡ false)

-- `dirent_compare` is a comparison that `qsort` accepts: swapped arguments give the opposite sign, and it is
-- transitive.
pub dirent_compare-Consistent : Consistent dirent_compare
dirent_compare-Consistent = (
  (λ a b. rw (dirent_compare-key a b, dirent_compare-key b a) (strcmp-swapped (key a) (key b))),
  λ a b c p q. rw (dirent_compare-key a c) (
      (strcmp-Upto (key a) (key c)).1 (
        Upto-trans (key a) (key b) (key c)
          ((strcmp-Upto (key a) (key b)).0 (rw (← dirent_compare-key a b) p))
          ((strcmp-Upto (key b) (key c)).0 (rw (← dirent_compare-key b c) q)))),
)

-- A comparison does not put the first behind the second.
abbrev pub NotAfter : (Dirent → Dirent → ℤ) → Dirent → Dirent → Type 0
NotAfter cmp a b = is_pos (cmp a b) ≡ false

abbrev pub IsSorted : (Dirent → Dirent → ℤ) → List Dirent → Type 0
IsSorted cmp = Pairwise (NotAfter cmp)

abbrev BeforeAll : Dirent → List Dirent → Type 0
BeforeAll a [] = Unit {0}
BeforeAll a (b ∷ l) = Before a b × BeforeAll a l

-- Each entry is before all that follow.
abbrev pub InOrder : List Dirent → Type 0
InOrder [] = Unit {0}
InOrder (a ∷ l) = BeforeAll a l × InOrder l

Before-NotAfter : (a b : Dirent) → Before a b → NotAfter dirent_compare a b
Before-NotAfter a b h =
    rw (dirent_compare-key a b) ((strcmp-Upto (key a) (key b)).1 (Before-keys a b h))

BeforeAll-NotAfter :
    (a : Dirent) (l : List Dirent)
    → BeforeAll a l
    → (b : Dirent) → Mem b l
    → NotAfter dirent_compare a b
BeforeAll-NotAfter a [] h = λ b m. absurd (not-mem-nil m)
BeforeAll-NotAfter a (d ∷ l) h =
    (forall_mem-cons λ x. hlevel).1 (Before-NotAfter a d h.0, BeforeAll-NotAfter a l h.1)

-- The order of `dirent_compare` is the one that `Before` states.
pub InOrder-IsSorted : (l : List Dirent) → InOrder l → IsSorted dirent_compare l
InOrder-IsSorted [] h = Pairwise.nil
InOrder-IsSorted (a ∷ l) h = Pairwise.cons (BeforeAll-NotAfter a l h.0) (InOrder-IsSorted l h.1)

-- The same of the keys.
abbrev Ordered : List (List ℕ) → Type 0
Ordered = Pairwise λ s t. is_pos (strcmp s t) ≡ false

-- A first text is at most every text of the list.
heads-Upto :
    {s t : List ℕ} {l r : List (List ℕ)} → Ordered (s ∷ l) → Perm (t ∷ r) (s ∷ l) → Upto s t
heads-Upto {s} {t} (Pairwise.cons h _) p = (strcmp-Upto s t).0 (
    (forall_mem-cons λ x. hlevel).1 ((strcmp-Upto s s).1 (Upto-refl s), h) t
      ((Perm.mem_iff p).0 mem-cons_self))

-- There is one way to order the texts of a list.
Ordered-unique : {l r : List (List ℕ)} → Ordered l → Ordered r → Perm l r → l ≡ r
Ordered-unique {l = []} _ _ p = Perm.nil-eq p
Ordered-unique {l = s ∷ l} {r = []} _ _ p = Perm.eq-nil p
Ordered-unique {l = s ∷ l} {r = t ∷ r} h k p =
    let same = Upto-antisymm s t (heads-Upto h (Perm.symm p)) (heads-Upto k p) in
    let rest = Perm.cons_inv (Perm.trans p (Perm.symm (Perm.cons' same Perm.rfl))) in
    ap₂ ◌∷◌ same (Ordered-unique {l = l} (Pairwise.of_cons h) (Pairwise.of_cons k) rest)

keys-Ordered : {l : List Dirent} → IsSorted dirent_compare l → Ordered (map key l)
keys-Ordered h = Pairwise.map (λ s t. hlevel) key (λ a b q. rw (← dirent_compare-key a b) q) h

abbrev pub names : List Dirent → List (List ℕ)
names = map λ e. e.d_name

abbrev behind_rank : List ℕ → List ℕ
behind_rank [] = []
behind_rank (c ∷ s) = s

names-keys : (l : List Dirent) → map behind_rank (map key l) ≡ names l
names-keys [] = refl
names-keys (e ∷ l) = ap (◌∷◌ e.d_name) (names-keys l)

-- Two sorted arrays of the same entries have the same names in the same order.
pub IsSorted-names :
    {l r : List Dirent}
    → IsSorted dirent_compare l
    → IsSorted dirent_compare r
    → Perm l r
    → names l ≡ names r
IsSorted-names {l} {r} h k p =
    sym (names-keys l)
    ∙ ap (map behind_rank) (Ordered-unique (keys-Ordered h) (keys-Ordered k) (Perm.map key p))
    ∙ names-keys r
