-- ===== src/Tests/Order.antt =====
-- Lab2/202110421_assign2/dirtree.c: a stand-in for `qsort`.
use mathlib.Core.List.{Perm, Pairwise, Pairwise-singleton, forall_mem-cons}
use mathlib.Core.List.Perm
use system_programming.Base.{
  ◌≡◌, refl, sym, ◌∙◌, true, false, List, [], ◌∷◌, inl, inr, Bool-cases, if◌then◌else◌,
}
use system_programming.Base.Int.{ℤ, pos, negsuc, is_neg, is_pos}
use system_programming.Dirtree.Sys.{Dirent}
use system_programming.Dirtree.Entries.Order.{Consistent, NotAfter, IsSorted}
use system_programming.Dirtree.Walk.Sorted.{Documented}

unfoldable pub insert : (Dirent → Dirent → ℤ) → Dirent → List Dirent → List Dirent
insert cmp e [] = e ∷ []
insert cmp e (d ∷ ds) =
    let behind = d ∷ insert cmp e ds in if is_pos (cmp e d) then behind else e ∷ d ∷ ds

unfoldable pub insertion_sort : (Dirent → Dirent → ℤ) → List Dirent → List Dirent
unfolding insert
insertion_sort cmp [] = []
insertion_sort cmp (e ∷ es) = insert cmp e (insertion_sort cmp es)

module _ (cmp : Dirent → Dirent → ℤ) (consistent : Consistent cmp) where
  insert-Perm : (e : Dirent) (ds : List Dirent) → Perm (insert cmp e ds) (e ∷ ds)
  unfolding insert
  insert-Perm e [] = Perm.rfl
  insert-Perm e (d ∷ ds) = elim (Bool-cases (is_pos (cmp e d))) [
    | inl b ↦ rw b (Perm.trans (Perm.cons d (insert-Perm e ds)) (Perm.swap e d ds))
    | inr b ↦ rw b Perm.rfl
  ]

  positive-not : (z : ℤ) → is_pos z ≡ true → is_neg z ≡ false
  positive-not (pos n) e = refl
  positive-not (negsuc n) e = absurd cc

  swapped : (a b : Dirent) → is_pos (cmp a b) ≡ true → NotAfter cmp b a
  swapped a b e = sym (consistent.0 a b) ∙ positive-not (cmp a b) e

  insert-IsSorted :
      (e : Dirent) (ds : List Dirent) → IsSorted cmp ds → IsSorted cmp (insert cmp e ds)
  unfolding insert
  insert-IsSorted e [] h = Pairwise-singleton _ e
  insert-IsSorted e (d ∷ ds) (Pairwise.cons h k) = elim (Bool-cases (is_pos (cmp e d))) [
    | inl b ↦ rw b (
        Pairwise.cons
          (λ x m.
            (forall_mem-cons λ y. hlevel).1 (swapped e d b, h) x
              ((Perm.mem_iff (insert-Perm e ds)).0 m))
          (insert-IsSorted e ds k))
    | inr b ↦ rw b (
        Pairwise.cons ((forall_mem-cons λ y. hlevel).1 (b, λ x m. consistent.1 e d x b (h x m)))
          (Pairwise.cons h k))
  ]

  insertion_sort-both :
      (es : List Dirent) → Perm (insertion_sort cmp es) es × IsSorted cmp (insertion_sort cmp es)
  unfolding insertion_sort
  insertion_sort-both [] = (Perm.rfl, Pairwise.nil)
  insertion_sort-both (e ∷ es) =
      let (p, h) = insertion_sort-both es in
      (
        Perm.trans (insert-Perm e (insertion_sort cmp es)) (Perm.cons e p),
        insert-IsSorted e (insertion_sort cmp es) h,
      )

pub insertion_sort-Documented : Documented insertion_sort
insertion_sort-Documented cmp consistent list = insertion_sort-both cmp consistent list
