-- ===== src/Dirtree/Walk/Sorted.antt =====
-- Lab2/202110421_assign2/dirtree.c: the order in which the walk comes to the entries of a directory.
use mathlib.Core.List.{Perm}
use mathlib.Core.List.Perm
use system_programming.Base.{
  ℕ, ◌≡◌, refl, sym, ◌∙◌, ap, true, false, ◌&&◌, none, some, List, [], ◌∷◌, ltb,
}
use system_programming.Base.Int.{ℤ}
use system_programming.Dirtree.Sys.{Sys, Dirent, Listing, stat_failed, found}
use system_programming.Dirtree.Entries.{dirent_compare, make_child_path}
use system_programming.Dirtree.Entries.Reading.{real_entries}
use system_programming.Dirtree.Entries.Order.{
  InOrder, InOrder-IsSorted, Consistent, IsSorted, names, dirent_compare-Consistent, IsSorted-names,
}
use system_programming.Dirtree.Walk.{is_directory, max_path_len}
use system_programming.Dirtree.Walk.Forest.{Forest, end, leaf, node, sorted_entries, forest_of}

-- What `qsort` promises: with a comparison that it accepts, the array holds the same entries, in order.
abbrev pub Documented : ((Dirent → Dirent → ℤ) → List Dirent → List Dirent) → Type 0
Documented qsort =
    (cmp : Dirent → Dirent → ℤ)
    → Consistent cmp
    → (list : List Dirent) → Perm (qsort cmp list) list × IsSorted cmp (qsort cmp list)

module _ (sys : Sys) (max_depth : ℕ) (below : List ℕ → Forest) (dn : List ℕ) (depth : ℕ) where
  -- An entry of this name in front of others.
  abbrev in_front : List ℕ → Forest → Forest
  in_front name others = elim (make_child_path max_path_len dn name) [
    | none ↦ end
    | some path ↦ elim (sys.lstat path) [
      | stat_failed errno ↦ others
      | found st ↦ elim (is_directory st && ltb depth max_depth) [
        | true ↦ node name st (below path) others
        | false ↦ leaf name st others
      ]
    ]
  ]

  -- The forest by the names alone.
  named : List (List ℕ) → Forest
  named [] = end
  named (name ∷ more) = in_front name (named more)

  forest_of-named : (l : List Dirent) → forest_of sys max_depth below dn depth l ≡ named (names l)
  unfolding forest_of named
  forest_of-named [] = refl
  forest_of-named (e ∷ es) = ap (in_front e.d_name) (forest_of-named es)

  -- With any `qsort` that keeps its promise, and in whatever order the entries of a directory are read, the
  -- walk sees them as in an array `l` of these entries that has the directories first, and the directories as
  -- well as the others in the order of their names by bytes.
  pub forest_of-sorted_entries :
      (dir : Listing) (l : List Dirent)
      → Documented sys.qsort
      → Perm l (real_entries dir)
      → InOrder l
      → forest_of sys max_depth below dn depth (sorted_entries sys dir)
        ≡ forest_of sys max_depth below dn depth l
  unfolding sorted_entries
  forest_of-sorted_entries dir l documented p h =
      let (q, k) = documented dirent_compare dirent_compare-Consistent (real_entries dir) in
      forest_of-named (sorted_entries sys dir)
      ∙ ap named (IsSorted-names k (InOrder-IsSorted l h) (Perm.trans q (Perm.symm p)))
      ∙ sym (forest_of-named l)
