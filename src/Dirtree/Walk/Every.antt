-- ===== src/Dirtree/Walk/Every.antt =====
-- Lab2/202110421_assign2/dirtree.c: all that is below a directory, without the limit on the length of a path.
use system_programming.Base.{
  ℕ, zero, suc, ◌+◌, ◌≡◌, refl, sym, ◌∙◌, ap, true, false, ◌&&◌, some, List, [], ◌∷◌, ltb,
  Bool-cases, inl, inr, length,
}
use system_programming.Dirtree.Sys.{
  Sys, Dirent, Opendir, open_failed, opened, Lstat, stat_failed, found,
}
use system_programming.Dirtree.Entries.{joined, make_child_path}
use system_programming.Dirtree.Walk.{is_directory, max_path_len}
use system_programming.Dirtree.Walk.Forest.{
  Forest, end, leaf, node, sorted_entries, unopened, forest_of, forest, forest-failed, forest-node,
  forest-leaf, forest-unopened, forest-opened,
}
use system_programming.Dirtree.Walk.Search.{Short, ShortIn}

module _ (sys : Sys) (max_depth : ℕ) where
  -- Each entry that `lstat` finds at its path, however long that is.
  pub every_of : (List ℕ → Forest) → List ℕ → ℕ → List Dirent → Forest
  every_of below dn depth [] = end
  every_of below dn depth (e ∷ es) = elim (sys.lstat (joined dn e.d_name)) [
    | stat_failed errno ↦ every_of below dn depth es
    | found st ↦ elim (is_directory st && ltb depth max_depth) [
      | true ↦ node e.d_name st (below (joined dn e.d_name)) (every_of below dn depth es)
      | false ↦ leaf e.d_name st (every_of below dn depth es)
    ]
  ]

  -- The entries of a directory that can be opened, and those below, for so many levels.
  pub every : ℕ → List ℕ → ℕ → Forest
  every zero dn depth = end
  every (suc levels) dn depth = elim (sys.opendir dn) [
    | open_failed errno ↦ unopened errno
    | opened dir ↦
        every_of (λ path. every levels path (depth + 1)) dn depth (sorted_entries sys dir)
  ]

make_child_path-joined :
    (n : ℕ) (dn name path : List ℕ)
    → make_child_path n dn name ≡ some path
    → make_child_path n dn name ≡ some (joined dn name)
unfolding make_child_path
make_child_path-joined n dn name path p = elim (Bool-cases (ltb (length (joined dn name)) n)) [
  | inl e ↦ rw e refl
  | inr e ↦ absurd (cc (rw e at p))
]

module _ (sys : Sys) (max_depth : ℕ) where
  module _ (below : List ℕ → Forest) (dn : List ℕ) (depth : ℕ) where
    forest_of-every_of :
        (l : List Dirent)
        → Short dn l
        → forest_of sys max_depth below dn depth l ≡ every_of sys max_depth below dn depth l
    unfolding forest_of every_of
    forest_of-every_of [] short = refl
    forest_of-every_of (e ∷ es) ((path, p), short) =
        by_stat (forest_of-every_of es short) (sys.lstat at) refl
      where
        at : List ℕ
        at = joined dn e.d_name

        by_stat :
            forest_of sys max_depth below dn depth es ≡ every_of sys max_depth below dn depth es
            → (s : Lstat) → sys.lstat at ≡ s
            → forest_of sys max_depth below dn depth (e ∷ es)
              ≡ every_of sys max_depth below dn depth (e ∷ es)
        by_stat rest (stat_failed errno) l =
            forest-failed sys max_depth below dn depth e es at
              (make_child_path-joined max_path_len dn e.d_name path p) errno l
            ∙ rest
            ∙ sym (rw (every_of, l) refl)
        by_stat rest (found st) l = elim (Bool-cases (is_directory st && ltb depth max_depth)) [
          | inl d ↦
              forest-node sys max_depth below dn depth e es at
                (make_child_path-joined max_path_len dn e.d_name path p) st l d
              ∙ ap (node e.d_name st (below at)) rest
              ∙ sym (rw (every_of, l, d) refl)
          | inr d ↦
              forest-leaf sys max_depth below dn depth e es at
                (make_child_path-joined max_path_len dn e.d_name path p) st l d
              ∙ ap (leaf e.d_name st) rest
              ∙ sym (rw (every_of, l, d) refl)
        ]

  -- Where no path is too long, the forest is that of all entries.
  module _ (short : (dn : List ℕ) → ShortIn sys dn (sys.opendir dn)) where
    pub forest-every :
        (levels : ℕ) (dn : List ℕ) (depth : ℕ)
        → forest sys max_depth levels dn depth ≡ every sys max_depth levels dn depth
    unfolding forest every
    forest-every zero dn depth = refl
    forest-every (suc levels) dn depth =
        by_opening (λ path. forest-every levels path (depth + 1)) (sys.opendir dn) refl (short dn)
      where
        by_opening :
            ((path : List ℕ)
              → forest sys max_depth levels path (depth + 1)
                ≡ every sys max_depth levels path (depth + 1))
            → (r : Opendir) → sys.opendir dn ≡ r
            → ShortIn sys dn r
            → forest sys max_depth (suc levels) dn depth ≡ every sys max_depth (suc levels) dn depth
        by_opening deeper (open_failed errno) o k =
            forest-unopened sys max_depth levels dn depth errno o ∙ sym (rw (every, o) refl)
        by_opening deeper (opened dir) o k =
            forest-opened sys max_depth levels dn depth dir o
            ∙ ap
                (λ (below : List ℕ → Forest).
                  forest_of sys max_depth below dn depth (sorted_entries sys dir))
                (λ t path. deeper path t)
            ∙ forest_of-every_of (λ path. every sys max_depth levels path (depth + 1)) dn depth
                (sorted_entries sys dir) k
            ∙ sym (rw (every, o) refl)
