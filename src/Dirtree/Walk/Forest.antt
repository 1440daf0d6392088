-- ===== src/Dirtree/Walk/Forest.antt =====
-- Lab2/202110421_assign2/dirtree.c: the file system below a directory, as far as the walk sees it, and what
-- is to be shown of it. No state, and no output on the way.
use system_programming.Base.{
  ℕ, zero, suc, ◌+◌, ◌≡◌, refl, Bool, true, false, ◌&&◌, ◌||◌, none, some, List, [], ◌∷◌, ◌++◌, ltb,
  if◌then◌else◌, arith,
}
use system_programming.Dirtree.Sys.{
  Sys, Errno, eacces, enoent, another, Dirent, Listing, open_failed, opened, stat_failed, found,
}
use system_programming.Dirtree.Entries.{dirent_compare, make_child_path, calls}
use system_programming.Dirtree.Entries.Reading.{real_entries, ends_badly, read_entries-real_entries}
use system_programming.Dirtree.Summary.{Stat}
use system_programming.Dirtree.Print.{
  end_of_line, print_missing_path_line, print_entry_line, name_column,
}
use system_programming.Dirtree.Walk.{
  perror_readdir, World, Ending, complain, is_directory, max_path_len, with_entries,
}

-- The entries of a directory: `leaf` is one that is not entered, `node` one that is, with what is in it.
-- `missing` is a directory that was there and cannot be found any more.
pub data Forest : Type 0 where
  end : Forest
  missing : Forest
  leaf : List ℕ → Stat → Forest → Forest
  node : List ℕ → Stat → Forest → Forest → Forest

-- The entries that `qsort` has sorted.
unfoldable pub sorted_entries : Sys → Listing → List Dirent
sorted_entries sys dir = sys.qsort dirent_compare (real_entries dir)

abbrev pub unopened : Errno → Forest
unopened eacces = end
unopened enoent = missing
unopened another = end

module _ (sys : Sys) (max_depth : ℕ) where
  -- An entry whose path is too long ends the list.
  unfoldable pub forest_of : (List ℕ → Forest) → List ℕ → ℕ → List Dirent → Forest
  forest_of below dn depth [] = end
  forest_of below dn depth (e ∷ es) = elim (make_child_path max_path_len dn e.d_name) [
    | none ↦ end
    | some path ↦ elim (sys.lstat path) [
      | stat_failed errno ↦ forest_of below dn depth es
      | found st ↦ elim (is_directory st && ltb depth max_depth) [
        | true ↦ node e.d_name st (below path) (forest_of below dn depth es)
        | false ↦ leaf e.d_name st (forest_of below dn depth es)
      ]
    ]
  ]

  unfoldable pub forest : ℕ → List ℕ → ℕ → Forest
  forest zero dn depth = end
  forest (suc fuel) dn depth = elim (sys.opendir dn) [
    | open_failed errno ↦ unopened errno
    | opened dir ↦
        forest_of (λ path. forest fuel path (depth + 1)) dn depth (sorted_entries sys dir)
  ]

-- The forest by its first entry.
module _ (sys : Sys) (max_depth : ℕ) (below : List ℕ → Forest) (dn : List ℕ) (depth : ℕ)
    (e : Dirent) (es : List Dirent) where
  pub forest-long :
      make_child_path max_path_len dn e.d_name ≡ none
      → forest_of sys max_depth below dn depth (e ∷ es) ≡ end
  unfolding forest_of
  forest-long p = rw (forest_of, p) refl

  module _ (path : List ℕ) (p : make_child_path max_path_len dn e.d_name ≡ some path) where
    pub forest-failed :
        (errno : Errno)
        → sys.lstat path ≡ stat_failed errno
        → forest_of sys max_depth below dn depth (e ∷ es)
          ≡ forest_of sys max_depth below dn depth es
    unfolding forest_of
    forest-failed errno l = rw (forest_of, p, l) refl

    module _ (st : Stat) (l : sys.lstat path ≡ found st) where
      pub forest-node :
          (is_directory st && ltb depth max_depth) ≡ true
          → forest_of sys max_depth below dn depth (e ∷ es)
            ≡ node e.d_name st (below path) (forest_of sys max_depth below dn depth es)
      unfolding forest_of
      forest-node d = rw (forest_of, p, l, d) refl

      pub forest-leaf :
          (is_directory st && ltb depth max_depth) ≡ false
          → forest_of sys max_depth below dn depth (e ∷ es)
            ≡ leaf e.d_name st (forest_of sys max_depth below dn depth es)
      unfolding forest_of
      forest-leaf d = rw (forest_of, p, l, d) refl

module _ (sys : Sys) (max_depth fuel : ℕ) (dn : List ℕ) (depth : ℕ) where
  pub forest-unopened :
      (errno : Errno)
      → sys.opendir dn ≡ open_failed errno
      → forest sys max_depth (suc fuel) dn depth ≡ unopened errno
  unfolding forest
  forest-unopened errno o = rw (forest, o) refl

  pub forest-opened :
      (dir : Listing)
      → sys.opendir dn ≡ opened dir
      → forest sys max_depth (suc fuel) dn depth
        ≡ forest_of sys max_depth
            (λ path. forest sys max_depth fuel path (depth + 1))
            dn
            depth
            (sorted_entries sys dir)
  unfolding forest
  forest-opened dir o = rw (forest, o) refl

-- All entries, a directory in front of what is in it.
unfoldable pub stats_of : Forest → List Stat
stats_of end = []
stats_of missing = []
stats_of (leaf name st rest) = st ∷ stats_of rest
stats_of (node name st below rest) = st ∷ (stats_of below ++ stats_of rest)

module _ (sys : Sys) where
  -- A line for each of them, indented by its depth.
  unfoldable pub lines_of : ℕ → Forest → List ℕ
  lines_of depth end = []
  lines_of depth missing = print_missing_path_line
  lines_of depth (leaf name st rest) =
      print_entry_line sys (name_column name depth) st ++ lines_of depth rest
  lines_of depth (node name st below rest) =
      print_entry_line sys (name_column name depth) st
      ++ (lines_of (depth + 1) below ++ lines_of depth rest)

module _ (matches : List ℕ → Bool) where
  -- Some entry matches.
  unfoldable pub has_match : Forest → Bool
  has_match end = false
  has_match missing = false
  has_match (leaf name st rest) = matches name || has_match rest
  has_match (node name st below rest) = matches name || (has_match below || has_match rest)

  -- The entries that match.
  unfoldable pub matching : Forest → List Stat
  matching end = []
  matching missing = []
  matching (leaf name st rest) =
      let later = matching rest in if matches name then st ∷ later else later
  matching (node name st below rest) =
      let later = matching below ++ matching rest in if matches name then st ∷ later else later

  module _ (sys : Sys) where
    abbrev pub directory_line : List ℕ → ℕ → Stat → Bool → Bool → List ℕ
    directory_line name depth st true below = print_entry_line sys (name_column name depth) st
    directory_line name depth st false true = name_column name depth ++ end_of_line
    directory_line name depth st false false = []

    -- The entries that match in full, and by name the directories on the way to them.
    unfoldable pub filtered_lines : ℕ → Forest → List ℕ
    filtered_lines depth end = []
    filtered_lines depth missing = print_missing_path_line
    filtered_lines depth (leaf name st rest) =
        directory_line name depth st (matches name) false ++ filtered_lines depth rest
    filtered_lines depth (node name st below rest) =
        directory_line name depth st (matches name) (has_match below)
        ++ (filtered_lines (depth + 1) below ++ filtered_lines depth rest)

module _ {A : Type 0} (sys : Sys) (room : (n : ℕ) → sys.realloc n ≡ true) where
  -- With memory for the array, the loop runs over the sorted entries.
  pub with_entries-sorted :
      (dir : Listing) (w : World) (loop : List Dirent → World → Ending A)
      → with_entries sys dir w loop
        ≡ loop (sorted_entries sys dir) (if ends_badly dir then complain w perror_readdir else w)
  unfolding with_entries sorted_entries
  with_entries-sorted dir w loop =
      rw (read_entries-real_entries sys.realloc room (calls dir) [] dir (omega arith), with_entries)
        refl
