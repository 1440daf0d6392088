-- ===== src/Dirtree/Walk/Rounds.antt =====
-- Lab2/202110421_assign2/dirtree.c: the rounds of the loop of `process_dir` with the filter.
use system_programming.Base.{
  ℕ, ◌≡◌, refl, ◌∙◌, ap, Bool, true, false, ◌||◌, none, some, List, [], ◌∷◌, ◌++◌, ltb,
  if◌then◌else◌,
}
use system_programming.Base.Int.{ℤ, minus_one}
use system_programming.Dirtree.Sys.{Sys, Errno, Dirent, stat_failed, found}
use system_programming.Dirtree.Entries.{make_child_path}
use system_programming.Dirtree.Summary.{Stat, add_entries}
use system_programming.Dirtree.Match.{entry_matches_filter}
use system_programming.Dirtree.Walk.{
  World, Ending, back, then_do, is_directory, max_path_len, denied, show_directory,
  filtered_entries,
}
use system_programming.Dirtree.Walk.Forest.{Forest, directory_line}
use system_programming.Dirtree.Walk.Walked.{Walked, show-Walked, later-Walked}

module _ (sys : Sys) (pattern : List ℕ) (max_depth : ℕ) (matches : List ℕ → Bool)
    (decides : (name : List ℕ) → entry_matches_filter name true pattern ≡ some (matches name)) where
  -- A directory's line is printed, or not, and more follows.
  pub show_directory-Walked :
      (m below : Bool) (name : List ℕ) (depth : ℕ) (st : Stat) (w : World) {o : Ending ℤ}
      {more : List Stat} {rest : List ℕ}
      → Walked o (show_directory sys true pattern max_depth m below name depth st w) more rest
      → Walked o w
          (if m then st ∷ more else more)
          (directory_line matches sys name depth st m below ++ rest)
  unfolding add_entries
  show_directory-Walked true below name depth st w h =
      show-Walked sys true pattern max_depth name depth st w h
  show_directory-Walked false true name depth st w h = later-Walked [] _ refl refl h
  show_directory-Walked false false name depth st w h = h

  module _ (search : List ℕ → World → Ending Bool) (recurse : List ℕ → World → Ending ℤ)
      (below : List ℕ → Forest) (dn : List ℕ) (depth : ℕ) where
    abbrev pub filtered : Bool → List Dirent → World → Ending ℤ
    filtered = filtered_entries sys true pattern max_depth search recurse dn depth

    -- The loop by its first entry.
    module _ (any : Bool) (e : Dirent) (es : List Dirent) (w : World) where
      pub filtered-long :
          make_child_path max_path_len dn e.d_name ≡ none
          → filtered any (e ∷ es) w ≡ back w minus_one
      unfolding filtered_entries
      filtered-long p = rw (filtered_entries, p) refl

      module _ (path : List ℕ) (p : make_child_path max_path_len dn e.d_name ≡ some path) where
        pub filtered-failed :
            (errno : Errno)
            → sys.lstat path ≡ stat_failed errno
            → filtered any (e ∷ es) w ≡ filtered any es (denied errno depth w)
        unfolding filtered_entries
        filtered-failed errno l = rw (filtered_entries, p, l) refl

        module _ (st : Stat) (l : sys.lstat path ≡ found st) where
          -- `show_directory` at this entry.
          abbrev shown : Bool → Bool → World → World
          shown m b = show_directory sys true pattern max_depth m b e.d_name depth st

          pub filtered-file :
              (m : Bool)
              → matches e.d_name ≡ m
              → is_directory st ≡ false
              → filtered any (e ∷ es) w ≡ filtered (any || m) es (shown m false w)
          unfolding filtered_entries
          filtered-file true m d = rw (filtered_entries, p, l, decides e.d_name ∙ ap some m, d) refl
          filtered-file false m d =
              rw (filtered_entries, p, l, decides e.d_name ∙ ap some m, d) refl

          pub filtered-deepest :
              (m : Bool)
              → matches e.d_name ≡ m
              → is_directory st ≡ true
              → ltb depth max_depth ≡ false
              → filtered any (e ∷ es) w ≡ filtered (any || m || false) es (shown m false w)
          unfolding filtered_entries
          filtered-deepest true m d b =
              rw (filtered_entries, p, l, decides e.d_name ∙ ap some m, d, b) refl
          filtered-deepest false m d b =
              rw (filtered_entries, p, l, decides e.d_name ∙ ap some m, d, b) refl

          pub filtered-node :
              (m : Bool)
              → matches e.d_name ≡ m
              → is_directory st ≡ true
              → ltb depth max_depth ≡ true
              → filtered any (e ∷ es) w
                ≡ then_do (if m then back w false else search path w) λ w₁ found_below.
                  then_do
                    (recurse path (shown m found_below w₁))
                    λ w₃ r. filtered (any || m || found_below) es w₃
          unfolding filtered_entries
          filtered-node true m d b =
              rw (filtered_entries, p, l, decides e.d_name ∙ ap some m, d, b) refl
          filtered-node false m d b =
              rw (filtered_entries, p, l, decides e.d_name ∙ ap some m, d, b) refl
