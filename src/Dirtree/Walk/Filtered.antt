-- ===== src/Dirtree/Walk/Filtered.antt =====
-- Lab2/202110421_assign2/dirtree.c: the loop of `process_dir` with the filter: what it prints and counts.
use system_programming.Base.{
  ℕ, ◌+◌, ◌<◌, ◌≡◌, refl, ◌∙◌, ap, Bool, true, false, ◌&&◌, ◌||◌, Option, none, some, List, [], ◌∷◌,
  ◌++◌, ltb, if◌then◌else◌, inl, inr, Bool-cases, arith,
}
use system_programming.Base.Int.{ℤ}
use system_programming.Dirtree.Sys.{
  Sys, Errno, eacces, enoent, another, Dirent, Lstat, stat_failed, found,
}
use system_programming.Dirtree.Entries.{make_child_path}
use system_programming.Dirtree.Summary.{Stat}
use system_programming.Dirtree.Match.{entry_matches_filter}
use system_programming.Dirtree.Walk.{
  World, Ending, back, then_do, is_directory, max_path_len, denied, show_directory,
  filtered_entries,
}
use system_programming.Dirtree.Walk.Forest.{
  Forest, end, leaf, node, forest_of, has_match, matching, directory_line, filtered_lines,
  forest-long, forest-failed, forest-node, forest-leaf,
}
use system_programming.Dirtree.Walk.Search.{Answers}
use system_programming.Dirtree.Walk.Walked.{
  Walked, back-Walked, same-Walked, then-Walked, quiet-Walked,
}
use system_programming.Dirtree.Walk.Rounds.{
  show_directory-Walked, filtered, filtered-long, filtered-failed, filtered-file, filtered-deepest,
  filtered-node,
}

module _ (sys : Sys) (pattern : List ℕ) (max_depth : ℕ) (matches : List ℕ → Bool)
    (decides : (name : List ℕ) → entry_matches_filter name true pattern ≡ some (matches name)) where
  module _ (search : List ℕ → World → Ending Bool) (recurse : List ℕ → World → Ending ℤ)
      (below : List ℕ → Forest) (dn : List ℕ) (depth : ℕ)
      (search-Answers : (path : List ℕ) (w : World)
        → depth < max_depth
        → Answers (search path w) w (has_match matches (below path)))
      (recurse-Walked : (path : List ℕ) (w : World)
        → depth < max_depth
        → Walked
            (recurse path w)
            w
            (matching matches (below path))
            (filtered_lines matches sys (depth + 1) (below path))) where
    abbrev onward : List Dirent → Forest
    onward = forest_of sys max_depth below dn depth

    abbrev loop : Bool → List Dirent → World → Ending ℤ
    loop = filtered sys pattern max_depth matches decides search recurse below dn depth

    abbrev Shows : Bool → List Dirent → World → Type 0
    Shows any es w =
        Walked (loop any es w) w (matching matches (onward es))
          (filtered_lines matches sys depth (onward es))

    abbrev printed : Bool → Bool → List ℕ → ℕ → Stat → World → World
    printed = show_directory sys true pattern max_depth

    abbrev counted : Bool → Stat → List Stat → List Stat
    counted m st more = if m then st ∷ more else more

    module _ (any : Bool) (e : Dirent) (es : List Dirent) (w : World)
        (later : (any' : Bool) (w' : World) → Shows any' es w') where
      same-Shows :
          (f : Forest)
          → onward (e ∷ es) ≡ f
          → {o : Ending ℤ} {sts : List Stat} {bytes : List ℕ} → loop any (e ∷ es) w ≡ o
          → matching matches f ≡ sts
          → filtered_lines matches sys depth f ≡ bytes
          → Walked o w sts bytes
          → Shows any (e ∷ es) w
      same-Shows f q p s l h =
          same-Walked p (ap (matching matches) q ∙ s) (ap (filtered_lines matches sys depth) q ∙ l)
            h

      module _ (path : List ℕ) (p : make_child_path max_path_len dn e.d_name ≡ some path) where
        denied-Shows :
            (errno : Errno)
            → Walked
                (loop any es (denied errno depth w))
                w
                (matching matches (onward es))
                (filtered_lines matches sys depth (onward es))
        denied-Shows eacces = quiet-Walked w refl refl (later any _)
        denied-Shows enoent = later any w
        denied-Shows another = later any w

        module _ (st : Stat) (l : sys.lstat path ≡ found st) (m : Bool)
            (q : matches e.d_name ≡ m) where
          -- The entry is not entered, whether it is a directory or not.
          leaf-Shows :
              (any' : Bool)
              → (is_directory st && ltb depth max_depth) ≡ false
              → loop any (e ∷ es) w ≡ loop any' es (printed m false e.d_name depth st w)
              → Shows any (e ∷ es) w
          unfolding matching filtered_lines
          leaf-Shows any' d step =
              same-Shows (leaf e.d_name st (onward es))
                (forest-leaf sys max_depth below dn depth e es path p st l d) step
                (ap (λ b. counted b st (matching matches (onward es))) q)
                (ap
                  (λ b.
                    directory_line matches sys e.d_name depth st b false
                    ++ filtered_lines matches sys depth (onward es))
                  q)
                (show_directory-Walked sys pattern max_depth matches decides m false e.d_name depth
                  st w (later any' _))

          -- Behind the search: the line of the directory, what is in it, and what follows it.
          node-Walked :
              (found_below : Bool) (w₁ : World)
              → depth < max_depth
              → Walked
                  (then_do
                    (recurse path (printed m found_below e.d_name depth st w₁))
                    λ w₃ r. loop (any || m || found_below) es w₃)
                  w₁
                  (counted m st (matching matches (below path) ++ matching matches (onward es)))
                  (directory_line matches sys e.d_name depth st m found_below
                    ++ (filtered_lines matches sys (depth + 1) (below path)
                        ++ filtered_lines matches sys depth (onward es)))
          node-Walked found_below w₁ deeper =
              show_directory-Walked sys pattern max_depth matches decides m found_below e.d_name
                depth st w₁
                (then-Walked (λ w₃ r. loop (any || m || found_below) es w₃)
                  (recurse-Walked path _ deeper) (λ w₃ r. later (any || m || found_below) w₃))

        module _ (st : Stat) (l : sys.lstat path ≡ found st) where
          node-Shows :
              (m : Bool)
              → matches e.d_name ≡ m
              → is_directory st ≡ true
              → ltb depth max_depth ≡ true
              → Shows any (e ∷ es) w
          unfolding matching filtered_lines
          node-Shows m q d b =
              same-Shows (node e.d_name st (below path) (onward es))
                (forest-node sys max_depth below dn depth e es path p st l (rw (d, b) refl))
                (filtered-node sys pattern max_depth matches decides search recurse below dn depth
                  any e es w path p st l m q d b)
                (ap
                  (λ b.
                    counted b st (matching matches (below path) ++ matching matches (onward es)))
                  q)
                (ap
                  (λ b.
                    directory_line matches sys e.d_name depth st b (has_match matches (below path))
                    ++ (filtered_lines matches sys (depth + 1) (below path)
                        ++ filtered_lines matches sys depth (onward es)))
                  q)
                (by_self m q)
            where
              by_self :
                  (m : Bool)
                  → matches e.d_name ≡ m
                  → Walked
                      (then_do (if m then back w false else search path w) λ w₁ found_below.
                        then_do
                          (recurse path (printed m found_below e.d_name depth st w₁))
                          λ w₃ r. loop (any || m || found_below) es w₃)
                      w
                      (counted m st (matching matches (below path) ++ matching matches (onward es)))
                      (directory_line matches sys e.d_name depth st m
                          (has_match matches (below path))
                        ++ (filtered_lines matches sys (depth + 1) (below path)
                            ++ filtered_lines matches sys depth (onward es)))
              by_self true q = node-Walked st l true q false w (ground (arith, b))
              by_self false q =
                  let a = search-Answers path w (ground (arith, b)) in
                  same-Walked
                    (ap
                      (λ z. then_do z λ w₁ found_below.
                        then_do (recurse path (printed false found_below e.d_name depth st w₁))
                          λ w₃ r. loop (any || false || found_below) es w₃)
                      a.returns)
                    refl refl
                    (quiet-Walked w a.stats a.out (
                      node-Walked st l false q (has_match matches (below path)) a.after
                        (ground (arith, b))))

          entry-Shows : Shows any (e ∷ es) w
          entry-Shows = elim (Bool-cases (is_directory st)) [
            | inr d ↦
                leaf-Shows st l (matches e.d_name) refl (any || matches e.d_name) (rw d refl) (
                  filtered-file sys pattern max_depth matches decides search recurse below dn depth
                    any e es w path p st l (matches e.d_name) refl d)
            | inl d ↦ elim (Bool-cases (ltb depth max_depth)) [
              | inl b ↦ node-Shows (matches e.d_name) refl d b
              | inr b ↦
                  leaf-Shows st l (matches e.d_name) refl (any || matches e.d_name || false)
                    (rw (d, b) refl)
                    (filtered-deepest sys pattern max_depth matches decides search recurse below dn
                      depth any e es w path p st l (matches e.d_name) refl d b)
            ]
          ]

    pub filtered-Walked : (any : Bool) (es : List Dirent) (w : World) → Shows any es w
    unfolding filtered_entries forest_of matching filtered_lines
    filtered-Walked any [] w = back-Walked
    filtered-Walked any (e ∷ es) w =
        by_path (λ any' w'. filtered-Walked any' es w') (make_child_path max_path_len dn e.d_name)
          refl
      where
        by_path :
            ((any' : Bool) (w' : World) → Shows any' es w')
            → (o : Option (List ℕ)) → make_child_path max_path_len dn e.d_name ≡ o
            → Shows any (e ∷ es) w
        by_path later none p =
            same-Shows any e es w later end (forest-long sys max_depth below dn depth e es p)
              (filtered-long sys pattern max_depth matches decides search recurse below dn depth any
                e es w p)
              refl refl back-Walked
        by_path later (some path) p = by_stat (sys.lstat path) refl
          where
            by_stat : (s : Lstat) → sys.lstat path ≡ s → Shows any (e ∷ es) w
            by_stat (stat_failed errno) l =
                same-Shows any e es w later (onward es)
                  (forest-failed sys max_depth below dn depth e es path p errno l)
                  (filtered-failed sys pattern max_depth matches decides search recurse below dn
                    depth any e es w path p errno l)
                  refl refl (denied-Shows any e es w later path p errno)
            by_stat (found st) l = entry-Shows any e es w later path p st l
