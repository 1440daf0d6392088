-- ===== src/Dirtree/Walk/Plain.antt =====
-- Lab2/202110421_assign2/dirtree.c: what `process_dir` prints and counts without the filter.
use system_programming.Base.{
  ℕ, zero, suc, ◌+◌, ◌≤◌, ◌<◌, ◌≡◌, refl, ◌∙◌, ap, true, false, ◌&&◌, Option, none, some, List, [],
  ◌∷◌, ltb, inl, inr, Bool-cases, arith,
}
use system_programming.Base.Int.{ℤ, pos, minus_one}
use system_programming.Dirtree.Sys.{
  Sys, Errno, Dirent, Listing, Opendir, open_failed, opened, Lstat, stat_failed, found,
}
use system_programming.Dirtree.Entries.{make_child_path}
use system_programming.Dirtree.Entries.Reading.{ends_badly}
use system_programming.Dirtree.Summary.{Stat}
use system_programming.Dirtree.Walk.{
  perror_lstat, World, Ending, back, then_do, complain, is_directory, max_path_len, with_entries,
  show_entry, plain_entries, cannot_open, process_dir,
}
use system_programming.Dirtree.Walk.Forest.{
  Forest, end, leaf, node, sorted_entries, forest_of, unopened, forest, stats_of, lines_of,
  forest-unopened, forest-opened, with_entries-sorted, forest-long, forest-failed, forest-node,
  forest-leaf,
}
use system_programming.Dirtree.Walk.Walked.{
  Walked, back-Walked, same-Walked, then-Walked, quiet-Walked, show-Walked, reported-Walked,
  cannot_open-Walked,
}

module _ (sys : Sys) (pattern : List ℕ) (max_depth : ℕ) where
  module _ (recurse : List ℕ → World → Ending ℤ) (below : List ℕ → Forest) (dn : List ℕ)
      (depth : ℕ) where
    abbrev plain : List Dirent → World → Ending ℤ
    plain = plain_entries sys false pattern max_depth recurse dn depth

    abbrev onward : List Dirent → Forest
    onward = forest_of sys max_depth below dn depth

    -- The loop by its first entry.
    module _ (e : Dirent) (es : List Dirent) (w : World) where
      plain-long :
          make_child_path max_path_len dn e.d_name ≡ none → plain (e ∷ es) w ≡ back w minus_one
      unfolding plain_entries
      plain-long p = rw (plain_entries, p) refl

      module _ (path : List ℕ) (p : make_child_path max_path_len dn e.d_name ≡ some path) where
        plain-failed :
            (errno : Errno)
            → sys.lstat path ≡ stat_failed errno
            → plain (e ∷ es) w ≡ plain es (complain w perror_lstat)
        unfolding plain_entries
        plain-failed errno l = rw (plain_entries, p, l) refl

        module _ (st : Stat) (l : sys.lstat path ≡ found st) where
          abbrev shown : World
          shown = show_entry sys false pattern max_depth e.d_name depth st w

          plain-leaf :
              (is_directory st && ltb depth max_depth) ≡ false → plain (e ∷ es) w ≡ plain es shown
          unfolding plain_entries
          plain-leaf d = rw (plain_entries, p, l, d) refl

          plain-node :
              (is_directory st && ltb depth max_depth) ≡ true
              → plain (e ∷ es) w ≡ then_do (recurse path shown) (λ w' r. plain es w')
          unfolding plain_entries
          plain-node d = rw (plain_entries, p, l, d) refl

    module _
        (recurse-Walked : (path : List ℕ) (w : World)
          → depth < max_depth
          → Walked
              (recurse path w)
              w
              (stats_of (below path))
              (lines_of sys (depth + 1) (below path))) where
      abbrev Shows : List Dirent → World → Type 0
      Shows es w = Walked (plain es w) w (stats_of (onward es)) (lines_of sys depth (onward es))

      plain-Walked : (es : List Dirent) (w : World) → Shows es w
      unfolding plain_entries forest_of stats_of lines_of
      plain-Walked [] w = back-Walked
      plain-Walked (e ∷ es) w =
          by_path (plain-Walked es) (make_child_path max_path_len dn e.d_name) refl
        where
          same-Shows :
              (f : Forest)
              → onward (e ∷ es) ≡ f
              → {o : Ending ℤ} → plain (e ∷ es) w ≡ o
              → Walked o w (stats_of f) (lines_of sys depth f)
              → Shows (e ∷ es) w
          same-Shows f q p h = same-Walked p (ap stats_of q) (ap (lines_of sys depth) q) h

          by_stat :
              ((w' : World) → Shows es w')
              → (path : List ℕ) → make_child_path max_path_len dn e.d_name ≡ some path
              → (s : Lstat) → sys.lstat path ≡ s
              → Shows (e ∷ es) w
          by_stat later path p (stat_failed errno) l =
              same-Shows (onward es)
                (forest-failed sys max_depth below dn depth e es path p errno l)
                (plain-failed e es w path p errno l)
                (quiet-Walked w refl refl (later (complain w perror_lstat)))
          by_stat later path p (found st) l =
              let w₁ = shown e es w path p st l in
              elim (Bool-cases (is_directory st && ltb depth max_depth)) [
                | inl d ↦
                    same-Shows (node e.d_name st (below path) (onward es))
                      (forest-node sys max_depth below dn depth e es path p st l d)
                      (plain-node e es w path p st l d)
                      (show-Walked sys false pattern max_depth e.d_name depth st w (
                        then-Walked (λ w' r. plain es w')
                          (recurse-Walked path w₁ (ground (arith, d))) (λ w' r. later w')))
                | inr d ↦
                    same-Shows (leaf e.d_name st (onward es))
                      (forest-leaf sys max_depth below dn depth e es path p st l d)
                      (plain-leaf e es w path p st l d)
                      (show-Walked sys false pattern max_depth e.d_name depth st w (later w₁))
              ]

          by_path :
              ((w' : World) → Shows es w')
              → (o : Option (List ℕ)) → make_child_path max_path_len dn e.d_name ≡ o
              → Shows (e ∷ es) w
          by_path later none p =
              same-Shows end (forest-long sys max_depth below dn depth e es p) (plain-long e es w p)
                back-Walked
          by_path later (some path) p = by_stat later path p (sys.lstat path) refl

  -- A call by what `opendir` says.
  module _ (fuel : ℕ) (dn : List ℕ) (depth : ℕ) (w : World) where
    process-failed :
        (errno : Errno)
        → sys.opendir dn ≡ open_failed errno
        → process_dir sys false pattern max_depth (suc fuel) dn depth w
          ≡ back (cannot_open errno depth w) (pos 0)
    unfolding process_dir
    process-failed errno o = rw (process_dir, o) refl

    process-opened :
        (dir : Listing)
        → sys.opendir dn ≡ opened dir
        → process_dir sys false pattern max_depth (suc fuel) dn depth w
          ≡ with_entries sys dir w (
              plain
                (λ path. process_dir sys false pattern max_depth fuel path (depth + 1))
                (λ path. end)
                dn
                depth)
    unfolding process_dir
    process-opened dir o = rw (process_dir, o) refl

  module _ (room : (n : ℕ) → sys.realloc n ≡ true) where
    -- Without the filter, and with fuel for each level, the walk comes back, has counted each entry of the
    -- forest, and has printed a line for each.
    pub process_dir-Walked :
        (fuel : ℕ) (dn : List ℕ) (depth : ℕ) (w : World)
        → depth ≤ max_depth
        → max_depth < fuel + depth
        → Walked
            (process_dir sys false pattern max_depth fuel dn depth w)
            w
            (stats_of (forest sys max_depth fuel dn depth))
            (lines_of sys depth (forest sys max_depth fuel dn depth))
    unfolding stats_of lines_of
    process_dir-Walked zero dn depth w low enough = absurd (omega (arith, low, enough))
    process_dir-Walked (suc fuel) dn depth w low enough =
        by_opening
          (λ path w' deeper.
            process_dir-Walked fuel path (depth + 1) w' (omega (arith, deeper))
              (omega (arith, enough)))
          (sys.opendir dn) refl
      where
        same-Shows :
            (f : Forest)
            → forest sys max_depth (suc fuel) dn depth ≡ f
            → {o : Ending ℤ} → process_dir sys false pattern max_depth (suc fuel) dn depth w ≡ o
            → Walked o w (stats_of f) (lines_of sys depth f)
            → Walked
                (process_dir sys false pattern max_depth (suc fuel) dn depth w)
                w
                (stats_of (forest sys max_depth (suc fuel) dn depth))
                (lines_of sys depth (forest sys max_depth (suc fuel) dn depth))
        same-Shows f q p h = same-Walked p (ap stats_of q) (ap (lines_of sys depth) q) h

        by_opening :
            ((path : List ℕ) (w' : World)
              → depth < max_depth
              → Walked
                  (process_dir sys false pattern max_depth fuel path (depth + 1) w')
                  w'
                  (stats_of (forest sys max_depth fuel path (depth + 1)))
                  (lines_of sys (depth + 1) (forest sys max_depth fuel path (depth + 1))))
            → (r : Opendir) → sys.opendir dn ≡ r
            → Walked
                (process_dir sys false pattern max_depth (suc fuel) dn depth w)
                w
                (stats_of (forest sys max_depth (suc fuel) dn depth))
                (lines_of sys depth (forest sys max_depth (suc fuel) dn depth))
        by_opening deeper (open_failed errno) o =
            same-Shows (unopened errno) (forest-unopened sys max_depth fuel dn depth errno o)
              (process-failed fuel dn depth w errno o)
              (cannot_open-Walked errno depth w stats_of (lines_of sys depth) refl refl refl refl)
        by_opening deeper (opened dir) o =
            same-Shows _ (forest-opened sys max_depth fuel dn depth dir o)
              (process-opened fuel dn depth w dir o ∙ with_entries-sorted sys room dir w _)
              (reported-Walked (ends_badly dir) w
                (plain-Walked _ _ dn depth deeper (sorted_entries sys dir) _))
