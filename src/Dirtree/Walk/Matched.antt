-- ===== src/Dirtree/Walk/Matched.antt =====
-- Lab2/202110421_assign2/dirtree.c: what `process_dir` prints and counts with the filter.
use system_programming.Base.{
  ℕ, zero, suc, ◌+◌, ◌≤◌, ◌<◌, ◌≡◌, refl, ◌∙◌, ap, Bool, true, false, some, List, arith,
}
use system_programming.Base.Int.{ℤ, pos}
use system_programming.Dirtree.Sys.{Sys, Errno, Listing, Opendir, open_failed, opened}
use system_programming.Dirtree.Entries.Reading.{ends_badly}
use system_programming.Dirtree.Match.{entry_matches_filter}
use system_programming.Dirtree.Walk.{
  World, Ending, back, with_entries, cannot_open, subtree_has_match, filtered_entries, process_dir,
}
use system_programming.Dirtree.Walk.Forest.{
  Forest, sorted_entries, forest, matching, filtered_lines, forest-unopened, forest-opened,
  with_entries-sorted,
}
use system_programming.Dirtree.Walk.Search.{ShortIn, subtree-Answers}
use system_programming.Dirtree.Walk.Walked.{
  Walked, same-Walked, reported-Walked, cannot_open-Walked,
}
use system_programming.Dirtree.Walk.Filtered.{filtered-Walked}

module _ (sys : Sys) (pattern : List ℕ) (max_depth : ℕ) (matches : List ℕ → Bool)
    (decides : (name : List ℕ) → entry_matches_filter name true pattern ≡ some (matches name)) where
  abbrev process : ℕ → List ℕ → ℕ → World → Ending ℤ
  process = process_dir sys true pattern max_depth

  abbrev Shows : Ending ℤ → Forest → ℕ → World → Type 0
  Shows o f depth w = Walked o w (matching matches f) (filtered_lines matches sys depth f)

  same-Shows :
      {o o' : Ending ℤ} {f f' : Forest} (depth : ℕ) {w : World}
      → o ≡ o'
      → f ≡ f'
      → Shows o' f' depth w
      → Shows o f depth w
  same-Shows depth p q h =
      same-Walked p (ap (matching matches) q) (ap (filtered_lines matches sys depth) q) h

  -- A call by what `opendir` says.
  module _ (fuel : ℕ) (dn : List ℕ) (depth : ℕ) (w : World) where
    process-failed :
        (errno : Errno)
        → sys.opendir dn ≡ open_failed errno
        → process (suc fuel) dn depth w ≡ back (cannot_open errno depth w) (pos 0)
    unfolding process_dir
    process-failed errno o = rw (process_dir, o) refl

    process-opened :
        (dir : Listing)
        → sys.opendir dn ≡ opened dir
        → process (suc fuel) dn depth w
          ≡ with_entries sys dir w (
              filtered_entries sys true pattern max_depth
                (λ path. subtree_has_match sys true pattern max_depth fuel path (depth + 1))
                (λ path. process fuel path (depth + 1))
                dn
                depth
                false)
    unfolding process_dir
    process-opened dir o = rw (process_dir, o) refl

  module _ (room : (n : ℕ) → sys.realloc n ≡ true)
      (short : (dn : List ℕ) → ShortIn sys dn (sys.opendir dn)) where
    -- With the filter, with fuel for each level and with no path too long, the walk comes back, has counted
    -- the entries of the forest that match, and has printed a line for each, and the bare name of each
    -- directory that does not match and has a match below it.
    pub process_dir-matching :
        (fuel : ℕ) (dn : List ℕ) (depth : ℕ) (w : World)
        → depth ≤ max_depth
        → max_depth < fuel + depth
        → Walked
            (process_dir sys true pattern max_depth fuel dn depth w)
            w
            (matching matches (forest sys max_depth fuel dn depth))
            (filtered_lines matches sys depth (forest sys max_depth fuel dn depth))
    unfolding matching filtered_lines
    process_dir-matching zero dn depth w low enough = absurd (omega (arith, low, enough))
    process_dir-matching (suc fuel) dn depth w low enough =
        by_opening
          (λ path w' deeper.
            process_dir-matching fuel path (depth + 1) w' (omega (arith, deeper))
              (omega (arith, enough)))
          (sys.opendir dn) refl
      where
        by_opening :
            ((path : List ℕ) (w' : World)
              → depth < max_depth
              → Shows
                  (process fuel path (depth + 1) w')
                  (forest sys max_depth fuel path (depth + 1))
                  (depth + 1)
                  w')
            → (r : Opendir) → sys.opendir dn ≡ r
            → Shows
                (process (suc fuel) dn depth w)
                (forest sys max_depth (suc fuel) dn depth)
                depth
                w
        by_opening deeper (open_failed errno) o =
            same-Shows depth (process-failed fuel dn depth w errno o)
              (forest-unopened sys max_depth fuel dn depth errno o)
              (cannot_open-Walked errno depth w (matching matches)
                (filtered_lines matches sys depth) refl refl refl refl)
        by_opening deeper (opened dir) o =
            same-Shows depth
              (process-opened fuel dn depth w dir o ∙ with_entries-sorted sys room dir w _)
              (forest-opened sys max_depth fuel dn depth dir o)
              (reported-Walked (ends_badly dir) w (
                filtered-Walked sys pattern max_depth matches decides
                  (λ path. subtree_has_match sys true pattern max_depth fuel path (depth + 1))
                  (λ path. process fuel path (depth + 1))
                  (λ path. forest sys max_depth fuel path (depth + 1)) dn depth
                  (λ path w' low'.
                    subtree-Answers sys true pattern max_depth matches decides room short fuel path
                      (depth + 1) w' (omega (arith, low')) (omega (arith, enough)))
                  deeper false (sorted_entries sys dir) _))
