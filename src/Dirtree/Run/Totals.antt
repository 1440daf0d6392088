-- ===== src/Dirtree/Run/Totals.antt =====
-- Lab2/202110421_assign2/dirtree.c: what a run counts and prints over all directories.
use mathlib.Core.Path.{ap₂}
use system_programming.Base.{
  ℕ, ◌≡◌, refl, sym, ◌∙◌, ap, List, [], ◌∷◌, ◌++◌, append_assoc, append-nil, length, arith,
}
use system_programming.Base.Int.{ℤ, pos}
use system_programming.Dirtree.Sys.{Sys, Errno, eacces, enoent, another, Lstat, stat_failed, found}
use system_programming.Dirtree.Summary.{
  Stat, Summary, summary_reset, summary_add, add_entries, summary_add-add_entries, Summary-eq,
}
use system_programming.Dirtree.Options.{Options}
use system_programming.Dirtree.Print.{
  header_line, separator_line, print_root_line, print_missing_path_line, print_directory_summary,
  print_aggregate_summary,
}
use system_programming.Dirtree.Walk.{World, Ending, back, then_do, print, process_dir}
use system_programming.Dirtree.Walk.Forest.{Forest, end, missing, unopened, forest}
use system_programming.Dirtree.Walk.Walked.{
  Walked, add_entries-append, back-Walked, same-Walked, cannot_open-Walked,
}
use system_programming.Dirtree.Run.{
  pattern_text, begin_root, missing_root, bound, visit_root, visit_roots, analyze,
}

-- `lstat` on a directory of the command line, as `opendir` on the others: nothing, or a missing path.
abbrev pub root_forest : Sys → Options → List ℕ → Forest
root_forest sys o dn = elim (sys.lstat dn) [
  | stat_failed errno ↦ unopened errno
  | found st ↦ forest sys (bound sys o) (bound sys o) dn 1
]

-- What is counted and printed of a forest, with the filter or without it.
module _ (sys : Sys) (o : Options) (selected : Forest → List Stat) where
  -- All entries of all directories.
  unfoldable pub all_stats : List (List ℕ) → List Stat
  all_stats [] = []
  all_stats (dn ∷ dns) = selected (root_forest sys o dn) ++ all_stats dns

  -- A block for each directory, with the entries' lines and their totals.
  unfoldable pub all_lines : (Forest → List ℕ) → List (List ℕ) → List ℕ
  all_lines lines [] = []
  all_lines lines (dn ∷ dns) =
      (header_line ++ separator_line ++ print_root_line dn)
      ++ (lines (root_forest sys o dn)
          ++ (print_directory_summary (add_entries summary_reset (selected (root_forest sys o dn)))
              ++ all_lines lines dns))

-- Back, with the totals of these entries and these bytes printed.
pub record Ran (r : Ending Summary) (w : World) (total : Summary) (bytes : List ℕ) : Type 0 where
  pub after : World
  pub returns : r ≡ back after total
  pub out : after.out ≡ w.out ++ bytes

-- A run counts the selected entries of all directories, and prints the blocks and the totals at the end.
abbrev pub Analyzed : Sys → Options → World → (Forest → List Stat) → (Forest → List ℕ) → Type 0
Analyzed sys o w selected lines =
    let total = add_entries summary_reset (all_stats sys o selected o.directories) in
    Ran (analyze sys o w) w total (
      all_lines sys o selected lines o.directories
      ++ print_aggregate_summary total (length o.directories))

-- A total that is in its bounds.
abbrev Total : Summary → Type 0
Total total = summary_add total summary_reset ≡ total

summary_add-Total : (total src : Summary) → Total (summary_add total src)
unfolding summary_add
summary_add-Total total src =
    Summary-eq _ _ (omega arith) (omega arith) (omega arith) (omega arith) (omega arith)
      (omega arith) (omega arith)

summary_reset-Total : Total summary_reset
unfolding summary_add
summary_reset-Total = refl

-- What was there, a heading, the lines, the totals and what follows.
in_order :
    {r h totals : List ℕ} (w heading body totals' more : List ℕ)
    → r ≡ (h ++ totals) ++ more
    → h ≡ (w ++ heading) ++ body
    → totals ≡ totals'
    → r ≡ w ++ (heading ++ (body ++ (totals' ++ more)))
in_order w heading body totals' more p q d =
    p
    ∙ ap₂ (λ x y. (x ++ y) ++ more) q d
    ∙ append_assoc ((w ++ heading) ++ body) totals' more
    ∙ append_assoc (w ++ heading) body (totals' ++ more)
    ∙ append_assoc w heading (body ++ (totals' ++ more))

-- A directory of the command line by what `lstat` says.
module _ (sys : Sys) (o : Options) (dn : List ℕ) (w : World) where
  visit-missing :
      (errno : Errno)
      → sys.lstat dn ≡ stat_failed errno
      → visit_root sys o dn w ≡ back (missing_root errno w) (pos 0)
  unfolding visit_root
  visit-missing errno l = rw (visit_root, l) refl

  visit-found :
      (st : Stat)
      → sys.lstat dn ≡ found st
      → visit_root sys o dn w
        ≡ process_dir sys o.filter (pattern_text o.pattern) (bound sys o) (bound sys o) dn 1 w
  unfolding visit_root
  visit-found st l = rw (visit_root, l) refl

module _ (sys : Sys) (o : Options) (selected : Forest → List Stat) (lines : Forest → List ℕ)
    (walks : (dn : List ℕ) (w : World)
      → Walked
          (process_dir sys o.filter (pattern_text o.pattern) (bound sys o) (bound sys o) dn 1 w)
          w
          (selected (forest sys (bound sys o) (bound sys o) dn 1))
          (lines (forest sys (bound sys o) (bound sys o) dn 1)))
    (quiet : (selected end ≡ [])
      × (selected missing ≡ [])
      × (lines end ≡ [])
      × (lines missing ≡ print_missing_path_line)) where
  missing_root-Walked :
      (errno : Errno) (w : World)
      → Walked
          (back (missing_root errno w) (pos 0))
          w
          (selected (unopened errno))
          (lines (unopened errno))
  missing_root-Walked eacces w = let (s, s', l, l') = quiet in same-Walked refl s l back-Walked
  missing_root-Walked enoent w =
      let (s, s', l, l') = quiet in cannot_open-Walked enoent 1 w selected lines s s' l l'
  missing_root-Walked another w = let (s, s', l, l') = quiet in same-Walked refl s l back-Walked

  visit_root-Walked :
      (dn : List ℕ) (w : World)
      → Walked
          (visit_root sys o dn w)
          w
          (selected (root_forest sys o dn))
          (lines (root_forest sys o dn))
  visit_root-Walked dn w = by_stat (sys.lstat dn) refl
    where
      same-Shows :
          (f : Forest)
          → root_forest sys o dn ≡ f
          → {r : Ending ℤ} → visit_root sys o dn w ≡ r
          → Walked r w (selected f) (lines f)
          → Walked
              (visit_root sys o dn w)
              w
              (selected (root_forest sys o dn))
              (lines (root_forest sys o dn))
      same-Shows f q p h = same-Walked p (ap selected q) (ap lines q) h

      by_stat :
          (s : Lstat)
          → sys.lstat dn ≡ s
          → Walked
              (visit_root sys o dn w)
              w
              (selected (root_forest sys o dn))
              (lines (root_forest sys o dn))
      by_stat (stat_failed errno) l =
          same-Shows (unopened errno) (rw (root_forest, l) refl) (visit-missing sys o dn w errno l)
            (missing_root-Walked errno w)
      by_stat (found st) l =
          same-Shows _ (rw (root_forest, l) refl) (visit-found sys o dn w st l) (walks dn w)

  -- What each directory adds.
  visit_roots-Ran :
      (dns : List (List ℕ)) (total : Summary) (w : World)
      → Total total
      → Ran
          (visit_roots sys o dns total w)
          w
          (add_entries total (all_stats sys o selected dns))
          (all_lines sys o selected lines dns)
  unfolding visit_roots all_stats all_lines add_entries
  visit_roots-Ran [] total w t = record { after = w; returns = refl; out = sym (append-nil w.out) }
  visit_roots-Ran (dn ∷ dns) total w t =
      let f = root_forest sys o dn in
      let h = visit_root-Walked dn (begin_root dn w) in
      let rest =
        visit_roots-Ran dns (summary_add total h.after.stats)
          (print h.after (print_directory_summary h.after.stats))
          (summary_add-Total total h.after.stats) in
      record {
        after = rest.after;
        returns =
            ap
              (λ z. then_do z λ w' r.
                visit_roots sys o dns (summary_add total w'.stats)
                  (print w' (print_directory_summary w'.stats)))
              h.returns
            ∙ rest.returns
            ∙ ap (back rest.after) (
                ap (λ s. add_entries s (all_stats sys o selected dns))
                  (ap (summary_add total) h.stats
                    ∙ summary_add-add_entries total summary_reset (selected f)
                    ∙ ap (λ s. add_entries s (selected f)) t)
                ∙ sym (add_entries-append total (selected f) (all_stats sys o selected dns)));
        out =
            in_order w.out (header_line ++ separator_line ++ print_root_line dn) (lines f)
              (print_directory_summary (add_entries summary_reset (selected f)))
              (all_lines sys o selected lines dns) rest.out h.out
              (ap print_directory_summary h.stats);
      }

  pub analyze-Analyzed : (w : World) → Analyzed sys o w selected lines
  unfolding analyze
  analyze-Analyzed w =
      let h = visit_roots-Ran o.directories summary_reset w summary_reset-Total in
      let total = add_entries summary_reset (all_stats sys o selected o.directories) in
      let totals = print_aggregate_summary total (length o.directories) in
      record {
        after = print h.after totals;
        returns =
            ap
              (λ z.
                then_do z
                  λ w' t. back (print w' (print_aggregate_summary t (length o.directories))) t)
              h.returns;
        out =
            ap (λ z. z ++ totals) h.out
            ∙ append_assoc w.out (all_lines sys o selected lines o.directories) totals;
      }
