-- ===== src/Dirtree/Run.antt =====
-- Lab2/202110421_assign2/dirtree.c: the loop of `main` over the directories, behind the options.
pub mod Totals
pub mod Analysis
use system_programming.Base.{ℕ, Option, none, some, List, [], ◌∷◌, ◌++◌, length}
use system_programming.Base.Int.{ℤ, pos, negsuc}
use system_programming.Dirtree.Sys.{Sys, Errno, eacces, enoent, another, stat_failed, found}
use system_programming.Dirtree.Summary.{Summary, summary_reset, summary_add}
use system_programming.Dirtree.Options.{Options}
use system_programming.Dirtree.Print.{
  header_line, separator_line, print_root_line, print_missing_path_line, print_directory_summary,
  print_aggregate_summary,
}
use system_programming.Dirtree.Walk.{World, Ending, back, then_do, print, process_dir}

-- A depth is at least 1, so that a negative bound is as 0.
abbrev pub as_bound : ℤ → ℕ
as_bound (pos n) = n
as_bound (negsuc n) = 0

-- Without the filter the pattern is not read.
abbrev pub pattern_text : Option (List ℕ) → List ℕ
pattern_text none = []
pattern_text (some p) = p

-- In front of a directory: its summary is reset, the header and its path are printed.
abbrev pub begin_root : List ℕ → World → World
begin_root dn w = record w {
  stats = summary_reset;
  out = w.out ++ (header_line ++ separator_line ++ print_root_line dn);
}

-- `lstat` has failed on a directory of the command line.
abbrev pub missing_root : Errno → World → World
missing_root eacces w = w
missing_root enoent w = print w print_missing_path_line
missing_root another w = w

module _ (sys : Sys) (o : Options) where
  abbrev pub bound : ℕ
  bound = as_bound o.max_depth

  -- A level of directories for each unit of fuel.
  unfoldable pub visit_root : List ℕ → World → Ending ℤ
  visit_root dn w = elim (sys.lstat dn) [
    | stat_failed errno ↦ back (missing_root errno w) (pos 0)
    | found st ↦ process_dir sys o.filter (pattern_text o.pattern) bound bound dn 1 w
  ]

  -- `total` is `tstat`.
  unfoldable pub visit_roots : List (List ℕ) → Summary → World → Ending Summary
  visit_roots [] total w = back w total
  visit_roots (dn ∷ dns) total w = then_do (visit_root dn (begin_root dn w)) λ w' r.
      visit_roots dns (summary_add total w'.stats) (print w' (print_directory_summary w'.stats))

  -- With what is printed at the end.
  unfoldable pub analyze : World → Ending Summary
  analyze w =
      then_do (visit_roots o.directories summary_reset w)
        λ w' total. back (print w' (print_aggregate_summary total (length o.directories))) total
