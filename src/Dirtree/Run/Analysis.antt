-- ===== src/Dirtree/Run/Analysis.antt =====
-- Lab2/202110421_assign2/dirtree.c: a run over the directories, without the filter and with it.
use mathlib.Core.Path.{subst}
use system_programming.Base.{ℕ, ◌≤◌, ◌≡◌, refl, ap, Bool, true, false, some, List, arith, ◌↔◌}
use system_programming.Base.Int.{ℤ, pos}
use system_programming.Dirtree.Sys.{Sys, stat_failed, found}
use system_programming.Dirtree.Pattern.{validate_pattern}
use system_programming.Dirtree.Match.{entry_matches_filter}
use system_programming.Dirtree.Language.{Decided, holds, fails}
use system_programming.Dirtree.Language.Filter.{Accepts, entry_matches_filter-Decided}
use system_programming.Dirtree.Options.{Options, pattern_ok, walks, start}
use system_programming.Dirtree.Options.Ready.{Ready, start-Ready}
use system_programming.Dirtree.Walk.{World}
use system_programming.Dirtree.Walk.Forest.{
  Forest, unopened, stats_of, lines_of, matching, filtered_lines,
}
use system_programming.Dirtree.Walk.Every.{every, forest-every}
use system_programming.Dirtree.Walk.Search.{ShortIn}
use system_programming.Dirtree.Walk.Plain.{process_dir-Walked}
use system_programming.Dirtree.Walk.Matched.{process_dir-matching}
use system_programming.Dirtree.Run.{as_bound, pattern_text, bound}
use system_programming.Dirtree.Run.Totals.{root_forest, Analyzed, analyze-Analyzed}

bound-low : (d : ℤ) → ((n : ℕ) × (d ≡ pos n) × (1 ≤ n) × (n ≤ 20)) → 1 ≤ as_bound d
bound-low d (n, e, low, high) = rw e low

started-Ready :
    (atoi : List ℕ → ℤ) (args : List (List ℕ)) (o : Options)
    → start atoi args ≡ walks o
    → Ready (walks o)
started-Ready atoi args o e = subst Ready e (start-Ready atoi args)

started-valid :
    (atoi : List ℕ → ℤ) (args : List (List ℕ)) (o : Options) (p : List ℕ)
    → start atoi args ≡ walks o
    → o.filter ≡ true
    → o.pattern ≡ some p
    → validate_pattern p ≡ some true
started-valid atoi args o p started filter text =
    let (depth, few, many, valid) = started-Ready atoi args o started in
    subst (λ t. pattern_ok t ≡ some true) text (valid filter)

-- A directory of the command line, with all that is below it down to the depth asked for.
abbrev pub root_every : Sys → Options → List ℕ → Forest
root_every sys o dn = elim (sys.lstat dn) [
  | stat_failed errno ↦ unopened errno
  | found st ↦ every sys (bound sys o) (bound sys o) dn 1
]

root_forest-every :
    (sys : Sys) (o : Options)
    → ((dn : List ℕ) → ShortIn sys dn (sys.opendir dn))
    → (dn : List ℕ) → root_forest sys o dn ≡ root_every sys o dn
root_forest-every sys o short dn =
    ap (λ f. elim (sys.lstat dn) [ stat_failed errno ↦ unopened errno | found st ↦ f ])
      (forest-every sys (bound sys o) short (bound sys o) dn 1)

-- Where the arguments are accepted and have no filter, with memory for each array and with no path too
-- long, the run comes back. In the directories that can be opened, from those of the arguments down to the
-- depth asked for, its total counts each entry that `readdir` returns, `qsort` leaves in the array and
-- `lstat` finds, other than `.` and `..`, and nothing else. It prints a block for each directory of the
-- arguments, with a line for each of these entries and their totals, and then what
-- `print_aggregate_summary` prints for the total.
pub analyze-all_stats :
    (atoi : List ℕ → ℤ) (args : List (List ℕ)) (sys : Sys) (o : Options) (w : World)
    → ((n : ℕ) → sys.realloc n ≡ true)
    → ((dn : List ℕ) → ShortIn sys dn (sys.opendir dn))
    → start atoi args ≡ walks o
    → o.filter ≡ false
    → Analyzed sys o w stats_of (lines_of sys 1)
      × ((dn : List ℕ) → root_forest sys o dn ≡ root_every sys o dn)
unfolding stats_of lines_of
analyze-all_stats atoi args sys o w room short started plain = (
  analyze-Analyzed sys o stats_of (lines_of sys 1)
      (λ dn w'. rw plain (
        process_dir-Walked sys (pattern_text o.pattern) (bound sys o) room (bound sys o) dn 1 w'
          (bound-low o.max_depth (started-Ready atoi args o started).0) (omega arith)))
      (refl, refl, refl, refl) w,
  root_forest-every sys o short,
)

-- A test of the pattern's language is what the filter computes.
pub language-decides :
    (p : List ℕ) (matches : List ℕ → Bool)
    → validate_pattern p ≡ some true
    → ((name : List ℕ) → (matches name ≡ true) ↔ Accepts p name)
    → (name : List ℕ) → entry_matches_filter name true p ≡ some (matches name)
language-decides p matches valid language name =
    by_decision (matches name) refl (entry_matches_filter-Decided p name valid)
  where
    by_decision :
        (m : Bool)
        → matches name ≡ m
        → Decided (entry_matches_filter name true p) (Accepts p name)
        → entry_matches_filter name true p ≡ some m
    by_decision true q (holds e h) = e
    by_decision true q (fails e refused) = absurd (refused ((language name).0 q))
    by_decision false q (holds e h) = let m = (language name).1 h in absurd cc
    by_decision false q (fails e refused) = e

-- Where the arguments are accepted and have a pattern as filter, with memory for each array and with no path
-- too long, the run comes back. Its total is that of the entries whose names the pattern's language accepts,
-- and it prints a line for each of these, and the bare name of each other directory that has one below it.
pub analyze-matching :
    (atoi : List ℕ → ℤ) (args : List (List ℕ)) (sys : Sys) (o : Options) (w : World) (p : List ℕ)
    (matches : List ℕ → Bool)
    → ((n : ℕ) → sys.realloc n ≡ true)
    → ((dn : List ℕ) → ShortIn sys dn (sys.opendir dn))
    → start atoi args ≡ walks o
    → o.filter ≡ true
    → o.pattern ≡ some p
    → ((name : List ℕ) → (matches name ≡ true) ↔ Accepts p name)
    → Analyzed sys o w (matching matches) (filtered_lines matches sys 1)
unfolding matching filtered_lines
analyze-matching atoi args sys o w p matches room short started filter text language =
    analyze-Analyzed sys o (matching matches) (filtered_lines matches sys 1)
      (λ dn w'.
        rw (filter, text)
          (process_dir-matching sys p (bound sys o) matches
            (language-decides p matches (started-valid atoi args o p started filter text) language)
            room short (bound sys o) dn 1 w'
            (bound-low o.max_depth (started-Ready atoi args o started).0) (omega arith)))
      (refl, refl, refl, refl) w
