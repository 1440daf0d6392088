-- ===== src/Tests/Walk.antt =====
-- Lab2/202110421_assign2/dirtree.c: a small tree of directories, and runs over it.
use mathlib.Core.List.{Perm}
use mathlib.Core.Path.{subst}
use system_programming.Base.{
  ℕ, ◌-◌, ◌≡◌, sym, refl, Bool, true, false, Option, none, some, List, [], ◌∷◌, ◌++◌, ◌↔◌, inl, inr,
  if◌then◌else◌, if-cases, arith,
}
use system_programming.Base.Int.{ℤ, pos}
use Prim.Native.String.{String}
use system_programming.Base.Text.{text, digits}
use system_programming.HashTable.Strings.{str_eq, str_eq_iff}
use system_programming.Dirtree.Summary.{
  Stat, Summary, FileKind, directory, link, other, get_type_char, count_type, summary_reset,
  summary_add, summary_add_entry,
}
use system_programming.Dirtree.Sys.{
  Sys, eacces, enoent, Dirent, Listing, finished, next, open_failed, opened, stat_failed, found,
}
use system_programming.Dirtree.Entries.{
  strcmp, dirent_compare, get_next, make_child_path, entries, read_entries,
}
use system_programming.Dirtree.Print.{
  header_line, separator_line, print_entry_line, print_directory_summary, print_aggregate_summary,
}
use system_programming.Dirtree.Name.{format_truncated_left, build_display_name}
use system_programming.Dirtree.Pattern.{find_close, validate_from, validate_pattern}
use system_programming.Dirtree.Match.{
  match_group_once, match_inner, repeat_char, repeat_group, skippable, submatch_from, submatch,
  match_any, entry_matches_filter,
}
use system_programming.Dirtree.Options.{Options, classify, parse, walks, check_pattern, start}
use system_programming.Dirtree.Entries.Reading.{
  names_here_or_above, real_entries, ends_badly, read_entries-real_entries,
}
use system_programming.Dirtree.Entries.Order.{InOrder, dirent_compare-Consistent}
use system_programming.Dirtree.Walk.Sorted.{forest_of-sorted_entries}
use system_programming.Dirtree.Walk.Forest.{
  end, sorted_entries, forest_of, stats_of, lines_of, matching, filtered_lines,
}
use system_programming.Dirtree.Walk.Search.{ShortIn}
use system_programming.Dirtree.Language.{Decided, holds, fails}
use system_programming.Dirtree.Language.Filter.{Accepts, entry_matches_filter-Decided}
use system_programming.Dirtree.Run.Totals.{root_forest, Analyzed}
use system_programming.Dirtree.Run.Analysis.{root_every, analyze-all_stats, analyze-matching}
use system_programming.Tests.Order.{insert, insertion_sort, insertion_sort-Documented}
use system_programming.Dirtree.Walk.{
  World, Ending, back, panicked, hangs, with_entries, search_entries, subtree_has_match, show_entry,
  plain_entries, filtered_entries, process_dir,
}
use system_programming.Dirtree.Run.{visit_root, visit_roots, analyze}

abbrev entry : String → ℕ → Dirent
entry name type = record { d_name = text name; d_type = type }

abbrev stat_of : FileKind → ℕ → Stat
stat_of kind size = record { kind = kind; st_uid = 0; st_gid = 7; st_size = size; st_blocks = 8 }

-- x holds notes.c, and the directories a and secret; a holds main.c and a link.
abbrev listing_x : Listing
listing_x = next (entry "notes.c" 8) (
    next (entry "." 4)
      (next (entry "secret" 4) (next (entry ".." 4) (next (entry "a" 4) finished))))

abbrev listing_a : Listing
listing_a = next (entry "main.c" 8) (next (entry "link" 10) finished)

abbrev tree : Sys
tree = record {
  opendir = λ path.
      if str_eq path (text "x")
      then opened listing_x
      else if str_eq path (text "x/a")
      then opened listing_a
      else open_failed eacces;
  lstat = λ path.
      if str_eq path (text "x")
      then found (stat_of directory 4096)
      else if str_eq path (text "x/a")
      then found (stat_of directory 64)
      else if str_eq path (text "x/secret")
      then found (stat_of directory 32)
      else if str_eq path (text "x/notes.c")
      then found (stat_of other 500)
      else if str_eq path (text "x/a/main.c")
      then found (stat_of other 120)
      else if str_eq path (text "x/a/link")
      then found (stat_of link 9)
      else stat_failed enoent;
  getpwuid = λ uid. some (text "root");
  getgrgid = λ gid. none;
  realloc = λ n. true;
  qsort = insertion_sort;
}

abbrev no_output : World
no_output = record { stats = summary_reset; out = []; err = [] }

-- One directory that is there and one that is not.
abbrev plain_options : Options
plain_options = record {
  max_depth = pos 3;
  filter = false;
  pattern = none;
  directories = text "x" ∷ text "y" ∷ [];
}

abbrev filter_options : Options
filter_options = record {
  max_depth = pos 20;
  filter = true;
  pattern = some (text "m(a?)*n");
  directories = text "x" ∷ [];
}

abbrev plain_args : List (List ℕ)
plain_args = text "-d" ∷ text "3" ∷ text "x" ∷ text "y" ∷ []

abbrev filter_args : List (List ℕ)
filter_args = text "x" ∷ text "-f" ∷ text "m(a?)*n" ∷ []

-- Reads a digit, as `atoi` does of it.
abbrev one_digit : List ℕ → ℤ
one_digit [] = pos 0
one_digit (c ∷ cs) = pos (c - b'0')

program : Unit {0}
unfolding insertion_sort insert str_eq get_type_char count_type summary_add summary_add_entry strcmp
    dirent_compare get_next make_child_path read_entries print_entry_line print_directory_summary
    print_aggregate_summary format_truncated_left build_display_name with_entries search_entries
    subtree_has_match show_entry plain_entries filtered_entries process_dir visit_root visit_roots
    analyze digits sorted_entries names_here_or_above real_entries ends_badly find_close
    validate_from validate_pattern match_group_once match_inner repeat_char repeat_group skippable
    submatch_from submatch match_any entry_matches_filter classify parse check_pattern start
program = tt

plain_started : start one_digit plain_args ≡ walks plain_options
unfolding program
plain_started = refl

filter_started : start one_digit filter_args ≡ walks filter_options
unfolding program
filter_started = refl

abbrev printed : Ending Summary → List ℕ
printed (back w total) = w.out
printed (panicked w) = []
printed hangs = []

-- What the filter leaves of the sample: the file, and the directory on the way to it.
filter_printed : printed (analyze tree filter_options no_output) ≡ (
    header_line
    ++ separator_line
    ++ text "x\n  a\n"
    ++ text
        "    main.c                                                  root:?                120         8     \n"
    ++ separator_line
    ++ text
        "1 file, 0 directories, 0 links, 0 pipes, and 0 sockets                            120         8\n\n")
unfolding program
filter_printed = refl

-- The numbers of a run over both directories.
abbrev total_of : Ending Summary → Option Summary
total_of (back w total) = some total
total_of (panicked w) = none
total_of hangs = none

plain_total :
    total_of (analyze tree plain_options no_output)
    ≡ some
        (record { dirs = 2; files = 2; links = 1; fifos = 0; socks = 0; size = 725; blocks = 40 })
unfolding program
plain_total = refl

short_x : ShortIn tree (text "x") (opened listing_x)
unfolding program
short_x = ((_, refl), ((_, refl), ((_, refl), tt)))

short_a : ShortIn tree (text "x/a") (opened listing_a)
unfolding program
short_a = ((_, refl), ((_, refl), tt))

tree-short : (dn : List ℕ) → ShortIn tree dn (tree.opendir dn)
tree-short dn =
    if-cases (ShortIn tree dn) (str_eq dn (text "x"))
      (λ e.
        subst (λ d. ShortIn tree d (opened listing_x)) (sym ((str_eq_iff dn (text "x")).0 e))
          short_x)
      (λ _.
        if-cases (ShortIn tree dn) (str_eq dn (text "x/a"))
          (λ e.
            subst (λ d. ShortIn tree d (opened listing_a)) (sym ((str_eq_iff dn (text "x/a")).0 e))
              short_a)
          (λ _. tt))

analyze-all_stats_example :
    Analyzed tree plain_options no_output stats_of (lines_of tree 1)
    × ((dn : List ℕ) → root_forest tree plain_options dn ≡ root_every tree plain_options dn)
analyze-all_stats_example =
    analyze-all_stats one_digit plain_args tree plain_options no_output (λ n. refl) tree-short
      plain_started refl

-- The filter, as a test of its language.
abbrev sample_matches : List ℕ → Bool
sample_matches name = elim (entry_matches_filter name true (text "m(a?)*n")) [
  | some true ↦ true
  | _ ↦ false
]

filter_valid : validate_pattern (text "m(a?)*n") ≡ some true
unfolding program
filter_valid = refl

by_decision :
    {o : Option Bool} {P : Type 0}
    → Decided o P
    → ((elim o [ some true ↦ true | _ ↦ false ]) ≡ true) ↔ P
by_decision (holds e h) = ((λ _. h), λ _. rw e refl)
by_decision (fails e refused) = ((λ q. absurd cc), λ h. absurd (refused h))

sample_language : (name : List ℕ) → (sample_matches name ≡ true) ↔ Accepts (text "m(a?)*n") name
sample_language name = by_decision (entry_matches_filter-Decided (text "m(a?)*n") name filter_valid)

analyze-matching_example :
    Analyzed tree filter_options no_output
      (matching sample_matches)
      (filtered_lines sample_matches tree 1)
analyze-matching_example =
    analyze-matching one_digit filter_args tree filter_options no_output (text "m(a?)*n")
      sample_matches (λ n. refl) tree-short filter_started refl refl sample_language

read_entries-real_entries_example :
    read_entries tree.realloc 6 [] listing_x
    ≡ entries ([] ++ real_entries listing_x) (ends_badly listing_x)
read_entries-real_entries_example =
    read_entries-real_entries tree.realloc (λ n. refl) 6 [] listing_x (omega arith)

-- The directories a and secret come before notes.c, which is read first.
abbrev sorted_x : List Dirent
sorted_x = entry "a" 4 ∷ entry "secret" 4 ∷ entry "notes.c" 8 ∷ []

sorted_x-Perm : Perm sorted_x (real_entries listing_x)
unfolding program
sorted_x-Perm =
    (insertion_sort-Documented dirent_compare dirent_compare-Consistent (real_entries listing_x)).0

sorted_x-InOrder : InOrder sorted_x
sorted_x-InOrder = (
  (
    inr ((λ t. refl, λ t. refl), inl (omega arith)),
    (inl (refl, λ e. absurd (omega (arith, e))), tt),
  ),
  ((inl (refl, λ e. absurd (omega (arith, e))), tt), (tt, tt)),
)

forest_of-sorted_entries_example :
    forest_of tree 2 (λ path. end) (text "x") 1 (sorted_entries tree listing_x)
    ≡ forest_of tree 2 (λ path. end) (text "x") 1 sorted_x
forest_of-sorted_entries_example =
    forest_of-sorted_entries tree 2 (λ path. end) (text "x") 1 listing_x sorted_x
      insertion_sort-Documented sorted_x-Perm sorted_x-InOrder
