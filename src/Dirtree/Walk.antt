-- ===== src/Dirtree/Walk.antt =====
-- Lab2/202110421_assign2/dirtree.c: `subtree_has_match` and `process_dir`. The recursion runs on fuel.
pub mod Forest
pub mod Every
pub mod Sorted
pub mod Search
pub mod Walked
pub mod Plain
pub mod Rounds
pub mod Filtered
pub mod Matched
use system_programming.Base.{
  ℕ, zero, suc, ◌+◌, Bool, true, false, ◌&&◌, ◌||◌, not, Option, none, some, List, [], ◌∷◌, ◌++◌,
  ltb, if◌then◌else◌,
}
use system_programming.Base.Int.{ℤ, pos, minus_one}
use system_programming.Dirtree.Sys.{
  Sys, Errno, eacces, enoent, another, Dirent, Listing, open_failed, opened, stat_failed, found,
}
use system_programming.Dirtree.Entries.{
  dirent_compare, make_child_path, Contents, entries, no_memory, endless, read_entries, calls,
}
use system_programming.Dirtree.Summary.{
  FileKind, directory, Stat, Summary, get_type_char, summary_add_entry,
}
use system_programming.Dirtree.Match.{entry_matches_filter}
use system_programming.Dirtree.Print.{
  end_of_line, print_missing_path_line, print_permission_denied_line, print_entry_line, name_column,
}

-- What goes to the error stream; the texts of `perror` are the library's.
pub data Message : Type 0 where
  perror_readdir : Message
  perror_lstat : Message
  permission_denied : List ℕ → Message
  out_of_memory : Message

-- `stats` of the directory of the command line, and what has been printed.
pub record World : Type 0 where
  pub stats : Summary
  pub out : List ℕ
  pub err : List Message

-- A call returns, the program exits by `panic`, or the fuel was too little.
pub data Ending (A : Type 0) : Type 0 where
  back : World → A → Ending A
  panicked : World → Ending A
  hangs : Ending A

module _ {A B : Type 0} where
  abbrev pub then_do : Ending A → (World → A → Ending B) → Ending B
  then_do (back w a) k = k w a
  then_do (panicked w) k = panicked w
  then_do hangs k = hangs

abbrev pub print : World → List ℕ → World
print w line = record w { out = w.out ++ line }

abbrev pub complain : World → Message → World
complain w m = record w { err = w.err ++ m ∷ [] }

abbrev pub is_directory : Stat → Bool
is_directory st = elim st.kind [ directory ↦ true | _ ↦ false ]

abbrev pub max_path_len : ℕ
max_path_len = 1024

-- `lstat` has failed, with the filter.
abbrev pub denied : Errno → ℕ → World → World
denied eacces depth w = complain w (permission_denied (print_permission_denied_line depth))
denied enoent depth w = w
denied another depth w = w

-- `opendir` has failed.
abbrev pub cannot_open : Errno → ℕ → World → World
cannot_open eacces depth w = complain w (permission_denied (print_permission_denied_line depth))
cannot_open enoent depth w = print w print_missing_path_line
cannot_open another depth w = w

module _ (sys : Sys) {A : Type 0} where
  -- Both functions read an open directory into an array, and sort it.
  unfoldable pub with_entries : Listing → World → (List Dirent → World → Ending A) → Ending A
  with_entries dir w loop = elim (read_entries sys.realloc (calls dir) [] dir) [
    | endless ↦ hangs
    | no_memory ↦ panicked (complain w out_of_memory)
    | entries list reported ↦
        loop (sys.qsort dirent_compare list) (if reported then complain w perror_readdir else w)
  ]

-- `pattern`, F_Filter and `max_depth` are global variables of the program, or flags.
module _ (sys : Sys) (filtering : Bool) (pattern : List ℕ) (max_depth : ℕ) where
  -- The loop of `subtree_has_match`, whose own call is `recurse`.
  unfoldable pub search_entries :
      (List ℕ → World → Ending Bool) → List ℕ → ℕ → List Dirent → World → Ending Bool
  search_entries recurse dn depth [] w = back w false
  search_entries recurse dn depth (e ∷ es) w = elim (make_child_path max_path_len dn e.d_name) [
    | none ↦ search_entries recurse dn depth es w
    | some full_path ↦ elim (sys.lstat full_path) [
      | stat_failed errno ↦ search_entries recurse dn depth es w
      | found st ↦ elim (entry_matches_filter e.d_name filtering pattern) [
        | none ↦ hangs
        | some true ↦ back w true
        | some false ↦ elim (is_directory st && ltb depth max_depth) [
          | false ↦ search_entries recurse dn depth es w
          | true ↦ then_do (recurse full_path w) λ w' below. elim below [
            | true ↦ back w' true
            | false ↦ search_entries recurse dn depth es w'
          ]
        ]
      ]
    ]
  ]

  unfoldable pub subtree_has_match : ℕ → List ℕ → ℕ → World → Ending Bool
  subtree_has_match zero dn depth w = hangs
  subtree_has_match (suc fuel) dn depth w = elim (sys.opendir dn) [
    | open_failed errno ↦ back w false
    | opened dir ↦
        with_entries sys dir w
          (search_entries (λ path. subtree_has_match fuel path (depth + 1)) dn depth)
  ]

  -- An entry is printed and counted.
  unfoldable pub show_entry : List ℕ → ℕ → Stat → World → World
  show_entry name depth st w = record w {
    stats = summary_add_entry w.stats st (get_type_char st);
    out = w.out ++ print_entry_line sys (name_column name depth) st;
  }

  -- The loop of `process_dir` without the filter.
  unfoldable pub plain_entries :
      (List ℕ → World → Ending ℤ) → List ℕ → ℕ → List Dirent → World → Ending ℤ
  plain_entries recurse dn depth [] w = back w (pos 1)
  plain_entries recurse dn depth (e ∷ es) w = elim (make_child_path max_path_len dn e.d_name) [
    | none ↦ back w minus_one
    | some full_path ↦ elim (sys.lstat full_path) [
      | stat_failed errno ↦ plain_entries recurse dn depth es (complain w perror_lstat)
      | found st ↦ elim (is_directory st && ltb depth max_depth) [
        | false ↦ plain_entries recurse dn depth es (show_entry e.d_name depth st w)
        | true ↦
            then_do (recurse full_path (show_entry e.d_name depth st w))
              λ w' r. plain_entries recurse dn depth es w'
      ]
    ]
  ]

  -- The line of a directory: in full, or its name alone where something below it matches.
  abbrev pub show_directory : Bool → Bool → List ℕ → ℕ → Stat → World → World
  show_directory true below name depth st w = show_entry name depth st w
  show_directory false true name depth st w = print w (name_column name depth ++ end_of_line)
  show_directory false false name depth st w = w

  -- The loop of `process_dir` with the filter; `any` is `any_match_in_this_dir`.
  unfoldable pub filtered_entries :
      (List ℕ → World → Ending Bool)
      → (List ℕ → World → Ending ℤ)
      → List ℕ
      → ℕ
      → Bool
      → List Dirent
      → World
      → Ending ℤ
  filtered_entries search recurse dn depth any [] w = back w (if any then pos 1 else pos 0)
  filtered_entries search recurse dn depth any (e ∷ es) w =
      elim (make_child_path max_path_len dn e.d_name) [
        | none ↦ back w minus_one
        | some full_path ↦ elim (sys.lstat full_path) [
          | stat_failed errno ↦
              filtered_entries search recurse dn depth any es (denied errno depth w)
          | found st ↦ elim (entry_matches_filter e.d_name filtering pattern) [
            | none ↦ hangs
            | some self ↦ elim (is_directory st) [
              | true ↦
                  then_do
                    (if not self && ltb depth max_depth then search full_path w else back w false)
                    λ w₁ below.
                      let w₂ = show_directory self below e.d_name depth st w₁ in
                      let any' = any || self || below in
                      then_do
                        (if ltb depth max_depth then recurse full_path w₂ else back w₂ (pos 0))
                        λ w₃ r. filtered_entries search recurse dn depth any' es w₃
              | false ↦
                  filtered_entries search recurse dn depth (any || self) es
                    (if self then show_entry e.d_name depth st w else w)
            ]
          ]
        ]
      ]

  unfoldable pub process_dir : ℕ → List ℕ → ℕ → World → Ending ℤ
  process_dir zero dn depth w = hangs
  process_dir (suc fuel) dn depth w = elim (sys.opendir dn) [
    | open_failed errno ↦ back (cannot_open errno depth w) (pos 0)
    | opened dir ↦ with_entries sys dir w (
        if filtering
        then filtered_entries (λ path. subtree_has_match fuel path (depth + 1))
            (λ path. process_dir fuel path (depth + 1)) dn depth false
        else plain_entries (λ path. process_dir fuel path (depth + 1)) dn depth)
  ]
