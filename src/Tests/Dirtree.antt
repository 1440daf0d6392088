-- ===== src/Tests/Dirtree.antt =====
-- Lab2/202110421_assign2/dirtree.c: sample patterns.
use system_programming.Base.{
  ◌≡◌, refl, true, false, some, [], ◌∷◌, List, ℕ, ◌≢◌, ◌≤◌, ◌-◌, ◌^◌, length, arith,
}
use system_programming.Dirtree.Pattern.{find_close, validate_from, validate_pattern}
use system_programming.Dirtree.Match.{
  match_group_once, match_inner, repeat_char, repeat_group, skippable, submatch_from, submatch,
  match_any, entry_matches_filter,
}
use system_programming.Dirtree.Language.{
  Atom, once, many, groups, render, depth_behind, AtomsOk, Matches, Decided,
}
use system_programming.Dirtree.Language.Decides.{Contains, submatch-Decided, match_any-Decided}
use system_programming.Dirtree.Language.Heads.{Parses}
use system_programming.Dirtree.Language.Validate.{validate_pattern-Decided}
use system_programming.Dirtree.Language.Filter.{Accepts, entry_matches_filter-Decided}
use system_programming.Dirtree.Summary.{
  Stat, Summary, directory, link, other, get_type_char, count_type, summary_reset,
  summary_add_entry, add_entries, all_entries,
}
use system_programming.Dirtree.Name.{indented, build_display_name, shown, build_display_name-shown}
use system_programming.Base.Int.{ℤ, pos}
use system_programming.HashTable.Strings.{str_eq}
use system_programming.Dirtree.Options.{classify, parse, walks, check_pattern, start}
use system_programming.Dirtree.Options.Ready.{Ready, start-Ready}

program : Unit {0}
unfolding find_close validate_from validate_pattern match_group_once match_inner repeat_char
    repeat_group skippable submatch_from submatch match_any entry_matches_filter render depth_behind
program = tt

-- a*(b?)*c
abbrev sample : List Atom
sample = many b'a' ∷ groups (b'b' ∷ b'?' ∷ []) ∷ once b'c' ∷ []

abbrev sample_text : List ℕ
sample_text = b'a' ∷ b'*' ∷ b'(' ∷ b'b' ∷ b'?' ∷ b')' ∷ b'*' ∷ b'c' ∷ []

-- xaabxbyc.h
abbrev sample_name : List ℕ
sample_name = b'x' ∷ b'a' ∷ b'a' ∷ b'b' ∷ b'x' ∷ b'b' ∷ b'y' ∷ b'c' ∷ b'.' ∷ b'h' ∷ []

sample-AtomsOk : AtomsOk sample
unfolding program
sample-AtomsOk = (
  ((λ e. omega arith), (λ e. omega arith), (λ e. omega arith)),
  (((λ e. cc), refl), (((λ e. omega arith), (λ e. omega arith), (λ e. omega arith)), tt)),
)

sample_valid : validate_pattern sample_text ≡ some true
unfolding program
sample_valid = refl

sample_found : match_any sample_name sample_text ≡ some true
unfolding program
sample_found = refl

-- A question mark that is repeated stands for itself alone: `?*c` does not match `bc` at its start, but
-- at the `c`.
question_repeated : submatch (b'b' ∷ b'c' ∷ []) (b'?' ∷ b'*' ∷ b'c' ∷ []) ≡ some false
unfolding program
question_repeated = refl

-- A star in front of a group's text is accepted.
star_in_group : validate_pattern (b'(' ∷ b'*' ∷ b'a' ∷ b')' ∷ []) ≡ some true
unfolding program
star_in_group = refl

validate_pattern-Decided_example :
    Decided (validate_pattern sample_text) ((sample_text ≢ []) × Parses sample_text)
validate_pattern-Decided_example = validate_pattern-Decided sample_text

submatch-Decided_example :
    Decided (submatch sample_name (render sample)) (Matches sample sample_name)
submatch-Decided_example = submatch-Decided sample sample_name sample-AtomsOk

match_any-Decided_example :
    Decided (match_any sample_name (render sample)) (Contains sample sample_name)
match_any-Decided_example = match_any-Decided sample sample_name sample-AtomsOk

entry_matches_filter-Decided_example :
    Decided (entry_matches_filter sample_name true sample_text) (Accepts sample_text sample_name)
entry_matches_filter-Decided_example =
    entry_matches_filter-Decided sample_text sample_name sample_valid

abbrev sample_entries : List Stat
sample_entries =
    record { kind = directory; st_uid = 0; st_gid = 0; st_size = 4096; st_blocks = 8 }
    ∷ record { kind = link; st_uid = 0; st_gid = 0; st_size = 7; st_blocks = 0 }
    ∷ record { kind = other; st_uid = 0; st_gid = 0; st_size = 5000; st_blocks = 16 }
    ∷ []

-- A counter one below its wrap.
abbrev full : Summary
full = record summary_reset { links = 2 ^ 32 - 1; files = 3 }

-- The links wrap round.
wrapped_links : all_entries (add_entries full sample_entries) ≡ 5
unfolding get_type_char count_type summary_add_entry add_entries all_entries
wrapped_links = refl

build_display_name-shown_example :
    (build_display_name 256 sample_name 3 ≡ some (shown (indented sample_name 3)))
    × (length (shown (indented sample_name 3)) ≤ 54)
build_display_name-shown_example = build_display_name-shown sample_name 3

-- A stand-in for `atoi` that reads one digit.
abbrev one_digit : List ℕ → ℤ
one_digit [] = pos 0
one_digit (c ∷ cs) = pos (c - b'0')

-- -d 3 -f a*(b?)*c x
abbrev sample_args : List (List ℕ)
sample_args = (b'-' ∷ b'd' ∷ []) ∷ (b'3' ∷ []) ∷ (b'-' ∷ b'f' ∷ []) ∷ sample_text ∷ (b'x' ∷ []) ∷ []

start-Ready_example : Ready (start one_digit sample_args)
start-Ready_example = start-Ready one_digit sample_args

-- The same by evaluation.
sample_start :
    start one_digit sample_args
    ≡ walks (record {
      max_depth = pos 3;
      filter = true;
      pattern = some sample_text;
      directories = (b'x' ∷ []) ∷ [];
    })
unfolding program str_eq classify parse check_pattern start
sample_start = refl
