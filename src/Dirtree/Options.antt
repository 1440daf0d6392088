-- ===== src/Dirtree/Options.antt =====
-- Lab2/202110421_assign2/dirtree.c: the options, from the arguments behind the program's name to the
-- call of the walk. `atoi` is a parameter; messages are left out.
use system_programming.Base.{
  ℕ, Bool, true, false, ◌&&◌, ◌||◌, not, Option, none, some, List, [], ◌∷◌, ◌++◌, ◌==◌, ltb,
  if◌then◌else◌, length,
}
use system_programming.Base.Int.{ℤ, pos, negsuc}
use system_programming.HashTable.Strings.{str_eq}
use system_programming.Dirtree.Pattern.{validate_pattern}
pub mod Ready

pub record Options : Type 0 where
  pub max_depth : ℤ
  pub filter : Bool
  pub pattern : Option (List ℕ)
  pub directories : List (List ℕ)

-- `syntax` exits with a failure or, for -h, with success.
pub data Parsed : Type 0 where
  usage : Parsed
  help : Parsed
  accepted : Options → Parsed

pub data Argument : Type 0 where
  depth_option : Argument
  filter_option : Argument
  help_option : Argument
  unrecognized : Argument
  path : Argument

abbrev pub starts_with_dash : List ℕ → Bool
starts_with_dash [] = false
starts_with_dash (c ∷ cs) = c == b'-'

unfoldable pub classify : List ℕ → Argument
classify arg =
    if not (starts_with_dash arg)
    then path
    else if str_eq arg (b'-' ∷ b'd' ∷ [])
    then depth_option
    else if str_eq arg (b'-' ∷ b'f' ∷ [])
    then filter_option
    else if str_eq arg (b'-' ∷ b'h' ∷ [])
    then help_option
    else unrecognized

-- Neither below 1 nor above MAX_DEPTH.
abbrev pub depth_ok : ℤ → Bool
depth_ok (pos n) = not (ltb n 1 || ltb 20 n)
depth_ok (negsuc n) = false

-- A path beyond MAX_DIR is ignored.
abbrev pub add_directory : Options → List ℕ → Options
add_directory o arg =
    if ltb (length o.directories) 64
    then record o { directories = o.directories ++ arg ∷ [] }
    else o

abbrev pub defaults : Options
defaults = record { max_depth = pos 20; filter = false; pattern = none; directories = [] }

module _ (atoi : List ℕ → ℤ) where
  -- The loop over the arguments.
  unfoldable pub parse : Options → List (List ℕ) → Parsed
  parse o [] = accepted o
  parse o (arg ∷ []) = elim (classify arg) [
    | path ↦ accepted (add_directory o arg)
    | help_option ↦ help
    | _ ↦ usage
  ]
  parse o (arg ∷ value ∷ rest) = elim (classify arg) [
    | path ↦ parse (add_directory o arg) (value ∷ rest)
    | help_option ↦ help
    | unrecognized ↦ usage
    | depth_option ↦ elim (not (starts_with_dash value) && depth_ok (atoi value)) [
      | true ↦ parse (record o { max_depth = atoi value }) rest
      | false ↦ usage
    ]
    | filter_option ↦ elim (starts_with_dash value) [
      | true ↦ usage
      | false ↦ parse (record o { filter = true; pattern = some value }) rest
    ]
  ]

abbrev pub or_current : List (List ℕ) → List (List ℕ)
or_current [] = (b'.' ∷ []) ∷ []
or_current (d ∷ ds) = d ∷ ds

-- Without a path it is the current directory.
abbrev pub with_directory : Options → Options
with_directory o = record o { directories = or_current o.directories }

-- `none` is NULL, which is not valid.
abbrev pub pattern_ok : Option (List ℕ) → Option Bool
pattern_ok none = some false
pattern_ok (some p) = validate_pattern p

-- How `main` goes on: it exits, walks over the directories, or the validation does not come back.
pub data Start : Type 0 where
  exits : ℕ → Start
  walks : Options → Start
  hangs : Start

unfoldable pub check_pattern : Options → Start
check_pattern o = elim o.filter [
  | false ↦ walks o
  | true ↦ elim (pattern_ok o.pattern) [ none ↦ hangs | some true ↦ walks o | some false ↦ exits 1 ]
]

unfoldable pub start : (List ℕ → ℤ) → List (List ℕ) → Start
start atoi args = elim (parse atoi defaults args) [
  | usage ↦ exits 1
  | help ↦ exits 0
  | accepted o ↦ check_pattern (with_directory o)
]
