-- ===== src/Dirtree/Options/Ready.antt =====
-- Lab2/202110421_assign2/dirtree.c: what `main` has checked when it starts to walk.
use system_programming.Base.{
  ℕ, ◌≤◌, ◌≡◌, refl, Bool, true, false, ◌&&◌, not, Option, none, some, List, [], ◌∷◌, ltb, if-cases,
  length, length-append, arith,
}
use system_programming.Base.Int.{ℤ, pos, negsuc}
use system_programming.Dirtree.Pattern.{validate_pattern}
use system_programming.Dirtree.Language.{Decided, holds, fails}
use system_programming.Dirtree.Language.Validate.{validate_pattern-Decided}
use system_programming.Dirtree.Options.{
  Options, Parsed, usage, help, accepted, Argument, depth_option, filter_option, help_option,
  unrecognized, path, starts_with_dash, classify, depth_ok, add_directory, defaults, parse,
  or_current, with_directory, pattern_ok, Start, exits, walks, hangs, check_pattern, start,
}

-- What the loop over the arguments keeps.
record Fit (o : Options) : Type 0 where
  depth : depth_ok o.max_depth ≡ true
  few : length o.directories ≤ 64

add_directory-Fit : (o : Options) (arg : List ℕ) → Fit o → Fit (add_directory o arg)
add_directory-Fit o arg f =
    if-cases Fit (ltb (length o.directories) 64)
      (λ h. record {
        depth = f.depth;
        few = rw (length-append o.directories (arg ∷ [])) (ground arith);
      })
      (λ _. f)

AllFit : Parsed → Type 0
AllFit (accepted o) = Fit o
AllFit _ = Unit {0}

and-right : (a b : Bool) → (a && b) ≡ true → b ≡ true
and-right a b e = ground arith

by_argument :
    (a : Argument) (good dash : Bool) (onward deeper filtered : Parsed)
    → AllFit onward
    → (good ≡ true → AllFit deeper)
    → AllFit filtered
    → AllFit (elim a [
      | path ↦ onward
      | help_option ↦ help
      | unrecognized ↦ usage
      | depth_option ↦ elim good [ true ↦ deeper | false ↦ usage ]
      | filter_option ↦ elim dash [ true ↦ usage | false ↦ filtered ]
    ])
unfolding AllFit
by_argument path good dash k l m f g h = f
by_argument help_option good dash k l m f g h = tt
by_argument unrecognized good dash k l m f g h = tt
by_argument depth_option true dash k l m f g h = g refl
by_argument depth_option false dash k l m f g h = tt
by_argument filter_option good true k l m f g h = tt
by_argument filter_option good false k l m f g h = h

module _ (atoi : List ℕ → ℤ) where
  parse-Fit : (o : Options) (args : List (List ℕ)) → Fit o → AllFit (parse atoi o args)
  unfolding parse AllFit
  parse-Fit o [] f = f
  parse-Fit o (arg ∷ []) f = last_argument (classify arg)
    where
      last_argument :
          (a : Argument)
          → AllFit
              (elim a [ path ↦ accepted (add_directory o arg) | help_option ↦ help | _ ↦ usage ])
      last_argument path = add_directory-Fit o arg f
      last_argument _ = tt
  parse-Fit o (arg ∷ value ∷ rest) f =
      by_argument (classify arg) (not (starts_with_dash value) && depth_ok (atoi value))
        (starts_with_dash value) _ _ _
        (parse-Fit (add_directory o arg) (value ∷ rest) (add_directory-Fit o arg f))
        (λ e.
          parse-Fit (record o { max_depth = atoi value }) rest
            (record {
              depth = and-right (not (starts_with_dash value)) (depth_ok (atoi value)) e;
              few = f.few;
            }))
        (parse-Fit (record o { filter = true; pattern = some value }) rest
          (record { depth = f.depth; few = f.few }))

depth_ok-lem : (d : ℤ) → depth_ok d ≡ true → (n : ℕ) × (d ≡ pos n) × (1 ≤ n) × (n ≤ 20)
depth_ok-lem (pos n) e = (n, refl, ground (arith, e), ground (arith, e))
depth_ok-lem (negsuc n) e = absurd cc

-- What the walk relies on: a depth in its bounds, directories, and a valid pattern where it filters.
abbrev pub Ready : Start → Type 0
Ready (exits n) = n ≤ 1
Ready (walks o) =
    ((n : ℕ) × (o.max_depth ≡ pos n) × (1 ≤ n) × (n ≤ 20))
    × (1 ≤ length o.directories)
    × (length o.directories ≤ 64)
    × (o.filter ≡ true → pattern_ok o.pattern ≡ some true)
Ready hangs = ⊥

or_current-length :
    (ds : List (List ℕ))
    → length ds ≤ 64
    → (1 ≤ length (or_current ds)) × (length (or_current ds) ≤ 64)
or_current-length [] h = (omega arith, omega arith)
or_current-length (d ∷ ds) h = (omega arith, h)

by_validation :
    (o : Options)
    → Fit o
    → 1 ≤ length o.directories
    → (r : Option Bool) (P : Type 0) → pattern_ok o.pattern ≡ r
    → Decided r P
    → Ready (elim r [ none ↦ hangs | some true ↦ walks o | some false ↦ exits 1 ])
by_validation o f one none P e (holds e' _) = absurd cc
by_validation o f one none P e (fails e' _) = absurd cc
by_validation o f one (some true) P e d = (depth_ok-lem o.max_depth f.depth, one, f.few, λ _. e)
by_validation o f one (some false) P e d = omega arith

check_pattern-Ready : (o : Options) → Fit o → 1 ≤ length o.directories → Ready (check_pattern o)
unfolding check_pattern
check_pattern-Ready o f one = by_filter o.filter o.pattern
  where
    by_filter :
        (b : Bool) (q : Option (List ℕ))
        → Ready (check_pattern (record o { filter = b; pattern = q }))
    by_filter false q = (depth_ok-lem o.max_depth f.depth, one, f.few, λ e. absurd cc)
    by_filter true none = omega arith
    by_filter true (some p) =
        by_validation (record o { filter = true; pattern = some p })
          (record { depth = f.depth; few = f.few }) one (validate_pattern p) _ refl
          (validate_pattern-Decided p)

-- For every list of arguments `main` exits with 0 or 1, or walks over 1 to 64 directories with a depth
-- from 1 to 20 and, where it filters, with a pattern that was found valid.
pub start-Ready : (atoi : List ℕ → ℤ) (args : List (List ℕ)) → Ready (start atoi args)
unfolding start AllFit
start-Ready atoi args =
    by_result (parse atoi defaults args)
      (parse-Fit atoi defaults args (record { depth = refl; few = omega arith }))
  where
    by_result :
        (r : Parsed)
        → AllFit r
        → Ready (elim r [
          | usage ↦ exits 1
          | help ↦ exits 0
          | accepted o ↦ check_pattern (with_directory o)
        ])
    by_result usage f = omega arith
    by_result help f = omega arith
    by_result (accepted o) f =
        let (one, few) = or_current-length o.directories f.few in
        check_pattern-Ready (with_directory o) (record { depth = f.depth; few = few }) one
