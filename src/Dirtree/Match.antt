-- ===== src/Dirtree/Match.antt =====
-- Lab2/202110421_assign2/dirtree.c: `match_group_once`, `submatch`, `match` and `entry_matches_filter`.
use system_programming.Base.{
  ℕ, zero, suc, ◌+◌, Bool, true, false, ◌||◌, Option, none, some, List, [], ◌∷◌, ◌==◌,
  if◌then◌else◌, length,
}
use system_programming.Dirtree.Pattern.{star, question, open_paren, find_close}

-- What stands behind a star, if one is next.
abbrev pub after_star : List ℕ → Option (List ℕ)
after_star [] = none
after_star (c ∷ cs) = if c == star then some cs else none

-- The test between a character of the pattern and one of the text.
abbrev pub fits : ℕ → ℕ → Bool
fits c d = (c == question) || (d == c)

-- The text behind the group, instead of the group's length; `none` is -1.
unfoldable pub match_group_once : List ℕ → List ℕ → Option (List ℕ)
match_group_once s [] = some s
match_group_once [] (c ∷ group) = none
match_group_once (d ∷ s) (c ∷ group) =
    let rest = match_group_once s group in if fits c d then rest else none

-- The loop of `submatch` over a group without a star: how far it comes, and the text behind.
unfoldable pub match_inner : List ℕ → List ℕ → ℕ × List ℕ
match_inner s [] = (0, s)
match_inner [] (c ∷ group) = (0, [])
match_inner (d ∷ s) (c ∷ group) =
    let (k, rest) = match_inner s group in if fits c d then (suc k, rest) else (0, d ∷ s)

-- The first alternative that succeeds.
abbrev pub or_else : Option Bool → Option Bool → Option Bool
or_else (some true) later = some true
or_else (some false) later = later
or_else none later = none

-- The loop over `x*`: `submatch` of the rest of the pattern after each number of copies.
unfoldable pub repeat_char : (List ℕ → Option Bool) → ℕ → List ℕ → Option Bool
repeat_char rest c [] = rest []
repeat_char rest c (d ∷ s) =
    let onward = repeat_char rest c s in
    or_else (rest (d ∷ s)) (if d == c then onward else some false)

-- The loop over `(group)*`.
unfoldable pub repeat_group : ℕ → (List ℕ → Option Bool) → List ℕ → List ℕ → Option Bool
repeat_group zero rest group s = none
repeat_group (suc fuel) rest group s = or_else (rest s) (elim (match_group_once s group) [
  | none ↦ some false
  | some s' ↦ repeat_group fuel rest group s'
])

-- The loop of `submatch` at the end of the text.
unfoldable pub skippable : ℕ → List ℕ → Option Bool
skippable fuel [] = some true
skippable zero (c ∷ cs) = none
skippable (suc fuel) (c ∷ cs) =
    if c == open_paren
    then elim (find_close 1 cs) [
      | none ↦ some false
      | some (inner, after) ↦ elim (after_star after) [
        | none ↦ some false
        | some rest ↦ skippable fuel rest
      ]
    ]
    else elim (after_star cs) [ none ↦ some false | some rest ↦ skippable fuel rest ]

-- The loop of `submatch`; the loop over a group has one round for each suffix of the text.
unfoldable pub submatch_from : ℕ → List ℕ → List ℕ → Option Bool
submatch_from fuel [] s = some true
submatch_from zero (c ∷ cs) s = none
submatch_from (suc fuel) (c ∷ cs) [] = skippable (suc fuel) (c ∷ cs)
submatch_from (suc fuel) (c ∷ cs) (d ∷ s) =
    if c == open_paren
    then elim (find_close 1 cs) [
      | none ↦ some false
      | some (inner, after) ↦ elim (after_star after) [
        | some rest ↦
            repeat_group (length (d ∷ s) + 1) (λ t. submatch_from fuel rest t) inner (d ∷ s)
        | none ↦
            (let (k, behind) = match_inner (d ∷ s) inner in
              let onward = submatch_from fuel after behind in
              if k == length inner then onward else some false)
      ]
    ]
    else elim (after_star cs) [
      | some rest ↦ repeat_char (λ t. submatch_from fuel rest t) c (d ∷ s)
      | none ↦ (let onward = submatch_from fuel cs s in if fits c d then onward else some false)
    ]

unfoldable pub submatch : List ℕ → List ℕ → Option Bool
unfolding submatch_from
submatch s pattern = submatch_from (length pattern) pattern s

-- `match`: from each place of the text, its end included.
unfoldable pub match_any : List ℕ → List ℕ → Option Bool
match_any [] pattern = submatch [] pattern
match_any (c ∷ s) pattern =
    let later = match_any s pattern in or_else (submatch (c ∷ s) pattern) later

-- `filtering` is the flag F_Filter.
unfoldable pub entry_matches_filter : List ℕ → Bool → List ℕ → Option Bool
entry_matches_filter name filtering pattern =
    let matched = match_any name pattern in if filtering then matched else some true
