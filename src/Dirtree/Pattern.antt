-- ===== src/Dirtree/Pattern.antt =====
-- Lab2/202110421_assign2/dirtree.c: `find_close` and `validate_pattern`. A pointer into the pattern is
-- the text from there on; `fuel` bounds the rounds of a loop, and `none` means that it ran out.
use system_programming.Base.{
  ℕ, zero, suc, ◌+◌, ◌-◌, Bool, true, false, ◌&&◌, ◌||◌, Option, none, some, List, [], ◌∷◌, ◌==◌,
  if◌then◌else◌, length,
}

abbrev pub star : ℕ
star = b'*'

abbrev pub question : ℕ
question = b'?'

abbrev pub open_paren : ℕ
open_paren = b'('

abbrev pub close_paren : ℕ
close_paren = b')'

-- One character more of the group.
abbrev pub keep : ℕ → Option (List ℕ × List ℕ) → Option (List ℕ × List ℕ)
keep c none = none
keep c (some (inner, after)) = some (c ∷ inner, after)

abbrev pub next_depth : ℕ → ℕ → ℕ
next_depth depth c =
    if c == open_paren then depth + 1 else if c == close_paren then depth - 1 else depth

-- The loop of `find_close`, from behind the bracket: what stands in front of the bracket that closes, and
-- what stands behind it.
unfoldable pub find_close : ℕ → List ℕ → Option (List ℕ × List ℕ)
find_close depth [] = none
find_close depth (c ∷ cs) =
    let rest = find_close (next_depth depth c) cs in
    if (c == close_paren) && (next_depth depth c == 0) then some ([], cs) else keep c rest

-- The test on a star, by the character in front of it.
abbrev pub star_misplaced : Option ℕ → Bool
star_misplaced none = true
star_misplaced (some c) = (c == star) || (c == open_paren)

unfoldable pub validate_from : ℕ → Option ℕ → List ℕ → Option Bool
validate_from fuel previous [] = some true
validate_from zero previous (c ∷ cs) = none
validate_from (suc fuel) previous (c ∷ cs) =
    let onward = validate_from fuel (some c) cs in
    if c == star
    then (if star_misplaced previous then some false else onward)
    else if c == open_paren
    then elim (find_close 1 cs) [
      | none ↦ some false
      | some ([], after) ↦ some false
      | some (i ∷ inner, after) ↦ validate_from fuel (some close_paren) after
    ]
    else if c == close_paren
    then some false
    else onward

unfoldable pub validate_pattern : List ℕ → Option Bool
unfolding validate_from
validate_pattern [] = some false
validate_pattern (c ∷ cs) = validate_from (length (c ∷ cs)) none (c ∷ cs)
