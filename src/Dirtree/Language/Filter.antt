-- ===== src/Dirtree/Language/Filter.antt =====
-- Lab2/202110421_assign2/dirtree.c: `entry_matches_filter` under a pattern that was validated.
use system_programming.Base.{ℕ, ◌≡◌, ◌≢◌, Bool, true, false, Option, some, List, []}
use system_programming.Dirtree.Pattern.{validate_pattern}
use system_programming.Dirtree.Match.{match_any, entry_matches_filter}
use system_programming.Dirtree.Language.{Atom, render, AtomsOk, Decided, holds, fails}
use system_programming.Dirtree.Language.Decides.{Contains, match_any-Decided}
use system_programming.Dirtree.Language.Heads.{Parses}
use system_programming.Dirtree.Language.Validate.{validate_pattern-Decided}

-- A name that a reading of the text as a pattern accepts.
abbrev pub Accepts : List ℕ → List ℕ → Type 0
Accepts p name = (ps : List Atom) × AtomsOk ps × (render ps ≡ p) × Contains ps name

Decided-true : {o : Option Bool} {P : Type 0} → Decided o P → P → o ≡ some true
Decided-true (holds e _) p = e
Decided-true (fails _ np) p = absurd (np p)

validated :
    {p : List ℕ}
    → Decided (validate_pattern p) ((p ≢ []) × Parses p)
    → validate_pattern p ≡ some true
    → Parses p
validated (holds _ (_, h)) e = h
validated (fails e' _) e = absurd cc

-- With filtering, and a pattern that `validate_pattern` accepts, `entry_matches_filter` comes back for
-- every name, with true exactly if the name contains a text that the pattern stands for.
pub entry_matches_filter-Decided :
    (p name : List ℕ)
    → validate_pattern p ≡ some true
    → Decided (entry_matches_filter name true p) (Accepts p name)
unfolding entry_matches_filter
entry_matches_filter-Decided p name valid =
    let (ps, ok, e) = validated (validate_pattern-Decided p) valid in
    by_decision ps ok e (match_any-Decided ps name ok)
  where
    by_decision :
        (ps : List Atom)
        → AtomsOk ps
        → render ps ≡ p
        → Decided (match_any name (render ps)) (Contains ps name)
        → Decided (match_any name p) (Accepts p name)
    by_decision ps ok e (holds found h) = holds (rw (← e) found) (ps, ok, e, h)
    by_decision ps ok e (fails not_found nh) = fails (rw (← e) not_found) λ (ps', ok', e', h).
        let other : match_any name (render ps') ≡ some true =
          Decided-true (match_any-Decided ps' name ok') h in
        let here : match_any name p ≡ some false = rw (← e) not_found in
        let there : match_any name p ≡ some true = rw (← e') other in absurd cc
