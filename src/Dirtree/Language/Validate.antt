-- ===== src/Dirtree/Language/Validate.antt =====
-- Lab2/202110421_assign2/dirtree.c: `validate_pattern` accepts the language's patterns and no other text.
use mathlib.Core.Path.{subst}
use system_programming.Base.{
  ℕ, zero, suc, ◌≤◌, ◌<◌, ◌≡◌, ◌≢◌, inl, inr, refl, Bool, false, Option, none, some, List, [], ◌∷◌,
  ◌==◌, if◌then◌else◌, length, Bool-cases, Option-cases, arith,
}
use system_programming.Dirtree.Pattern.{
  star, open_paren, close_paren, find_close, star_misplaced, validate_from, validate_pattern,
}
use system_programming.Dirtree.Language.{Decided, holds, fails}
use system_programming.Dirtree.Language.Loops.{Decided-iff}
use system_programming.Dirtree.Language.Heads.{
  Parses, Behind, Tail, Parses-Behind, nil-Behind, star-Behind, plain-Behind, Tail-Group,
  find_close-shorter, IsPlain-Tail, find_close-Behind, star-Parses, Behind-star, Behind-Tail,
  Tail-Behind, first_Behind,
}

module _ (previous : Option ℕ) (c : ℕ) (cs : List ℕ) where
  star_case-Decided :
      (onward : Option Bool)
      → c ≡ star
      → Decided onward (Behind (some c) cs)
      → Decided (if star_misplaced previous then some false else onward) (Behind previous (c ∷ cs))
  star_case-Decided onward e d = elim (Bool-cases (star_misplaced previous)) [
    | inl bad ↦ rw bad (fails refl λ b. absurd (ground (arith, (star-Parses previous c cs e b).0)))
    | inr fine ↦ rw fine (
        Decided-iff (λ b. star-Behind previous c cs e fine (Behind-star c cs e b))
          (λ b. Parses-Behind (some c) cs (star-Parses previous c cs e b).1) d)
  ]

  plain_case-Decided :
      (onward : Option Bool)
      → c ≢ star
      → c ≢ open_paren
      → Decided onward (Behind (some c) cs)
      → Decided (if c == close_paren then some false else onward) (Behind previous (c ∷ cs))
  plain_case-Decided onward ne ne' d = elim (Bool-cases (c == close_paren)) [
    | inl t ↦
        rw t (fails refl λ b. absurd ((IsPlain-Tail previous c cs ne ne' b).0.2 (ground arith)))
    | inr nt ↦
        let ne'' : c ≢ close_paren = ground arith in
        let fine : star_misplaced (some c) ≡ false = ground arith in
        rw nt (
          Decided-iff (λ b. plain-Behind previous c cs (ne, ne', ne'') (Behind-Tail (some c) cs b))
            (λ b. Tail-Behind c cs fine (IsPlain-Tail previous c cs ne ne' b).1) d)
  ]

  group_case-Decided :
      (onward : List ℕ → Option Bool)
      → c ≡ open_paren
      → ((after : List ℕ)
          → length after < length cs
          → Decided (onward after) (Behind (some close_paren) after))
      → Decided
          (elim (find_close 1 cs) [
            | none ↦ some false
            | some ([], after) ↦ some false
            | some (i ∷ inner, after) ↦ onward after
          ])
          (Behind previous (c ∷ cs))
  group_case-Decided onward e d = elim (Option-cases (find_close 1 cs)) [
    | inl unclosed ↦ rw unclosed (
        fails refl
          λ b. let (g, after, _, found, _) = find_close-Behind previous c cs e b in absurd cc)
    | inr (([], after), found) ↦ rw found (
        fails refl λ b.
          let (g, after', well, found', _) = find_close-Behind previous c cs e b in
          absurd (well.0 cc))
    | inr ((i ∷ inner, after), found) ↦ rw found (
        Decided-iff
          (λ b.
            Tail-Group previous c cs (i ∷ inner) after e (λ x. absurd cc) found
              (Behind-Tail (some close_paren) after b))
          (λ b.
            let (g, after', well, found', tail) = find_close-Behind previous c cs e b in
            let same : after' ≡ after = cc in
            Tail-Behind close_paren after refl (subst Tail same tail))
          (d after (find_close-shorter cs (i ∷ inner) after found)))
  ]

validate_from-Decided :
    (fuel : ℕ) (previous : Option ℕ) (p : List ℕ)
    → length p ≤ fuel
    → Decided (validate_from fuel previous p) (Behind previous p)
unfolding validate_from
validate_from-Decided fuel previous [] h = holds refl (nil-Behind previous)
validate_from-Decided zero previous (c ∷ cs) h = absurd (omega arith)
validate_from-Decided (suc fuel) previous (c ∷ cs) h =
    let onward = validate_from-Decided fuel (some c) cs (omega arith) in
    elim (Bool-cases (c == star)) [
      | inl t ↦ rw t (star_case-Decided previous c cs _ (ground arith) onward)
      | inr nt ↦ rw nt (elim (Bool-cases (c == open_paren)) [
        | inl t ↦ rw t (
            group_case-Decided previous c cs (λ after. validate_from fuel (some close_paren) after)
              (ground arith)
              (λ after lt. validate_from-Decided fuel (some close_paren) after (omega arith)))
        | inr nt' ↦ rw nt' (plain_case-Decided previous c cs _ (ground arith) (ground arith) onward)
      ])
    ]

-- `validate_pattern` always comes back, and accepts a text exactly if it is a pattern of the grammar that
-- has an atom.
pub validate_pattern-Decided : (p : List ℕ) → Decided (validate_pattern p) ((p ≢ []) × Parses p)
unfolding validate_pattern
validate_pattern-Decided [] = fails refl λ (ne, _). ne refl
validate_pattern-Decided (c ∷ cs) =
    Decided-iff (λ b. ((λ e. absurd cc), first_Behind (c ∷ cs) b))
      (λ (_, h). Parses-Behind none (c ∷ cs) h)
      (validate_from-Decided (length (c ∷ cs)) none (c ∷ cs) (omega arith))
