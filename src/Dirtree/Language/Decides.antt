-- ===== src/Dirtree/Language/Decides.antt =====
-- Lab2/202110421_assign2/dirtree.c: `submatch` decides the language.
use mathlib.Core.Path.{subst}
use system_programming.Base.{
  ℕ, zero, suc, ◌+◌, ◌≤◌, ◌≡◌, ◌⊎◌, inl, inr, refl, sym, ap, false, List, [], ◌∷◌, ◌++◌, ◌==◌,
  ==_ne, ==_refl, length, length-append, Bool-cases, arith,
}
use system_programming.Dirtree.Pattern.{star, open_paren, close_paren}
use system_programming.Dirtree.Match.{
  fits, match_inner, skippable, submatch_from, submatch, match_any,
}
use system_programming.Dirtree.Language.{
  Atom, once, many, group, groups, render, AtomsOk, Matches, Decided, holds, fails,
}
use system_programming.Dirtree.Language.Loops.{
  or_else-Decided, Decided-iff, match_inner-once, repeat_group-Decided, repeat_char-Decided,
}
use system_programming.Dirtree.Language.Parts.{
  find_close-depth, after_star-render, once-fold, once-unfold, many-fold, many-unfold, group-fold,
  group-unfold, groups-fold, groups-unfold, starred-fold, starred-unfold, once-empty, many-empty,
  group-empty, groups-empty,
}

-- The loop at the end of the text.
skippable-Decided :
    (fuel : ℕ) (ps : List Atom)
    → AtomsOk ps
    → length (render ps) ≤ fuel
    → Decided (skippable fuel (render ps)) (Matches ps [])
unfolding skippable render Matches
skippable-Decided fuel [] ok h = holds refl tt
skippable-Decided zero (once c ∷ ps) ok h = absurd (omega arith)
skippable-Decided zero (many c ∷ ps) ok h = absurd (omega arith)
skippable-Decided zero (group g ∷ ps) ok h = absurd (omega arith)
skippable-Decided zero (groups g ∷ ps) ok h = absurd (omega arith)
skippable-Decided (suc fuel) (once c ∷ ps) ok h =
    rw (==_ne c open_paren ok.0.1, after_star-render ps ok.1)
      (fails refl λ m. once-empty c (starred-unfold ps (once c) m).0)
skippable-Decided (suc fuel) (many c ∷ ps) ok h = rw (==_ne c open_paren ok.0.1) (
    Decided-iff (starred-fold ps (many c) (many-empty c)) (λ m. (starred-unfold ps (many c) m).1)
      (skippable-Decided fuel ps ok.1 (omega arith)))
skippable-Decided (suc fuel) (group g ∷ ps) ok h =
    rw (find_close-depth 1 g (render ps) ok.0.1, after_star-render ps ok.1)
      (fails refl λ m. group-empty g ok.0.0 (starred-unfold ps (group g) m).0)
skippable-Decided (suc fuel) (groups g ∷ ps) ok h =
    rw (find_close-depth 1 g (star ∷ render ps) ok.0.1) (
      Decided-iff (starred-fold ps (groups g) (groups-empty g))
        (λ m. (starred-unfold ps (groups g) m).1)
        (skippable-Decided fuel ps ok.1
          (omega (arith, length-append g (close_paren ∷ star ∷ render ps)))))

submatch_from-Decided :
    (fuel : ℕ) (ps : List Atom)
    → AtomsOk ps
    → length (render ps) ≤ fuel
    → (s : List ℕ) → Decided (submatch_from fuel (render ps) s) (Matches ps s)
unfolding submatch_from render Matches
submatch_from-Decided fuel [] ok h s = holds refl tt
submatch_from-Decided zero (once c ∷ ps) ok h s = absurd (omega arith)
submatch_from-Decided zero (many c ∷ ps) ok h s = absurd (omega arith)
submatch_from-Decided zero (group g ∷ ps) ok h s = absurd (omega arith)
submatch_from-Decided zero (groups g ∷ ps) ok h s = absurd (omega arith)
submatch_from-Decided (suc fuel) (once c ∷ ps) ok h [] =
    skippable-Decided (suc fuel) (once c ∷ ps) ok h
submatch_from-Decided (suc fuel) (many c ∷ ps) ok h [] =
    skippable-Decided (suc fuel) (many c ∷ ps) ok h
submatch_from-Decided (suc fuel) (group g ∷ ps) ok h [] =
    skippable-Decided (suc fuel) (group g ∷ ps) ok h
submatch_from-Decided (suc fuel) (groups g ∷ ps) ok h [] =
    skippable-Decided (suc fuel) (groups g ∷ ps) ok h
submatch_from-Decided (suc fuel) (once c ∷ ps) ok h (d ∷ s) =
    rw (==_ne c open_paren ok.0.1, after_star-render ps ok.1)
      (Decided-iff (once-fold ps c d s) (once-unfold ps c d s) (elim (Bool-cases (fits c d)) [
        | inl f ↦ rw f (
            Decided-iff (λ m. (refl, m)) (λ (_, m). m)
              (submatch_from-Decided fuel ps ok.1 (omega arith) s))
        | inr nf ↦ rw nf (fails refl λ (f, _). absurd cc)
      ]))
submatch_from-Decided (suc fuel) (many c ∷ ps) ok h (d ∷ s) = rw (==_ne c open_paren ok.0.1) (
    Decided-iff (many-fold ps c (d ∷ s)) (many-unfold ps c (d ∷ s)) (
      repeat_char-Decided (λ t. submatch_from fuel (render ps) t) (Matches ps)
        (submatch_from-Decided fuel ps ok.1 (omega arith)) c (d ∷ s)))
submatch_from-Decided (suc fuel) (group g ∷ ps) ok h (d ∷ s) =
    rw (find_close-depth 1 g (render ps) ok.0.1, after_star-render ps ok.1)
      (Decided-iff (group-fold ps g (d ∷ s)) (group-unfold ps g (d ∷ s))
        (elim (match_inner-once (d ∷ s) g) [
          | inl (e, lt) ↦
              let other : ((match_inner (d ∷ s) g).0 == length g) ≡ false = ground (arith, lt) in
              rw (e, other) (fails refl λ (r, e', _). absurd cc)
          | inr (r, e, e') ↦
              rw (e, e', ==_refl (length g))
                (Decided-iff (λ m. (r, refl, m))
                  (λ (r', same, m). let here : r' ≡ r = cc in subst (Matches ps) here m)
                  (submatch_from-Decided fuel ps ok.1
                    (omega (arith, length-append g (close_paren ∷ render ps))) r))
        ]))
submatch_from-Decided (suc fuel) (groups g ∷ ps) ok h (d ∷ s) =
    rw (find_close-depth 1 g (star ∷ render ps) ok.0.1) (
      Decided-iff (groups-fold ps g (d ∷ s)) (groups-unfold ps g (d ∷ s)) (
        repeat_group-Decided (λ t. submatch_from fuel (render ps) t) (Matches ps)
          (submatch_from-Decided fuel ps ok.1
            (omega (arith, length-append g (close_paren ∷ star ∷ render ps))))
          (length (d ∷ s) + 1) g (d ∷ s) ok.0.0 (omega arith)))

-- With a pattern of the grammar `submatch` comes back, and with true exactly if the text starts with a
-- text the pattern stands for.
pub submatch-Decided :
    (ps : List Atom) (s : List ℕ) → AtomsOk ps → Decided (submatch s (render ps)) (Matches ps s)
unfolding submatch
submatch-Decided ps s ok = submatch_from-Decided (length (render ps)) ps ok (omega arith) s

-- A text in which a text the pattern stands for begins somewhere.
abbrev pub Contains : List Atom → List ℕ → Type 0
Contains ps s = (before : List ℕ) × (rest : List ℕ) × (s ≡ before ++ rest) × Matches ps rest

Contains-fold :
    (ps : List Atom) (c : ℕ) (s : List ℕ) → Matches ps (c ∷ s) ⊎ Contains ps s → Contains ps (c ∷ s)
Contains-fold ps c s (inl m) = ([], c ∷ s, refl, m)
Contains-fold ps c s (inr (before, rest, split, m)) = (c ∷ before, rest, ap (λ t. c ∷ t) split, m)

Contains-unfold :
    (ps : List Atom) (c : ℕ) (s : List ℕ) → Contains ps (c ∷ s) → Matches ps (c ∷ s) ⊎ Contains ps s
Contains-unfold ps c s ([], rest, split, m) = inl (subst (Matches ps) (sym split) m)
Contains-unfold ps c s (b ∷ before, rest, split, m) = inr (before, rest, cc, m)

Contains-nil : (ps : List Atom) → Contains ps [] → Matches ps []
Contains-nil ps ([], rest, split, m) = subst (Matches ps) (sym split) m
Contains-nil ps (b ∷ before, rest, split, m) = absurd cc

pub match_any-Decided :
    (ps : List Atom) (s : List ℕ) → AtomsOk ps → Decided (match_any s (render ps)) (Contains ps s)
unfolding match_any
match_any-Decided ps [] ok =
    Decided-iff (λ m. ([], [], refl, m)) (Contains-nil ps) (submatch-Decided ps [] ok)
match_any-Decided ps (c ∷ s) ok =
    Decided-iff (Contains-fold ps c s) (Contains-unfold ps c s)
      (or_else-Decided (submatch-Decided ps (c ∷ s) ok) (match_any-Decided ps s ok))
