-- ===== src/Dirtree/Language/Parts.antt =====
-- Lab2/202110421_assign2/dirtree.c: what a pattern's first atom may match, in the terms of the loops.
use mathlib.Core.Path.{subst}
use system_programming.Base.{
  ℕ, ◌≡◌, ◌≢◌, ◌&&◌, inl, inr, refl, sym, true, none, some, List, [], ◌∷◌, ◌++◌, ◌==◌, ==_ne,
  replicate, Bool-cases,
}
use system_programming.Dirtree.Pattern.{star, close_paren, next_depth, find_close}
use system_programming.Dirtree.Match.{fits, after_star, match_group_once}
use system_programming.Dirtree.Language.{
  Atom, once, many, group, groups, render, depth_behind, AtomsOk, Fits, Times, Denotes, Matches,
}
use system_programming.Dirtree.Language.Loops.{
  fits_lem, fits-true, match_group_once-found, match_group_once-Fits, Copies, Repeats,
}

-- The bracket that closes a group is the one behind it.
pub find_close-depth :
    (depth : ℕ) (g after : List ℕ)
    → depth_behind depth g ≡ some 1
    → find_close depth (g ++ close_paren ∷ after) ≡ some (g, after)
unfolding find_close depth_behind
find_close-depth depth [] after e = let one : depth ≡ 1 = cc in rw one refl
find_close-depth depth (c ∷ g) after e =
    elim (Bool-cases ((c == close_paren) && (next_depth depth c == 0))) [
      | inl t ↦ (let e' : none ≡ some 1 = rw t at e in absurd cc)
      | inr t ↦
          let e' : depth_behind (next_depth depth c) g ≡ some 1 = rw t at e in
          rw (t, find_close-depth (next_depth depth c) g after e') refl
    ]

pub after_star-render : (ps : List Atom) → AtomsOk ps → after_star (render ps) ≡ none
unfolding render
after_star-render [] ok = refl
after_star-render (once c ∷ ps) ok = rw (==_ne c star ok.0.0) refl
after_star-render (many c ∷ ps) ok = rw (==_ne c star ok.0.0) refl
after_star-render (group g ∷ ps) ok = refl
after_star-render (groups g ∷ ps) ok = refl

module _ (ps : List Atom) where
  pub once-fold :
      (c d : ℕ) (s : List ℕ) → (fits c d ≡ true) × Matches ps s → Matches (once c ∷ ps) (d ∷ s)
  unfolding Matches Denotes Fits
  once-fold c d s (f, h) = (d ∷ [], s, refl, (fits_lem c d f, tt), h)

  pub once-unfold :
      (c d : ℕ) (s : List ℕ) → Matches (once c ∷ ps) (d ∷ s) → (fits c d ≡ true) × Matches ps s
  unfolding Matches Denotes Fits
  once-unfold c d s ([], r, split, fit, h) = absurd fit
  once-unfold c d s (x ∷ [], r, split, fit, h) =
      let same : x ≡ d = cc in
      let tail : r ≡ s = cc in (rw (← same) (fits-true c x fit.0), subst (Matches ps) tail h)
  once-unfold c d s (x ∷ y ∷ m, r, split, fit, h) = absurd fit.1

  pub many-fold : (c : ℕ) (s : List ℕ) → Repeats c (Matches ps) s → Matches (many c ∷ ps) s
  unfolding Matches Denotes
  many-fold c s (n, r, split, h) = (replicate n c, r, split, (n, refl), h)

  pub many-unfold : (c : ℕ) (s : List ℕ) → Matches (many c ∷ ps) s → Repeats c (Matches ps) s
  unfolding Matches Denotes
  many-unfold c s (m, r, split, (n, e), h) = (n, r, rw (split, e) refl, h)

  pub group-fold :
      (g s : List ℕ)
      → (r : List ℕ) × (match_group_once s g ≡ some r) × Matches ps r
      → Matches (group g ∷ ps) s
  unfolding Matches Denotes
  group-fold g s (r, e, h) =
      let (m, split, fit) = match_group_once-found s g r e in (m, r, split, fit, h)

  pub group-unfold :
      (g s : List ℕ)
      → Matches (group g ∷ ps) s
      → (r : List ℕ) × (match_group_once s g ≡ some r) × Matches ps r
  unfolding Matches Denotes
  group-unfold g s (m, r, split, fit, h) = (r, rw split (match_group_once-Fits g m r fit), h)

  pub groups-fold : (g s : List ℕ) → Copies g (Matches ps) s → Matches (groups g ∷ ps) s
  unfolding Matches Denotes
  groups-fold g s (n, m, r, split, times, h) = (m, r, split, (n, times), h)

  pub groups-unfold : (g s : List ℕ) → Matches (groups g ∷ ps) s → Copies g (Matches ps) s
  unfolding Matches Denotes
  groups-unfold g s (m, r, split, (n, times), h) = (n, m, r, split, times, h)

  -- At the end of the text only what may stand for nothing is left.
  pub starred-fold : (a : Atom) → Denotes a [] → Matches ps [] → Matches (a ∷ ps) []
  unfolding Matches
  starred-fold a none_of h = ([], [], refl, none_of, h)

  pub starred-unfold : (a : Atom) → Matches (a ∷ ps) [] → Denotes a [] × Matches ps []
  unfolding Matches
  starred-unfold a ([], r, split, d, h) = (d, subst (Matches ps) (sym split) h)
  starred-unfold a (x ∷ m, r, split, d, h) = absurd cc

pub once-empty : (c : ℕ) → ¬ Denotes (once c) []
unfolding Denotes Fits
once-empty c d = d

pub many-empty : (c : ℕ) → Denotes (many c) []
unfolding Denotes
many-empty c = (0, refl)

pub group-empty : (g : List ℕ) → g ≢ [] → ¬ Denotes (group g) []
unfolding Denotes Fits
group-empty [] ne d = ne refl
group-empty (c ∷ g) ne d = d

pub groups-empty : (g : List ℕ) → Denotes (groups g) []
unfolding Denotes Times
groups-empty g = (0, refl)
