-- ===== src/Dirtree/Language/Loops.antt =====
-- Lab2/202110421_assign2/dirtree.c: the loops of `submatch` over the copies of one atom.
use mathlib.Core.Path.{subst}
use system_programming.Base.{
  ℕ, zero, suc, ◌<◌, ◌≡◌, ◌≢◌, ◌⊎◌, inl, inr, refl, sym, ap, Bool, true, Option, none, some, List,
  [], ◌∷◌, ◌++◌, append_assoc, ◌==◌, length, length-append, replicate, Bool-cases, Option-cases,
  arith,
}
use system_programming.Dirtree.Pattern.{question}
use system_programming.Dirtree.Match.{
  fits, or_else, match_group_once, match_inner, repeat_char, repeat_group,
}
use system_programming.Dirtree.Language.{Fits, Times, Decided, holds, fails}

pub or_else-Decided :
    {a b : Option Bool} {P Q : Type 0} → Decided a P → Decided b Q → Decided (or_else a b) (P ⊎ Q)
or_else-Decided (holds e p) _ = holds (rw e refl) (inl p)
or_else-Decided (fails e np) (holds e' q) = holds (rw (e, e') refl) (inr q)
or_else-Decided (fails e np) (fails e' nq) =
    fails (rw (e, e') refl) λ h. elim h [ inl p ↦ np p | inr q ↦ nq q ]

pub Decided-iff : {o : Option Bool} {P Q : Type 0} → (P → Q) → (Q → P) → Decided o P → Decided o Q
Decided-iff f g (holds e p) = holds e (f p)
Decided-iff f g (fails e np) = fails e λ q. np (g q)

pub fits_lem : (c d : ℕ) → (fits c d ≡ true) → (c ≡ question) ⊎ (d ≡ c)
fits_lem c d h = ground arith

pub fits-true : (c d : ℕ) → (c ≡ question) ⊎ (d ≡ c) → fits c d ≡ true
fits-true c d (inl e) = ground arith
fits-true c d (inr e) = ground arith

pub match_group_once-found :
    (s g r : List ℕ) → match_group_once s g ≡ some r → (m : List ℕ) × (s ≡ m ++ r) × Fits g m
unfolding match_group_once Fits
match_group_once-found s [] r e = ([], cc, tt)
match_group_once-found [] (c ∷ g) r e = absurd cc
match_group_once-found (d ∷ s) (c ∷ g) r e = elim (Bool-cases (fits c d)) [
  | inl f ↦
      let e' : match_group_once s g ≡ some r = rw f at e in
      let (m, split, fit) = match_group_once-found s g r e' in
      (d ∷ m, ap (λ t. d ∷ t) split, (fits_lem c d f, fit))
  | inr nf ↦ (let e' : none ≡ some r = rw nf at e in absurd cc)
]

pub match_group_once-Fits : (g m r : List ℕ) → Fits g m → match_group_once (m ++ r) g ≡ some r
unfolding match_group_once Fits
match_group_once-Fits [] [] r fit = refl
match_group_once-Fits [] (d ∷ m) r fit = absurd fit
match_group_once-Fits (c ∷ g) [] r fit = absurd fit
match_group_once-Fits (c ∷ g) (d ∷ m) r fit =
    rw (fits-true c d fit.0) (match_group_once-Fits g m r fit.1)

-- The loop over a group without a star agrees.
pub match_inner-once :
    (s g : List ℕ)
    → ((match_group_once s g ≡ none) × ((match_inner s g).0 < length g))
      ⊎ ((r : List ℕ) × (match_group_once s g ≡ some r) × (match_inner s g ≡ (length g, r)))
unfolding match_group_once match_inner
match_inner-once s [] = inr (s, refl, refl)
match_inner-once [] (c ∷ g) = inl (refl, omega arith)
match_inner-once (d ∷ s) (c ∷ g) = elim (Bool-cases (fits c d)) [
  | inr nf ↦ inl (rw nf refl, rw nf (omega arith))
  | inl f ↦ elim (match_inner-once s g) [
    | inl (e, lt) ↦ inl (rw f e, rw f (omega (arith, lt)))
    | inr (r, e, e') ↦ inr (r, rw f e, rw (f, e') refl)
  ]
]

Fits-length : (g m : List ℕ) → Fits g m → length m ≡ length g
unfolding Fits
Fits-length [] [] fit = refl
Fits-length [] (d ∷ m) fit = absurd fit
Fits-length (c ∷ g) [] fit = absurd fit
Fits-length (c ∷ g) (d ∷ m) fit = ap suc (Fits-length g m fit.1)

match_group_once-shorter :
    (s g r : List ℕ) → g ≢ [] → match_group_once s g ≡ some r → length r < length s
match_group_once-shorter s [] r ne e = absurd (ne refl)
match_group_once-shorter s (c ∷ g) r ne e =
    let (m, split, fit) = match_group_once-found s (c ∷ g) r e in
    rw split (rw (length-append m r) (omega (arith, Fits-length (c ∷ g) m fit)))

-- Copies of a character, and then a text with the property.
abbrev pub Repeats : ℕ → (List ℕ → Type 0) → List ℕ → Type 0
Repeats c P s = (n : ℕ) × (r : List ℕ) × (s ≡ replicate n c ++ r) × P r

-- Copies of a group, and then a text with the property.
abbrev pub Copies : List ℕ → (List ℕ → Type 0) → List ℕ → Type 0
Copies g P s = (n : ℕ) × (m : List ℕ) × (r : List ℕ) × (s ≡ m ++ r) × Times n g m × P r

module _ (rest : List ℕ → Option Bool) (P : List ℕ → Type 0)
    (spec : (s : List ℕ) → Decided (rest s) (P s)) where
  abbrev Longer : List ℕ → List ℕ → Type 0
  Longer g s = (r : List ℕ) × (match_group_once s g ≡ some r) × Copies g P r

  Copies-fold : (g s : List ℕ) → P s ⊎ Longer g s → Copies g P s
  unfolding Times
  Copies-fold g s (inl p) = (0, [], s, refl, refl, p)
  Copies-fold g s (inr (r, e, (n, m, t, split, times, p))) =
      let (a, split', fit) = match_group_once-found s g r e in
      (suc n, a ++ m, t, rw (split', split, append_assoc a m t) refl, (a, m, refl, fit, times), p)

  Copies-unfold : (g s : List ℕ) → Copies g P s → P s ⊎ Longer g s
  unfolding Times
  Copies-unfold g s (zero, m, r, split, times, p) = inl (subst P (rw (split, times) refl) p)
  Copies-unfold g s (suc n, m, r, split, (a, b, split', fit, times), p) = inr (
    b ++ r,
    rw (split, split', append_assoc a b r) (match_group_once-Fits g a (b ++ r) fit),
    (n, b, r, refl, times, p),
  )

  -- `submatch` over `(group)*`.
  pub repeat_group-Decided :
      (fuel : ℕ) (g s : List ℕ)
      → g ≢ []
      → length s < fuel
      → Decided (repeat_group fuel rest g s) (Copies g P s)
  unfolding repeat_group
  repeat_group-Decided zero g s ne h = absurd (omega arith)
  repeat_group-Decided (suc fuel) g s ne h = Decided-iff (Copies-fold g s) (Copies-unfold g s) (
      or_else-Decided (spec s) (elim (Option-cases (match_group_once s g)) [
        | inl e ↦ rw e (fails refl λ (r, e', _). absurd cc)
        | inr (r, e) ↦
            let shorter : length r < fuel = omega (arith, match_group_once-shorter s g r ne e) in
            rw e (
              Decided-iff (λ c. (r, refl, c))
                (λ (r', e', c). let same : r' ≡ r = cc in subst (Copies g P) same c)
                (repeat_group-Decided fuel g r ne shorter))
      ]))

  Repeats-nil : (c : ℕ) → Repeats c P [] → P []
  Repeats-nil c (zero, r, split, p) = subst P (sym split) p
  Repeats-nil c (suc n, r, split, p) = absurd cc

  Repeats-fold :
      (c d : ℕ) (s : List ℕ) → P (d ∷ s) ⊎ ((d ≡ c) × Repeats c P s) → Repeats c P (d ∷ s)
  Repeats-fold c d s (inl p) = (0, d ∷ s, refl, p)
  Repeats-fold c d s (inr (e, (n, r, split, p))) = (suc n, r, cc, p)

  Repeats-unfold :
      (c d : ℕ) (s : List ℕ) → Repeats c P (d ∷ s) → P (d ∷ s) ⊎ ((d ≡ c) × Repeats c P s)
  Repeats-unfold c d s (zero, r, split, p) = inl (subst P (sym split) p)
  Repeats-unfold c d s (suc n, r, split, p) = inr (cc, (n, r, cc, p))

  -- `submatch` over `x*`.
  pub repeat_char-Decided : (c : ℕ) (s : List ℕ) → Decided (repeat_char rest c s) (Repeats c P s)
  unfolding repeat_char
  repeat_char-Decided c [] = Decided-iff (λ p. (0, [], refl, p)) (Repeats-nil c) (spec [])
  repeat_char-Decided c (d ∷ s) = Decided-iff (Repeats-fold c d s) (Repeats-unfold c d s) (
      or_else-Decided (spec (d ∷ s)) (elim (Bool-cases (d == c)) [
        | inl e ↦ rw e (
            Decided-iff (λ reps. (ground arith, reps)) (λ (_, reps). reps)
              (repeat_char-Decided c s))
        | inr ne ↦ rw ne (fails refl λ (e, _). absurd (ground arith))
      ]))
