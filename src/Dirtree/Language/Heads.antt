-- ===== src/Dirtree/Language/Heads.antt =====
-- Lab2/202110421_assign2/dirtree.c: the atom that a pattern begins with, as `validate_pattern` finds it.
use mathlib.Core.Path.{subst}
use system_programming.Base.{
  ℕ, suc, ◌-◌, ◌<◌, ◌≡◌, ◌≢◌, ◌⊎◌, inl, inr, refl, ◌&&◌, ap, false, Option, none, some, List, [],
  ◌∷◌, ◌++◌, ◌==◌, length, length-append, Bool-cases, Option-cases, arith,
}
use system_programming.Dirtree.Pattern.{
  star, open_paren, close_paren, next_depth, keep, find_close, star_misplaced,
}
use system_programming.Dirtree.Language.{
  Atom, once, many, group, groups, render, depth_behind, IsPlain, IsGroup, AtomsOk,
}
use system_programming.Dirtree.Language.Parts.{find_close-depth}

next_depth-suc :
    (depth c : ℕ)
    → ((c == close_paren) && (next_depth (suc depth) c == 0)) ≡ false
    → next_depth (suc depth) c ≡ suc (next_depth (suc depth) c - 1)
next_depth-suc depth c h = ground arith

-- Where `find_close` comes back, the group is in front of the bracket.
find_close-found :
    (depth : ℕ) (cs g after : List ℕ)
    → find_close (suc depth) cs ≡ some (g, after)
    → (cs ≡ g ++ close_paren ∷ after) × (depth_behind (suc depth) g ≡ some 1)
unfolding find_close depth_behind
find_close-found depth [] g after e = absurd cc
find_close-found depth (c ∷ cs) g after e =
    let next = next_depth (suc depth) c in
    elim (Bool-cases ((c == close_paren) && (next == 0))) [
      | inl t ↦
          let e' : some ([], cs) ≡ some (g, after) = rw t at e in
          let here : (c ≡ close_paren) × (suc depth ≡ 1) = ground arith in
          let empty : g ≡ [] = cc in (cc, rw (empty, here.1) refl)
      | inr t ↦
          let e' : keep c (find_close next cs) ≡ some (g, after) = rw t at e in
          elim (Option-cases (find_close next cs)) [
            | inl unclosed ↦ (let e'' : none ≡ some (g, after) = rw unclosed at e' in absurd cc)
            | inr ((g', after'), closed) ↦
                let e'' : some (c ∷ g', after') ≡ some (g, after) = rw closed at e' in
                let first : c ∷ g' ≡ g = cc in
                let later : after' ≡ after = cc in
                let (split, deep) =
                  find_close-found (next - 1) cs g' after'
                    (rw (← next_depth-suc depth c t) closed) in
                (
                  rw (← first, ← later) (ap (λ x. c ∷ x) split),
                  rw (← first, t, next_depth-suc depth c t) deep,
                )
          ]
    ]

-- The atom that a text begins with, and what stands behind it.
abbrev pub Parses : List ℕ → Type 0
Parses p = (ps : List Atom) × AtomsOk ps × (render ps ≡ p)

unfoldable pub Tail : List ℕ → Type 0
Tail p = Parses p ⊎ ((r : List ℕ) × (p ≡ star ∷ r) × Parses r)

unfoldable pub Head : ℕ → List ℕ → Type 0
Head c cs =
    (IsPlain c × Tail cs)
    ⊎ ((c ≡ open_paren)
        × ((g : List ℕ) × (after : List ℕ) × IsGroup g
            × (cs ≡ g ++ close_paren ∷ after)
            × Tail after))

Head-Parses : (c : ℕ) (cs : List ℕ) → Head c cs → Parses (c ∷ cs)
unfolding render Head Tail
Head-Parses c cs (inl (plain, inl (ps, ok, e))) = (once c ∷ ps, (plain, ok), ap (λ t. c ∷ t) e)
Head-Parses c cs (inl (plain, inr (r, e', (ps, ok, e)))) = (many c ∷ ps, (plain, ok), cc)
Head-Parses c cs (inr (e₁, (g, after, well, e₂, inl (ps, ok, e)))) = (group g ∷ ps, (well, ok), cc)
Head-Parses c cs (inr (e₁, (g, after, well, e₂, inr (r, e', (ps, ok, e))))) =
    (groups g ∷ ps, (well, ok), cc)

Parses-Head : (c : ℕ) (cs : List ℕ) → Parses (c ∷ cs) → Head c cs
unfolding render Head Tail
Parses-Head c cs ([], ok, e) = absurd cc
Parses-Head c cs (once d ∷ ps, ok, e) =
    let same : d ≡ c = cc in inl (subst IsPlain same ok.0, inl (ps, ok.1, cc))
Parses-Head c cs (many d ∷ ps, ok, e) =
    let same : d ≡ c = cc in inl (subst IsPlain same ok.0, inr (render ps, cc, (ps, ok.1, refl)))
Parses-Head c cs (group g ∷ ps, ok, e) = inr (cc, (g, render ps, ok.0, cc, inl (ps, ok.1, refl)))
Parses-Head c cs (groups g ∷ ps, ok, e) =
    inr (cc, (g, star ∷ render ps, ok.0, cc, inr (render ps, refl, (ps, ok.1, refl))))

-- What the loop accepts behind the character `previous`.
unfoldable pub Behind : Option ℕ → List ℕ → Type 0
Behind previous p =
    Parses p ⊎ ((star_misplaced previous ≡ false) × ((r : List ℕ) × (p ≡ star ∷ r) × Parses r))

pub Tail-Behind :
    (c : ℕ) (p : List ℕ) → (star_misplaced (some c) ≡ false) → Tail p → Behind (some c) p
unfolding Tail Behind
Tail-Behind c p ok (inl h) = inl h
Tail-Behind c p ok (inr h) = inr (ok, h)

pub Behind-Tail : (previous : Option ℕ) (p : List ℕ) → Behind previous p → Tail p
unfolding Tail Behind
Behind-Tail previous p (inl h) = inl h
Behind-Tail previous p (inr (_, h)) = inr h

not_star :
    (c : ℕ) (cs : List ℕ) (previous : Option ℕ) → c ≢ star → Behind previous (c ∷ cs) → Head c cs
unfolding Behind
not_star c cs previous ne (inl h) = Parses-Head c cs h
not_star c cs previous ne (inr (_, (r, e, h))) = absurd (ne cc)

pub Behind-star : (c : ℕ) (cs : List ℕ) → c ≡ star → Behind (some c) cs → Parses cs
unfolding Behind
Behind-star c cs e (inl h) = h
Behind-star c cs e (inr (ok, _)) = absurd (ground arith)

Head-star : (c : ℕ) (cs : List ℕ) → c ≡ star → ¬ Head c cs
unfolding Head
Head-star c cs e (inl (plain, _)) = plain.0 e
Head-star c cs e (inr (e', _)) = omega arith

pub star-Parses :
    (previous : Option ℕ) (c : ℕ) (cs : List ℕ)
    → c ≡ star
    → Behind previous (c ∷ cs)
    → (star_misplaced previous ≡ false) × Parses cs
unfolding Behind
star-Parses previous c cs e (inl h) = absurd (Head-star c cs e (Parses-Head c cs h))
star-Parses previous c cs e (inr (ok, (r, split, h))) =
    let same : r ≡ cs = cc in (ok, subst Parses same h)

pub find_close-Behind :
    (previous : Option ℕ) (c : ℕ) (cs : List ℕ)
    → c ≡ open_paren
    → Behind previous (c ∷ cs)
    → (g : List ℕ) × (after : List ℕ) × IsGroup g × (find_close 1 cs ≡ some (g, after)) × Tail after
unfolding Head
find_close-Behind previous c cs e h = elim (not_star c cs previous (λ e'. absurd (omega arith)) h) [
  | inl (plain, _) ↦ absurd (plain.1 e)
  | inr (_, (g, after, well, split, tail)) ↦
      (g, after, well, rw split (find_close-depth 1 g after well.1), tail)
]

pub IsPlain-Tail :
    (previous : Option ℕ) (c : ℕ) (cs : List ℕ)
    → c ≢ star
    → c ≢ open_paren
    → Behind previous (c ∷ cs)
    → IsPlain c × Tail cs
unfolding Head
IsPlain-Tail previous c cs ne ne' h = elim (not_star c cs previous ne h) [
  | inl r ↦ r
  | inr (e, _) ↦ absurd (ne' e)
]

pub Parses-Behind : (previous : Option ℕ) (p : List ℕ) → Parses p → Behind previous p
unfolding Behind
Parses-Behind previous p h = inl h

pub nil-Behind : (previous : Option ℕ) → Behind previous []
unfolding Behind render
nil-Behind previous = inl ([], tt, refl)

pub star-Behind :
    (previous : Option ℕ) (c : ℕ) (cs : List ℕ)
    → c ≡ star
    → star_misplaced previous ≡ false
    → Parses cs
    → Behind previous (c ∷ cs)
unfolding Behind
star-Behind previous c cs e fine h = inr (fine, (cs, ap (λ x. x ∷ cs) e, h))

pub plain-Behind :
    (previous : Option ℕ) (c : ℕ) (cs : List ℕ) → IsPlain c → Tail cs → Behind previous (c ∷ cs)
unfolding Behind Head
plain-Behind previous c cs plain tail = inl (Head-Parses c cs (inl (plain, tail)))

pub Tail-Group :
    (previous : Option ℕ) (c : ℕ) (cs g after : List ℕ)
    → c ≡ open_paren
    → g ≢ []
    → find_close 1 cs ≡ some (g, after)
    → Tail after
    → Behind previous (c ∷ cs)
unfolding Behind Head
Tail-Group previous c cs g after e ne found tail =
    let (split, deep) = find_close-found 0 cs g after found in
    inl (Head-Parses c cs (inr (e, (g, after, (ne, deep), split, tail))))

pub find_close-shorter :
    (cs g after : List ℕ) → find_close 1 cs ≡ some (g, after) → length after < length cs
find_close-shorter cs g after found =
    let (split, _) = find_close-found 0 cs g after found in
    rw split (omega (arith, length-append g (close_paren ∷ after)))

pub first_Behind : (p : List ℕ) → Behind none p → Parses p
unfolding Behind
first_Behind p (inl h) = h
first_Behind p (inr (e, _)) = absurd cc
