-- ===== src/HeapManager/Blocks/Regions.antt =====
-- Lab3/src/heapmgr1.c: where a block stands among the free ones.
use native.Mathlib.Decide.{ℕ_discrete}
use system_programming.Base.{
  ℕ, zero, suc, ◌+◌, ◌-◌, ◌≤◌, ◌≡◌, ◌≢◌, ◌⊎◌, inl, inr, refl, ap, List, [], ◌∷◌, ◌++◌, ◌==◌, ==_ne,
  ==_refl, if◌then◌else◌, occurrences, occurrences-append, arith,
}
use system_programming.Base.Family.{update}
use system_programming.HeapManager.Links.{◌∈◌}
use system_programming.HeapManager.Blocks.{
  Block, free, used, span_of, status_of, Blocks, total, frees, frees-append, Blocks-split,
  Blocks-append, Blocks-frame, frees-bounds,
}

pub mem-split : (zs : List ℕ) (c : ℕ) → c ∈ zs → (xs : List ℕ) × (ys : List ℕ) × (zs ≡ xs ++ c ∷ ys)
mem-split [] c i = absurd (omega (arith, i))
mem-split (z ∷ zs) c i = elim (ℕ_discrete z c) [
  | yes same ↦ ([], zs, ap (λ y. y ∷ zs) same)
  | no other ↦
      let (xs, ys, e) = mem-split zs c (ground (arith, i, other)) in (z ∷ xs, ys, ap (λ t. z ∷ t) e)
]

-- What a block adds to the free ones.
abbrev pub counts : Block → ℕ → ℕ → ℕ
counts (free s) c x = if c == x then 1 else 0
counts (used s) c x = 0

pub occurrences-frees :
    (a : ℕ) (ds : List Block) (b : Block) (bs : List Block) (x : ℕ)
    → occurrences (frees a (ds ++ b ∷ bs)) x
      ≡ occurrences (frees a ds) x
        + (counts b (a + total ds) x + occurrences (frees (a + total ds + span_of b) bs) x)
occurrences-frees a ds (free s) bs x =
    rw (frees-append a ds (free s ∷ bs))
      (ground (arith, occurrences-append (frees a ds) (frees (a + total ds) (free s ∷ bs)) x))
occurrences-frees a ds (used s) bs x =
    rw (frees-append a ds (used s ∷ bs))
      (ground (arith, occurrences-append (frees a ds) (frees (a + total ds) (used s ∷ bs)) x))

-- The blocks in front of one and behind it.
pub Blocks-around :
    (word0 word1 : ℕ → ℕ) (a : ℕ) (ds : List Block) (b : Block) (bs : List Block) (end : ℕ)
    → Blocks word0 word1 a (ds ++ b ∷ bs) end
    → (x : ℕ) → x ∈ frees a (ds ++ b ∷ bs)
    → x ≢ a + total ds
    → (2 ≤ word1 x) × ((x + word1 x ≤ a + total ds) ⊎ (a + total ds + span_of b ≤ x))
Blocks-around word0 word1 a ds b bs end l x i ne =
    let (f, g) = Blocks-split word0 word1 a ds (b ∷ bs) end l in
    elim (le-or-zero (occurrences (frees a ds) x)) [
      | inl front ↦
          let (_, two, before) = frees-bounds word0 word1 a ds (a + total ds) x f front in
          (two, inl before)
      | inr none_front ↦
          let j : x ∈ frees (a + total ds + span_of b) bs =
            behind b none_front (rw (occurrences-frees a ds b bs x) at i) in
          let (after, two, _) =
            frees-bounds word0 word1 (a + total ds + span_of b) bs end x g.4 j in
          (two, inr after)
    ]
  where
    le-or-zero : (n : ℕ) → (1 ≤ n) ⊎ (n ≡ 0)
    le-or-zero zero = inr refl
    le-or-zero (suc n) = inl (omega arith)

    behind :
        (d : Block)
        → occurrences (frees a ds) x ≡ 0
        → 1
          ≤ occurrences (frees a ds) x
            + (counts d (a + total ds) x + occurrences (frees (a + total ds + span_of b) bs) x)
        → x ∈ frees (a + total ds + span_of b) bs
    behind (free s) e h = ground (arith, ne)
    behind (used s) e h = omega (arith, e, h)

-- No other free block has the address of one.
pub elsewhere :
    (word0 word1 : ℕ → ℕ) (a : ℕ) (ds : List Block) (b : Block) (bs : List Block) (end : ℕ)
    → Blocks word0 word1 a (ds ++ b ∷ bs) end
    → (occurrences (frees a ds) (a + total ds) ≡ 0)
      × (occurrences (frees (a + total ds + span_of b) bs) (a + total ds) ≡ 0)
elsewhere word0 word1 a ds b bs end l =
    let (f, g) = Blocks-split word0 word1 a ds (b ∷ bs) end l in
    (
      zero-of _ (λ i.
          let (_, two, before) = frees-bounds word0 word1 a ds (a + total ds) (a + total ds) f i in
          omega (arith, two, before)),
      zero-of _ (λ i.
          let (behind, _, _) =
            frees-bounds word0 word1 (a + total ds + span_of b) bs end (a + total ds) g.4 i in
          omega (arith, behind, g.0)),
    )
  where
    zero-of : (n : ℕ) → (1 ≤ n → ⊥) → n ≡ 0
    zero-of zero k = refl
    zero-of (suc n) k = absurd (k (omega arith))

-- A block that gets another status.
pub Blocks-restatus :
    (word0 word1 : ℕ → ℕ) (a : ℕ) (ds : List Block) (b b' : Block) (bs : List Block) (end : ℕ)
    → span_of b ≡ span_of b'
    → Blocks word0 word1 a (ds ++ b ∷ bs) end
    → Blocks (update word0 (a + total ds) (status_of b')) word1 a (ds ++ b' ∷ bs) end
Blocks-restatus word0 word1 a ds b b' bs end e l =
    let (f, g) = Blocks-split word0 word1 a ds (b ∷ bs) end l in
    let c = a + total ds in
    let word0' = update word0 c (status_of b') in
    let two = g.0 in
    Blocks-append word0' word1 a ds (b' ∷ bs) end
      (Blocks-frame word0 word1 word0' word1 a ds c
        (λ i lo hi. (rw (==_ne c i (omega (arith, hi))) refl, refl)) f)
      (rw (← e) (
        two,
        rw (==_refl c) refl,
        g.2,
        rw (==_ne c (c + span_of b - 1) (omega (arith, two))) (g.3),
        Blocks-frame word0 word1 word0' word1 (c + span_of b) bs end
            (λ i lo hi. (rw (==_ne c i (omega (arith, lo, two))) refl, refl)) g.4,
      ))
