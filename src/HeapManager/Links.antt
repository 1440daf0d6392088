-- ===== src/HeapManager/Links.antt =====
-- Lab3/src/heapmgr1.c: what a doubly linked list is, apart from memory: a list of nodes, with maps for the
-- successor and the predecessor.
use mathlib.Core.Path.{subst}
use native.Mathlib.Decide.{ℕ_discrete}
use system_programming.Base.{
  ℕ, ◌≤◌, ◌≡◌, ◌≢◌, refl, sym, ◌∙◌, ap, true, Option, none, some, List, [], ◌∷◌, ◌++◌, ==_ne,
  ==_refl, if◌then◌else◌, occurrences, arith,
}
use system_programming.HeapManager.Validity.{ptr_eq}

infix 40 ◌∈◌
abbrev pub ◌∈◌ : ℕ → List ℕ → Type 0
x ∈ xs = 1 ≤ occurrences xs x

abbrev pub Distinct : List ℕ → Type 0
Distinct xs = (x : ℕ) → occurrences xs x ≤ 1

abbrev pub head_or : List ℕ → Option ℕ → Option ℕ
head_or [] end = end
head_or (x ∷ xs) end = some x

abbrev pub last_or : Option ℕ → List ℕ → Option ℕ
last_or start [] = start
last_or start (x ∷ xs) = last_or (some x) xs

-- The successors lead through the nodes to `end`.
abbrev pub NextTo : (ℕ → Option ℕ) → List ℕ → Option ℕ → Type 0
NextTo next [] end = Unit {0}
NextTo next (x ∷ xs) end = (next x ≡ head_or xs end) × NextTo next xs end

-- The predecessors lead back to `start`.
abbrev pub PrevFrom : (ℕ → Option ℕ) → Option ℕ → List ℕ → Type 0
PrevFrom prev start [] = Unit {0}
PrevFrom prev start (x ∷ xs) = (prev x ≡ start) × PrevFrom prev (some x) xs

abbrev pub Agree : (ℕ → Option ℕ) → (ℕ → Option ℕ) → List ℕ → Type 0
Agree f g xs = (x : ℕ) → x ∈ xs → g x ≡ f x

pub in_head : (x : ℕ) (xs : List ℕ) → x ∈ (x ∷ xs)
in_head x xs = ground arith

pub in_tail : (x y : ℕ) (xs : List ℕ) → x ∈ xs → x ∈ (y ∷ xs)
in_tail x y xs h = ground (arith, h)

module _ {f g : ℕ → Option ℕ} where
  pub NextTo-frame :
      (xs : List ℕ) (end : Option ℕ) → Agree f g xs → NextTo f xs end → NextTo g xs end
  NextTo-frame [] end same h = tt
  NextTo-frame (x ∷ xs) end same h =
      (same x (in_head x xs) ∙ h.0, NextTo-frame xs end (λ y i. same y (in_tail y x xs i)) h.1)

  pub PrevFrom-frame :
      (start : Option ℕ) (xs : List ℕ) → Agree f g xs → PrevFrom f start xs → PrevFrom g start xs
  PrevFrom-frame start [] same h = tt
  PrevFrom-frame start (x ∷ xs) same h = (
    same x (in_head x xs) ∙ h.0,
    PrevFrom-frame (some x) xs (λ y i. same y (in_tail y x xs i)) h.1,
  )

head_or-append :
    (xs ys : List ℕ) (end : Option ℕ) → head_or (xs ++ ys) end ≡ head_or xs (head_or ys end)
head_or-append [] ys end = refl
head_or-append (x ∷ xs) ys end = refl

module _ (f : ℕ → Option ℕ) where
  pub NextTo-split :
      (xs ys : List ℕ) (end : Option ℕ)
      → NextTo f (xs ++ ys) end
      → NextTo f xs (head_or ys end) × NextTo f ys end
  NextTo-split [] ys end h = (tt, h)
  NextTo-split (x ∷ xs) ys end h =
      let (a, b) = NextTo-split xs ys end h.1 in ((h.0 ∙ head_or-append xs ys end, a), b)

  pub NextTo-append :
      (xs ys : List ℕ) (end : Option ℕ)
      → NextTo f xs (head_or ys end)
      → NextTo f ys end
      → NextTo f (xs ++ ys) end
  NextTo-append [] ys end h g = g
  NextTo-append (x ∷ xs) ys end h g =
      (h.0 ∙ sym (head_or-append xs ys end), NextTo-append xs ys end h.1 g)

  pub PrevFrom-split :
      (start : Option ℕ) (xs ys : List ℕ)
      → PrevFrom f start (xs ++ ys)
      → PrevFrom f start xs × PrevFrom f (last_or start xs) ys
  PrevFrom-split start [] ys h = (tt, h)
  PrevFrom-split start (x ∷ xs) ys h =
      let (a, b) = PrevFrom-split (some x) xs ys h.1 in ((h.0, a), b)

  pub PrevFrom-append :
      (start : Option ℕ) (xs ys : List ℕ)
      → PrevFrom f start xs
      → PrevFrom f (last_or start xs) ys
      → PrevFrom f start (xs ++ ys)
  PrevFrom-append start [] ys h g = g
  PrevFrom-append start (x ∷ xs) ys h g = (h.0, PrevFrom-append (some x) xs ys h.1 g)

pub last-mem : (x : ℕ) (xs : List ℕ) → (l : ℕ) × (last_or (some x) xs ≡ some l) × (l ∈ (x ∷ xs))
last-mem x [] = (x, refl, in_head x [])
last-mem x (y ∷ ys) = let (l, e, i) = last-mem y ys in (l, e, in_tail l x (y ∷ ys) i)

in_twice : (x : ℕ) (xs : List ℕ) → x ∈ xs → 2 ≤ occurrences (x ∷ xs) x
in_twice x xs i = ground (arith, i)

pub Distinct-head : (x y : ℕ) (xs : List ℕ) → Distinct (x ∷ xs) → y ∈ xs → y ≢ x
Distinct-head x y xs d i e =
    let i' : x ∈ xs = subst (λ z. z ∈ xs) e i in omega (arith, d x, in_twice x xs i')

pub Distinct-tail : (x : ℕ) (xs : List ℕ) → Distinct (x ∷ xs) → Distinct xs
Distinct-tail x xs d y = ground (arith, d y)

module _ (f g : ℕ → Option ℕ) where
  -- Only the last successor changes.
  pub NextTo-relink :
      (xs : List ℕ) (end end' : Option ℕ)
      → Distinct xs
      → ((x : ℕ) → x ∈ xs → g x ≡ (if ptr_eq (last_or none xs) x then end' else f x))
      → NextTo f xs end
      → NextTo g xs end'
  NextTo-relink [] end end' d law h = tt
  NextTo-relink (x ∷ []) end end' d law h = (rw (==_refl x) at (law x (in_head x [])), tt)
  NextTo-relink (x ∷ y ∷ xs) end end' d law h =
      let (l, e, i) = last-mem y xs in
      let other = ==_ne l x (Distinct-head x l (y ∷ xs) d i) in
      let here : g x ≡ f x = rw (e, other) at (law x (in_head x (y ∷ xs))) in
      (
        here ∙ h.0,
        NextTo-relink (y ∷ xs) end end' (Distinct-tail x (y ∷ xs) d)
            (λ z j. law z (in_tail z x (y ∷ xs) j)) h.1,
      )

  -- Only the first predecessor changes.
  pub PrevFrom-relink :
      (xs : List ℕ) (start start' : Option ℕ)
      → Distinct xs
      → ((x : ℕ) → x ∈ xs → g x ≡ (if ptr_eq (head_or xs none) x then start' else f x))
      → PrevFrom f start xs
      → PrevFrom g start' xs
  PrevFrom-relink [] start start' d law h = tt
  PrevFrom-relink (x ∷ xs) start start' d law h = (
    rw (==_refl x) at (law x (in_head x xs)),
    PrevFrom-frame (some x) xs
        (λ z j.
          let other = ==_ne x z (λ e. Distinct-head x z xs d j (sym e)) in
          rw other at (law z (in_tail z x xs j)))
        h.1,
  )

pub last-in : (xs : List ℕ) (p : ℕ) → last_or none xs ≡ some p → p ∈ xs
last-in [] p e = absurd cc
last-in (x ∷ xs) p e =
    let (l, e', i) = last-mem x xs in let same : l ≡ p = cc in subst (λ z. z ∈ (x ∷ xs)) same i

pub head-in : (xs : List ℕ) (n : ℕ) → head_or xs none ≡ some n → n ∈ xs
head-in [] n e = absurd cc
head-in (x ∷ xs) n e = let same : x ≡ n = cc in subst (λ z. z ∈ (x ∷ xs)) same (in_head x xs)

pub Distinct-head_tail : (x y : ℕ) (xs : List ℕ) → x ≢ y → x ∈ (y ∷ xs) → x ∈ xs
Distinct-head_tail x y xs ne i = ground (arith, i, ne)

module _ (f g : ℕ → Option ℕ) where
  -- The two maps are inverse.
  pub next-prev :
      (start : Option ℕ) (xs : List ℕ)
      → NextTo f xs none
      → PrevFrom g start xs
      → Distinct xs
      → (x y : ℕ) → x ∈ xs
      → f x ≡ some y
      → (y ∈ xs) × (g y ≡ some x) × (y ≢ x)
  next-prev start [] n p d x y i e = absurd (omega (arith, i))
  next-prev start (z ∷ zs) n p d x y i e = elim (ℕ_discrete x z) [
    | yes same ↦
        let at_z : f z ≡ some y = rw (← same) e in
        let hd : head_or zs none ≡ some y = sym n.0 ∙ at_z in
        let j = head-in zs y hd in
        (
          in_tail y z zs j,
          first zs hd p.1 ∙ ap some (sym same),
          λ e'. Distinct-head z y zs d j (e' ∙ same),
        )
    | no other ↦
        let (j, k, ne) =
          next-prev (some z) zs n.1 p.1 (Distinct-tail z zs d) x y
            (Distinct-head_tail x z zs other i) e in
        (in_tail y z zs j, k, ne)
  ]
    where
      first : (vs : List ℕ) → head_or vs none ≡ some y → PrevFrom g (some z) vs → g y ≡ some z
      first [] e q = absurd cc
      first (v ∷ vs) e q = let same : v ≡ y = cc in rw (← same) q.0

  pub prev-none :
      (xs : List ℕ) → PrevFrom g none xs → (x : ℕ) → x ∈ xs → g x ≡ none → head_or xs none ≡ some x
  prev-none [] p x i e = absurd (omega (arith, i))
  prev-none (z ∷ zs) p x i e = elim (ℕ_discrete x z) [
    | yes same ↦ ap some (sym same)
    | no other ↦ absurd (later z zs p.1 (Distinct-head_tail x z zs other i))
  ]
    where
      later : (v : ℕ) (vs : List ℕ) → PrevFrom g (some v) vs → x ∈ vs → ⊥
      later v [] q j = omega (arith, j)
      later v (u ∷ us) q j = elim (ℕ_discrete x u) [
        | yes same ↦ (let e' : g u ≡ none = rw (← same) e in absurd cc)
        | no other ↦ later u us q.1 (Distinct-head_tail x u us other j)
      ]

pub last-next :
    (f : ℕ → Option ℕ) (xs : List ℕ) (end : Option ℕ) (x : ℕ)
    → NextTo f xs end
    → last_or none xs ≡ some x
    → f x ≡ end
last-next f [] end x n e = absurd cc
last-next f (y ∷ []) end x n e = let same : y ≡ x = cc in rw (← same) n.0
last-next f (y ∷ z ∷ zs) end x n e = last-next f (z ∷ zs) end x n.1 e

pub ptr_eq_lem : (p : Option ℕ) (c : ℕ) → ptr_eq p c ≡ true → p ≡ some c
ptr_eq_lem none c e = absurd cc
ptr_eq_lem (some p) c e = ap some (ground arith)
