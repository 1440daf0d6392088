-- ===== src/Dirtree/Language.antt =====
-- Lab2/202110421_assign2/dirtree.c: the patterns of option -f as a language, apart from the code.
pub mod Loops
pub mod Parts
pub mod Decides
pub mod Heads
pub mod Validate
pub mod Filter
use system_programming.Base.{
  ℕ, zero, suc, ◌≡◌, ◌≢◌, ◌⊎◌, ◌&&◌, Bool, true, false, Option, none, some, List, [], ◌∷◌, ◌++◌,
  ◌==◌, if◌then◌else◌, replicate,
}
use system_programming.Dirtree.Pattern.{star, question, open_paren, close_paren, next_depth}

-- `x`, `x*`, `(xyz)` and `(xyz)*`.
pub data Atom : Type 0 where
  once : ℕ → Atom
  many : ℕ → Atom
  group : List ℕ → Atom
  groups : List ℕ → Atom

unfoldable pub render : List Atom → List ℕ
render [] = []
render (once c ∷ ps) = c ∷ render ps
render (many c ∷ ps) = c ∷ star ∷ render ps
render (group g ∷ ps) = open_paren ∷ g ++ close_paren ∷ render ps
render (groups g ∷ ps) = open_paren ∷ g ++ close_paren ∷ star ∷ render ps

-- The depth of brackets behind a text, where no bracket in it closes the outermost one.
unfoldable pub depth_behind : ℕ → List ℕ → Option ℕ
depth_behind depth [] = some depth
depth_behind depth (c ∷ cs) =
    let rest = depth_behind (next_depth depth c) cs in
    if (c == close_paren) && (next_depth depth c == 0) then none else rest

abbrev pub IsPlain : ℕ → Type 0
IsPlain c = (c ≢ star) × (c ≢ open_paren) × (c ≢ close_paren)

-- Not empty, and with brackets in pairs.
abbrev pub IsGroup : List ℕ → Type 0
IsGroup g = (g ≢ []) × (depth_behind 1 g ≡ some 1)

abbrev pub AtomOk : Atom → Type 0
AtomOk (once c) = IsPlain c
AtomOk (many c) = IsPlain c
AtomOk (group g) = IsGroup g
AtomOk (groups g) = IsGroup g

abbrev pub AtomsOk : List Atom → Type 0
AtomsOk [] = Unit {0}
AtomsOk (a ∷ ps) = AtomOk a × AtomsOk ps

-- A text that a group stands for: `?` stands for any character.
unfoldable pub Fits : List ℕ → List ℕ → Type 0
Fits [] [] = Unit {0}
Fits (c ∷ g) (d ∷ m) = ((c ≡ question) ⊎ (d ≡ c)) × Fits g m
Fits _ _ = ⊥

unfoldable pub Times : ℕ → List ℕ → List ℕ → Type 0
Times zero g m = m ≡ []
Times (suc n) g m = (a : List ℕ) × (b : List ℕ) × (m ≡ a ++ b) × Fits g a × Times n g b

-- The texts an atom stands for.
unfoldable pub Denotes : Atom → List ℕ → Type 0
Denotes (once c) m = Fits (c ∷ []) m
Denotes (many c) m = (n : ℕ) × (m ≡ replicate n c)
Denotes (group g) m = Fits g m
Denotes (groups g) m = (n : ℕ) × Times n g m

-- A text that starts with one the pattern stands for.
unfoldable pub Matches : List Atom → List ℕ → Type 0
Matches [] s = Unit {0}
Matches (a ∷ ps) s = (m : List ℕ) × (r : List ℕ) × (s ≡ m ++ r) × Denotes a m × Matches ps r

-- What a call returns tells whether the property holds.
pub data Decided (o : Option Bool) (P : Type 0) : Type 0 where
  holds : o ≡ some true → P → Decided o P
  fails : o ≡ some false → ¬ P → Decided o P
