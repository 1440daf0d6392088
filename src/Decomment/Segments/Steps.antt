-- ===== src/Decomment/Segments/Steps.antt =====
-- Lab1/decomment_past.c: one step of the DFA in each state, and runs joined together.
use system_programming.Base.{
  ℕ, ◌+◌, ◌≡◌, ◌≢◌, refl, Bool, true, false, ◌&&◌, List, [], ◌∷◌, ◌++◌, ◌==◌, if◌then◌else◌,
  append_assoc, arith,
}
use system_programming.Base.Int.{ℤ, pos}
use system_programming.Decomment.{
  DfaState, start, quote, wait_comment, single_line, multi_line, wait_end, Dfa, slash, star,
  newline, space, backslash_char, is_quote, step, run,
}

-- A state of the DFA by its parts, and the line number behind a character.
abbrev pub at : DfaState → ℕ → Bool → ℕ → ℤ → Dfa
at s q b n l = record { state = s; cquote_type = q; backslash = b; line_cur = n; line_com = l }

abbrev pub next_line : ℕ → ℕ → ℕ
next_line n c = if c == newline then n + 1 else n

pub run-nil : (m : Dfa) → run m [] ≡ (m, [])
unfolding run
run-nil m = refl

module _ (m : Dfa) {m₁ m₂ : Dfa} where
  pub run-cons :
      (c : ℕ) (cs : List ℕ) {o₁ o₂ : List ℕ}
      → step m c ≡ (m₁, o₁)
      → run m₁ cs ≡ (m₂, o₂)
      → run m (c ∷ cs) ≡ (m₂, o₁ ++ o₂)
  unfolding run
  run-cons c cs e f = rw (e, f)

run-append_lem :
    (m : Dfa) (xs ys : List ℕ)
    → run m (xs ++ ys) ≡ ((run (run m xs).0 ys).0, (run m xs).1 ++ (run (run m xs).0 ys).1)
unfolding run
run-append_lem m [] ys = refl
run-append_lem m (c ∷ xs) ys = simp (run-append_lem (step m c).0 xs ys, append_assoc)

module _ (m : Dfa) {m₁ m₂ : Dfa} where
  pub run-append :
      (xs ys : List ℕ) {o₁ o₂ : List ℕ}
      → run m xs ≡ (m₁, o₁)
      → run m₁ ys ≡ (m₂, o₂)
      → run m (xs ++ ys) ≡ (m₂, o₁ ++ o₂)
  run-append xs ys e f = rw (run-append_lem m xs ys, e, f)

module _ (q n : ℕ) (l : ℤ) where
  pub step-plain :
      (c : ℕ)
      → c ≢ slash
      → is_quote c ≡ false
      → step (at start q false n l) c ≡ (at start q false (next_line n c) l, c ∷ [])
  unfolding step
  step-plain c h k = ground arith

  pub step-quote :
      (c : ℕ) → is_quote c ≡ true → step (at start q false n l) c ≡ (at quote c false n l, c ∷ [])
  unfolding step
  step-quote c h = ground arith

  pub step-slash : step (at start q false n l) slash ≡ (at wait_comment q false n l, [])
  unfolding step
  step-slash = refl

  pub step-second_slash :
      step (at wait_comment q false n l) slash ≡ (at single_line q false n l, space ∷ [])
  unfolding step
  step-second_slash = refl

  pub step-slash_star :
      step (at wait_comment q false n l) star ≡ (at multi_line q false n (pos n), space ∷ [])
  unfolding step
  step-slash_star = refl

  pub step-divide :
      (c : ℕ)
      → c ≢ slash
      → c ≢ star
      → step (at wait_comment q false n l) c ≡ (at start q false (next_line n c) l, slash ∷ c ∷ [])
  unfolding step
  step-divide c h k = ground arith

  pub step-char :
      (c : ℕ)
      → c ≢ q
      → c ≢ backslash_char
      → step (at quote q false n l) c ≡ (at quote q false (next_line n c) l, c ∷ [])
  unfolding step
  step-char c h k = ground arith

  pub step-close :
      is_quote q ≡ true → step (at quote q false n l) q ≡ (at start q false n l, q ∷ [])
  unfolding step
  step-close h = ground arith

  pub step-backslash :
      (b : Bool)
      → is_quote q ≡ true
      → step (at quote q b n l) backslash_char ≡ (at quote q true n l, backslash_char ∷ [])
  unfolding step
  step-backslash b h = ground arith

  pub step-escaped :
      (c : ℕ)
      → c ≢ backslash_char
      → step (at quote q true n l) c ≡ (at quote q false (next_line n c) l, c ∷ [])
  unfolding step
  step-escaped c h = ground arith

  pub step-escaped_quote :
      is_quote q ≡ true → step (at quote q true n l) q ≡ (at quote q false n l, q ∷ [])
  unfolding step
  step-escaped_quote h = ground arith

  pub step-slash_quote :
      (c : ℕ)
      → is_quote c ≡ true
      → step (at wait_comment q false n l) c ≡ (at start q false n l, slash ∷ c ∷ [])
  unfolding step
  step-slash_quote c h = ground arith

  pub step-line_body :
      (c : ℕ) → c ≢ newline → step (at single_line q false n l) c ≡ (at single_line q false n l, [])
  unfolding step
  step-line_body c h = ground arith

  -- Inside a block comment the state remembers whether the last character was a star.
  abbrev pub in_block : Bool → Dfa
  in_block starred = at (if starred then wait_end else multi_line) q false n l

-- The character that a block comment keeps.
abbrev pub kept : Bool → ℕ → List ℕ
kept starred c = if starred then [] else if c == newline then newline ∷ [] else []

pub step-block_body :
    (q n : ℕ) (l : ℤ) (starred : Bool) (c : ℕ)
    → (starred && c == slash) ≡ false
    → step (in_block q n l starred) c ≡ (in_block q (next_line n c) l (c == star), kept starred c)
unfolding step
step-block_body q n l true c h = ground arith
step-block_body q n l false c h = ground arith
