-- ===== src/Decomment/Segments/Defects.antt =====
-- Lab1/decomment_past.c: three kinds of input on which the program does not do what it is meant to.
use system_programming.Base.{ℕ, ◌≡◌, ◌≢◌, refl, true, false, none, List, [], ◌∷◌, ◌++◌, append-nil}
use system_programming.Base.Int.{ℤ, minus_one}
use system_programming.Decomment.{quote, slash, backslash_char, is_quote, run, report, decomment}
use system_programming.Decomment.Segments.{Segment, SegmentsOk, sources, replacements}
use system_programming.Decomment.Segments.Steps.{
  at, next_line, run-nil, run-cons, run-append, step-quote, step-char, step-backslash, step-slash,
  step-escaped_quote, step-slash_quote,
}
use system_programming.Decomment.Segments.Runs.{sources-Lands, Lands}

-- Characters that are neither the quote nor a backslash.
abbrev pub Inside : ℕ → List ℕ → Type 0
Inside q [] = Unit {0}
Inside q (c ∷ cs) = (c ≢ q) × (c ≢ backslash_char) × Inside q cs

Inside-Lands :
    (q n : ℕ) (l : ℤ) (cs : List ℕ) → Inside q cs → Lands (at quote q false n l) cs quote cs
Inside-Lands q n l [] ok = (q, n, l, unfold run in refl)
Inside-Lands q n l (c ∷ cs) ok =
    let (q', n', l', e) = Inside-Lands q (next_line n c) l cs ok.2 in
    (q', n', l', run-cons _ c cs (step-char q n l c ok.0 ok.1) e)

-- A literal that consists of an escaped backslash is not closed by its quote: behind it any text
-- without that quote and without backslashes is written unchanged, its comments included, and no error
-- is reported.
pub decomment-escaped_backslash :
    (q : ℕ) (cs : List ℕ)
    → is_quote q ≡ true
    → Inside q cs
    → decomment (q ∷ backslash_char ∷ backslash_char ∷ q ∷ cs) ≡ record {
      output = q ∷ backslash_char ∷ backslash_char ∷ q ∷ cs;
      error_line = none;
      exit_status = 0;
    }
unfolding decomment report
decomment-escaped_backslash q cs h ok =
    let (q', n', l', e) = Inside-Lands q 1 minus_one cs ok in
    let all = run-cons _ q _ (step-quote 0 1 minus_one q h) (
      run-cons _ backslash_char _ (step-backslash q 1 minus_one false h) (
        run-cons _ backslash_char _ (step-backslash q 1 minus_one true h)
          (run-cons _ q cs (step-escaped_quote q 1 minus_one h) e))) in
    rw all

-- A slash directly before the end of the input is lost: a text made of the segments that are handled,
-- followed by a slash, is written without that slash.
pub decomment-last_slash :
    (ss : List Segment)
    → SegmentsOk ss
    → (decomment (sources ss ++ slash ∷ [])).output ≡ replacements ss
unfolding decomment
decomment-last_slash ss ok =
    let (q, n, l, e) = sources-Lands 0 1 minus_one ss ok in
    let all =
      run-append _ (sources ss) (slash ∷ []) e
        (run-cons _ slash [] (step-slash q n l) (run-nil _)) in
    rw all (append-nil (replacements ss))

-- A quote directly behind a slash opens no literal: the slash and the quote are written, and the text
-- behind them is treated as the program treats a whole file, so that its comments are removed and its
-- first quote opens a literal.
pub decomment-slash_quote :
    (q : ℕ) (cs : List ℕ)
    → is_quote q ≡ true
    → decomment (slash ∷ q ∷ cs)
      ≡ record (decomment cs) { output = slash ∷ q ∷ (decomment cs).output }
unfolding decomment run
decomment-slash_quote q cs h = rw (step-slash 0 1 minus_one, step-slash_quote 0 1 minus_one q h)
