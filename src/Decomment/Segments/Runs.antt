-- ===== src/Decomment/Segments/Runs.antt =====
-- Lab1/decomment_past.c: the program on a text that is made of segments.
use system_programming.Base.{
  ℕ, ◌+◌, ◌≡◌, refl, Bool, true, false, some, none, List, [], ◌∷◌, ◌++◌, ◌==◌, append-nil,
  occurrences, sym, ◌∙◌, ap, arith,
}
use system_programming.Base.Int.{ℤ, pos, minus_one}
use system_programming.Decomment.{
  DfaState, start, quote, single_line, Dfa, slash, star, newline, space, backslash_char, is_quote,
  step, run, initial, report, decomment,
}
use system_programming.Decomment.Lines.{run-line_cur}
use system_programming.Decomment.Segments.{
  Item, char, escape, Segment, plain, divide, literal, line_comment, block_comment, item_source,
  source, kept_newlines, replacement, OneLine, NoEnd, ItemsOk, SegmentOk, SegmentsOk, sources,
  replacements,
}
use system_programming.Decomment.Segments.Steps.{
  at, next_line, in_block, kept, run-cons, run-append, step-plain, step-quote, step-divide,
  step-slash, step-second_slash, step-slash_star, step-char, step-close, step-backslash,
  step-escaped, step-line_body, step-block_body,
}

-- The run ends in the state `s`, outside an escape, with this output.
abbrev pub Lands : Dfa → List ℕ → DfaState → List ℕ → Type 0
Lands m cs s out = (q n : ℕ) × (l : ℤ) × (run m cs ≡ (at s q false n l, out))

items-Lands :
    (q n : ℕ) (l : ℤ) (is : List Item)
    → is_quote q ≡ true
    → ItemsOk q is
    → Lands (at quote q false n l) (item_source is ++ q ∷ []) start (item_source is ++ q ∷ [])
items-Lands q n l [] h ok = (q, n, l, run-cons _ q [] (step-close q n l h) (unfold run in refl))
items-Lands q n l (char c ∷ is) h ok =
    let (q', n', l', e) = items-Lands q (next_line n c) l is h ok.1 in
    (q', n', l', run-cons _ c _ (step-char q n l c ok.0.0 ok.0.1) e)
items-Lands q n l (escape c ∷ is) h ok =
    let (q', n', l', e) = items-Lands q (next_line n c) l is h ok.1 in
    (
      q',
      n',
      l',
      run-cons _ backslash_char _ (step-backslash q n l false h)
          (run-cons _ c _ (step-escaped q n l c ok.0) e),
    )

line-Lands :
    (q n : ℕ) (l : ℤ) (body : List ℕ)
    → OneLine body
    → Lands (at single_line q false n l) (body ++ newline ∷ []) start (space ∷ newline ∷ [])
line-Lands q n l [] ok = (q, n + 1, l, unfold run step in refl)
line-Lands q n l (c ∷ body) ok =
    let (q', n', l', e) = line-Lands q n l body ok.1 in
    (q', n', l', run-cons _ c _ (step-line_body q n l c ok.0) e)

kept-append :
    (starred : Bool) (c : ℕ) (cs : List ℕ)
    → kept starred c ++ kept_newlines (c == star) cs ≡ kept_newlines starred (c ∷ cs)
kept-append true c cs = refl
kept-append false c cs = ground arith

-- The body of a block comment, from either of its two states.
pub body-run :
    (q n : ℕ) (l : ℤ) (starred : Bool) (body : List ℕ)
    → NoEnd starred body
    → (n' : ℕ) × (starred' : Bool) × (run (in_block q n l starred) body
        ≡ (in_block q n' l starred', kept_newlines starred body))
body-run q n l starred [] ok = (n, starred, unfold run in refl)
body-run q n l starred (c ∷ body) ok =
    let (n', starred', e) = body-run q (next_line n c) l (c == star) body ok.1 in
    (
      n',
      starred',
      run-cons _ c body (step-block_body q n l starred c ok.0) e
          ∙ ap (λ out. (in_block q n' l starred', out)) (kept-append starred c body),
    )

close-Lands :
    (q n : ℕ) (l : ℤ) (starred : Bool) → Lands (in_block q n l starred) (star ∷ slash ∷ []) start []
close-Lands q n l true = (q, n, l, unfold run step in refl)
close-Lands q n l false = (q, n, l, unfold run step in refl)

opened :
    (q n : ℕ) (l : ℤ) (cs : List ℕ) {m : Dfa} {out : List ℕ}
    → run (in_block q n (pos n) false) cs ≡ (m, out)
    → run (at start q false n l) (slash ∷ star ∷ cs) ≡ (m, space ∷ out)
opened q n l cs e =
    run-cons _ slash (star ∷ cs) (step-slash q n l) (run-cons _ star cs (step-slash_star q n l) e)

segment-Lands :
    (q n : ℕ) (l : ℤ) (s : Segment)
    → SegmentOk s
    → Lands (at start q false n l) (source s) start (replacement s)
segment-Lands q n l (plain c) ok =
    (q, next_line n c, l, run-cons _ c [] (step-plain q n l c ok.0 ok.1) (unfold run in refl))
segment-Lands q n l (divide c) ok = (
  q,
  next_line n c,
  l,
  run-cons _ slash (c ∷ []) (step-slash q n l)
      (run-cons _ c [] (step-divide q n l c ok.0 ok.1) (unfold run in refl)),
)
segment-Lands q n l (literal k is) ok =
    let (q', n', l', e) = items-Lands k n l is ok.0 ok.1 in
    (q', n', l', run-cons _ k _ (step-quote q n l k ok.0) e)
segment-Lands q n l (line_comment body) ok =
    let (q', n', l', e) = line-Lands q n l body ok in
    (
      q',
      n',
      l',
      run-cons _ slash _ (step-slash q n l) (run-cons _ slash _ (step-second_slash q n l) e),
    )
segment-Lands q n l (block_comment body) ok =
    let (n₁, starred, e) = body-run q n (pos n) false body ok in
    let (q', n', l', f) = close-Lands q n₁ (pos n) starred in
    (
      q',
      n',
      l',
      opened q n l _ (
          run-append _ body (star ∷ slash ∷ []) e f
          ∙ ap (λ out. (at start q' false n' l', out)) (append-nil (kept_newlines false body))),
    )

pub sources-Lands :
    (q n : ℕ) (l : ℤ) (ss : List Segment)
    → SegmentsOk ss
    → Lands (at start q false n l) (sources ss) start (replacements ss)
sources-Lands q n l [] ok = (q, n, l, unfold run in refl)
sources-Lands q n l (s ∷ ss) ok =
    let (q₁, n₁, l₁, e) = segment-Lands q n l s ok.0 in
    let (q', n', l', f) = sources-Lands q₁ n₁ l₁ ss ok.1 in
    (q', n', l', run-append _ (source s) (sources ss) e f)

-- A text made of segments that the program handles (plain characters, divisions that are followed by
-- neither a slash, a star nor a quote, literals in which no escape is of a backslash, line comments
-- with their newline and closed block comments) is written with each segment replaced: code, divisions
-- and literals unchanged, a line comment by two spaces and the newline, a block comment by a space and
-- its newlines but those directly behind a star. There is no error message.
pub decomment-segments :
    (ss : List Segment)
    → SegmentsOk ss
    → decomment (sources ss)
      ≡ record { output = replacements ss; error_line = none; exit_status = 0 }
unfolding decomment report
decomment-segments ss ok = let (q, n, l, e) = sources-Lands 0 1 minus_one ss ok in rw e

report-in_block : (q n : ℕ) (l : ℤ) (starred : Bool) → report (in_block q n l starred) ≡ some l
unfolding report
report-in_block q n l true = refl
report-in_block q n l false = refl

-- A text made of such segments and a block comment that never ends is reported at the line on which
-- that comment opens, 1 plus the newlines before it; its newlines but those directly behind a star are
-- kept, and the exit status is 0.
pub decomment-unterminated :
    (ss : List Segment) (body : List ℕ)
    → SegmentsOk ss
    → NoEnd false body
    → decomment (sources ss ++ slash ∷ star ∷ body) ≡ record {
      output = replacements ss ++ space ∷ kept_newlines false body;
      error_line = some (pos (1 + occurrences (sources ss) newline));
      exit_status = 0;
    }
unfolding decomment
decomment-unterminated ss body ok open_body =
    let (q, n, l, e) = sources-Lands 0 1 minus_one ss ok in
    let (n₁, starred, f) = body-run q n (pos n) false body open_body in
    let all = run-append _ (sources ss) (slash ∷ star ∷ body) e (opened q n l body f) in
    let line : n ≡ 1 + occurrences (sources ss) newline =
      ap (λ (r : Dfa × List ℕ). r.0.line_cur) (sym e) ∙ run-line_cur initial (sources ss) in
    rw (all, report-in_block, line)
