-- ===== src/Decomment/Lines.antt =====
-- Lab1/decomment_past.c: line numbers, and the line breaks of the output.
use system_programming.Base.{
  ℕ, ◌+◌, ◌≤◌, ◌≡◌, List, [], ◌∷◌, occurrences, occurrences-append, arith,
}
use system_programming.Decomment.{Dfa, DfaState, newline, dispatch, step, run, initial, decomment}

step-line_cur :
    (m : Dfa) (c : ℕ) → (step m c).0.line_cur ≡ m.line_cur + occurrences (c ∷ []) newline
unfolding step
step-line_cur m c = by_state m.state
  where
    by_state :
        (s : DfaState)
        → (step (record m { state = s }) c).0.line_cur ≡ m.line_cur + occurrences (c ∷ []) newline
    by_state DfaState.start = ground arith
    by_state _ = ground arith

-- From any state of the DFA, `line_cur` grows by the number of newlines read.
pub run-line_cur :
    (m : Dfa) (cs : List ℕ) → (run m cs).0.line_cur ≡ m.line_cur + occurrences cs newline
unfolding run
run-line_cur m [] = omega arith
run-line_cur m (c ∷ cs) = ground (arith, step-line_cur m c, run-line_cur (step m c).0 cs)

step-newlines : (m : Dfa) (c : ℕ) → occurrences (step m c).1 newline ≤ occurrences (c ∷ []) newline
unfolding step
step-newlines m c = by_state m.state
  where
    by_state :
        (s : DfaState) → occurrences (dispatch s m c).1 newline ≤ occurrences (c ∷ []) newline
    by_state DfaState.start = ground arith
    by_state _ = ground arith

run-newlines : (m : Dfa) (cs : List ℕ) → occurrences (run m cs).1 newline ≤ occurrences cs newline
unfolding run
run-newlines m [] = omega arith
run-newlines m (c ∷ cs) = ground (
  arith,
  step-newlines m c,
  run-newlines (step m c).0 cs,
  occurrences-append (step m c).1 (run (step m c).0 cs).1 newline,
)

-- On every input the program writes at most as many newlines as it reads, so it never adds a line.
pub decomment-newlines :
    (cs : List ℕ) → occurrences (decomment cs).output newline ≤ occurrences cs newline
unfolding decomment
decomment-newlines cs = run-newlines initial cs
