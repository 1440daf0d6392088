-- ===== src/Decomment/Length.antt =====
-- Lab1/decomment_past.c: the size of the output.
use system_programming.Base.{ℕ, ◌+◌, ◌≤◌, List, [], ◌∷◌, length, length-append, arith}
use system_programming.Decomment.{Dfa, DfaState, start, quote, step, run, initial, decomment}

-- Characters read in this state whose output is still owed.
abbrev owed : DfaState → ℕ
owed start = 0
owed quote = 0
owed _ = 1

step-length : (m : Dfa) (c : ℕ) → length (step m c).1 + owed (step m c).0.state ≤ 1 + owed m.state
unfolding step
step-length m c = by_state m.state
  where
    by_state :
        (s : DfaState)
        → length (step (record m { state = s }) c).1
            + owed (step (record m { state = s }) c).0.state
          ≤ 1 + owed s
    by_state start = ground arith
    by_state _ = ground arith

run-length :
    (m : Dfa) (cs : List ℕ)
    → length (run m cs).1 + owed (run m cs).0.state ≤ length cs + owed m.state
unfolding run
run-length m [] = omega arith
run-length m (c ∷ cs) = omega (
  arith,
  step-length m c,
  run-length (step m c).0 cs,
  length-append (step m c).1 (run (step m c).0 cs).1,
)

-- On every input the output is at most as long as the input.
pub decomment-length : (cs : List ℕ) → length (decomment cs).output ≤ length cs
unfolding decomment
decomment-length cs = omega (arith, run-length initial cs)
