-- ===== src/Decomment.antt =====
-- Lab1/decomment_past.c: the comment remover, a DFA over the characters of standard input.
-- `decomment` is `main`: `run` is its `while` loop, `step` the body for one character, and `report`
-- what it does at EOF. Output is the list of characters written to standard output.
pub mod Lines
pub mod Length
pub mod Segments
use system_programming.Base.{
  ℕ, ◌+◌, Bool, true, false, ◌&&◌, ◌||◌, Option, none, some, List, [], ◌∷◌, ◌++◌, ◌==◌,
  if◌then◌else◌,
}
use system_programming.Base.Int.{ℤ, pos, minus_one}

pub data DfaState : Type 0 where
  start quote wait_comment single_line multi_line wait_end : DfaState

-- The locals of `main`; `cquote_type` holds nothing before the first quote, and `char` is unused.
pub record Dfa : Type 0 where
  pub state : DfaState
  pub cquote_type : ℕ
  pub backslash : Bool
  pub line_cur : ℕ
  pub line_com : ℤ

abbrev pub slash : ℕ
slash = b'/'

abbrev pub star : ℕ
star = b'*'

abbrev pub newline : ℕ
newline = 10

abbrev pub space : ℕ
space = 32

abbrev pub double_quote : ℕ
double_quote = 34

abbrev pub single_quote : ℕ
single_quote = 39

abbrev pub backslash_char : ℕ
backslash_char = 92

abbrev pub is_quote : ℕ → Bool
is_quote c = (c == double_quote) || (c == single_quote)

-- `case START`
unfoldable pub start_step : Dfa → ℕ → Dfa × List ℕ
start_step m ich =
    if ich == slash
    then (record m { state = wait_comment }, [])
    else if is_quote ich
    then (record m { state = quote; cquote_type = ich }, ich ∷ [])
    else (m, ich ∷ [])

unfoldable pub handle_quote : Dfa → ℕ → Dfa × List ℕ
handle_quote m ich =
    if (ich == m.cquote_type) && (if m.backslash then false else true)
    then (record m { state = start }, ich ∷ [])
    else if ich == backslash_char
    then (record m { backslash = true }, ich ∷ [])
    else if m.backslash
    then (record m { backslash = false }, ich ∷ [])
    else (m, ich ∷ [])

unfoldable pub handle_wait_comment : Dfa → ℕ → Dfa × List ℕ
handle_wait_comment m ich =
    if ich == slash
    then (record m { state = single_line }, space ∷ [])
    else if ich == star
    then (record m { state = multi_line; line_com = pos m.line_cur }, space ∷ [])
    else (record m { state = start }, slash ∷ ich ∷ [])

-- `case SINGLELINE`
unfoldable pub single_line_step : Dfa → ℕ → Dfa × List ℕ
single_line_step m ich =
    if ich == newline then (record m { state = start }, space ∷ newline ∷ []) else (m, [])

-- `case MULTILINE`
unfoldable pub multi_line_step : Dfa → ℕ → Dfa × List ℕ
multi_line_step m ich =
    if ich == star
    then (record m { state = wait_end }, [])
    else if ich == newline
    then (m, newline ∷ [])
    else (m, [])

unfoldable pub handle_wait_end : Dfa → ℕ → Dfa × List ℕ
handle_wait_end m ich =
    if ich == slash
    then (record m { state = start }, [])
    else if ich == star
    then (record m { state = wait_end }, [])
    else (record m { state = multi_line }, [])

-- The `switch`.
unfoldable pub dispatch : DfaState → Dfa → ℕ → Dfa × List ℕ
unfolding start_step handle_quote handle_wait_comment single_line_step multi_line_step
    handle_wait_end
dispatch start m ich = start_step m ich
dispatch quote m ich = handle_quote m ich
dispatch wait_comment m ich = handle_wait_comment m ich
dispatch single_line m ich = single_line_step m ich
dispatch multi_line m ich = multi_line_step m ich
dispatch wait_end m ich = handle_wait_end m ich

-- `if (ch == '\n') line_cur++;`
unfoldable pub count_line : Dfa → ℕ → Dfa
count_line m ich = if ich == newline then record m { line_cur = m.line_cur + 1 } else m

unfoldable pub step : Dfa → ℕ → Dfa × List ℕ
unfolding dispatch count_line
step m ich = let (m', out) = dispatch m.state m ich in (count_line m' ich, out)

-- The loop, up to EOF: the final state and everything written.
unfoldable pub run : Dfa → List ℕ → Dfa × List ℕ
run m [] = (m, [])
run m (c ∷ cs) = let (m', out) = step m c in let (m'', rest) = run m' cs in (m'', out ++ rest)

abbrev pub initial : Dfa
initial = record {
  state = start;
  cquote_type = 0;
  backslash = false;
  line_cur = 1;
  line_com = minus_one;
}

-- The test at EOF, and the line number of the error message, if one is written.
abbrev pub in_comment : DfaState → Bool
in_comment multi_line = true
in_comment wait_end = true
in_comment _ = false

unfoldable pub report : Dfa → Option ℤ
report m = if in_comment m.state then some m.line_com else none

pub record Result : Type 0 where
  pub output : List ℕ
  pub error_line : Option ℤ
  pub exit_status : ℕ

-- `main`: it returns EXIT_SUCCESS on every path.
unfoldable pub decomment : List ℕ → Result
decomment input =
    let (m, out) = run initial input in
    record { output = out; error_line = report m; exit_status = 0 }
