-- ===== src/Tests/Decomment.antt =====
-- Lab1/decomment_past.c: sample texts.
use system_programming.Base.{◌+◌, ◌≡◌, refl, some, none, List, [], ◌∷◌, ◌++◌, occurrences, arith}
use system_programming.Base.Int.{pos}
use system_programming.Decomment.{
  slash, star, newline, space, double_quote, step, run, report, decomment,
}
use system_programming.Decomment.Segments.{
  char, escape, Segment, plain, divide, literal, line_comment, block_comment, SegmentsOk, sources,
  replacements,
}
use system_programming.Decomment.Segments.Runs.{decomment-segments, decomment-unterminated}

program : Unit {0}
unfolding step run report decomment
program = tt

-- a/b"\"/*"/*c*\nd**/ // e
abbrev sample : List Segment
sample =
    plain b'a'
    ∷ divide b'b'
    ∷ literal double_quote (escape double_quote ∷ char slash ∷ char star ∷ [])
    ∷ block_comment (b'c' ∷ star ∷ newline ∷ b'd' ∷ newline ∷ star ∷ [])
    ∷ plain space
    ∷ line_comment (space ∷ b'e' ∷ [])
    ∷ []

sample-SegmentsOk : SegmentsOk sample
sample-SegmentsOk = ground arith

decomment-segments_example :
    decomment (sources sample)
    ≡ record { output = replacements sample; error_line = none; exit_status = 0 }
decomment-segments_example = decomment-segments sample sample-SegmentsOk

-- The same by evaluation.
sample_written : (decomment (sources sample)).output ≡ replacements sample
unfolding program
sample_written = refl

decomment-unterminated_example :
    decomment (sources sample ++ slash ∷ star ∷ b'x' ∷ newline ∷ []) ≡ record {
      output = replacements sample ++ space ∷ newline ∷ [];
      error_line = some (pos (1 + occurrences (sources sample) newline));
      exit_status = 0;
    }
decomment-unterminated_example =
    decomment-unterminated sample (b'x' ∷ newline ∷ []) sample-SegmentsOk (refl, (refl, tt))
