-- ===== src/Base/Text.antt =====
-- Texts of the sources as bytes, and decimal numbers. The texts are of ASCII.
use Prim.Native.Nat.{ℕ, zero, suc, ◌+◌, ◌-◌, ◌/◌, ◌%◌}
use Prim.Native.Char.{code}
use Prim.Native.String.{String}
use mathlib.Core.List.{List, [], ◌∷◌, ◌++◌}
use system_programming.Base.Tests.{ltb, if◌then◌else◌}
use system_programming.Base.Lists.{length, replicate}

abbrev pub text : String → List ℕ
text String.[] = []
text (String.◌∷◌ c s) = code c ∷ text s

-- The conversion `%u`: `fuel` is a bound on the number of digits.
unfoldable pub digits : ℕ → ℕ → List ℕ
digits zero n = []
digits (suc fuel) n =
    let high = digits fuel (n / 10) in
    if ltb n 10 then (b'0' + n) ∷ [] else high ++ (b'0' + n % 10) ∷ []

-- Of a number of 64 bits.
abbrev pub decimal : ℕ → List ℕ
decimal n = digits 20 n

-- `%*s` and `%-*s`: spaces in front or behind, up to a width.
abbrev pub pad_left : ℕ → List ℕ → List ℕ
pad_left width s = replicate (width - length s) b' ' ++ s

abbrev pub pad_right : ℕ → List ℕ → List ℕ
pad_right width s = s ++ replicate (width - length s) b' '
