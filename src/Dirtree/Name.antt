-- ===== src/Dirtree/Name.antt =====
-- Lab2/202110421_assign2/dirtree.c: the name column, of `format_truncated_left` and `build_display_name`.
use system_programming.Base.{
  ℕ, zero, suc, ◌-◌, ◌*◌, ◌≤◌, ◌<◌, ◌≡◌, refl, ap, Option, none, some, List, [], ◌∷◌, ◌++◌, ◌==◌,
  leb, ltb, if-cases, true, false, if◌then◌else◌, length, length-append, replicate, take, arith,
}

-- What `snprintf` leaves of a text in a buffer that is not empty: a byte is for the final 0.
abbrev pub snprintf : ℕ → List ℕ → List ℕ
snprintf dstsz text = take (dstsz - 1) text

abbrev pub dots : List ℕ
dots = b'.' ∷ b'.' ∷ b'.' ∷ []

-- `none` where nothing is written.
unfoldable pub format_truncated_left : ℕ → List ℕ → ℕ → Option (List ℕ)
format_truncated_left dstsz src width =
    if dstsz == 0
    then none
    else if leb (length src) width
    then some (snprintf dstsz src)
    else if ltb 3 width
    then some (snprintf dstsz (take (width - 3) src ++ dots))
    else some (snprintf dstsz (take width src))

-- The name behind two spaces for each level.
abbrev pub indented : List ℕ → ℕ → List ℕ
indented name depth = replicate (depth * 2) b' ' ++ name

unfoldable pub build_display_name : ℕ → List ℕ → ℕ → Option (List ℕ)
unfolding format_truncated_left
build_display_name dstsz name depth =
    format_truncated_left dstsz (snprintf 1024 (indented name depth)) 54

take-all : (n : ℕ) (cs : List ℕ) → length cs ≤ n → take n cs ≡ cs
take-all zero [] h = refl
take-all zero (c ∷ cs) h = absurd (omega arith)
take-all (suc n) [] h = refl
take-all (suc n) (c ∷ cs) h = ap (λ t. c ∷ t) (take-all n cs (omega arith))

take-take : (m n : ℕ) (cs : List ℕ) → m ≤ n → take m (take n cs) ≡ take m cs
take-take zero n cs h = refl
take-take (suc m) zero cs h = absurd (omega arith)
take-take (suc m) (suc n) [] h = refl
take-take (suc m) (suc n) (c ∷ cs) h = ap (λ t. c ∷ t) (take-take m n cs (omega arith))

length-take : (n : ℕ) (cs : List ℕ) → n ≤ length cs → length (take n cs) ≡ n
length-take zero cs h = refl
length-take (suc n) [] h = absurd (omega arith)
length-take (suc n) (c ∷ cs) h = ap suc (length-take n cs (omega arith))

take-longer : (m n : ℕ) (cs : List ℕ) → m < n → m < length cs → m < length (take n cs)
take-longer m zero cs h h' = absurd (omega arith)
take-longer m (suc n) [] h h' = absurd (omega arith)
take-longer zero (suc n) (c ∷ cs) h h' = omega arith
take-longer (suc m) (suc n) (c ∷ cs) h h' =
    omega (arith, take-longer m n cs (omega arith) (omega arith))

-- A text that fits stands whole, a longer one as 51 bytes and three dots.
abbrev pub shown : List ℕ → List ℕ
shown text = if leb (length text) 54 then text else take 51 text ++ dots

format-whole :
    (text : List ℕ)
    → length text ≤ 54
    → format_truncated_left 256 (snprintf 1024 text) 54 ≡ some text
unfolding format_truncated_left
format-whole text h =
    let cut : take 1023 text ≡ text = take-all 1023 text (omega arith) in
    let fits : leb (length text) 54 ≡ true = ground arith in
    rw (cut, fits) (ap some (take-all 255 text (omega arith)))

leb-false : (a b : ℕ) → b < a → leb a b ≡ false
leb-false a b h = ground arith

format-cut :
    (text : List ℕ)
    → 54 < length text
    → format_truncated_left 256 (snprintf 1024 text) 54 ≡ some (take 51 text ++ dots)
unfolding format_truncated_left
format-cut text h =
    let long = leb-false (length (take 1023 text)) 54 (take-longer 54 1023 text (omega arith) h) in
    let cut : take 51 (take 1023 text) ≡ take 51 text = take-take 51 1023 text (omega arith) in
    rw (long, cut)
      (ap some (
        take-all 255 (take 51 text ++ dots)
          (omega (arith, length-append (take 51 text) dots, length-take 51 text (omega arith)))))

shown-length : (text : List ℕ) → length (shown text) ≤ 54
shown-length text =
    if-cases (λ t. length t ≤ 54) (leb (length text) 54) (λ fits. ground arith)
      (λ long.
        let h : 51 ≤ length text = ground arith in
        omega (arith, length-append (take 51 text) dots, length-take 51 text h))

-- The name column, in the buffer of 256 bytes that its callers have: the indented name if it has at most
-- 54 bytes, else its first 51 and three dots; so it never has more than 54.
pub build_display_name-shown :
    (name : List ℕ) (depth : ℕ)
    → (build_display_name 256 name depth ≡ some (shown (indented name depth)))
      × (length (shown (indented name depth)) ≤ 54)
unfolding build_display_name
build_display_name-shown name depth = (
  if-cases (λ t. format_truncated_left 256 (snprintf 1024 (indented name depth)) 54 ≡ some t)
      (leb (length (indented name depth)) 54)
      (λ fits. format-whole (indented name depth) (ground arith))
      (λ long. format-cut (indented name depth) (ground arith)),
  shown-length (indented name depth),
)
