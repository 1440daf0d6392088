-- ===== src/Decomment/Segments.antt =====
-- Lab1/decomment_past.c against an independent description: source text as a list of segments, what
-- each segment is replaced by, and which segments the program handles as described.
pub mod Steps
pub mod Runs
pub mod Defects
use system_programming.Base.{
  ℕ, ◌≡◌, ◌≢◌, Bool, true, false, ◌&&◌, List, [], ◌∷◌, ◌++◌, ◌==◌, if◌then◌else◌,
}
use system_programming.Decomment.{slash, star, newline, space, backslash_char, is_quote}

-- A character of a literal, or a backslash with the character behind it.
pub data Item : Type 0 where
  char : ℕ → Item
  escape : ℕ → Item

pub data Segment : Type 0 where
  plain : ℕ → Segment  -- one character that opens nothing
  divide : ℕ → Segment  -- a slash, with a character behind it that opens no comment
  literal : ℕ → List Item → Segment  -- a string or character constant
  line_comment : List ℕ → Segment  -- up to the end of its line
  block_comment : List ℕ → Segment

abbrev item_source : List Item → List ℕ
item_source [] = []
item_source (char c ∷ is) = c ∷ item_source is
item_source (escape c ∷ is) = backslash_char ∷ c ∷ item_source is

-- The text of a segment in the source file.
abbrev pub source : Segment → List ℕ
source (plain c) = c ∷ []
source (divide c) = slash ∷ c ∷ []
source (literal q is) = q ∷ (item_source is ++ q ∷ [])
source (line_comment body) = slash ∷ slash ∷ (body ++ newline ∷ [])
source (block_comment body) = slash ∷ star ∷ (body ++ star ∷ slash ∷ [])

-- The newlines of a block comment's body, but for one directly behind a star.
abbrev pub kept_newlines : Bool → List ℕ → List ℕ
kept_newlines starred [] = []
kept_newlines starred (c ∷ cs) =
    let rest = kept_newlines (c == star) cs in
    if starred then rest else if c == newline then newline ∷ rest else rest

-- What stands in its place in the output.
abbrev pub replacement : Segment → List ℕ
replacement (plain c) = c ∷ []
replacement (divide c) = slash ∷ c ∷ []
replacement (literal q is) = q ∷ (item_source is ++ q ∷ [])
replacement (line_comment body) = space ∷ space ∷ newline ∷ []
replacement (block_comment body) = space ∷ kept_newlines false body

-- No newline in the body of a line comment; no end of comment in the body of a block comment.
abbrev pub OneLine : List ℕ → Type 0
OneLine [] = Unit {0}
OneLine (c ∷ cs) = (c ≢ newline) × OneLine cs

abbrev pub NoEnd : Bool → List ℕ → Type 0
NoEnd starred [] = Unit {0}
NoEnd starred (c ∷ cs) = ((starred && c == slash) ≡ false) × NoEnd (c == star) cs

abbrev ItemOk : ℕ → Item → Type 0
ItemOk q (char c) = (c ≢ q) × (c ≢ backslash_char)
ItemOk q (escape c) = c ≢ backslash_char

abbrev ItemsOk : ℕ → List Item → Type 0
ItemsOk q [] = Unit {0}
ItemsOk q (i ∷ is) = ItemOk q i × ItemsOk q is

abbrev pub SegmentOk : Segment → Type 0
SegmentOk (plain c) = (c ≢ slash) × (is_quote c ≡ false)
SegmentOk (divide c) = (c ≢ slash) × (c ≢ star) × (is_quote c ≡ false)
SegmentOk (literal q is) = (is_quote q ≡ true) × ItemsOk q is
SegmentOk (line_comment body) = OneLine body
SegmentOk (block_comment body) = NoEnd false body

abbrev pub SegmentsOk : List Segment → Type 0
SegmentsOk [] = Unit {0}
SegmentsOk (s ∷ ss) = SegmentOk s × SegmentsOk ss

abbrev pub sources : List Segment → List ℕ
sources [] = []
sources (s ∷ ss) = source s ++ sources ss

abbrev pub replacements : List Segment → List ℕ
replacements [] = []
replacements (s ∷ ss) = replacement s ++ replacements ss
