-- ===== src/Dirtree/Summary.antt =====
-- Lab2/202110421_assign2/dirtree.c: the totals of a directory. Counters are of 32 bits, sums of 64.
use system_programming.Base.{
  ℕ, ◌+◌, ◌%◌, ◌^◌, ◌≡◌, List, [], ◌∷◌, ◌==◌, if◌then◌else◌, refl, ap, ◌∙◌, length, arith,
}

-- What the S_IS macros read in `st_mode`.
pub data FileKind : Type 0 where
  directory : FileKind
  link : FileKind
  fifo : FileKind
  sock : FileKind
  other : FileKind

-- `struct stat`, as far as it is read.
pub record Stat : Type 0 where
  pub kind : FileKind
  pub st_uid : ℕ
  pub st_gid : ℕ
  pub st_size : ℕ
  pub st_blocks : ℕ

pub record Summary : Type 0 where
  pub dirs : ℕ
  pub files : ℕ
  pub links : ℕ
  pub fifos : ℕ
  pub socks : ℕ
  pub size : ℕ
  pub blocks : ℕ

abbrev pub u32 : ℕ → ℕ
u32 n = n % 2 ^ 32

abbrev pub u64 : ℕ → ℕ
u64 n = n % 2 ^ 64

abbrev pub summary_reset : Summary
summary_reset = record {
  dirs = 0;
  files = 0;
  links = 0;
  fifos = 0;
  socks = 0;
  size = 0;
  blocks = 0;
}

unfoldable pub summary_add : Summary → Summary → Summary
summary_add dst src = record {
  dirs = u32 (dst.dirs + src.dirs);
  files = u32 (dst.files + src.files);
  links = u32 (dst.links + src.links);
  fifos = u32 (dst.fifos + src.fifos);
  socks = u32 (dst.socks + src.socks);
  size = u64 (dst.size + src.size);
  blocks = u64 (dst.blocks + src.blocks);
}

unfoldable pub get_type_char : Stat → ℕ
get_type_char st = elim st.kind [
  | directory ↦ b'd'
  | link ↦ b'l'
  | fifo ↦ b'f'
  | sock ↦ b's'
  | other ↦ b' '
]

-- The `switch` of `summary_add_entry`.
unfoldable pub count_type : Summary → ℕ → Summary
count_type stats type_char =
    if type_char == b'd'
    then record stats { dirs = u32 (stats.dirs + 1) }
    else if type_char == b' '
    then record stats { files = u32 (stats.files + 1) }
    else if type_char == b'l'
    then record stats { links = u32 (stats.links + 1) }
    else if type_char == b'f'
    then record stats { fifos = u32 (stats.fifos + 1) }
    else if type_char == b's'
    then record stats { socks = u32 (stats.socks + 1) }
    else stats

unfoldable pub summary_add_entry : Summary → Stat → ℕ → Summary
unfolding count_type
summary_add_entry stats st type_char =
    let counted = count_type stats type_char in
    record counted {
      size = u64 (counted.size + st.st_size);
      blocks = u64 (counted.blocks + st.st_blocks);
    }

-- The entries that are shown, counted one by one.
unfoldable pub add_entries : Summary → List Stat → Summary
unfolding get_type_char summary_add_entry
add_entries stats [] = stats
add_entries stats (st ∷ sts) = add_entries (summary_add_entry stats st (get_type_char st)) sts

u32-after : (a b c : ℕ) → u32 (a + u32 (b + c)) ≡ u32 (u32 (a + b) + c)
u32-after a b c = omega arith

u64-after : (a b c : ℕ) → u64 (a + u64 (b + c)) ≡ u64 (u64 (a + b) + c)
u64-after a b c = omega arith

pub Summary-eq :
    (a b : Summary)
    → a.dirs ≡ b.dirs
    → a.files ≡ b.files
    → a.links ≡ b.links
    → a.fifos ≡ b.fifos
    → a.socks ≡ b.socks
    → a.size ≡ b.size
    → a.blocks ≡ b.blocks
    → a ≡ b
Summary-eq a b d f l p s n m = λ i. record {
  dirs = d i;
  files = f i;
  links = l i;
  fifos = p i;
  socks = s i;
  size = n i;
  blocks = m i;
}

-- An entry counted before or after the two totals are added.
summary_add-summary_add_entry :
    (dst src : Summary) (st : Stat)
    → summary_add dst (summary_add_entry src st (get_type_char st))
      ≡ summary_add_entry (summary_add dst src) st (get_type_char st)
unfolding summary_add summary_add_entry get_type_char
summary_add-summary_add_entry dst src st = by_kind st.kind
  where
    by_kind :
        (k : FileKind)
        → summary_add dst (summary_add_entry src st (get_type_char (record st { kind = k })))
          ≡ summary_add_entry (summary_add dst src) st (get_type_char (record st { kind = k }))
    by_kind directory =
        Summary-eq _ _ (u32-after dst.dirs src.dirs 1) refl refl refl refl
          (u64-after dst.size src.size st.st_size) (u64-after dst.blocks src.blocks st.st_blocks)
    by_kind link =
        Summary-eq _ _ refl refl (u32-after dst.links src.links 1) refl refl
          (u64-after dst.size src.size st.st_size) (u64-after dst.blocks src.blocks st.st_blocks)
    by_kind fifo =
        Summary-eq _ _ refl refl refl (u32-after dst.fifos src.fifos 1) refl
          (u64-after dst.size src.size st.st_size) (u64-after dst.blocks src.blocks st.st_blocks)
    by_kind sock =
        Summary-eq _ _ refl refl refl refl (u32-after dst.socks src.socks 1)
          (u64-after dst.size src.size st.st_size) (u64-after dst.blocks src.blocks st.st_blocks)
    by_kind other =
        Summary-eq _ _ refl (u32-after dst.files src.files 1) refl refl refl
          (u64-after dst.size src.size st.st_size) (u64-after dst.blocks src.blocks st.st_blocks)

-- The total that `main` adds up after a directory is the total of counting its entries one by one, also
-- where a counter wraps round.
pub summary_add-add_entries :
    (dst src : Summary) (sts : List Stat)
    → summary_add dst (add_entries src sts) ≡ add_entries (summary_add dst src) sts
unfolding add_entries
summary_add-add_entries dst src [] = refl
summary_add-add_entries dst src (st ∷ sts) =
    summary_add-add_entries dst (summary_add_entry src st (get_type_char st)) sts
    ∙ ap (λ t. add_entries t sts) (summary_add-summary_add_entry dst src st)

-- `total # of entries` of `print_aggregate_summary`.
unfoldable pub all_entries : Summary → ℕ
all_entries total = u32 (total.files + total.dirs + total.links + total.fifos + total.socks)

u32-once : (stats : Summary) → all_entries stats ≡ u32 (all_entries stats + 0)
unfolding all_entries
u32-once stats = omega arith

all_entries-summary_add_entry :
    (stats : Summary) (st : Stat)
    → all_entries (summary_add_entry stats st (get_type_char st)) ≡ u32 (all_entries stats + 1)
unfolding all_entries summary_add_entry get_type_char
all_entries-summary_add_entry stats st = by_kind st.kind
  where
    by_kind :
        (k : FileKind)
        → all_entries (summary_add_entry stats st (get_type_char (record st { kind = k })))
          ≡ u32 (all_entries stats + 1)
    by_kind directory = omega arith
    by_kind link = omega arith
    by_kind fifo = omega arith
    by_kind sock = omega arith
    by_kind other = omega arith

-- The number of entries that is printed is the number of entries counted, modulo 2^32: each entry is of
-- exactly one of the five types.
pub all_entries-add_entries :
    (stats : Summary) (sts : List Stat)
    → all_entries (add_entries stats sts) ≡ u32 (all_entries stats + length sts)
unfolding add_entries
all_entries-add_entries stats [] = u32-once stats
all_entries-add_entries stats (st ∷ sts) = omega (
  arith,
  all_entries-add_entries (summary_add_entry stats st (get_type_char st)) sts,
  all_entries-summary_add_entry stats st,
)
