-- ===== src/Dirtree/Entries.antt =====
-- Lab2/202110421_assign2/dirtree.c: the entries of one directory: `get_next`, `dirent_compare`,
-- `make_child_path`, and the loop that reads a directory into an array.
pub mod Order
pub mod Reading
use system_programming.Base.{
  ℕ, zero, suc, ◌+◌, ◌<◌, Bool, true, false, ◌||◌, not, Option, none, some, List, [], ◌∷◌, ◌++◌,
  ◌==◌, ltb, if◌then◌else◌, length,
}
use system_programming.Base.Int.{ℤ, pos, minus_one}
use system_programming.HashTable.Strings.{str_eq}
use system_programming.Dirtree.Sys.{Dirent, Listing, finished, read_error, next}

-- `strcmp`, by unsigned bytes; of its value only the sign is read.
unfoldable pub strcmp : List ℕ → List ℕ → ℤ
strcmp [] [] = pos 0
strcmp [] (d ∷ t) = minus_one
strcmp (c ∷ s) [] = pos 1
strcmp (c ∷ s) (d ∷ t) =
    let onward = strcmp s t in if ltb c d then minus_one else if ltb d c then pos 1 else onward

abbrev pub dt_dir : ℕ
dt_dir = 4

unfoldable pub dirent_compare : Dirent → Dirent → ℤ
unfolding strcmp
dirent_compare e1 e2 =
    let by_name = strcmp e1.d_name e2.d_name in
    if not (e1.d_type == e2.d_type)
    then if e1.d_type == dt_dir then minus_one else if e2.d_type == dt_dir then pos 1 else by_name
    else by_name

abbrev pub is_dots : Dirent → Bool
is_dots e = str_eq e.d_name (b'.' ∷ []) || str_eq e.d_name (b'.' ∷ b'.' ∷ [])

-- The entry or NULL, what is left to read, and whether an error was reported.
unfoldable pub get_next : Listing → Option Dirent × Listing × Bool
get_next finished = (none, finished, false)
get_next read_error = (none, finished, true)
get_next (next e rest) =
    let onward = get_next rest in if is_dots e then onward else (some e, rest, false)

abbrev pub ends_with_slash : List ℕ → Bool
ends_with_slash [] = false
ends_with_slash (c ∷ []) = c == b'/'
ends_with_slash (c ∷ d ∷ path) = ends_with_slash (d ∷ path)

abbrev pub joined : List ℕ → List ℕ → List ℕ
joined parent name = if ends_with_slash parent then parent ++ name else parent ++ b'/' ∷ name

-- `none` is -1. The last byte of an empty parent, which `lstat` has refused before, is not read.
unfoldable pub make_child_path : ℕ → List ℕ → List ℕ → Option (List ℕ)
make_child_path dstsz parent name =
    let path = joined parent name in if ltb (length path) dstsz then some path else none

-- What the loop leaves: the array, and whether an error was reported; a panic; or no fuel.
pub data Contents : Type 0 where
  entries : List Dirent → Bool → Contents
  no_memory : Contents
  endless : Contents

-- The loop over `get_next`, with the array so far.
unfoldable pub read_entries : (ℕ → Bool) → ℕ → List Dirent → Listing → Contents
unfolding get_next
read_entries realloc zero list dir = endless
read_entries realloc (suc fuel) list dir =
    let (e, rest, reported) = get_next dir in
    elim e [
      | none ↦ entries list reported
      | some entry ↦ elim (realloc (length list + 1)) [
        | true ↦ read_entries realloc fuel (list ++ entry ∷ []) rest
        | false ↦ no_memory
      ]
    ]

-- A call of `readdir` for each entry, and one for the end.
abbrev pub calls : Listing → ℕ
calls finished = 1
calls read_error = 1
calls (next e rest) = suc (calls rest)
