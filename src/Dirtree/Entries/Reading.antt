-- ===== src/Dirtree/Entries/Reading.antt =====
-- Lab2/202110421_assign2/dirtree.c: what the loop over `get_next` reads.
use system_programming.Base.{
  ℕ, zero, suc, ◌+◌, ◌≤◌, ◌≡◌, refl, sym, ◌∙◌, ap, Bool, true, false, inl, inr, Option, none, some,
  List, [], ◌∷◌, ◌++◌, ◌==◌, ◌&&◌, ◌||◌, append_assoc, append-nil, if◌then◌else◌, length,
  Bool-cases, arith,
}
use system_programming.HashTable.Strings.{str_eq}
use system_programming.Dirtree.Sys.{Dirent, Listing, finished, read_error, next}
use system_programming.Dirtree.Entries.{
  is_dots, get_next, Contents, entries, no_memory, read_entries, calls,
}

-- `.` and `..`, and no other name.
unfoldable pub names_here_or_above : List ℕ → Bool
names_here_or_above (c ∷ []) = c == 46
names_here_or_above (c ∷ d ∷ []) = (c == 46) && (d == 46)
names_here_or_above _ = false

dotted-lem :
    (name : List ℕ)
    → (str_eq name (b'.' ∷ []) || str_eq name (b'.' ∷ b'.' ∷ [])) ≡ names_here_or_above name
unfolding str_eq names_here_or_above
dotted-lem [] = refl
dotted-lem (c ∷ []) = ground arith
dotted-lem (c ∷ d ∷ []) = ground arith
dotted-lem (c ∷ d ∷ f ∷ name) = ground arith

is_dots-lem : (e : Dirent) → is_dots e ≡ names_here_or_above e.d_name
is_dots-lem e = dotted-lem e.d_name

-- The entries other than `.` and `..`, and whether the list ends by an error.
unfoldable pub real_entries : Listing → List Dirent
real_entries finished = []
real_entries read_error = []
real_entries (next e rest) =
    let later = real_entries rest in if names_here_or_above e.d_name then later else e ∷ later

unfoldable pub ends_badly : Listing → Bool
ends_badly finished = false
ends_badly read_error = true
ends_badly (next e rest) = ends_badly rest

module _ (realloc : ℕ → Bool) (room : (n : ℕ) → realloc n ≡ true) where
  -- A round of the loop, from what `get_next` has returned.
  abbrev round : ℕ → List Dirent → Option Dirent × Listing × Bool → Contents
  round fuel list r =
      let (e, rest, reported) = r in
      elim e [
        | none ↦ entries list reported
        | some entry ↦ elim (realloc (length list + 1)) [
          | true ↦ read_entries realloc fuel (list ++ entry ∷ []) rest
          | false ↦ no_memory
        ]
      ]

  read-round :
      (fuel : ℕ) (list : List Dirent) (dir : Listing)
      → read_entries realloc (suc fuel) list dir ≡ round fuel list (get_next dir)
  unfolding read_entries
  read-round fuel list dir = refl

  get_next-dots :
      (e : Dirent) (rest : Listing) → is_dots e ≡ true → get_next (next e rest) ≡ get_next rest
  unfolding get_next
  get_next-dots e rest d = ap (λ (b : Bool). if b then get_next rest else (some e, rest, false)) d

  get_next-entry :
      (e : Dirent) (rest : Listing)
      → is_dots e ≡ false
      → get_next (next e rest) ≡ (some e, rest, false)
  unfolding get_next
  get_next-entry e rest d = ap (λ (b : Bool). if b then get_next rest else (some e, rest, false)) d

  read-dots :
      (fuel : ℕ) (list : List Dirent) (e : Dirent) (rest : Listing)
      → is_dots e ≡ true
      → read_entries realloc (suc fuel) list (next e rest)
        ≡ read_entries realloc (suc fuel) list rest
  read-dots fuel list e rest d =
      read-round fuel list (next e rest)
      ∙ ap (round fuel list) (get_next-dots e rest d)
      ∙ sym (read-round fuel list rest)

  read-entry :
      (fuel : ℕ) (list : List Dirent) (e : Dirent) (rest : Listing)
      → is_dots e ≡ false
      → read_entries realloc (suc fuel) list (next e rest)
        ≡ read_entries realloc fuel (list ++ e ∷ []) rest
  read-entry fuel list e rest d =
      read-round fuel list (next e rest)
      ∙ ap (round fuel list) (get_next-entry e rest d)
      ∙ rw (room (length list + 1), round) refl

  -- With memory for each array, and with a round for each call of `readdir`, the loop
  -- comes to its end. It has put behind the array all entries but those named `.` and `..`, in the order of the
  -- listing, and tells whether the listing ends by an error.
  pub read_entries-real_entries :
      (fuel : ℕ) (list : List Dirent) (dir : Listing)
      → calls dir ≤ fuel
      → read_entries realloc fuel list dir ≡ entries (list ++ real_entries dir) (ends_badly dir)
  unfolding read_entries real_entries ends_badly
  read_entries-real_entries zero list finished le = absurd (omega (arith, le))
  read_entries-real_entries zero list read_error le = absurd (omega (arith, le))
  read_entries-real_entries (suc fuel) list finished le =
      ap (λ l. entries l false) (sym (append-nil list))
  read_entries-real_entries (suc fuel) list read_error le =
      ap (λ l. entries l true) (sym (append-nil list))
  read_entries-real_entries zero list (next e rest) le = absurd (omega (arith, le))
  read_entries-real_entries (suc fuel) list (next e rest) le = elim (Bool-cases (is_dots e)) [
    | inl d ↦
        read-dots fuel list e rest d
        ∙ read_entries-real_entries (suc fuel) list rest (omega (arith, le))
        ∙ ap
            (λ (b : Bool).
              entries (list ++ (if b then real_entries rest else e ∷ real_entries rest))
                (ends_badly rest))
            (sym (sym (is_dots-lem e) ∙ d))
    | inr d ↦
        read-entry fuel list e rest d
        ∙ read_entries-real_entries fuel (list ++ e ∷ []) rest (omega (arith, le))
        ∙ ap (λ l. entries l (ends_badly rest)) (append_assoc list (e ∷ []) (real_entries rest))
        ∙ ap
            (λ (b : Bool).
              entries (list ++ (if b then real_entries rest else e ∷ real_entries rest))
                (ends_badly rest))
            (sym (sym (is_dots-lem e) ∙ d))
  ]
