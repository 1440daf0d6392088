-- ===== src/HashTable/Spec.antt =====
-- The abstract specification of 202110421_assign5/hashtable.c: the operations on maps.
use system_programming.Base.{ℕ, ◌≡◌, Bool, Option, none, some, List, [], ◌∷◌, ◌++◌, if◌then◌else◌}
use system_programming.Base.Int.{ℤ, pos, minus_one}
use system_programming.HashTable.Strings.{CString}
use system_programming.HashTable.Valid.{Map, update}

-- The operations on maps: what is returned, and the map afterwards.
abbrev pub insert_spec : Bool → Map → CString → CString → ℤ × Map
insert_spec ok f k v = elim (f k) [
  | some old ↦ (pos 0, f)
  | none ↦ if ok then (pos 1, update f k (some v)) else (minus_one, f)
]

abbrev pub update_spec : Bool → Map → CString → CString → ℤ × Map
update_spec ok f k v = elim (f k) [
  | some old ↦ if ok then (pos 1, update f k (some v)) else (minus_one, f)
  | none ↦ (pos 0, f)
]

abbrev pub delete_spec : Map → CString → ℤ × Map
delete_spec f k = elim (f k) [ some old ↦ (pos 1, update f k none) | none ↦ (pos 0, f) ]

-- The value with its final 0.
abbrev pub read_spec : Map → CString → ℤ × Option (List ℕ)
read_spec f k = elim (f k) [ some v ↦ (pos 1, some (v ++ 0 ∷ [])) | none ↦ (pos 0, none) ]

module _ (ok : Bool) (f : Map) (k v : CString) where
  pub insert_spec-none :
      f k ≡ none
      → insert_spec ok f k v ≡ (if ok then (pos 1, update f k (some v)) else (minus_one, f))
  insert_spec-none h = rw (h, insert_spec)

  pub insert_spec-some : {old : CString} → f k ≡ some old → insert_spec ok f k v ≡ (pos 0, f)
  insert_spec-some h = rw (h, insert_spec)

  pub update_spec-some :
      {old : CString}
      → f k ≡ some old
      → update_spec ok f k v ≡ (if ok then (pos 1, update f k (some v)) else (minus_one, f))
  update_spec-some h = rw (h, update_spec)

  pub update_spec-none : f k ≡ none → update_spec ok f k v ≡ (pos 0, f)
  update_spec-none h = rw (h, update_spec)

module _ (f : Map) (k : CString) where
  pub delete_spec-some :
      {old : CString} → f k ≡ some old → delete_spec f k ≡ (pos 1, update f k none)
  delete_spec-some h = rw (h, delete_spec)

  pub delete_spec-none : f k ≡ none → delete_spec f k ≡ (pos 0, f)
  delete_spec-none h = rw (h, delete_spec)

  pub read_spec-some :
      {old : CString} → f k ≡ some old → read_spec f k ≡ (pos 1, some (old ++ 0 ∷ []))
  read_spec-some h = rw (h, read_spec)

  pub read_spec-none : f k ≡ none → read_spec f k ≡ (pos 0, none)
  read_spec-none h = rw (h, read_spec)
