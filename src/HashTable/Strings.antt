-- ===== src/HashTable/Strings.antt =====
-- 202110421_assign5/hashtable.c: C strings as their bytes without the final 0, and the hash of a key.
use system_programming.Base.{
  ℕ, zero, suc, ◌+◌, ◌-◌, ◌*◌, ◌%◌, ◌^◌, ◌<◌, ◌≡◌, ◌↔◌, refl, Bool, true, false, ◌&&◌, List, [],
  ◌∷◌, ◌++◌, ltb, ◌==◌, if◌then◌else◌, length, arith, ap,
}

abbrev pub CString : Type 0
CString = List ℕ

-- `strcmp(a, b) == 0`
unfoldable pub str_eq : CString → CString → Bool
str_eq [] [] = true
str_eq (x ∷ xs) (y ∷ ys) = (x == y) && str_eq xs ys
str_eq _ _ = false

pub str_eq_iff : (a b : CString) → (str_eq a b ≡ true) ↔ (a ≡ b)
unfolding str_eq
str_eq_iff [] [] = ((λ h. refl), (λ h. refl))
str_eq_iff [] (y ∷ ys) = ((λ h. cc), (λ h. cc))
str_eq_iff (x ∷ xs) [] = ((λ h. cc), (λ h. cc))
str_eq_iff (x ∷ xs) (y ∷ ys) = ground (arith, str_eq_iff xs ys)

-- What `strncpy(dst, src, n)` writes to `dst`: at most `n` bytes, filled up with 0.
unfoldable pub strncpy : CString → ℕ → List ℕ
strncpy src zero = []
strncpy [] (suc n) = 0 ∷ strncpy [] n
strncpy (c ∷ cs) (suc n) = c ∷ strncpy cs n

pub strncpy_whole : (src : CString) → strncpy src (length src + 1) ≡ src ++ 0 ∷ []
unfolding strncpy
strncpy_whole [] = refl
strncpy_whole (c ∷ cs) =
    let e : suc (length cs) + 1 ≡ suc (length cs + 1) = omega arith in
    rw e (ap (λ t. c ∷ t) (strncpy_whole cs))

abbrev u32_mod : ℕ
u32_mod = 2 ^ 32

-- A `char` is signed: a byte from 128 on is negative, and becomes an `unsigned int` by the modulus.
abbrev pub char_as_unsigned : ℕ → ℕ
char_as_unsigned c = if ltb c 128 then c else c + u32_mod - 256

unfoldable pub hash_bytes : ℕ → CString → ℕ
hash_bytes h [] = h
hash_bytes h (c ∷ cs) = hash_bytes ((h * 32 % u32_mod + char_as_unsigned c) % u32_mod) cs

-- The bucket of a key. A size of 0, where `%` is undefined, is excluded by the callers' invariant. The source
-- returns an `int`, which has all of these numbers up to a size of 2^31, the most that `hash_init`'s loop over an
-- `int` can build; a larger size is outside the model.
unfoldable pub hash : CString → ℕ → ℕ
unfolding hash_bytes
hash key hash_size = hash_bytes 0 key % hash_size

pub hash-lt : (key : CString) (n : ℕ) → 0 < n → hash key n < n
unfolding hash
hash-lt key n h = omega arith
