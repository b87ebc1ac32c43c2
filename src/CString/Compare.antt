-- ===== src/CString/Compare.antt =====
-- `strcmp` and `strncmp` as equality and order of the texts of two strings.
use shed_kernel.Prelude.{
  ℕ, zero, suc, ◌≡◌, ◌↔◌, refl, Bool, true, false, List, [], ◌∷◌, arith, ltb, ◌==◌, if◌then◌else◌,
  ℤ, pos, negsuc, take, length,
}
use shed_kernel.CString.{text, strcmp, strncmp, strlen}

pub strcmp-eq_zero : (cs ct : List ℕ) → strcmp cs ct ≡ pos 0 → text cs ≡ text ct
unfolding strcmp
strcmp-eq_zero [] [] h = refl
strcmp-eq_zero [] (t ∷ ct) h = ground arith
strcmp-eq_zero (c ∷ cs) [] h = ground arith
strcmp-eq_zero (c ∷ cs) (t ∷ ct) h = ground (arith, strcmp-eq_zero cs ct)

pub strcmp_of_eq : (cs ct : List ℕ) → text cs ≡ text ct → strcmp cs ct ≡ pos 0
unfolding strcmp
strcmp_of_eq [] [] h = refl
strcmp_of_eq [] (t ∷ ct) h = ground arith
strcmp_of_eq (c ∷ cs) [] h = ground arith
strcmp_of_eq (c ∷ cs) (t ∷ ct) h = ground (arith, strcmp_of_eq cs ct)

-- `strcmp` returns 0 if and only if the two strings agree up to their terminators.
pub strcmp-eq_zero_iff : (cs ct : List ℕ) → (strcmp cs ct ≡ pos 0) ↔ (text cs ≡ text ct)
strcmp-eq_zero_iff cs ct = (strcmp-eq_zero cs ct, strcmp_of_eq cs ct)

-- The lexicographic order of byte strings.
unfoldable pub before : List ℕ → List ℕ → Bool
before [] [] = false
before [] (y ∷ ys) = true
before (x ∷ xs) [] = false
before (x ∷ xs) (y ∷ ys) = if x == y then before xs ys else ltb x y

abbrev pub is_negative : ℤ → Bool
is_negative (pos n) = false
is_negative (negsuc n) = true

-- `strcmp` is negative if and only if the first text comes before the second in the lexicographic
-- order.
pub strcmp-before : (cs ct : List ℕ) → is_negative (strcmp cs ct) ≡ before (text cs) (text ct)
unfolding strcmp before
strcmp-before [] [] = refl
strcmp-before [] (t ∷ ct) = ground arith
strcmp-before (c ∷ cs) [] = ground arith
strcmp-before (c ∷ cs) (t ∷ ct) = ground (arith, strcmp-before cs ct)

-- `strncmp` on `n` bytes is `strcmp` on the strings cut to `n` bytes.
pub strncmp-take : (n : ℕ) (cs ct : List ℕ) → strncmp cs ct n ≡ strcmp (take n cs) (take n ct)
unfolding strncmp strcmp
strncmp-take zero cs ct = refl
strncmp-take (suc n) [] [] = refl
strncmp-take (suc n) [] (t ∷ ct) = refl
strncmp-take (suc n) (c ∷ cs) [] = refl
strncmp-take (suc n) (c ∷ cs) (t ∷ ct) = ground (arith, strncmp-take n cs ct)

-- `strlen` is the length of the text.
pub strlen-length : (s : List ℕ) → strlen s ≡ length (text s)
unfolding strlen
strlen-length [] = refl
strlen-length (c ∷ s) = ground (arith, strlen-length s)
