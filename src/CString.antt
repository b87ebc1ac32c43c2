-- ===== src/CString.antt =====
-- kernel/string.h: the kernel's C string functions.
--
-- A C string, or an array that holds one, is the list of its bytes (0 to 255). It ends at its first
-- zero byte; the end of the list stands for a terminator, too. A pointer into a string is the rest
-- of the list from there on.
pub mod Compare
pub mod Memory
pub mod Copy
mod Tests
use shed_kernel.Prelude.{
  ℕ, zero, suc, ◌+◌, Bool, true, false, not, ◌&&◌, Option, none, some, List, [], ◌∷◌, ltb, ◌==◌,
  if◌then◌else◌, ℤ, pos, sub_ℕ,
}

-- What `*s` reads.
abbrev pub head : List ℕ → ℕ
head [] = 0
head (c ∷ s) = c

-- The bytes before the terminator.
abbrev pub text : List ℕ → List ℕ
text [] = []
text (c ∷ s) = if c == 0 then [] else c ∷ text s

unfoldable pub strcmp : List ℕ → List ℕ → ℤ
strcmp [] ct = sub_ℕ 0 (head ct)
strcmp (c ∷ cs) [] = sub_ℕ c 0
strcmp (c ∷ cs) (t ∷ ct) = if not (c == 0) && (c == t) then strcmp cs ct else sub_ℕ c t

-- The count is the number of rounds left.
pub strncmp : List ℕ → List ℕ → ℕ → ℤ
strncmp cs ct zero = pos 0
strncmp [] ct (suc n) = sub_ℕ 0 (head ct)
strncmp (c ∷ cs) [] (suc n) = sub_ℕ c 0
strncmp (c ∷ cs) (t ∷ ct) (suc n) =
    if not (c == t) then sub_ℕ c t else if c == 0 then pos 0 else strncmp cs ct n

pub strlen : List ℕ → ℕ
strlen [] = 0
strlen (c ∷ s) = if c == 0 then 0 else strlen s + 1

-- The pointer is the rest of the string; `none` is NULL.
unfoldable pub strchr : List ℕ → ℕ → Option (List ℕ)
strchr [] c = none
strchr (x ∷ s) c = if x == 0 then none else if x == c then some (x ∷ s) else strchr s c

strrchr_from : List ℕ → ℕ → Option (List ℕ) → Option (List ℕ)
strrchr_from [] c last = last
strrchr_from (x ∷ s) c last =
    if x == 0 then last else strrchr_from s c (if x == c then some (x ∷ s) else last)

pub strrchr : List ℕ → ℕ → Option (List ℕ)
unfolding strrchr_from
strrchr s c = strrchr_from s c none

-- `while (*p && *p != c) p++;` stops at a byte that is not the terminator.
unfoldable pub in_set : ℕ → List ℕ → Bool
in_set c [] = false
in_set c (p ∷ ps) = if p == 0 then false else if p == c then true else in_set c ps

unfoldable pub strspn : List ℕ → List ℕ → ℕ
strspn [] ct = 0
strspn (c ∷ cs) ct =
    let rest = strspn cs ct + 1 in if c == 0 then 0 else if not (in_set c ct) then 0 else rest

unfoldable pub strcspn : List ℕ → List ℕ → ℕ
strcspn [] ct = 0
strcspn (c ∷ cs) ct =
    let rest = strcspn cs ct + 1 in if c == 0 then 0 else if in_set c ct then 0 else rest

pub strpbrk : List ℕ → List ℕ → Option (List ℕ)
strpbrk [] ct = none
strpbrk (c ∷ cs) ct =
    let rest = strpbrk cs ct in if c == 0 then none else if in_set c ct then some (c ∷ cs) else rest

-- The inner loop of `strstr`: whether `b` ends first.
pub matches_at : List ℕ → List ℕ → Bool
matches_at a [] = true
matches_at [] (y ∷ b) = y == 0
matches_at (x ∷ a) (y ∷ b) =
    if y == 0 then true else if not (x == 0) && (x == y) then matches_at a b else false

strstr_from : List ℕ → List ℕ → Option (List ℕ)
strstr_from [] ct = none
strstr_from (c ∷ cs) ct =
    let rest = strstr_from cs ct in
    if c == 0 then none else if matches_at (c ∷ cs) ct then some (c ∷ cs) else rest

pub strstr : List ℕ → List ℕ → Option (List ℕ)
unfolding strstr_from
strstr cs ct = if head ct == 0 then some cs else strstr_from cs ct
