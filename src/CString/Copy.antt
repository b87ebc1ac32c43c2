-- ===== src/CString/Copy.antt =====
-- kernel/string.h: `strcpy`, `strncpy`, `strcat` and `strncat`, on memory. `fuel` bounds the length of a
-- string; a count that is not positive is 0.
use shed_kernel.Prelude.{
  ℕ, zero, suc, ◌+◌, ◌<◌, ◌≡◌, refl, ap, ◌∙◌, ◌≢◌, true, false, ◌==◌, if◌then◌else◌, arith, ◌⊎◌,
  Option, none, some,
}
use shed_kernel.CString.Memory.{Memory, store, copy_up, copy_up-moved, moved}

unfoldable pub strcpy : (fuel dest src : ℕ) → Memory → Option Memory
strcpy zero dest src m = none
strcpy (suc f) dest src m =
    let m' = store dest (m src) m in
    let rest = strcpy f (dest + 1) (src + 1) m' in if m src == 0 then some m' else rest

-- `*src` is read again behind the write.
unfoldable pub strncpy : (dest src count : ℕ) → Memory → Memory
strncpy dest src zero m = m
strncpy dest src (suc n) m =
    let m' = store dest (m src) m in strncpy (dest + 1) (if m' src == 0 then src else src + 1) n m'

-- The first loop of `strcat` and `strncat`: the address of the terminator.
unfoldable pub find_end : (fuel d : ℕ) → Memory → Option ℕ
find_end zero d m = none
find_end (suc f) d m = let rest = find_end f (d + 1) m in if m d == 0 then some d else rest

unfoldable pub strcat : (fuel dest src : ℕ) → Memory → Option Memory
unfolding find_end strcpy
strcat fuel dest src m = elim (find_end fuel dest m) [ none ↦ none | some d ↦ strcpy fuel d src m ]

-- The second loop of `strncat`, and the terminator behind it.
unfoldable pub append_loop : (d src count : ℕ) → Memory → Memory
append_loop d src zero m = store d 0 m
append_loop d src (suc n) m =
    let rest = append_loop (d + 1) (src + 1) n (store d (m src) m) in
    if m src == 0 then store d 0 m else rest

unfoldable pub strncat : (fuel dest src count : ℕ) → Memory → Option Memory
unfolding find_end append_loop
strncat fuel dest src count m = elim (find_end fuel dest m) [
  | none ↦ none
  | some d ↦ some (append_loop d src count m)
]

-- A string of `n` bytes stands at `p`.
pub record IsString (n p : ℕ) (m : Memory) : Type 0 where
  pub chars : (j : ℕ) → j < n → m (p + j) ≢ 0
  pub stop : m (p + n) ≡ 0

IsString-stop : {p : ℕ} {m : Memory} → IsString zero p m → m p ≡ 0
IsString-stop {p} {m} s = let e : p ≡ p + 0 = omega arith in ap m e ∙ s.stop

IsString-head : {n p : ℕ} {m : Memory} → IsString (suc n) p m → m p ≢ 0
IsString-head {n} {p} {m} s z =
    let e : p + 0 ≡ p = omega arith in s.chars 0 (omega arith) (ap m e ∙ z)

IsString-suc : {n p : ℕ} {m : Memory} → IsString (suc n) p m → IsString n (p + 1) m
IsString-suc {n} {p} {m} s = record {
  chars =
      λ j h. let e : p + 1 + j ≡ p + (j + 1) = omega arith in rw e (s.chars (j + 1) (omega arith));
  stop = let e : p + 1 + n ≡ p + suc n = omega arith in rw e s.stop;
}

IsString-store :
    {n p : ℕ} {m : Memory} (d c : ℕ)
    → (d < p) ⊎ (p + n < d)
    → IsString n p m
    → IsString n p (store d c m)
IsString-store {n} {p} d c apart s = record {
  chars = λ j h. let other : (p + j == d) ≡ false = ground (arith, apart) in rw other (s.chars j h);
  stop = let other : (p + n == d) ≡ false = ground (arith, apart) in rw other s.stop;
}

strcpy-copy_up :
    (f n dest src : ℕ) (m : Memory)
    → n < f
    → (dest < src) ⊎ (src + n < dest)
    → IsString n src m
    → strcpy f dest src m ≡ some (copy_up dest src (suc n) m)
unfolding strcpy copy_up
strcpy-copy_up zero n dest src m enough apart s = absurd (omega arith)
strcpy-copy_up (suc f) zero dest src m enough apart s =
    let at_end : (m src == 0) ≡ true = ground (arith, IsString-stop s) in rw at_end refl
strcpy-copy_up (suc f) (suc n) dest src m enough apart s =
    let more : (m src == 0) ≡ false = ground (arith, IsString-head s) in
    rw more (
      strcpy-copy_up f n (dest + 1) (src + 1) (store dest (m src) m) (omega arith)
        (ground (arith, apart))
        (IsString-store dest (m src) (ground (arith, apart)) (IsString-suc s)))

find_end-end : (f n d : ℕ) (m : Memory) → n < f → IsString n d m → find_end f d m ≡ some (d + n)
unfolding find_end
find_end-end zero n d m enough s = absurd (omega arith)
find_end-end (suc f) zero d m enough s =
    let at_end : (m d == 0) ≡ true = ground (arith, IsString-stop s) in
    rw at_end (ap (λ x. some x) (omega arith))
find_end-end (suc f) (suc n) d m enough s =
    let more : (m d == 0) ≡ false = ground (arith, IsString-head s) in
    rw more
      (find_end-end f n (d + 1) m (omega arith) (IsString-suc s) ∙ ap (λ x. some x) (omega arith))

-- `strcpy` of a string of `n` bytes, to a place below it or behind its end, puts the string and its
-- terminator there, and changes no other byte.
pub strcpy-moved :
    (f n dest src : ℕ) (m : Memory) (a : ℕ)
    → n < f
    → (dest < src) ⊎ (src + n < dest)
    → IsString n src m
    → (m' : Memory) × (strcpy f dest src m ≡ some m') × (m' a ≡ moved dest src (suc n) m a)
strcpy-moved f n dest src m a enough apart s = (
  copy_up dest src (suc n) m,
  strcpy-copy_up f n dest src m enough apart s,
  copy_up-moved dest src (suc n) m a (ground (arith, apart)),
)

-- `strcat` puts the second string, of `n` bytes, to the end of the first, of `k` bytes, if there is
-- room for it in front of the second string or the first stands behind it.
pub strcat-moved :
    (f k n dest src : ℕ) (m : Memory) (a : ℕ)
    → k < f
    → n < f
    → (dest + k < src) ⊎ (src + n < dest + k)
    → IsString k dest m
    → IsString n src m
    → (m' : Memory) × (strcat f dest src m ≡ some m') × (m' a ≡ moved (dest + k) src (suc n) m a)
unfolding strcat
strcat-moved f k n dest src m a enough enough' apart s t =
    let (m', e, at) = strcpy-moved f n (dest + k) src m a enough' apart t in
    (m', rw (strcat, find_end-end f k dest m enough s) e, at)
