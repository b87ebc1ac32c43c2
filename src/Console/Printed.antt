-- ===== src/Console/Printed.antt =====
-- kernel/kprintf.c: the digits of a number, and the precision of a string.
use native.Mathlib.Nat.{div-add-mod', div-lt_iff_lt-mul, mul-le-mul_left, mod-lt}
use shed_kernel.Prelude.{
  ℕ, zero, suc, ◌+◌, ◌-◌, ◌*◌, ◌/◌, ◌%◌, ◌≤◌, ◌<◌, ◌≡◌, refl, ap, ap₂, ◌∙◌, sym, true, some, List,
  [], ◌∷◌, ltb, ◌==◌, if◌then◌else◌, take, arith, Bool-cases, inl, inr, append_nil, ==_iff, ◌^◌,
}
use shed_kernel.CString.{text}
use shed_kernel.Console.{Vga, digit, itoa_loop, itoa_into}
use shed_kernel.Console.Format.{
  num, str, ksprintf, ksprintf_from, kprintf, kprintf_from, parse_precision, parse_behind_dot,
  parse_star, convert, print_converted, put_text,
}

-- Reading digits: the number that they continue.
abbrev pub digit_value : ℕ → ℕ
digit_value c = if ltb c 58 then c - 48 else c - 55

abbrev pub read_digits : (base n : ℕ) → List ℕ → ℕ
read_digits base n [] = n
read_digits base n (c ∷ s) = read_digits base (n * base + digit_value c) s

digit-value : (d : ℕ) → d < 16 → digit_value (digit d) ≡ d
unfolding digit
digit-value d h = ground arith

module _ (base : ℕ) (two : 2 ≤ base) (sixteen : base ≤ 16) where
  quotient-half : (n k : ℕ) → n < 2 * k → n / base < k
  quotient-half n k h = (div-lt_iff_lt-mul (omega arith)).1 (omega (arith, mul-le-mul_left k two))

  -- The digit in front of the rest.
  read-first :
      (q n : ℕ) (acc : List ℕ)
      → q ≡ n / base
      → read_digits base q (digit (n % base) ∷ acc) ≡ read_digits base n acc
  read-first q n acc e =
      let value = digit-value (n % base) (omega (arith, mod-lt n {m = base} (omega arith))) in
      ap (λ k. read_digits base k acc) (ap₂ (λ a b. a * base + b) e value ∙ div-add-mod' n base)

  read-itoa_loop :
      (f n : ℕ) (acc : List ℕ)
      → n < 2 ^ f
      → read_digits base 0 (itoa_loop (suc f) n base acc) ≡ read_digits base n acc
  unfolding itoa_loop
  read-itoa_loop zero n acc h = elim (Bool-cases (n / base == 0)) [
    | inl last ↦ rw (last, itoa_loop) (read-first 0 n acc (sym ((==_iff (n / base) 0).0 last)))
    | inr more ↦ absurd (ground (arith, more, quotient-half n 1 (omega arith)))
  ]
  read-itoa_loop (suc g) n acc h = elim (Bool-cases (n / base == 0)) [
    | inl last ↦ rw (last, itoa_loop) (read-first 0 n acc (sym ((==_iff (n / base) 0).0 last)))
    | inr more ↦
        rw (more, itoa_loop)
          (read-itoa_loop g (n / base) (digit (n % base) ∷ acc)
              (quotient-half n (2 ^ g) (omega arith))
            ∙ read-first (n / base) n acc refl)
  ]

-- The digits that `itoa_into` writes for a 32-bit number, in a base from 2 to 16, read back as the
-- number.
pub read_digits-itoa_into :
    (base n : ℕ) → 2 ≤ base → base ≤ 16 → n < 4294967296 → read_digits base 0 (itoa_into n base) ≡ n
unfolding itoa_into
read_digits-itoa_into base n two sixteen h = read-itoa_loop base two sixteen 32 n [] h

-- For the format "%.*s" with a precision below 2^31, `ksprintf` writes as many bytes of the string
-- at most, but `kprintf` prints all of it.
pub kprintf-precision :
    (n : ℕ) (s : List ℕ) (v : Vga)
    → n < 2147483648
    → let format : List ℕ = 37 ∷ 46 ∷ 42 ∷ 115 ∷ [] in
      (ksprintf format (num n ∷ str s ∷ []) ≡ some (take n (text s)))
      × (kprintf format (num n ∷ str s ∷ []) v ≡ some (put_text (text s) v))
unfolding ksprintf ksprintf_from kprintf kprintf_from parse_precision parse_behind_dot parse_star
    convert print_converted
kprintf-precision n s v h =
    let pos : ltb n 2147483648 ≡ true = ground arith in
    (rw pos (ap some (append_nil (take n (text s)))), refl)
