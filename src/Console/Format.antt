-- ===== src/Console/Format.antt =====
-- kernel/kprintf.c: the two formatting loops.
use shed_kernel.Prelude.{
  ℕ, zero, suc, ◌+◌, ◌-◌, ◌*◌, ◌%◌, ◌&&◌, ◌||◌, not, Option, none, some, List, [], ◌∷◌, ◌++◌, ltb,
  leb, ◌==◌, if◌then◌else◌, length, take,
}
use shed_kernel.CString.{text}
use shed_kernel.Console.{Vga, u32_mod, itoa_into, put_cell, put_string, kprint_newline}

pub data Arg : Type 0 where
  num : ℕ → Arg
  str : List ℕ → Arg

-- What is parsed behind '%': the precision, if there is one that is not negative, and the rest of the
-- format and of the arguments.
pub record Spec : Type 0 where
  pub precision : Option ℕ
  pub format : List ℕ
  pub args : List Arg

unfoldable pub parse_digits : List ℕ → (n : ℕ) → List Arg → Spec
parse_digits [] n args = record { precision = some n; format = []; args = args }
parse_digits (c ∷ s) n args =
    let rest = parse_digits s (n * 10 + (c - 48)) args in
    if leb 48 c && leb c 57
    then rest
    else record { precision = some n; format = c ∷ s; args = args }

-- A precision from the arguments; a negative one is none.
unfoldable pub parse_star : List ℕ → List Arg → Option Spec
parse_star s [] = none
parse_star s (str t ∷ args) = none
parse_star s (num n ∷ args) =
    some (record { precision = if ltb n 2147483648 then some n else none; format = s; args = args })

unfoldable pub parse_behind_dot : List ℕ → List Arg → Option Spec
unfolding parse_digits parse_star
parse_behind_dot [] args = some (parse_digits [] 0 args)
parse_behind_dot (c ∷ s) args =
    if c == 42 then parse_star s args else some (parse_digits (c ∷ s) 0 args)

unfoldable pub parse_precision : List ℕ → List Arg → Option Spec
unfolding parse_behind_dot
parse_precision [] args = some (record { precision = none; format = []; args = args })
parse_precision (c ∷ s) args =
    if c == 46
    then parse_behind_dot s args
    else some (record { precision = none; format = c ∷ s; args = args })

-- The digits of an `int`: of the bit pattern `n`.
unfoldable pub signed : ℕ → List ℕ
unfolding itoa_into
signed n = if ltb n 2147483648 then itoa_into n 10 else 45 ∷ itoa_into (u32_mod - n) 10

abbrev pub limit : Option ℕ → List ℕ → List ℕ
limit none s = s
limit (some n) s = take n s

-- What the conversion `q` of `ksprintf` writes, and the arguments left.
unfoldable pub convert : (q : ℕ) → Option ℕ → List Arg → Option (List ℕ × List Arg)
unfolding signed itoa_into
convert q precision (num n ∷ args) =
    if q == 99
    then some ((n % 256) ∷ [], args)
    else if q == 100
    then some (signed n, args)
    else if q == 111
    then some (itoa_into n 8, args)
    else if q == 120
    then some (itoa_into n 16, args)
    else if q == 115
    then none
    else some (if q == 37 then 37 ∷ [] else [], num n ∷ args)
convert q precision (str s ∷ args) =
    if q == 115
    then some (limit precision (text s), args)
    else if (q == 99) || (q == 100) || (q == 111) || (q == 120)
    then none
    else some (if q == 37 then 37 ∷ [] else [], str s ∷ args)
convert q precision [] =
    if (q == 99) || (q == 100) || (q == 111) || (q == 120) || (q == 115)
    then none
    else some (if q == 37 then 37 ∷ [] else [], [])

unfoldable pub ksprintf_from : (fuel : ℕ) → List ℕ → List Arg → Option (List ℕ)
unfolding parse_precision convert
ksprintf_from zero format args = none
ksprintf_from (suc f) [] args = some []
ksprintf_from (suc f) (p ∷ format) args =
    if p == 37
    then elim (parse_precision format args) [
      | none ↦ none
      | some spec ↦ elim spec.format [
        | [] ↦ none
        | q ∷ rest ↦ elim (convert q spec.precision spec.args) [
          | none ↦ none
          | some (out, args') ↦ elim (ksprintf_from f rest args') [
            | none ↦ none
            | some out' ↦ some (out ++ out')
          ]
        ]
      ]
    ]
    else elim (ksprintf_from f format args) [ none ↦ none | some out' ↦ some (p ∷ out') ]

-- Each round takes at least one byte of the format. The result is its length.
unfoldable pub ksprintf : List ℕ → List Arg → Option (List ℕ)
unfolding ksprintf_from
ksprintf format args = ksprintf_from (length format + 1) format args

-- `%s` of `kprintf`: a newline in the string starts a new line.
unfoldable pub put_text : List ℕ → Vga → Vga
unfolding put_cell kprint_newline
put_text [] v = v
put_text (c ∷ s) v = put_text s (if c == 10 then kprint_newline v else put_cell c v)

-- `kprintf` parses a precision and then leaves it out of account.
unfoldable pub print_converted : (q : ℕ) → List Arg → Vga → Option (Vga × List Arg)
unfolding convert put_text put_string
print_converted q args v = elim (convert q none args) [
  | none ↦ none
  | some (out, args') ↦ some (if q == 115 then put_text out v else put_string out v, args')
]

unfoldable pub kprintf_from : (fuel : ℕ) → List ℕ → List Arg → Vga → Option Vga
unfolding parse_precision print_converted put_cell kprint_newline
kprintf_from zero format args v = none
kprintf_from (suc f) [] args v = some v
kprintf_from (suc f) (p ∷ format) args v =
    if p == 10
    then kprintf_from f format args (kprint_newline v)
    else if not (p == 37)
    then kprintf_from f format args (put_cell p v)
    else elim (parse_precision format args) [
      | none ↦ none
      | some spec ↦ elim spec.format [
        | [] ↦ none
        | q ∷ rest ↦ elim (print_converted q spec.args v) [
          | none ↦ none
          | some (v', args') ↦ kprintf_from f rest args' v'
        ]
      ]
    ]

unfoldable pub kprintf : List ℕ → List Arg → Vga → Option Vga
unfolding kprintf_from
kprintf format args v = kprintf_from (length format + 1) format args v
