-- ===== src/Console/Returns.antt =====
-- kernel/kprintf.c: when `kprintf` returns.
use shed_kernel.Prelude.{
  ℕ, zero, suc, ◌+◌, ◌≡◌, refl, ◌∙◌, ◌⊎◌, Bool, true, false, Option, none, some, List, [], ◌∷◌,
  arith, Option-cases, Bool-cases, inl, inr, ◌==◌, if◌then◌else◌, length, is_some,
}
use shed_kernel.Console.{Vga, put_cell, put_string, kprint_newline}
use shed_kernel.Console.Format.{
  Arg, parse_precision, convert, print_converted, put_text, kprintf_from, kprintf,
}

-- Whether the arguments are what the format asks for.
unfoldable pub accepts : (fuel : ℕ) → List ℕ → List Arg → Bool
accepts zero format args = false
accepts (suc f) [] args = true
accepts (suc f) (p ∷ format) args =
    let rest = accepts f format args in
    if p == 37
    then elim (parse_precision format args) [
      | none ↦ false
      | some spec ↦ elim spec.format [
        | [] ↦ false
        | q ∷ behind ↦ elim (convert q none spec.args) [
          | none ↦ false
          | some (out, args') ↦ accepts f behind args'
        ]
      ]
    ]
    else rest

print_converted-convert :
    (q : ℕ) (args : List Arg) (v : Vga)
    → ((convert q none args ≡ none) × (print_converted q args v ≡ none))
      ⊎ ((out : List ℕ) × (args' : List Arg) × (v' : Vga) × (convert q none args
            ≡ some (out, args'))
          × (print_converted q args v ≡ some (v', args')))
unfolding print_converted
print_converted-convert q args v = elim (Option-cases (convert q none args)) [
  | inl bad ↦ inl (bad, rw (bad, print_converted) refl)
  | inr ((out, args'), done) ↦ inr (
    out,
    args',
    if q == 115 then put_text out v else put_string out v,
    done,
    rw (done, print_converted) refl,
  )
]

converted_accepts : (f : ℕ) → List ℕ → List Arg → Bool
converted_accepts f s args = elim s [
  | [] ↦ false
  | q ∷ behind ↦ elim (convert q none args) [
    | none ↦ false
    | some (out, args') ↦ accepts f behind args'
  ]
]

converted_prints : (f : ℕ) → List ℕ → List Arg → Vga → Option Vga
converted_prints f s args v = elim s [
  | [] ↦ none
  | q ∷ behind ↦ elim (print_converted q args v) [
    | none ↦ none
    | some (v', args') ↦ kprintf_from f behind args' v'
  ]
]

module _ (f : ℕ)
    (after : (format : List ℕ) (args : List Arg) (v : Vga)
      → is_some (kprintf_from f format args v) ≡ accepts f format args) where
  converted :
      (s : List ℕ) (args : List Arg) (v : Vga)
      → is_some (converted_prints f s args v) ≡ converted_accepts f s args
  unfolding converted_prints converted_accepts
  converted [] args v = refl
  converted (q ∷ behind) args v = elim (print_converted-convert q args v) [
    | inl (bad, bad') ↦ rw (bad, converted_accepts) (rw (bad', converted_prints) refl)
    | inr (out, args', v', done, done') ↦
        rw (done, converted_accepts) (rw (done', converted_prints) (after behind args' v'))
  ]

-- `kprintf` returns if and only if the arguments are what the format asks for; what is on the screen
-- does not matter.
pub kprintf_from-accepts :
    (f : ℕ) (format : List ℕ) (args : List Arg) (v : Vga)
    → is_some (kprintf_from f format args v) ≡ accepts f format args
unfolding kprintf_from accepts converted_accepts converted_prints
kprintf_from-accepts zero format args v = refl
kprintf_from-accepts (suc f) [] args v = refl
kprintf_from-accepts (suc f) (p ∷ format) args v = elim (Bool-cases (p == 37)) [
  | inr plain ↦ elim (Bool-cases (p == 10)) [
    | inl line ↦
        rw (line, kprintf_from)
          (rw (plain, accepts) (kprintf_from-accepts f format args (kprint_newline v)))
    | inr other ↦
        rw (other, kprintf_from)
          (rw (plain, accepts, kprintf_from) (kprintf_from-accepts f format args (put_cell p v)))
  ]
  | inl percent ↦
      let other : (p == 10) ≡ false = ground (arith, percent) in
      rw (other, kprintf_from)
        (rw (percent, accepts, kprintf_from)
          (elim (Option-cases (parse_precision format args)) [
            | inl bad ↦ rw (bad, accepts, kprintf_from) refl
            | inr (spec, parsed) ↦
                rw (parsed, accepts, kprintf_from)
                  (converted f (kprintf_from-accepts f) spec.format spec.args v)
          ]))
]

pub kprintf-returns :
    (format : List ℕ) (args : List Arg)
    → accepts (length format + 1) format args ≡ true
    → (v : Vga) → is_some (kprintf format args v) ≡ true
unfolding kprintf
kprintf-returns format args h v = kprintf_from-accepts (length format + 1) format args v ∙ h
