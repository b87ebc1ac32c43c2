-- ===== src/Console/Cursor.antt =====
-- kernel/kprintf.c: where output leaves the cursor.
use shed_kernel.Prelude.{
  ℕ, zero, suc, ◌+◌, ◌%◌, ◌<◌, ◌≡◌, refl, Option, none, some, List, [], ◌∷◌, arith, Option-cases,
  Bool-cases, inl, inr, ◌==◌, length,
}
use shed_kernel.Console.{
  Vga, put_cell, put_string, kprint_newline, kvga_set_cursor, kvga_write_char, kvga_clear_to_eol,
  clear_screen, blank_cells, put_at,
}
use shed_kernel.Console.Format.{
  Arg, parse_precision, convert, put_text, print_converted, kprintf_from, kprintf,
}

-- The cursor is a 32-bit offset of a character.
pub record IsCursor (v : Vga) : Type 0 where
  pub even : v.current_loc % 2 ≡ 0
  pub small : v.current_loc < 4294967296

pub put_cell-IsCursor : (c : ℕ) {v : Vga} → IsCursor v → IsCursor (put_cell c v)
unfolding put_cell
put_cell-IsCursor c {v} h = omega arith

pub kprint_newline-IsCursor : {v : Vga} → IsCursor v → IsCursor (kprint_newline v)
unfolding kprint_newline
kprint_newline-IsCursor {v} h = omega arith

put_string-IsCursor : (s : List ℕ) {v : Vga} → IsCursor v → IsCursor (put_string s v)
unfolding put_string
put_string-IsCursor [] h = h
put_string-IsCursor (c ∷ s) h = put_string-IsCursor s (put_cell-IsCursor c h)

put_text-IsCursor : (s : List ℕ) {v : Vga} → IsCursor v → IsCursor (put_text s v)
unfolding put_text
put_text-IsCursor [] h = h
put_text-IsCursor (c ∷ s) {v} h = elim (Bool-cases (c == 10)) [
  | inl line ↦ rw (line, put_text) (put_text-IsCursor s (kprint_newline-IsCursor h))
  | inr cell ↦ rw (cell, put_text) (put_text-IsCursor s (put_cell-IsCursor c h))
]

print_converted-IsCursor :
    (q : ℕ) (args : List Arg) (v v' : Vga) (args' : List Arg)
    → IsCursor v
    → print_converted q args v ≡ some (v', args')
    → IsCursor v'
unfolding print_converted
print_converted-IsCursor q args v v' args' h e = elim (Option-cases (convert q none args)) [
  | inl bad ↦ absurd (ground (arith, bad, e))
  | inr ((out, left), done) ↦
      ground (arith, done, e, put_text-IsCursor out h, put_string-IsCursor out h)
]

-- A conversion and the rest of the format.
converted_rest : (f : ℕ) → List ℕ → List Arg → Vga → Option Vga
converted_rest f [] args v = none
converted_rest f (q ∷ rest) args v = elim (print_converted q args v) [
  | none ↦ none
  | some (v', args') ↦ kprintf_from f rest args' v'
]

module _ (f : ℕ)
    (after : (format : List ℕ) (args : List Arg) (v v' : Vga)
      → IsCursor v
      → kprintf_from f format args v ≡ some v'
      → IsCursor v') where
  converted_rest-IsCursor :
      (s : List ℕ) (args : List Arg) (v v' : Vga)
      → IsCursor v
      → converted_rest f s args v ≡ some v'
      → IsCursor v'
  unfolding converted_rest
  converted_rest-IsCursor [] args v v' h e = absurd (ground (arith, e))
  converted_rest-IsCursor (q ∷ rest) args v v' h e =
      elim (Option-cases (print_converted q args v)) [
        | inl bad ↦ absurd (ground (arith, bad, e))
        | inr ((v1, args1), done) ↦
            after rest args1 v1 v' (print_converted-IsCursor q args v v1 args1 h done)
              (ground (arith, done, e))
      ]

kprintf_from-IsCursor :
    (f : ℕ) (format : List ℕ) (args : List Arg) (v v' : Vga)
    → IsCursor v
    → kprintf_from f format args v ≡ some v'
    → IsCursor v'
unfolding kprintf_from converted_rest
kprintf_from-IsCursor zero format args v v' h e = absurd (ground (arith, e))
kprintf_from-IsCursor (suc f) [] args v v' h e = ground (arith, e)
kprintf_from-IsCursor (suc f) (p ∷ format) args v v' h e = elim (Bool-cases (p == 10)) [
  | inl line ↦
      kprintf_from-IsCursor f format args (kprint_newline v) v' (kprint_newline-IsCursor h)
        (ground (arith, line, e))
  | inr other ↦ elim (Bool-cases (p == 37)) [
    | inr plain ↦
        kprintf_from-IsCursor f format args (put_cell p v) v' (put_cell-IsCursor p h)
          (ground (arith, other, plain, e))
    | inl percent ↦ elim (Option-cases (parse_precision format args)) [
      | inl bad ↦ absurd (ground (arith, other, percent, bad, e))
      | inr (spec, parsed) ↦
          converted_rest-IsCursor f (kprintf_from-IsCursor f) spec.format spec.args v v' h
            (ground (arith, other, percent, parsed, e))
    ]
  ]
]

pub kprintf-IsCursor :
    (format : List ℕ) (args : List Arg) {v v' : Vga}
    → IsCursor v
    → kprintf format args v ≡ some v'
    → IsCursor v'
unfolding kprintf
kprintf-IsCursor format args {v} {v'} h e =
    kprintf_from-IsCursor (length format + 1) format args v v' h e

blank_cells-loc : (n loc : ℕ) (v : Vga) → (blank_cells n loc v).current_loc ≡ v.current_loc
unfolding blank_cells
blank_cells-loc zero loc v = refl
blank_cells-loc (suc n) loc v = blank_cells-loc n (loc + 2) (put_at loc 32 7 v)

pub clear_screen-IsCursor : (v : Vga) → IsCursor (clear_screen v)
unfolding clear_screen
clear_screen-IsCursor v = omega arith

pub kvga_set_cursor-IsCursor : (row col : ℕ) (v : Vga) → IsCursor (kvga_set_cursor row col v)
unfolding kvga_set_cursor
kvga_set_cursor-IsCursor row col v = omega arith

pub kvga_write_char-IsCursor :
    (row col c attr : ℕ) {v : Vga} → IsCursor v → IsCursor (kvga_write_char row col c attr v)
unfolding kvga_write_char
kvga_write_char-IsCursor row col c attr h = record { even = h.even; small = h.small }

pub kvga_clear_to_eol-IsCursor :
    (row col : ℕ) {v : Vga} → IsCursor v → IsCursor (kvga_clear_to_eol row col v)
unfolding kvga_clear_to_eol
kvga_clear_to_eol-IsCursor row col {v} h = record {
  even = rw (blank_cells-loc _ _ v) h.even;
  small = rw (blank_cells-loc _ _ v) h.small;
}
