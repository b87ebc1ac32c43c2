-- ===== src/User/ShellLine.antt =====
-- user/user_shell.c: the lines that `read_line` returns, and the tokens of `split_line`.
use shed_kernel.Prelude.{
  ℕ, zero, suc, ◌+◌, ◌-◌, ◌%◌, ◌<◌, ◌≤◌, ◌≡◌, refl, ap, ◌∙◌, sym, subst, true, false, none, some,
  List, [], ◌∷◌, ◌++◌, arith, Option-cases, Bool-cases, inl, inr, ◌==◌, if◌then◌else◌, length,
  Option, leb, ltb, take, length-append, length-take, is_some, some_of_is_some,
}
use shed_kernel.Console.{Vga}
use shed_kernel.Shell.{strtok, tok_delim, split_loop, lsh_split_line}
use shed_kernel.Shell.Words.{words, lsh_split_line-words}
use shed_kernel.Syscall.{erase_cell}
use shed_kernel.User.{line_loop, read_line, token_loop, split_line}

-- A line, if there is one, has at most 1023 bytes.
abbrev IsShort : Option (List ℕ × List ℕ × Vga) → Type 0
IsShort none = Unit
IsShort (some (line, keys, v)) = length line ≤ 1023

line_loop-IsShort :
    (keys buf : List ℕ) (v : Vga) → length buf < 1023 → IsShort (line_loop keys buf v)
unfolding line_loop
line_loop-IsShort [] buf v h = tt
line_loop-IsShort (k ∷ keys) buf v h = elim (Bool-cases (k % 256 == 10)) [
  | inl enter ↦ rw (enter, line_loop) (omega arith)
  | inr plain ↦ elim (Bool-cases (k % 256 == 8)) [
    | inl back ↦ elim (Bool-cases (ltb 0 (length buf))) [
      | inl some_left ↦
          rw (plain, back, line_loop)
            (rw (some_left, line_loop)
              (line_loop-IsShort keys (take (length buf - 1) buf) (erase_cell v)
                (omega (arith, length-take (length buf - 1) buf))))
      | inr empty ↦
          rw (plain, back, line_loop) (rw (empty, line_loop) (line_loop-IsShort keys buf v h))
    ]
    | inr typed ↦ elim (Bool-cases (leb 1023 (length buf + 1))) [
      | inl full ↦
          rw (plain, typed, line_loop)
            (rw (full, line_loop) (omega (arith, length-append buf ((k % 256) ∷ []))))
      | inr room ↦
          rw (plain, typed, line_loop)
            (rw (room, line_loop)
              (line_loop-IsShort keys (buf ++ (k % 256) ∷ []) _
                (ground (arith, length-append buf ((k % 256) ∷ [])))))
    ]
  ]
]

-- The line that `read_line` of the program's shell returns has at most 1023 bytes, so that it fits
-- with its terminator into the 1024 of the buffer, whatever is typed.
pub read_line-fits :
    (keys : List ℕ) (v v' : Vga) (line rest : List ℕ)
    → read_line keys v ≡ some (line, rest, v')
    → length line + 1 ≤ 1024
unfolding read_line
read_line-fits keys v v' line rest e =
    omega (arith, subst IsShort e (line_loop-IsShort keys [] v (omega arith)))

-- `split_line` stores the pointers that the kernel's shell would, and then a null pointer.
abbrev within : (pos : ℕ) → Option (List (List ℕ)) → Option (List (List ℕ))
within pos none = none
within pos (some tokens) = if leb 64 (pos + length tokens) then none else some tokens

abbrev consed : List ℕ → Option (List (List ℕ)) → Option (List (List ℕ))
consed token o = elim o [ none ↦ none | some tokens ↦ some (token ∷ tokens) ]

consed-some :
    (token : List ℕ) (o : Option (List (List ℕ)))
    → is_some (consed token o) ≡ true
    → is_some o ≡ true
consed-some token none h = h
consed-some token (some tokens) h = refl

consed-within :
    (pos : ℕ) (token : List ℕ) (o p : Option (List (List ℕ)))
    → is_some o ≡ true
    → (is_some o ≡ true → p ≡ within (pos + 1) o)
    → consed token p ≡ within pos (consed token o)
consed-within pos token none p h e = absurd (ground (arith, h))
consed-within pos token (some tokens) p h e =
    let shift : pos + 1 + length tokens ≡ pos + suc (length tokens) = omega arith in
    ap (consed token) (e refl)
    ∙ rw shift (elim (Bool-cases (leb 64 (pos + suc (length tokens)))) [
      | inl over ↦ rw over refl
      | inr inside ↦ rw inside refl
    ])

token_loop-within :
    (f pos : ℕ) (s : Option (List ℕ))
    → is_some (split_loop f s) ≡ true
    → token_loop f pos s ≡ within pos (split_loop f s)
unfolding token_loop split_loop
token_loop-within zero pos s h = refl
token_loop-within (suc f) pos s h = elim (Bool-cases (leb 64 pos)) [
  | inl full ↦
      let (tokens, e) = some_of_is_some (split_loop (suc f) s) h in
      let over : leb 64 (pos + length tokens) ≡ true = ground arith in
      rw (full, token_loop) (sym (ap (within pos) e ∙ rw over refl))
  | inr room ↦ elim (Option-cases (strtok s tok_delim)) [
    | inl done ↦
        let last : leb 64 (pos + 0) ≡ false = ground arith in
        rw (room, token_loop) (rw (done, token_loop, split_loop) (rw last refl))
    | inr ((token, s'), more) ↦
        rw (room, token_loop)
          (rw (more, token_loop, split_loop)
            (consed-within pos token (split_loop f s') (token_loop f (pos + 1) s')
              (consed-some token (split_loop f s') (rw (more, split_loop) at h))
              (token_loop-within f (pos + 1) s')))
  ]
]

-- `split_line` of the program's shell gives the words of the line if they are fewer than 64;
-- otherwise it stores behind the end of its 64 pointers.
pub split_line-words :
    (line : List ℕ)
    → split_line line
      ≡ (if leb 64 (length (words tok_delim line [])) then none else some (words tok_delim line []))
unfolding split_line lsh_split_line
split_line-words line =
    let e = lsh_split_line-words line in
    let start : 0 + length (words tok_delim line []) ≡ length (words tok_delim line []) =
      omega arith in
    token_loop-within (length line + 2) 0 (some line) (ap is_some e)
    ∙ ap (within 0) e
    ∙ ap (λ n. if leb 64 n then none else some (words tok_delim line [])) start
