-- ===== src/Shell/Line.antt =====
-- kernel/Shell.c: `lsh_read_line` on plain bytes.
use shed_kernel.Prelude.{
  ℕ, ◌%◌, ◌≡◌, ap, ◌∙◌, sym, Bool, true, false, not, ◌&&◌, ◌||◌, some, List, [], ◌∷◌, ◌++◌, ltb,
  ◌==◌, arith, append_assoc, append_nil,
}
use shed_kernel.Console.{Vga, put_cell, put_string}
use shed_kernel.Shell.{read_loop, lsh_read_line}

-- No backspace, no newline, and no code above a byte.
abbrev pub is_typed : List ℕ → Bool
is_typed [] = true
is_typed (c ∷ keys) = not ((c == 8) || (c == 10)) && ltb c 256 && is_typed keys

read_loop-typed :
    (keys rest buffer : List ℕ) (v : Vga)
    → is_typed keys ≡ true
    → read_loop (keys ++ 10 ∷ rest) buffer v ≡ some (buffer ++ keys, rest, put_string keys v)
unfolding read_loop put_string
read_loop-typed [] rest buffer v h = ap (λ k. some (k, rest, v)) (sym (append_nil buffer))
read_loop-typed (c ∷ keys) rest buffer v h =
    let back : (c == 8) ≡ false = ground arith in
    let enter : (c == 10) ≡ false = ground arith in
    let byte : c % 256 ≡ c = ground arith in
    rw (back, enter, read_loop)
      (rw byte (
        read_loop-typed keys rest (buffer ++ c ∷ []) (put_cell c v) (ground arith)
        ∙ ap (λ k. some (k, rest, put_string keys (put_cell c v)))
            (append_assoc buffer (c ∷ []) keys)))

-- Bytes other than backspace and newline, typed and ended by a newline, are the line that
-- `lsh_read_line` returns; they are echoed in this order, and the keys behind the newline are left.
pub lsh_read_line-typed :
    (keys rest : List ℕ) (v : Vga)
    → is_typed keys ≡ true
    → lsh_read_line (keys ++ 10 ∷ rest) v ≡ some (keys, rest, put_string keys v)
unfolding lsh_read_line
lsh_read_line-typed keys rest v h = read_loop-typed keys rest [] v h
