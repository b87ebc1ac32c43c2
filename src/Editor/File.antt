-- ===== src/Editor/File.antt =====
-- fs/ed.c: the loops of `editorSave` and `editorOpen`.
use shed_kernel.Prelude.{
  ℕ, ◌+◌, ◌-◌, ◌≤◌, ◌≡◌, refl, ap, ap₂, ◌∙◌, sym, Bool, true, false, ◌&&◌, ◌||◌, not, List, [], ◌∷◌,
  ◌++◌, ltb, ◌==◌, length, take, arith, min, append_assoc, append_nil,
}
use shed_kernel.Editor.{EditorConfig, Row, numrows, insert_at, editor_insert_row}
use shed_kernel.Editor.Buffer.{insert_row-in_range}
use shed_kernel.Editor.Command.{open_loop, save_loop}

-- The bytes that the rows take in the file, with a newline each.
abbrev pub size_of : List Row → ℕ
size_of [] = 0
size_of (row ∷ rows) = length row + 1 + size_of rows

-- No newline and no terminator among the bytes.
abbrev pub is_line : Row → Bool
is_line [] = true
is_line (c ∷ row) = not ((c == 10) || (c == 0)) && is_line row

abbrev pub are_lines : List Row → Bool
are_lines [] = true
are_lines (row ∷ rows) = is_line row && are_lines rows

abbrev lines : List Row → List ℕ
lines [] = []
lines (row ∷ rows) = row ++ 10 ∷ lines rows

save_loop-lines :
    (rows : List Row) (space : ℕ) → size_of rows ≤ space → save_loop rows space ≡ lines rows
unfolding save_loop
save_loop-lines [] space h = refl
save_loop-lines (row ∷ rows) space h =
    let some_space : (space == 0) ≡ false = ground arith in
    let copy : min (length row) space ≡ length row = omega arith in
    let fits : ltb (length row) space ≡ true = ground arith in
    rw (some_space, save_loop)
      (rw (copy, save_loop)
        (rw (fits, save_loop)
          (ap₂ (λ a b. a ++ 10 ∷ b) (take_all row)
            (save_loop-lines rows (space - length row - 1) (omega arith)))))
  where
    take_all : (xs : List ℕ) → take (length xs) xs ≡ xs
    take_all [] = refl
    take_all (x ∷ xs) = ap (x ∷◌) (take_all xs)

insert_row-last :
    (s : Row) (e : EditorConfig)
    → editor_insert_row (numrows e) s e ≡ record e { rows = e.rows ++ s ∷ [] }
insert_row-last s e =
    insert_row-in_range (numrows e) s e (omega arith)
    ∙ ap (λ k. record e { rows = k }) (last e.rows)
  where
    last : (xs : List Row) → insert_at (length xs) s xs ≡ xs ++ s ∷ []
    last [] = refl
    last (x ∷ xs) = ap (x ∷◌) (last xs)

open_loop-row :
    (row : Row) (s : List ℕ) (cur : Row) (e : EditorConfig)
    → is_line row ≡ true
    → open_loop (row ++ 10 ∷ s) cur e
      ≡ open_loop s [] (record e { rows = e.rows ++ (cur ++ row) ∷ [] })
unfolding open_loop
open_loop-row [] s cur e h =
    ap (open_loop s []) (
      insert_row-last cur e ∙ ap (λ k. record e { rows = e.rows ++ k ∷ [] }) (sym (append_nil cur)))
open_loop-row (c ∷ row) s cur e h =
    let other : ((c == 10) || (c == 0)) ≡ false = ground arith in
    rw (other, open_loop)
      (open_loop-row row s (cur ++ c ∷ []) e (ground arith)
        ∙ ap (λ k. open_loop s [] (record e { rows = e.rows ++ k ∷ [] }))
            (append_assoc cur (c ∷ []) row))

open_loop-lines :
    (rows : List Row) (e : EditorConfig)
    → are_lines rows ≡ true
    → open_loop (lines rows ++ 0 ∷ []) [] e ≡ record e { rows = e.rows ++ (rows ++ [] ∷ []) }
unfolding open_loop
open_loop-lines [] e h = insert_row-last [] e
open_loop-lines (row ∷ rows) e h =
    ap (λ k. open_loop k [] e) (append_assoc row (10 ∷ lines rows) (0 ∷ []))
    ∙ open_loop-row row (lines rows ++ 0 ∷ []) [] e (ground arith)
    ∙ open_loop-lines rows (record e { rows = e.rows ++ row ∷ [] }) (ground arith)
    ∙ ap (λ k. record e { rows = k }) (append_assoc e.rows (row ∷ []) (rows ++ [] ∷ []))

-- Rows without newlines and zero bytes that take at most 4095 bytes with a newline each, written by
-- the loop of `editorSave` and read back by the loop of `editorOpen`, come back with one empty row
-- more.
pub open_loop-save_loop :
    (rows : List Row) (e : EditorConfig)
    → are_lines rows ≡ true
    → size_of rows ≤ 4095
    → (open_loop (save_loop rows 4095 ++ 0 ∷ []) [] e).rows ≡ e.rows ++ (rows ++ [] ∷ [])
open_loop-save_loop rows e h fits =
    ap (λ k. (open_loop (k ++ 0 ∷ []) [] e).rows) (save_loop-lines rows 4095 fits)
    ∙ ap (λ k. k.rows) (open_loop-lines rows e h)
