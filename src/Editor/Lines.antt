-- ===== src/Editor/Lines.antt =====
-- fs/ed.c: yanking, pasting and deleting whole rows, and the message for an unknown command.
use shed_kernel.Prelude.{
  ℕ, suc, ◌+◌, ◌≤◌, ◌<◌, ◌≡◌, refl, ap, ◌∙◌, sym, true, false, none, [], ◌∷◌, ◌++◌, ltb, ◌==◌,
  length, length-take, take, arith, length-append, rev, length-rev, append_assoc,
  take-eq_of_length_le,
}
use shed_kernel.Fs.Disk.{Fs}
use shed_kernel.Editor.{
  EditorConfig, Row, editor_delete_line, editor_del_row, insert_at, editor_insert_row,
  editor_yank_line, editor_paste_line, editor_insert_char, insert_char_in_row,
}
use shed_kernel.Editor.Command.{editor_exec_command, is_command, not_a_command}
use shed_kernel.Editor.Buffer.{
  Buffer, buffer_row, show, rows-numrows, insert_row-in_range, insert_at-here, get_elem?-here,
}

-- Yanking the cursor's row and pasting it, where the row is not empty and has at most 4095 bytes,
-- puts a copy of it below it and moves the cursor to the start of the copy.
pub paste-yank :
    (z : Buffer) (e : EditorConfig)
    → 0 < length (buffer_row z)
    → length (buffer_row z) ≤ 4095
    → let row = buffer_row z in
      editor_paste_line (editor_yank_line (show z e))
      ≡ show (record z { above = row ∷ z.above; left = []; right = row }) (record e { yank = row })
unfolding editor_paste_line editor_yank_line
paste-yank z e some_row small =
    let row = buffer_row z in
    let n = length z.above in
    let here : n ≡ length (rev z.above) = sym (length-rev z.above) in
    let found = get_elem?-here n (rev z.above) row z.below here in
    let yanked : editor_yank_line (show z e) ≡ record (show z e) { yank = row } =
      rw (found, editor_yank_line)
        (ap (λ k. record (show z e) { yank = k }) (take-eq_of_length_le 4095 row small)) in
    let ne : (length row == 0) ≡ false = ground arith in
    let wide : n + 1 ≡ suc n = omega arith in
    let inserted =
      insert_row-in_range (n + 1) row (record (show z e) { yank = row })
        (omega (arith, rows-numrows z e)) in
    let moved : insert_at (n + 1) row (rev z.above ++ row ∷ z.below)
        ≡ rev (row ∷ z.above) ++ row ∷ z.below =
      ap (insert_at (n + 1) row) (sym (append_assoc (rev z.above) (row ∷ []) z.below))
      ∙ insert_at-here (n + 1) (rev z.above ++ row ∷ []) row z.below
          (omega (arith, length-append (rev z.above) (row ∷ []), here)) in
    rw (yanked, editor_paste_line)
      (rw (ne, editor_paste_line) (rw (inserted) (rw (moved, wide) refl)))

some_taken : (n : ℕ) (row : Row) → 0 < n → 0 < length row → (length (take n row) == 0) ≡ false
some_taken n row pos h = ground (arith, length-take n row)

-- If the only row of the text, not empty, is deleted and pasted again, the next character that is
-- typed goes to a row that does not exist.
pub paste-delete_lost :
    (row : Row) (c : ℕ) (e : EditorConfig)
    → 0 < length row
    → editor_insert_char c
        (editor_paste_line (editor_delete_line (record e { rows = row ∷ []; cy = 0 })))
      ≡ none
unfolding editor_insert_char editor_paste_line editor_delete_line editor_yank_line editor_del_row
    editor_insert_row insert_char_in_row
paste-delete_lost row c e h =
    let some_bytes : (length (take 4095 row) == 0) ≡ false = some_taken 4095 row (omega arith) h in
    rw some_bytes refl

-- A command that is none of the four and is longer than 56 bytes overflows the array for its
-- message.
pub editor_exec_command-overflow :
    (stack : ℕ → ℕ) (e : EditorConfig) (fs : Fs)
    → is_command e.cmdbuf (113 ∷ []) ≡ false
    → is_command e.cmdbuf (113 ∷ 33 ∷ []) ≡ false
    → is_command e.cmdbuf (119 ∷ []) ≡ false
    → is_command e.cmdbuf (119 ∷ 113 ∷ []) ≡ false
    → 56 < length e.cmdbuf
    → editor_exec_command stack e fs ≡ none
unfolding editor_exec_command
editor_exec_command-overflow stack e fs q quit w wq long =
    let over : ltb 79 (length (not_a_command ++ e.cmdbuf)) ≡ true =
      ground (arith, length-append not_a_command e.cmdbuf) in
    rw (q, quit, w, wq, over, editor_exec_command) refl
