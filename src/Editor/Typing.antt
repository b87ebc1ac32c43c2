-- ===== src/Editor/Typing.antt =====
-- fs/ed.c: the keys of the insert mode on the text.
use shed_kernel.Prelude.{
  ℕ, suc, ◌-◌, ◌<◌, ◌≡◌, refl, ap, ◌∙◌, sym, subst, ◌≢◌, Bool, true, false, ◌&&◌, ◌||◌, not, some,
  List, [], ◌∷◌, ◌++◌, ltb, leb, ◌==◌, if◌then◌else◌, length, get_elem?, set, arith, Bool-cases,
  inl, inr, length-append, pos, rev, rev-rev, length-rev, append_assoc,
}
use shed_kernel.Editor.{
  EditorConfig, Row, numrows, remove_at, editor_row_del_char, editor_insert_newline,
  editor_del_char, editor_del_row, editor_row_append_string,
}
use shed_kernel.Editor.Keys.{insert_key, printable, is_backspace}
use shed_kernel.Editor.Buffer.{
  Buffer, buffer_row, show, type_key, erase, insert_char-buffer, rows-numrows, insert_newline_first,
  insert_newline_inside, remove_at-here, get_elem?-here, set-here,
}

abbrev is_nil {ℓ} : {A : Type ℓ} → List A → Bool
is_nil [] = true
is_nil (x ∷ xs) = false

-- Whether a key changes the text.
abbrev pub changes : ℕ → Buffer → Bool
changes c z =
    (c == 10) || (if is_backspace c then not (is_nil z.left && is_nil z.above) else printable c)

insert_newline-buffer :
    (z : Buffer) (e : EditorConfig)
    → editor_insert_newline (show z e)
      ≡ some (show (record z { above = rev z.left ∷ z.above; left = [] }) e)
insert_newline-buffer z e = go z.left refl
  where
    go :
        (left : List ℕ)
        → z.left ≡ left
        → editor_insert_newline (show z e)
          ≡ some (show (record z { above = rev z.left ∷ z.above; left = [] }) e)
    go [] h =
        subst
          (λ k.
            editor_insert_newline (show (record z { left = k }) e)
            ≡ some (show (record z { above = rev k ∷ z.above; left = [] }) e))
          (sym h) (insert_newline_first z.above z.right z.below e)
    go (l ∷ ls) h =
        subst
          (λ k.
            editor_insert_newline (show (record z { left = k }) e)
            ≡ some (show (record z { above = rev k ∷ z.above; left = [] }) e))
          (sym h) (insert_newline_inside z.above l ls z.right z.below e)

del_row :
    (ls : List ℕ) (l : ℕ) (right : List ℕ)
    → editor_row_del_char (rev ls ++ l ∷ [] ++ right) (length ls) ≡ rev ls ++ right
unfolding editor_row_del_char
del_row ls l right =
    let col : leb (length (rev ls ++ l ∷ [] ++ right)) (length ls) ≡ false = ground (
      arith,
      length-append (rev ls ++ l ∷ []) right,
      length-append (rev ls) (l ∷ []),
      length-rev ls,
    ) in
    rw (col, editor_row_del_char)
      (ap (remove_at (length ls)) (append_assoc (rev ls) (l ∷ []) right)
        ∙ remove_at-here (length ls) (rev ls) l right (sym (length-rev ls)))

-- A backspace inside a row.
del_char_inside :
    (above : List Row) (l : ℕ) (ls right : List ℕ) (below : List Row) (e : EditorConfig)
    → let z : Buffer = record { above = above; left = l ∷ ls; right = right; below = below } in
      editor_del_char (show z e) ≡ some (record (show (record z { left = ls }) e) { dirty = pos 1 })
unfolding editor_del_char
del_char_inside above l ls right below e =
    let z : Buffer = record { above = above; left = l ∷ ls; right = right; below = below } in
    let n = length above in
    let row = buffer_row z in
    let inside : (n == numrows (show z e)) ≡ false = ground (arith, rows-numrows z e) in
    let ne : (suc (length ls) == 0) ≡ false = ground arith in
    let right_of : ltb 0 (suc (length ls)) ≡ true = ground arith in
    let back : suc (length ls) - 1 ≡ length ls = omega arith in
    let here : n ≡ length (rev above) = sym (length-rev above) in
    let found = get_elem?-here n (rev above) row below here in
    let removed : editor_row_del_char row (length ls) ≡ rev ls ++ right = del_row ls l right in
    let put = set-here n (rev above) row (rev ls ++ right) below here in
    rw (inside, ne, editor_del_char)
      (rw (found, editor_del_char)
        (rw (right_of, editor_del_char) (rw back (rw (removed, put) refl))))

del_row-in_range :
    (at : ℕ) (e : EditorConfig)
    → at < numrows e
    → editor_del_row at e ≡ record e { rows = remove_at at e.rows; dirty = pos 1 }
unfolding editor_del_row
del_row-in_range at e h =
    let inside : leb (numrows e) at ≡ false = ground arith in rw (inside, editor_del_row) refl

-- A backspace at the start of a row.
del_char_join :
    (r : Row) (ab : List Row) (right : List ℕ) (below : List Row) (e : EditorConfig)
    → let z : Buffer = record { above = r ∷ ab; left = []; right = right; below = below } in
      editor_del_char (show z e)
      ≡ some (record (show (record z { above = ab; left = rev r }) e) { dirty = pos 1 })
unfolding editor_del_char editor_row_append_string
del_char_join r ab right below e =
    let z : Buffer = record { above = r ∷ ab; left = []; right = right; below = below } in
    let n = suc (length ab) in
    let inside : (n == numrows (show z e)) ≡ false = ground (arith, rows-numrows z e) in
    let ne : (n == 0) ≡ false = ground arith in
    let found = get_elem?-here n (rev (r ∷ ab)) right below (sym (length-rev (r ∷ ab))) in
    let back : n - 1 ≡ length ab = omega arith in
    let here : length ab ≡ length (rev ab) = sym (length-rev ab) in
    let split : rev (r ∷ ab) ++ right ∷ below ≡ rev ab ++ r ∷ right ∷ below =
      append_assoc (rev ab) (r ∷ []) (right ∷ below) in
    let found_above : get_elem? (rev (r ∷ ab) ++ right ∷ below) (length ab) ≡ some r =
      ap (λ k. get_elem? k (length ab)) split
      ∙ get_elem?-here (length ab) (rev ab) r (right ∷ below) here in
    let put : set (rev (r ∷ ab) ++ right ∷ below) (length ab) (r ++ right)
        ≡ rev ((r ++ right) ∷ ab) ++ right ∷ below =
      ap (λ k. set k (length ab) (r ++ right)) split
      ∙ set-here (length ab) (rev ab) r (r ++ right) (right ∷ below) here
      ∙ sym (append_assoc (rev ab) ((r ++ right) ∷ []) (right ∷ below)) in
    let joined : EditorConfig = record (show z e) {
      rows = rev ((r ++ right) ∷ ab) ++ right ∷ below;
    } in
    let gone : remove_at n (rev ((r ++ right) ∷ ab) ++ right ∷ below)
        ≡ rev ab ++ (r ++ right) ∷ below =
      remove_at-here n (rev ((r ++ right) ∷ ab)) right below (sym (length-rev ((r ++ right) ∷ ab)))
      ∙ append_assoc (rev ab) ((r ++ right) ∷ []) below in
    let deleted = del_row-in_range n joined (
      omega (
        arith,
        length-append (rev ((r ++ right) ∷ ab)) (right ∷ below),
        length-rev ((r ++ right) ∷ ab),
      )) in
    let app : editor_row_append_string r right ≡ r ++ right = refl in
    let row : rev (rev r) ++ right ≡ r ++ right = ap (λ k. k ++ right) (rev-rev r) in
    let col : length (rev r) ≡ length r = length-rev r in
    rw (inside, ne, editor_del_char)
      (rw (found, editor_del_char)
        (rw (back, found_above, editor_del_char)
          (rw (back, app, put) (rw deleted (rw (gone, row, col) refl)))))

del_char_start :
    (right : List ℕ) (below : List Row) (e : EditorConfig)
    → let z : Buffer = record { above = []; left = []; right = right; below = below } in
      editor_del_char (show z e) ≡ some (show z e)
unfolding editor_del_char
del_char_start right below e = ground arith

del_char-buffer :
    (above : List Row) (left right : List ℕ) (below : List Row) (e : EditorConfig)
    → let z : Buffer = record { above = above; left = left; right = right; below = below } in
      editor_del_char (show z e)
      ≡ some (record (show (erase above left z) e) {
        dirty = if not (is_nil left && is_nil above) then pos 1 else e.dirty;
      })
del_char-buffer above (l ∷ ls) right below e = del_char_inside above l ls right below e
del_char-buffer (r ∷ ab) [] right below e = del_char_join r ab right below e
del_char-buffer [] [] right below e = del_char_start right below e

-- In insert mode, a key other than escape uses no row out of range, does to the rows and the cursor
-- of an editor that shows a buffer what `type_key` does to the buffer, and marks the text as changed
-- if and only if `changes` holds.
pub insert_key-type_key :
    (c : ℕ) (z : Buffer) (e : EditorConfig)
    → c ≢ 27
    → insert_key c (show z e)
      ≡ some (show (type_key c z) (record e { dirty = if changes c z then pos 1 else e.dirty }))
unfolding insert_key
insert_key-type_key c z e ne =
    let typed : (c == 27) ≡ false = ground arith in
    elim (Bool-cases (c == 10)) [
      | inl enter ↦ rw (typed, enter, insert_key) (rw (insert_newline-buffer z e) refl)
      | inr other ↦ elim (Bool-cases (is_backspace c)) [
        | inl back ↦
            rw (typed, other, back, insert_key) (del_char-buffer z.above z.left z.right z.below e)
        | inr key ↦ elim (Bool-cases (printable c)) [
          | inl p ↦ rw (typed, other, key, p, insert_key) (insert_char-buffer c z e)
          | inr p ↦ rw (typed, other, key, p, insert_key) refl
        ]
      ]
    ]
