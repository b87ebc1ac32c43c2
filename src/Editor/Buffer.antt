-- ===== src/Editor/Buffer.antt =====
-- What typing means: the editor's rows and cursor as a text with a gap at the cursor.
use shed_kernel.Prelude.{
  ℕ, suc, ◌+◌, ◌≤◌, ◌<◌, ◌≡◌, refl, ap, ap₂, ◌∙◌, sym, subst, false, some, List, [], ◌∷◌, ◌++◌, ltb,
  ◌==◌, if◌then◌else◌, length, get_elem?, take, drop, set, arith, length-append, pos, rev,
  length-rev, append_assoc, take-append_prefix, drop-append_prefix, get_elem?-append_prefix,
  set-append_prefix,
}
use shed_kernel.Editor.{
  EditorConfig, Row, numrows, insert_at, remove_at, editor_insert_row, editor_insert_char,
  editor_insert_newline, insert_char_in_row, editor_row_insert_char,
}
use shed_kernel.Editor.Keys.{printable, is_backspace}

-- The rows above the cursor's row, from the nearest up; in the cursor's row the bytes before the
-- cursor, from the nearest back, and those from the cursor on; the rows below.
pub record Buffer : Type 0 where
  pub above : List Row
  pub left : List ℕ
  pub right : List ℕ
  pub below : List Row

abbrev pub buffer_row : Buffer → Row
buffer_row z = rev z.left ++ z.right

-- The editor that shows the buffer.
abbrev pub show : Buffer → EditorConfig → EditorConfig
show z e = record e {
  rows = rev z.above ++ buffer_row z ∷ z.below;
  cy = length z.above;
  cx = length z.left;
}

abbrev pub erase : (above : List Row) (left : List ℕ) → Buffer → Buffer
erase above (x ∷ left) z = record z { left = left }
erase [] [] z = z
erase (row ∷ above) [] z = record z { above = above; left = rev row }

-- What a key does to the buffer: a character goes in before the cursor, a newline ends the row
-- there, and a backspace takes the byte before the cursor, or joins the row with the one above.
abbrev pub type_key : ℕ → Buffer → Buffer
type_key c z =
    if c == 10
    then record z { above = rev z.left ∷ z.above; left = [] }
    else if is_backspace c
    then erase z.above z.left z
    else if printable c
    then record z { left = c ∷ z.left }
    else z

module _ {ℓ} {A : Type ℓ} where
  insert_at-prefix :
      (xs : List A) (v : A) (ys : List A) → insert_at (length xs) v (xs ++ ys) ≡ xs ++ v ∷ ys
  insert_at-prefix xs v ys = rw (take-append_prefix xs ys, drop-append_prefix xs ys) refl

  remove_at-prefix :
      (xs : List A) (v : A) (ys : List A) → remove_at (length xs) (xs ++ v ∷ ys) ≡ xs ++ ys
  remove_at-prefix xs v ys =
      let next : length xs + 1 ≡ suc (length xs) = omega arith in
      rw next (ap₂ (λ a b. a ++ b) (take-append_prefix xs (v ∷ ys)) (drop_next xs v ys))
    where
      drop_next : (xs : List A) (v : A) (ys : List A) → drop (suc (length xs)) (xs ++ v ∷ ys) ≡ ys
      drop_next [] v ys = refl
      drop_next (x ∷ xs) v ys = drop_next xs v ys

  -- The same at an index that is the length of the prefix.
  pub insert_at-here :
      (i : ℕ) (xs : List A) (v : A) (ys : List A)
      → i ≡ length xs
      → insert_at i v (xs ++ ys) ≡ xs ++ v ∷ ys
  insert_at-here i xs v ys e = rw e (insert_at-prefix xs v ys)

  pub remove_at-here :
      (i : ℕ) (xs : List A) (v : A) (ys : List A)
      → i ≡ length xs
      → remove_at i (xs ++ v ∷ ys) ≡ xs ++ ys
  remove_at-here i xs v ys e = rw e (remove_at-prefix xs v ys)

  pub get_elem?-here :
      (i : ℕ) (xs : List A) (v : A) (ys : List A)
      → i ≡ length xs
      → get_elem? (xs ++ v ∷ ys) i ≡ some v
  get_elem?-here i xs v ys e = rw e (get_elem?-append_prefix xs v ys)

  pub set-here :
      (i : ℕ) (xs : List A) (u v : A) (ys : List A)
      → i ≡ length xs
      → set (xs ++ u ∷ ys) i v ≡ xs ++ v ∷ ys
  set-here i xs u v ys e = rw e (set-append_prefix xs u v ys)

insert_char_in_row-buffer :
    (c : ℕ) (z : Buffer) (e : EditorConfig)
    → insert_char_in_row c (show z e)
      ≡ some (record (show (record z { left = c ∷ z.left }) e) { dirty = pos 1 })
unfolding insert_char_in_row editor_row_insert_char
insert_char_in_row-buffer c z e =
    let n = length z.above in
    let here : n ≡ length (rev z.above) = sym (length-rev z.above) in
    let found = get_elem?-here n (rev z.above) (buffer_row z) z.below here in
    let col : ltb (length (buffer_row z)) (length z.left) ≡ false =
      ground (arith, length-append (rev z.left) z.right, length-rev z.left) in
    let typed : insert_at (length z.left) c (buffer_row z) ≡ rev (c ∷ z.left) ++ z.right =
      insert_at-here (length z.left) (rev z.left) c z.right (sym (length-rev z.left))
      ∙ sym (append_assoc (rev z.left) (c ∷ []) z.right) in
    let put : (r : Row)
        → set (rev z.above ++ buffer_row z ∷ z.below) n r ≡ rev z.above ++ r ∷ z.below =
      λ r. set-here n (rev z.above) (buffer_row z) r z.below here in
    let row : editor_row_insert_char (buffer_row z) (length z.left) c
        ≡ rev (c ∷ z.left) ++ z.right =
      rw (col, editor_row_insert_char) typed in
    let wide : length z.left + 1 ≡ suc (length z.left) = omega arith in
    rw (found, insert_char_in_row) (rw (row, put (rev (c ∷ z.left) ++ z.right), wide) refl)

pub insert_char-buffer :
    (c : ℕ) (z : Buffer) (e : EditorConfig)
    → editor_insert_char c (show z e)
      ≡ some (record (show (record z { left = c ∷ z.left }) e) { dirty = pos 1 })
unfolding editor_insert_char
insert_char-buffer c z e =
    let inside : (length z.above == numrows (show z e)) ≡ false =
      ground (arith, length-append (rev z.above) (buffer_row z ∷ z.below), length-rev z.above) in
    rw (inside, editor_insert_char) (insert_char_in_row-buffer c z e)

pub insert_row-in_range :
    (at : ℕ) (s : Row) (e : EditorConfig)
    → at ≤ numrows e
    → editor_insert_row at s e ≡ record e { rows = insert_at at s e.rows }
unfolding editor_insert_row
insert_row-in_range at s e h =
    let inside : ltb (numrows e) at ≡ false = ground arith in rw (inside, editor_insert_row) refl

pub rows-numrows : (z : Buffer) (e : EditorConfig) → length z.above < numrows (show z e)
rows-numrows z e =
    omega (arith, length-append (rev z.above) (buffer_row z ∷ z.below), length-rev z.above)

pub insert_newline_first :
    (above : List Row) (right : List ℕ) (below : List Row) (e : EditorConfig)
    → let z : Buffer = record { above = above; left = []; right = right; below = below } in
      editor_insert_newline (show z e) ≡ some (show (record z { above = [] ∷ above }) e)
unfolding editor_insert_newline
insert_newline_first above right below e =
    let z : Buffer = record { above = above; left = []; right = right; below = below } in
    let n = length above in
    let inserted = insert_row-in_range n [] (show z e) (omega (arith, rows-numrows z e)) in
    let moved : insert_at n [] (rev above ++ right ∷ below) ≡ rev ([] ∷ above) ++ right ∷ below =
      insert_at-here n (rev above) [] (right ∷ below) (sym (length-rev above))
      ∙ sym (append_assoc (rev above) ([] ∷ []) (right ∷ below)) in
    let wide : n + 1 ≡ suc n = omega arith in
    rw (inserted, editor_insert_newline) (rw (moved, wide) refl)

pub insert_newline_inside :
    (above : List Row) (l : ℕ) (ls right : List ℕ) (below : List Row) (e : EditorConfig)
    → let z : Buffer = record { above = above; left = l ∷ ls; right = right; below = below } in
      editor_insert_newline (show z e)
      ≡ some (show (record z { above = rev (l ∷ ls) ∷ above; left = [] }) e)
unfolding editor_insert_newline
insert_newline_inside above l ls right below e =
    let z : Buffer = record { above = above; left = l ∷ ls; right = right; below = below } in
    let n = length above in
    let k = length z.left in
    let row = buffer_row z in
    let here : n ≡ length (rev above) = sym (length-rev above) in
    let found = get_elem?-here n (rev above) row below here in
    let inserted =
      insert_row-in_range (n + 1) (drop k row) (show z e) (omega (arith, rows-numrows z e)) in
    let col : ltb (length row) k ≡ false =
      ground (arith, length-append (rev z.left) right, length-rev z.left) in
    let cut : drop k row ≡ right =
      subst (λ i. drop i row ≡ right) (length-rev z.left) (drop-append_prefix (rev z.left) right) in
    let kept : take k row ≡ rev z.left =
      subst (λ i. take i row ≡ rev z.left) (length-rev z.left)
        (take-append_prefix (rev z.left) right) in
    let behind : n + 1 ≡ length (rev above ++ row ∷ []) =
      omega (arith, length-append (rev above) (row ∷ []), here) in
    let moved : insert_at (n + 1) right (rev above ++ row ∷ below)
        ≡ rev above ++ row ∷ right ∷ below =
      ap (insert_at (n + 1) right) (sym (append_assoc (rev above) (row ∷ []) below))
      ∙ insert_at-here (n + 1) (rev above ++ row ∷ []) right below behind
      ∙ append_assoc (rev above) (row ∷ []) (right ∷ below) in
    let put : set (rev above ++ row ∷ right ∷ below) n (rev z.left)
        ≡ rev (rev z.left ∷ above) ++ right ∷ below =
      set-here n (rev above) row (rev z.left) (right ∷ below) here
      ∙ sym (append_assoc (rev above) (rev z.left ∷ []) (right ∷ below)) in
    let wide : n + 1 ≡ suc n = omega arith in
    let ne : (suc (length ls) == 0) ≡ false = ground arith in
    rw (found, editor_insert_newline)
      (rw (col, inserted, editor_insert_newline)
        (rw (cut, kept) (rw moved (rw put (rw (ne, wide) refl)))))
