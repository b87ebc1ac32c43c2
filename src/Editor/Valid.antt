-- ===== src/Editor/Valid.antt =====
-- fs/ed.c: the cursor, the text and the window: `editorMoveCursor` and `editorScroll`.
use shed_kernel.Prelude.{
  ℕ, zero, suc, ◌+◌, ◌-◌, ◌≤◌, ◌<◌, ◌≡◌, refl, true, Option, none, some, List, [], ◌∷◌, ltb,
  if◌then◌else◌, length, get_elem?, take, drop, set, arith, Bool-cases, inl, inr, length-append,
  length-take, length-drop,
}
use shed_kernel.Editor.{
  EditorConfig, Row, numrows, rowlen, insert_at, remove_at, editor_move_cursor, editor_scroll,
  move_left, move_other, is_left, move_by,
}

-- The cursor is in a row or behind the last one, and in the row's text or right behind it.
pub record IsValid (e : EditorConfig) : Type 0 where
  pub row : e.cy ≤ numrows e
  pub column : e.cx ≤ rowlen e

abbrev rowlen_at : List Row → ℕ → ℕ
rowlen_at rows i = elim (get_elem? rows i) [ none ↦ 0 | some row ↦ length row ]

length-insert_at {ℓ} :
    {A : Type ℓ}
    → (i : ℕ) (v : A) (xs : List A) → i ≤ length xs
    → length (insert_at i v xs) ≡ length xs + 1
length-insert_at i v xs h =
    omega (arith, length-append (take i xs) (v ∷ drop i xs), length-take i xs, length-drop i xs)

length-remove_at {ℓ} :
    {A : Type ℓ} → (i : ℕ) (xs : List A) → i < length xs → length (remove_at i xs) ≡ length xs - 1
length-remove_at i xs h =
    omega
      (arith, length-append (take i xs) (drop (i + 1) xs), length-take i xs, length-drop (i + 1) xs)

get_elem?-some {ℓ} :
    {A : Type ℓ} → (xs : List A) (i : ℕ) → i < length xs → (a : A) × (get_elem? xs i ≡ some a)
get_elem?-some [] i h = absurd (omega arith)
get_elem?-some (x ∷ xs) zero h = (x, refl)
get_elem?-some (x ∷ xs) (suc i) h = get_elem?-some xs i (omega arith)

get_elem?-none {ℓ} : {A : Type ℓ} → (xs : List A) (i : ℕ) → length xs ≤ i → get_elem? xs i ≡ none
get_elem?-none [] i h = refl
get_elem?-none (x ∷ xs) zero h = absurd (omega arith)
get_elem?-none (x ∷ xs) (suc i) h = get_elem?-none xs i (omega arith)

get_elem?-set_self {ℓ} :
    {A : Type ℓ} → (xs : List A) (i : ℕ) (v : A) → i < length xs → get_elem? (set xs i v) i ≡ some v
get_elem?-set_self [] i v h = absurd (omega arith)
get_elem?-set_self (x ∷ xs) zero v h = refl
get_elem?-set_self (x ∷ xs) (suc i) v h = get_elem?-set_self xs i v (omega arith)

-- On a screen with at least one row and one column, `editorScroll` brings the cursor's row and
-- column into the window.
pub editor_scroll-visible :
    (e : EditorConfig)
    → 0 < e.screenrows
    → 0 < e.screencols
    → let e' = editor_scroll e in
      (e'.rowoff ≤ e.cy)
      × (e.cy < e'.rowoff + e.screenrows)
      × (e'.coloff ≤ e.cx)
      × (e.cx < e'.coloff + e.screencols)
unfolding editor_scroll
editor_scroll-visible e h h' = (ground arith, ground arith, ground arith, ground arith)

-- The code returns, with a result that has the property.
abbrev pub Returns {ℓ} : {A : Type ℓ} → (A → Type 0) → Option A → Type ℓ
Returns P o = (a : _) × (o ≡ some a) × P a

-- The cursor is in a row or behind the last one, and the text is `rows`.
abbrev Stays : List Row → EditorConfig → Type 0
Stays rows e = (e.cy ≤ numrows e) × (e.rows ≡ rows)

move_up-Stays :
    (e : EditorConfig)
    → IsValid e
    → ltb 0 e.cy ≡ true
    → Returns (Stays e.rows) (elim (get_elem? e.rows (e.cy - 1)) [
      | none ↦ none
      | some row ↦ some (record e { cy = e.cy - 1; cx = length row })
    ])
move_up-Stays e v up =
    let lt : e.cy - 1 < numrows e = ground (arith, v.row) in
    let (row, found) = get_elem?-some e.rows (e.cy - 1) lt in
    rw found (record e { cy = e.cy - 1; cx = length row }, refl, (omega (arith, lt), refl))

move_left-Stays : (e : EditorConfig) → IsValid e → Returns (Stays e.rows) (move_left e)
unfolding move_left
move_left-Stays e v = elim (Bool-cases (ltb 0 e.cx)) [
  | inl h ↦ rw (h, move_left) (record e { cx = e.cx - 1 }, refl, (v.row, refl))
  | inr h ↦ elim (Bool-cases (ltb 0 e.cy)) [
    | inl up ↦ rw (h, up, move_left) (move_up-Stays e v up)
    | inr up ↦ rw (h, up, move_left) (e, refl, (v.row, refl))
  ]
]

move_other-Stays : (key : ℕ) (e : EditorConfig) → IsValid e → Stays e.rows (move_other key e)
unfolding move_other
move_other-Stays key e v = (ground (arith, v.row), ground arith)

move_by-Stays : (key : ℕ) (e : EditorConfig) → IsValid e → Returns (Stays e.rows) (move_by key e)
move_by-Stays key e v = elim (Bool-cases (is_left key)) [
  | inl h ↦ rw h (move_left-Stays e v)
  | inr h ↦ rw h (move_other key e, refl, move_other-Stays key e v)
]

-- With the cursor on the text, `editorMoveCursor` uses no row out of range, for every key, and
-- leaves the cursor on the text and the rows as they are.
pub editor_move_cursor-IsValid :
    (key : ℕ) (e : EditorConfig)
    → IsValid e
    → (e' : EditorConfig) × (editor_move_cursor key e ≡ some e') × IsValid e' × (e'.rows ≡ e.rows)
unfolding editor_move_cursor
editor_move_cursor-IsValid key e v =
    let (e', found, (row, same)) = move_by-Stays key e v in
    rw (found, editor_move_cursor)
      (
        record e' { cx = if ltb (rowlen e') e'.cx then rowlen e' else e'.cx },
        refl,
        record { row = row; column = ground arith },
        same,
      )
