-- ===== src/Editor/Refresh.antt =====
-- fs/ed.c: when `editorRefreshScreen` returns, and where it leaves the cursor.
mod Tests
use shed_kernel.Prelude.{
  ℕ, zero, suc, ◌+◌, ◌-◌, ◌*◌, ◌/◌, ◌%◌, ◌<◌, ◌≤◌, ◌≡◌, ◌≢◌, refl, ap, ◌∙◌, Bool, true, false, ◌&&◌,
  Option, none, some, List, [], ◌∷◌, arith, Option-cases, Bool-cases, inl, inr, ltb, ◌==◌, length,
  get_elem?, take, drop, codes, min, is_some, some_of_is_some, if◌then◌else◌,
}
use shed_kernel.CString.{head}
use shed_kernel.Console.{Vga, kvga_set_cursor, kvga_write_char}
use shed_kernel.Console.Format.{
  Arg, num, str, ksprintf, ksprintf_from, kprintf, parse_precision, parse_behind_dot, parse_star,
  parse_digits, convert,
}
use shed_kernel.Console.Returns.{accepts, kprintf-returns}
use shed_kernel.Editor.{EditorConfig, Row, Mode, normal, insert, command, numrows, editor_scroll}
use shed_kernel.Editor.Valid.{editor_scroll-visible}
use shed_kernel.Editor.Draw.{
  write_blanks, draw_welcome, draw_text, draw_row, draw_rows, editor_draw_rows, status_text,
  draw_command, editor_draw_status_bar, park_cursor, editor_refresh_screen, mode_str, is_positive,
}

-- A text that is printed with a precision.
cut-returns :
    (n : ℕ) (s : List ℕ) (v : Vga) → is_some (kprintf (codes "%.*s") (num n ∷ str s ∷ []) v) ≡ true
unfolding accepts parse_precision parse_behind_dot parse_star convert
cut-returns n s = kprintf-returns (codes "%.*s") (num n ∷ str s ∷ []) refl

command-returns :
    (n : ℕ) (s : List ℕ) (v : Vga) → is_some (kprintf (codes ":%.*s") (num n ∷ str s ∷ []) v) ≡ true
unfolding accepts parse_precision parse_behind_dot parse_star convert
command-returns n s = kprintf-returns (codes ":%.*s") (num n ∷ str s ∷ []) refl

draw_text-returns :
    (y coloff screencols : ℕ) (row : Row) (v : Vga)
    → coloff ≤ length row
    → is_some (draw_text y coloff screencols row v) ≡ true
unfolding draw_text
draw_text-returns y coloff screencols row v h =
    let (v', done) =
      some_of_is_some _ (cut-returns (min (length row - coloff) screencols) (drop coloff row) v) in
    let inside : ltb (length row) coloff ≡ false = ground arith in
    rw (inside, draw_text) (rw (done, draw_text) refl)

draw_welcome-returns : (y screencols : ℕ) (v : Vga) → is_some (draw_welcome y screencols v) ≡ true
unfolding draw_welcome ksprintf ksprintf_from parse_precision convert
draw_welcome-returns y screencols v =
    let wlen = min 43 screencols in
    let pad = (screencols - wlen) / 2 in
    let (v', done) = some_of_is_some _ (
      cut-returns wlen (codes "Shed v0.0.1  --  i=insert  :w=save  :q=quit")
        (kvga_set_cursor y pad (write_blanks y 1 (pad - 1) 7 (kvga_write_char y 0 126 7 v)))) in
    rw (done, draw_welcome) refl

draw_row-returns :
    (y : ℕ) (e : EditorConfig) (v : Vga)
    → ((row : Row) → get_elem? e.rows (y + e.rowoff) ≡ some row → e.coloff ≤ length row)
    → is_some (draw_row y e v) ≡ true
unfolding draw_row
draw_row-returns y e v long = elim (Option-cases (get_elem? e.rows (y + e.rowoff))) [
  | inr (row, found) ↦
      rw (found, draw_row)
        (draw_text-returns y e.coloff e.screencols row (kvga_set_cursor y 0 v) (long row found))
  | inl below ↦ elim (Bool-cases ((numrows e == 0) && (y == e.screenrows / 3))) [
    | inl first ↦
        rw (below, draw_row)
          (rw (first, draw_row) (draw_welcome-returns y e.screencols (kvga_set_cursor y 0 v)))
    | inr other ↦ rw (below, draw_row) (rw (other, draw_row) refl)
  ]
]

draw_rows-returns :
    (n y : ℕ) (e : EditorConfig) (v : Vga)
    → ((i : ℕ) (row : Row)
        → i < y + n
        → get_elem? e.rows (i + e.rowoff) ≡ some row
        → e.coloff ≤ length row)
    → is_some (draw_rows n y e v) ≡ true
unfolding draw_rows
draw_rows-returns zero y e v long = refl
draw_rows-returns (suc n) y e v long =
    let (v', done) =
      some_of_is_some (draw_row y e v) (draw_row-returns y e v (λ row. long y row (omega arith))) in
    rw (done, draw_rows)
      (draw_rows-returns n (y + 1) e v' (λ i row h. long i row (omega (arith, h))))

status_text-returns : (e : EditorConfig) → is_some (status_text e) ≡ true
unfolding status_text ksprintf ksprintf_from parse_precision parse_behind_dot parse_digits convert
status_text-returns e = refl

draw_command-returns : (e : EditorConfig) (v : Vga) → is_some (draw_command e v) ≡ true
unfolding draw_command
draw_command-returns e v = go e.mode refl
  where
    go : (m : Mode) → e.mode ≡ m → is_some (draw_command e v) ≡ true
    go normal m = rw (m, draw_command) refl
    go insert m = rw (m, draw_command) refl
    go command m =
        let (v', done) =
          some_of_is_some _
            (command-returns (length e.cmdbuf) e.cmdbuf (kvga_set_cursor (e.screenrows + 1) 0 v)) in
        rw (m, draw_command) (rw (done, draw_command) refl)

editor_draw_status_bar-returns :
    (e : EditorConfig) (v : Vga) → is_some (editor_draw_status_bar e v) ≡ true
unfolding editor_draw_status_bar
editor_draw_status_bar-returns e v =
    let (s, done) = some_of_is_some (status_text e) (status_text-returns e) in
    rw (done, editor_draw_status_bar) (draw_command-returns e _)

park_cursor-text :
    (e : EditorConfig) (v : Vga)
    → e.mode ≢ command
    → park_cursor e v ≡ kvga_set_cursor (e.cy - e.rowoff) (e.cx - e.coloff) v
unfolding park_cursor
park_cursor-text e v ne = go e.mode refl
  where
    go :
        (m : Mode)
        → e.mode ≡ m
        → park_cursor e v ≡ kvga_set_cursor (e.cy - e.rowoff) (e.cx - e.coloff) v
    go normal m = rw (m, park_cursor) refl
    go insert m = rw (m, park_cursor) refl
    go command m = absurd (ne m)

park_cursor-loc :
    (e : EditorConfig) (v : Vga)
    → e.mode ≢ command
    → e.cy - e.rowoff < 23
    → e.cx - e.coloff < 80
    → (park_cursor e v).current_loc ≡ ((e.cy - e.rowoff) * 80 + (e.cx - e.coloff)) * 2
unfolding kvga_set_cursor
park_cursor-loc e v ne row column = ap (λ x. x.current_loc) (park_cursor-text e v ne) ∙ omega arith

-- Every row of the window is at least as long as its first column.
abbrev pub IsWide : EditorConfig → Type 0
IsWide e =
    (i : ℕ) (row : Row)
    → i < e.screenrows
    → get_elem? e.rows (i + e.rowoff) ≡ some row
    → e.coloff ≤ length row

module _ (e : EditorConfig) (v : Vga) where
  -- With 1 to 23 rows and 1 to 80 columns of text, in normal or insert mode, and no row of the
  -- scrolled window shorter than its first column, `editorRefreshScreen` returns, and leaves the
  -- cursor at the place of the window that shows the cursor of the text.
  pub editor_refresh_screen-cursor :
      0 < e.screenrows
      → e.screenrows ≤ 23
      → 0 < e.screencols
      → e.screencols ≤ 80
      → e.mode ≢ command
      → IsWide (editor_scroll e)
      → (v' : Vga) × (editor_refresh_screen e v ≡ some (editor_scroll e, v'))
        × (v'.current_loc
            ≡ ((e.cy - (editor_scroll e).rowoff) * 80 + (e.cx - (editor_scroll e).coloff)) * 2)
        × (e.cy - (editor_scroll e).rowoff < e.screenrows)
        × (e.cx - (editor_scroll e).coloff < e.screencols)
  unfolding editor_refresh_screen editor_draw_rows editor_scroll
  editor_refresh_screen-cursor rows_pos rows_max cols_pos cols_max text_mode wide =
      let e' = editor_scroll e in
      let (v1, drawn) =
        some_of_is_some (draw_rows e'.screenrows 0 e' v)
          (draw_rows-returns e'.screenrows 0 e' v (λ i row h. wide i row (omega (arith, h)))) in
      let (v2, status) =
        some_of_is_some (editor_draw_status_bar e' v1) (editor_draw_status_bar-returns e' v1) in
      let seen = editor_scroll-visible e rows_pos cols_pos in
      (
        park_cursor e' v2,
        rw (drawn, editor_refresh_screen) (rw (status, editor_refresh_screen) refl),
        park_cursor-loc e' v2 text_mode (omega (arith, seen)) (omega (arith, seen)),
        omega (arith, seen),
        omega (arith, seen),
      )
