-- ===== src/Editor/Draw.antt =====
-- fs/ed.c: the screen, and `editorRun`.
--
-- Text is drawn through `kprintf`, so that what lies behind the end of a row is `none`. The keys are
-- those that `editorReadKey` is going to get; a run is `none` when they end before the editor does.
use shed_kernel.Prelude.{
  ℕ, zero, suc, ◌+◌, ◌-◌, ◌/◌, Bool, false, ◌&&◌, Option, none, some, List, [], ◌∷◌, ltb, ◌==◌,
  if◌then◌else◌, length, take, drop, get_elem?, codes, ℤ, pos, negsuc, min,
}
use shed_kernel.CString.{head}
use shed_kernel.Console.{Vga, kvga_set_cursor, kvga_write_char, kvga_clear_to_eol}
use shed_kernel.Console.Format.{num, str, ksprintf, kprintf}
use shed_kernel.Editor.{EditorConfig, Row, Mode, normal, insert, command, numrows, editor_scroll}

-- The loops that write the characters of a string, or `n` blanks, from a column on.
unfoldable pub write_chars : (row col : ℕ) → List ℕ → (attr : ℕ) → Vga → Vga
write_chars row col [] attr v = v
write_chars row col (c ∷ s) attr v =
    write_chars row (col + 1) s attr (kvga_write_char row col c attr v)

unfoldable pub write_blanks : (row col n attr : ℕ) → Vga → Vga
write_blanks row col zero attr v = v
write_blanks row col (suc n) attr v =
    write_blanks row (col + 1) n attr (kvga_write_char row col 32 attr v)

abbrev pub shed_version : List ℕ
shed_version = codes "0.0.1"

unfoldable pub draw_welcome : (y screencols : ℕ) → Vga → Option Vga
unfolding write_blanks
draw_welcome y screencols v =
    elim (ksprintf (codes "Shed v%s  --  i=insert  :w=save  :q=quit") (str shed_version ∷ [])) [
      | none ↦ none
      | some welcome ↦
          let wlen = min (length welcome) screencols in
          let pad = (screencols - wlen) / 2 in
          let v1 = write_blanks y 1 (pad - 1) 7 (kvga_write_char y 0 126 7 v) in
          elim (kprintf (codes "%.*s") (num wlen ∷ str welcome ∷ []) (kvga_set_cursor y pad v1)) [
            | none ↦ none
            | some v2 ↦ some (kvga_clear_to_eol y (pad + wlen) v2)
          ]
    ]

-- A row of the text, from the column `coloff` on. Where the row is shorter, the
-- pointer is behind its terminator; `kprintf` reads the text although the precision is 0, since it
-- ignores the precision of `%s`, and so reads out of the row.
unfoldable pub draw_text : (y coloff screencols : ℕ) → Row → Vga → Option Vga
draw_text y coloff screencols row v =
    let len = min (length row - coloff) screencols in
    if ltb (length row) coloff
    then none
    else elim (kprintf (codes "%.*s") (num len ∷ str (drop coloff row) ∷ []) v) [
      | none ↦ none
      | some v' ↦ some (kvga_clear_to_eol y len v')
    ]

-- A round of the loop of `editorDrawRows`.
unfoldable pub draw_row : (y : ℕ) → EditorConfig → Vga → Option Vga
unfolding draw_welcome draw_text
draw_row y e v =
    let v1 = kvga_set_cursor y 0 v in
    elim (get_elem? e.rows (y + e.rowoff)) [
      | some row ↦ draw_text y e.coloff e.screencols row v1
      | none ↦
          if (numrows e == 0) && (y == e.screenrows / 3)
          then draw_welcome y e.screencols v1
          else some (kvga_clear_to_eol y 1 (kvga_write_char y 0 126 7 v1))
    ]

-- The loop with `n` rounds left at row `y`.
unfoldable pub draw_rows : (n y : ℕ) → EditorConfig → Vga → Option Vga
draw_rows zero y e v = some v
draw_rows (suc n) y e v = elim (draw_row y e v) [ none ↦ none | some v' ↦ draw_rows n (y + 1) e v' ]

unfoldable pub editor_draw_rows : EditorConfig → Vga → Option Vga
unfolding draw_rows
editor_draw_rows e v = draw_rows e.screenrows 0 e v

abbrev pub mode_str : Mode → List ℕ
mode_str normal = codes "NORMAL"
mode_str insert = codes "INSERT"
mode_str command = codes "COMMAND"

abbrev pub is_positive : ℤ → Bool
is_positive (pos n) = ltb 0 n
is_positive (negsuc n) = false

unfoldable pub status_text : EditorConfig → Option (List ℕ)
status_text e = ksprintf (codes " %s | %.20s %s") (
    str (mode_str e.mode)
    ∷ str (if head e.filename == 0 then codes "[No Name]" else e.filename)
    ∷ str (if is_positive e.dirty then codes "[+]" else [])
    ∷ [])

unfoldable pub draw_command : EditorConfig → Vga → Option Vga
draw_command e v =
    let cmdrow = e.screenrows + 1 in
    let v1 = kvga_set_cursor cmdrow 0 v in
    elim e.mode [
      | command ↦ elim (kprintf (codes ":%.*s") (num (length e.cmdbuf) ∷ str e.cmdbuf ∷ []) v1) [
        | none ↦ none
        | some v2 ↦ some (kvga_clear_to_eol cmdrow (length e.cmdbuf + 1) v2)
      ]
      | normal ↦ some (kvga_clear_to_eol cmdrow 0 v1)
      | insert ↦ some (kvga_clear_to_eol cmdrow 0 v1)
    ]

unfoldable pub editor_draw_status_bar : EditorConfig → Vga → Option Vga
unfolding status_text draw_command write_chars write_blanks
editor_draw_status_bar e v = elim (status_text e) [
  | none ↦ none
  | some status ↦
      let len = min (length status) e.screencols in
      let v1 = write_chars e.screenrows 0 (take len status) 0x70 v in
      draw_command e (write_blanks e.screenrows len (e.screencols - len) 0x70 v1)
]

-- Where `editorRefreshScreen` parks the cursor.
unfoldable pub park_cursor : EditorConfig → Vga → Vga
park_cursor e v = elim e.mode [
  | command ↦ kvga_set_cursor (e.screenrows + 1) (length e.cmdbuf + 1) v
  | normal ↦ kvga_set_cursor (e.cy - e.rowoff) (e.cx - e.coloff) v
  | insert ↦ kvga_set_cursor (e.cy - e.rowoff) (e.cx - e.coloff) v
]

unfoldable pub editor_refresh_screen : EditorConfig → Vga → Option (EditorConfig × Vga)
unfolding editor_draw_rows editor_draw_status_bar park_cursor
editor_refresh_screen e v =
    let e' = editor_scroll e in
    elim (editor_draw_rows e' v) [
      | none ↦ none
      | some v1 ↦ elim (editor_draw_status_bar e' v1) [
        | none ↦ none
        | some v2 ↦ some (e', park_cursor e' v2)
      ]
    ]
