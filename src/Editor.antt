-- ===== src/Editor.antt =====
-- fs/ed.c and fs/ed.h: the editor's state, its row operations and its editing operations.
--
-- A row is the list of its `size` bytes: `chars` with its terminator is what the C code keeps on the
-- heap, and that malloc and realloc find room is taken for granted, as the code does. `numrows` is
-- the length of `rows`. Where the code would read or write a row that is not there, the result is
-- `none`. The positions are natural numbers: no operation makes one negative.
pub mod Command
pub mod Keys
pub mod Valid
pub mod Buffer
pub mod Typing
pub mod File
pub mod Lines
pub mod Overflow
pub mod Draw
pub mod Run
pub mod Refresh
mod Tests
use shed_kernel.Prelude.{
  ℕ, zero, suc, ◌+◌, ◌-◌, Bool, true, false, ◌&&◌, ◌||◌, Option, none, some, List, [], ◌∷◌, ◌++◌,
  ltb, leb, ◌==◌, if◌then◌else◌, length, get_elem?, set, take, drop, ℤ, pos,
}
use shed_kernel.Kbd.{arrow_up, arrow_down, arrow_left, arrow_right}

pub data Mode : Type 0 where
  normal : Mode
  insert : Mode
  command : Mode

abbrev pub Row : Type 0
Row = List ℕ

pub record EditorConfig : Type 0 where
  pub cx : ℕ
  pub cy : ℕ
  pub rowoff : ℕ
  pub coloff : ℕ
  pub screenrows : ℕ
  pub screencols : ℕ
  pub dirty : ℤ
  pub mode : Mode
  pub rows : List Row
  pub filename : List ℕ
  -- the text of the command line; `cmdlen` is its length
  pub cmdbuf : List ℕ
  -- the first `yank_len` bytes of `yank_buf`
  pub yank : List ℕ

abbrev pub yank_max : ℕ
yank_max = 4095

abbrev pub numrows : EditorConfig → ℕ
numrows e = length e.rows

-- `memmove` makes room for one element, or closes the gap of one.
abbrev pub insert_at {ℓ} : {A : Type ℓ} → ℕ → A → List A → List A
insert_at i v xs = take i xs ++ v ∷ drop i xs

abbrev pub remove_at {ℓ} : {A : Type ℓ} → ℕ → List A → List A
remove_at i xs = take i xs ++ drop (i + 1) xs

unfoldable pub init_editor : EditorConfig → EditorConfig
init_editor e = record e {
  cx = 0;
  cy = 0;
  rowoff = 0;
  coloff = 0;
  dirty = pos 0;
  mode = normal;
  rows = [];
  filename = [];
  cmdbuf = [];
}

unfoldable pub editor_insert_row : ℕ → Row → EditorConfig → EditorConfig
editor_insert_row at s e =
    if ltb (numrows e) at then e else record e { rows = insert_at at s e.rows }

unfoldable pub editor_del_row : ℕ → EditorConfig → EditorConfig
editor_del_row at e =
    if leb (numrows e) at then e else record e { rows = remove_at at e.rows; dirty = pos 1 }

unfoldable pub editor_row_insert_char : Row → ℕ → ℕ → Row
editor_row_insert_char row at c = insert_at (if ltb (length row) at then length row else at) c row

unfoldable pub editor_row_del_char : Row → ℕ → Row
editor_row_del_char row at = if leb (length row) at then row else remove_at at row

unfoldable pub editor_row_append_string : Row → List ℕ → Row
editor_row_append_string row s = row ++ s

-- `editorInsertChar` behind its first line.
unfoldable pub insert_char_in_row : ℕ → EditorConfig → Option EditorConfig
unfolding editor_row_insert_char
insert_char_in_row c e = elim (get_elem? e.rows e.cy) [
  | none ↦ none
  | some row ↦ some (record e {
    rows = set e.rows e.cy (editor_row_insert_char row e.cx c);
    cx = e.cx + 1;
    dirty = pos 1;
  })
]

unfoldable pub editor_insert_char : ℕ → EditorConfig → Option EditorConfig
unfolding editor_insert_row insert_char_in_row
editor_insert_char c e =
    insert_char_in_row c (if e.cy == numrows e then editor_insert_row (numrows e) [] e else e)

-- A row that is shorter than the cursor's column makes the size of the copy negative.
unfoldable pub editor_insert_newline : EditorConfig → Option EditorConfig
unfolding editor_insert_row
editor_insert_newline e =
    if e.cx == 0
    then some (record (editor_insert_row e.cy [] e) { cy = e.cy + 1; cx = 0 })
    else elim (get_elem? e.rows e.cy) [
      | none ↦ none
      | some row ↦
          let e1 = editor_insert_row (e.cy + 1) (drop e.cx row) e in
          if ltb (length row) e.cx
          then none
          else some (record e1 { rows = set e1.rows e.cy (take e.cx row); cy = e.cy + 1; cx = 0 })
    ]

unfoldable pub editor_del_char : EditorConfig → Option EditorConfig
unfolding editor_row_del_char editor_del_row editor_row_append_string
editor_del_char e =
    if e.cy == numrows e
    then some e
    else if (e.cx == 0) && (e.cy == 0)
    then some e
    else elim (get_elem? e.rows e.cy) [
      | none ↦ none
      | some row ↦
          if ltb 0 e.cx
          then some (record e {
            rows = set e.rows e.cy (editor_row_del_char row (e.cx - 1));
            cx = e.cx - 1;
            dirty = pos 1;
          })
          else elim (get_elem? e.rows (e.cy - 1)) [
            | none ↦ none
            | some above ↦
                some
                  (record (editor_del_row e.cy (record e {
                    rows = set e.rows (e.cy - 1) (editor_row_append_string above row);
                  })) { cx = length above; cy = e.cy - 1; dirty = pos 1 })
          ]
    ]

unfoldable pub editor_yank_line : EditorConfig → EditorConfig
editor_yank_line e = elim (get_elem? e.rows e.cy) [
  | none ↦ e
  | some row ↦ record e { yank = take yank_max row }
]

unfoldable pub editor_paste_line : EditorConfig → EditorConfig
unfolding editor_insert_row
editor_paste_line e =
    if length e.yank == 0
    then e
    else record (editor_insert_row (e.cy + 1) e.yank e) { cy = e.cy + 1; cx = 0 }

unfoldable pub editor_delete_line : EditorConfig → EditorConfig
unfolding editor_yank_line editor_del_row
editor_delete_line e =
    let e1 = editor_del_row e.cy (editor_yank_line e) in
    if numrows e == 0 then e else record e1 {
      cy = if leb (numrows e1) e1.cy && ltb 0 e1.cy then e1.cy - 1 else e1.cy;
      cx = 0;
    }

unfoldable pub editor_scroll : EditorConfig → EditorConfig
editor_scroll e =
    let rowoff = if ltb e.cy e.rowoff then e.cy else e.rowoff in
    let coloff = if ltb e.cx e.coloff then e.cx else e.coloff in
    record e {
      rowoff = if leb (rowoff + e.screenrows) e.cy then e.cy + 1 - e.screenrows else rowoff;
      coloff = if leb (coloff + e.screencols) e.cx then e.cx + 1 - e.screencols else coloff;
    }

-- `row ? row->size : 0` for the row of the cursor
abbrev pub rowlen : EditorConfig → ℕ
rowlen e = elim (get_elem? e.rows e.cy) [ none ↦ 0 | some row ↦ length row ]

-- The key 'h' or the left arrow.
unfoldable pub move_left : EditorConfig → Option EditorConfig
move_left e =
    if ltb 0 e.cx
    then some (record e { cx = e.cx - 1 })
    else if ltb 0 e.cy
    then elim (get_elem? e.rows (e.cy - 1)) [
      | none ↦ none
      | some row ↦ some (record e { cy = e.cy - 1; cx = length row })
    ]
    else some e

-- The other cases of the switch of `editorMoveCursor`.
unfoldable pub move_other : ℕ → EditorConfig → EditorConfig
move_other key e =
    if (key == 108) || (key == arrow_right)
    then (if ltb e.cx (rowlen e) then record e { cx = e.cx + 1 } else e)
    else if (key == 107) || (key == arrow_up)
    then (if ltb 0 e.cy then record e { cy = e.cy - 1 } else e)
    else if (key == 106) || (key == arrow_down)
    then (if ltb (e.cy + 1) (numrows e) then record e { cy = e.cy + 1 } else e)
    else e

unfoldable pub is_left : ℕ → Bool
is_left key = (key == 104) || (key == arrow_left)

abbrev pub move_by : ℕ → EditorConfig → Option EditorConfig
move_by key e = if is_left key then move_left e else some (move_other key e)

unfoldable pub editor_move_cursor : ℕ → EditorConfig → Option EditorConfig
unfolding is_left move_left move_other
editor_move_cursor key e = elim (move_by key e) [
  | none ↦ none
  | some e' ↦ some (record e' { cx = if ltb (rowlen e') e'.cx then rowlen e' else e'.cx })
]
