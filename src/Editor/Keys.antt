-- ===== src/Editor/Keys.antt =====
-- fs/ed.c: what one key does, and the main loop.
use shed_kernel.Prelude.{
  ℕ, ◌+◌, ◌-◌, Bool, true, false, ◌&&◌, ◌||◌, Option, none, some, List, [], ◌∷◌, ◌++◌, ltb, leb,
  ◌==◌, if◌then◌else◌, length, get_elem?, take, set, ℤ, pos, negsuc,
}
use shed_kernel.Kbd.{arrow_up, arrow_down, arrow_left, arrow_right}
use shed_kernel.Fs.Disk.{Fs}
use shed_kernel.Editor.{
  EditorConfig, numrows, rowlen, normal, insert, command, init_editor, editor_insert_row,
  editor_row_del_char, editor_insert_char, editor_insert_newline, editor_del_char, editor_yank_line,
  editor_paste_line, editor_delete_line, editor_move_cursor,
}
use shed_kernel.Editor.Command.{editor_open, editor_exec_command}

abbrev pub printable : ℕ → Bool
printable c = leb 32 c && ltb c 127

abbrev pub is_backspace : ℕ → Bool
is_backspace c = (c == 8) || (c == 127)

abbrev pub leave_insert : EditorConfig → EditorConfig
leave_insert e = record e { mode = normal; cx = if ltb 0 e.cx then e.cx - 1 else e.cx }

unfoldable pub insert_key : ℕ → EditorConfig → Option EditorConfig
insert_key c e =
    if c == 27
    then some (leave_insert e)
    else if c == 10
    then elim (editor_insert_newline e) [
      | none ↦ none
      | some e' ↦ some (record e' { dirty = pos 1 })
    ]
    else if is_backspace c
    then editor_del_char e
    else if printable c
    then editor_insert_char c e
    else some e

-- `E.dirty = -9999` tells the main loop to stop.
abbrev pub quit_mark : ℤ
quit_mark = negsuc 9998

unfoldable pub command_key : (stack : ℕ → ℕ) → ℕ → EditorConfig → Fs → Option (EditorConfig × Fs)
command_key stack c e fs =
    if c == 27
    then some (record e { mode = normal; cmdbuf = [] }, fs)
    else if c == 10
    then elim (editor_exec_command stack e fs) [
      | none ↦ none
      | some (true, e', fs') ↦ some (record e' { dirty = quit_mark }, fs')
      | some (false, e', fs') ↦ some (record e' { mode = normal }, fs')
    ]
    else if is_backspace c
    then some (record e { cmdbuf = take (length e.cmdbuf - 1) e.cmdbuf }, fs)
    else if printable c && ltb (length e.cmdbuf) 78
    then some (record e { cmdbuf = e.cmdbuf ++ c ∷ [] }, fs)
    else some (e, fs)

abbrev pub is_move : ℕ → Bool
is_move c =
    (c == 104)
    || (c == 106)
    || (c == 107)
    || (c == 108)
    || (c == arrow_up)
    || (c == arrow_down)
    || (c == arrow_left)
    || (c == arrow_right)

-- The key 'x'.
unfoldable pub delete_under : EditorConfig → EditorConfig
unfolding editor_row_del_char
delete_under e = elim (get_elem? e.rows e.cy) [
  | none ↦ e
  | some row ↦
      let row' = editor_row_del_char row e.cx in
      if ltb e.cx (length row)
      then record e {
        rows = set e.rows e.cy row';
        dirty = pos 1;
        cx = if leb (length row') e.cx && ltb 0 e.cx then e.cx - 1 else e.cx;
      }
      else e
]

-- `next` is the key that a second `editorReadKey` returns.
unfoldable pub normal_key : (c next : ℕ) → EditorConfig → Option EditorConfig
unfolding delete_under
normal_key c next e =
    if is_move c
    then editor_move_cursor c e
    else if c == 105
    then some (record e { mode = insert })
    else if c == 97
    then some (record e { mode = insert; cx = if ltb e.cx (rowlen e) then e.cx + 1 else e.cx })
    else if c == 111
    then elim (editor_insert_newline
        (record e { cx = if ltb e.cy (numrows e) then rowlen e else e.cx })) [
          | none ↦ none
          | some e' ↦ some (record e' { mode = insert })
        ]
    else if c == 79
    then some (record (editor_insert_row e.cy [] (record e { cx = 0 })) { mode = insert })
    else if c == 120
    then some (delete_under e)
    else if c == 100
    then some (if next == 100 then editor_delete_line e else e)
    else if c == 121
    then some (if next == 121 then editor_yank_line e else e)
    else if c == 112
    then some (editor_paste_line e)
    else if c == 58
    then some (record e { mode = command; cmdbuf = [] })
    else some e

unfoldable pub editor_process_keypress :
    (stack : ℕ → ℕ) → (c next : ℕ) → EditorConfig → Fs → Option (EditorConfig × Fs)
unfolding insert_key command_key normal_key
editor_process_keypress stack c next e fs = elim e.mode [
  | insert ↦ elim (insert_key c e) [ none ↦ none | some e' ↦ some (e', fs) ]
  | command ↦ command_key stack c e fs
  | normal ↦ elim (normal_key c next e) [ none ↦ none | some e' ↦ some (e', fs) ]
]

-- `editorRun` up to its loop: 23 rows of text and 80 columns.
unfoldable pub editor_start : (stack : ℕ → ℕ) → List ℕ → EditorConfig → Fs → Option EditorConfig
editor_start stack filename e fs =
    editor_open stack filename (record (init_editor e) { screenrows = 23; screencols = 80 }) fs
