-- ===== src/Editor/Refresh/Tests.antt =====
-- fs/ed.c: the screen of a short text, and of one with a long and a short row.
use shed_kernel.Prelude.{◌+◌, ◌-◌, ◌*◌, ◌<◌, ◌≡◌, ◌≢◌, some, [], ◌∷◌, arith, pos}
use shed_kernel.Console.{Vga}
use shed_kernel.Editor.{EditorConfig, normal, command, editor_scroll}
use shed_kernel.Editor.Draw.{editor_refresh_screen}
use shed_kernel.Editor.Refresh.{IsWide, editor_refresh_screen-cursor}

abbrev dark : Vga
dark = record { vidptr = λ a. 0; current_loc = 0 }

-- "abc" above "de", the cursor before the 'e'
abbrev two_rows : EditorConfig
two_rows = record {
  cx = 1;
  cy = 1;
  rowoff = 0;
  coloff = 0;
  screenrows = 23;
  screencols = 80;
  dirty = pos 0;
  mode = normal;
  rows = (97 ∷ 98 ∷ 99 ∷ []) ∷ (100 ∷ 101 ∷ []) ∷ [];
  filename = [];
  cmdbuf = [];
  yank = [];
}

two_rows-IsWide : IsWide (editor_scroll two_rows)
unfolding editor_scroll
two_rows-IsWide i row seen found = omega arith

normal-ne_command : normal ≢ command
normal-ne_command e = ground (arith, e)

editor_refresh_screen-cursor_example :
    (v' : Vga) × (editor_refresh_screen two_rows dark ≡ some (editor_scroll two_rows, v'))
    × (v'.current_loc
        ≡ ((1 - (editor_scroll two_rows).rowoff) * 80 + (1 - (editor_scroll two_rows).coloff)) * 2)
    × (1 - (editor_scroll two_rows).rowoff < 23)
    × (1 - (editor_scroll two_rows).coloff < 80)
editor_refresh_screen-cursor_example =
    editor_refresh_screen-cursor two_rows dark (omega arith) (omega arith) (omega arith)
      (omega arith) normal-ne_command two_rows-IsWide
