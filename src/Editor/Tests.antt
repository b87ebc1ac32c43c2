-- ===== src/Editor/Tests.antt =====
-- The editor on a text of two rows.
use shed_kernel.Prelude.{◌≡◌, refl, none, some, [], ◌∷◌, ◌++◌, arith, pos, if◌then◌else◌, replicate}
use shed_kernel.Fs.Disk.{Fs, fs_init}
use shed_kernel.Editor.{EditorConfig, insert, command}
use shed_kernel.Editor.Command.{open_loop, save_loop}
use shed_kernel.Editor.Keys.{insert_key}
use shed_kernel.Editor.Valid.{IsValid}
use shed_kernel.Editor.Buffer.{Buffer, show, type_key}
use shed_kernel.Editor.Typing.{changes, insert_key-type_key}
use shed_kernel.Editor.File.{open_loop-save_loop}
use shed_kernel.Editor.Overflow.{run_keys, run_keys-overflow}

abbrev blank : EditorConfig
blank = record {
  cx = 0;
  cy = 0;
  rowoff = 0;
  coloff = 0;
  screenrows = 23;
  screencols = 80;
  dirty = pos 0;
  mode = insert;
  rows = [];
  filename = [];
  cmdbuf = [];
  yank = [];
}

-- "abc" above "de", the cursor before the 'e'
abbrev second_row : Buffer
second_row = record {
  above = (97 ∷ 98 ∷ 99 ∷ []) ∷ [];
  left = 100 ∷ [];
  right = 101 ∷ [];
  below = [];
}

insert_key-type_key_example :
    insert_key 10 (show second_row blank)
    ≡ some (
        show
          (type_key 10 second_row)
          (record blank { dirty = if changes 10 second_row then pos 1 else pos 0 }))
insert_key-type_key_example = insert_key-type_key 10 second_row blank (λ e. omega arith)

open_loop-save_loop_example :
    (open_loop (save_loop ((97 ∷ []) ∷ (98 ∷ []) ∷ []) 4095 ++ 0 ∷ []) [] blank).rows
    ≡ (97 ∷ []) ∷ (98 ∷ []) ∷ [] ∷ []
open_loop-save_loop_example =
    open_loop-save_loop ((97 ∷ []) ∷ (98 ∷ []) ∷ []) blank refl (omega arith)

abbrev some_fs : Fs
unfolding fs_init
some_fs = fs_init

run_keys-overflow_example :
    run_keys
      (λ o. 0)
      (replicate 57 97 ++ 10 ∷ [])
      (record blank { mode = command; cmdbuf = [] })
      some_fs
    ≡ none
run_keys-overflow_example =
    run_keys-overflow (λ o. 0) (replicate 57 97) blank some_fs refl (omega arith) (omega arith)

second_row-IsValid : IsValid (show second_row blank)
second_row-IsValid = record { row = omega arith; column = omega arith }

abbrev far_down : EditorConfig
far_down = record blank { cy = 40; cx = 100 }
