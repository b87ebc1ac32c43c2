-- ===== src/Shell/Commands.antt =====
-- kernel/Shell.c: the built-in commands and `lsh_loop`, on what they share with the rest of the kernel:
-- the file system, the screen, the address to which the last `jump_to` function went, and the words
-- that `outw` wrote to ports; and on the state of the editor.
--
-- `stack` is what buffers on the stack hold before they are written. The key ring and the heap are not
-- part of this state: the keys, an argument, are those that `kbd_getchar` is going to return, and what
-- still waits for one is `none`; `malloc` is taken to succeed, and lines and tokens are lists.
use shed_kernel.Prelude.{
  ℕ, zero, suc, Option, none, some, List, [], ◌∷◌, ◌++◌, ◌==◌, if◌then◌else◌, codes,
}
use shed_kernel.Console.{Vga, clear_screen}
use shed_kernel.Console.Format.{str, kprintf}
use shed_kernel.Editor.{EditorConfig}
use shed_kernel.Editor.Run.{editor_run}
use shed_kernel.Fs.Disk.{Fs}
use shed_kernel.Fs.Dir.{fs_find_file, fs_create_file, fs_delete_file}
use shed_kernel.Fs.Messages.{Line, kprintf_all, create_prints, delete_prints, list_prints}
use shed_kernel.Shell.{
  no_command, builtin_func, lsh_launch, builtin_str, lsh_execute, lsh_read_line, lsh_split_line,
  lsh_cat,
}

pub record Lsh : Type 0 where
  pub fs : Fs
  pub vga : Vga
  pub user_entry : ℕ
  pub words : List (ℕ × ℕ)
  pub editor : EditorConfig

-- How a command ends: with a status, in a program that it has started, or, for `lsh_shutdown`, at the
-- end of a function that returns no value, after the write to the power port.
pub data Outcome : Type 0 where
  status : ℕ → Outcome
  in_program : Outcome
  no_status : Outcome

abbrev pub Result : Type 0
Result = Option (Outcome × List ℕ × Lsh)

abbrev pub set_vga : Vga → Lsh → Lsh
set_vga v s = record s { vga = v }

-- A command that only prints, and ends with status 1.
unfoldable pub prints : List Line → (keys : List ℕ) → Lsh → Result
prints lines keys s = elim (kprintf_all lines s.vga) [
  | none ↦ none
  | some v ↦ some (status 1, keys, set_vga v s)
]

unfoldable pub help_lines : List (List ℕ) → List Line
help_lines [] = []
help_lines (name ∷ names) = (codes "  %s\n", str name ∷ []) ∷ help_lines names

unfoldable pub lsh_help : List ℕ → Lsh → Result
unfolding prints help_lines
lsh_help keys s =
    prints
      ((codes "Custom Kernel Shell\n", [])
        ∷ (codes "Available commands:\n", [])
        ∷ help_lines builtin_str)
      keys s

unfoldable pub lsh_ls : List ℕ → Lsh → Result
unfolding prints
lsh_ls keys s = prints (list_prints s.fs) keys s

unfoldable pub touch_command : List (List ℕ) → List ℕ → Lsh → Result
unfolding prints
touch_command [] keys s = prints ((codes "touch: no filename given\n", []) ∷ []) keys s
touch_command (name ∷ args) keys s =
    prints (create_prints name s.fs) keys (record s { fs = (fs_create_file name s.fs).1 })

unfoldable pub del_command : List (List ℕ) → List ℕ → Lsh → Result
unfolding prints
del_command [] keys s = prints ((codes "del: no filename given\n", []) ∷ []) keys s
del_command (name ∷ args) keys s =
    prints (delete_prints name s.fs) keys (record s { fs = (fs_delete_file name s.fs).1 })

unfoldable pub lsh_edit : (stack : ℕ → ℕ) → List (List ℕ) → List ℕ → Lsh → Result
unfolding prints
lsh_edit stack [] keys s = prints ((codes "edit: no filename given\n", []) ∷ []) keys s
lsh_edit stack (name ∷ args) keys s = elim (editor_run stack name keys s.editor s.fs s.vga) [
  | none ↦ none
  | some (e, fs', v, rest) ↦ some (status 1, rest, record s { fs = fs'; vga = v; editor = e })
]

unfoldable pub cat_command : (stack : ℕ → ℕ) → List (List ℕ) → List ℕ → Lsh → Result
unfolding prints
cat_command stack [] keys s = prints ((codes "cat: no filename given\n", []) ∷ []) keys s
cat_command stack (name ∷ args) keys s = elim (fs_find_file name s.fs) [
  | none ↦ prints ((codes "cat: file '%s' not found\n", str name ∷ []) ∷ []) keys s
  | some i ↦ elim (lsh_cat stack name s.fs) [
    | none ↦ none
    | some out ↦ prints ((codes "%s\n", str out ∷ []) ∷ []) keys s
  ]
]

unfoldable pub lsh_clear : List ℕ → Lsh → Result
lsh_clear keys s = some (status 1, keys, set_vga (clear_screen s.vga) s)

unfoldable pub lsh_ring3 : List ℕ → Lsh → Result
lsh_ring3 keys s = some (in_program, keys, record s { user_entry = 0xA0000020 })

unfoldable pub lsh_ring3_shell : List ℕ → Lsh → Result
lsh_ring3_shell keys s = some (in_program, keys, record s { user_entry = 0xC0000000 })

unfoldable pub lsh_shutdown : List ℕ → Lsh → Result
lsh_shutdown keys s = elim (kprintf (codes "Shutting down the system\n") [] s.vga) [
  | none ↦ none
  | some v ↦ some (no_status, keys, record s { vga = v; words = s.words ++ ((0x604, 0x2000) ∷ []) })
]

-- The functions of `builtin_func`.
unfoldable pub run_builtin : (stack : ℕ → ℕ) (i : ℕ) → List (List ℕ) → List ℕ → Lsh → Result
unfolding lsh_help lsh_ls touch_command del_command lsh_edit lsh_clear cat_command lsh_ring3
    lsh_ring3_shell lsh_shutdown
run_builtin stack i args keys s =
    if i == 0
    then lsh_help keys s
    else if i == 1
    then lsh_ls keys s
    else if i == 2
    then touch_command args keys s
    else if i == 3
    then del_command args keys s
    else if i == 4
    then lsh_edit stack args keys s
    else if i == 5
    then lsh_clear keys s
    else if i == 6
    then cat_command stack args keys s
    else if i == 7
    then lsh_ring3 keys s
    else if i == 8
    then lsh_ring3_shell keys s
    else lsh_shutdown keys s

-- `lsh_execute` with the call that it ends in.
unfoldable pub execute : (stack : ℕ → ℕ) → List (List ℕ) → List ℕ → Lsh → Result
unfolding run_builtin lsh_execute
execute stack [] keys s = some (status 1, keys, s)
execute stack (command ∷ args) keys s = elim (lsh_execute (command ∷ args)) [
  | no_command ↦ some (status 1, keys, s)
  | builtin_func i ↦ run_builtin stack i args keys s
  | lsh_launch ↦ prints ((codes "Unknown command: %s\n", str command ∷ []) ∷ []) keys s
]

-- A round of `lsh_loop`.
unfoldable pub lsh_round : (stack : ℕ → ℕ) (keys : List ℕ) → Lsh → Result
unfolding execute
lsh_round stack keys s = elim (kprintf (codes "> ") [] s.vga) [
  | none ↦ none
  | some v1 ↦ elim (lsh_read_line keys v1) [
    | none ↦ none
    | some (line, rest, v2) ↦ elim (kprintf (codes "\n") [] v2) [
      | none ↦ none
      | some v3 ↦ elim (lsh_split_line line) [
        | none ↦ none
        | some args ↦ execute stack args rest (set_vga v3 s)
      ]
    ]
  ]
]

-- Rounds of `lsh_loop` while the status is not 0, `rounds` at most.
unfoldable pub lsh_loop : (rounds : ℕ) (stack : ℕ → ℕ) (keys : List ℕ) → Lsh → Result
unfolding lsh_round
lsh_loop zero stack keys s = some (status 1, keys, s)
lsh_loop (suc n) stack keys s = elim (lsh_round stack keys s) [
  | none ↦ none
  | some (end, rest, s') ↦ elim end [
    | status c ↦ if c == 0 then some (status 0, rest, s') else lsh_loop n stack rest s'
    | in_program ↦ some (in_program, rest, s')
    | no_status ↦ some (no_status, rest, s')
  ]
]
