-- ===== src/User/Programs.antt =====
-- The entry points of the user programs: `_start` of user/user.c, user/editor.c and user/user_shell.c,
-- with the system call wrappers of user/shed.h that they use or offer.
use shed_kernel.Prelude.{ℕ, zero, suc, ◌%◌, Option, none, some, List, codes}
use shed_kernel.Syscall.{
  Kernel, Call, Result, exit, print, getchar, list_files, create_file, delete_file, read_file,
  write_file, erase, clear, set_cursor, clear_to_eol, run_call,
}
use shed_kernel.User.{kernel_of, say, read_line, split_line, execute}

-- shed.h: a wrapper without a result, and those with one.
abbrev pub call : (fuel : ℕ) → Call → Kernel → Option Kernel
call fuel c k = kernel_of (run_call fuel c k)

unfoldable pub sys_print : (fuel s : ℕ) → Kernel → Option Kernel
sys_print fuel s k = call fuel (print s) k

-- The low byte of the result.
unfoldable pub sys_getchar : Kernel → Result
sys_getchar k = elim (run_call 0 getchar k) [ none ↦ none | some (c, k') ↦ some (c % 256, k') ]

unfoldable pub sys_ls : Kernel → Option Kernel
sys_ls k = call 0 list_files k

unfoldable pub sys_touch : (fuel name : ℕ) → Kernel → Option Kernel
sys_touch fuel name k = call fuel (create_file name) k

unfoldable pub sys_del : (fuel name : ℕ) → Kernel → Option Kernel
sys_del fuel name k = call fuel (delete_file name) k

unfoldable pub sys_read_file : (fuel name buf size : ℕ) → Kernel → Result
sys_read_file fuel name buf size k = run_call fuel (read_file name buf size) k

unfoldable pub sys_write_file : (fuel name buf size : ℕ) → Kernel → Result
sys_write_file fuel name buf size k = run_call fuel (write_file name buf size) k

unfoldable pub sys_exit : Kernel → Option Kernel
sys_exit k = call 0 exit k

unfoldable pub sys_backspace : Kernel → Option Kernel
sys_backspace k = call 0 erase k

unfoldable pub sys_clear : Kernel → Option Kernel
sys_clear k = call 0 clear k

unfoldable pub sys_vga_set_cursor : (row col : ℕ) → Kernel → Option Kernel
sys_vga_set_cursor row col k = call 0 (set_cursor row col) k

unfoldable pub sys_vga_clear_to_eol : (row col : ℕ) → Kernel → Option Kernel
sys_vga_clear_to_eol row col k = call 0 (clear_to_eol row col) k

-- user.c and editor.c; what an `_start` does behind `sys_exit` is left out.
unfoldable pub start_user : (fuel message : ℕ) → Kernel → Option Kernel
unfolding sys_print sys_exit
start_user fuel message k = elim (sys_print fuel message k) [ none ↦ none | some k' ↦ sys_exit k' ]

unfoldable pub start_editor : Kernel → Option Kernel
unfolding sys_exit
start_editor k = elim (say (codes "shed editor\n") k) [ none ↦ none | some k' ↦ sys_exit k' ]

-- user_shell.c: a round of the loop of `_start` over the codes that are going to be typed; the codes
-- that are left, and the kernel.
unfoldable pub shell_round : (fuel buf : ℕ) → List ℕ → Kernel → Option (List ℕ × Kernel)
unfolding read_line split_line execute
shell_round fuel buf keys k = elim (say (codes "> ") k) [
  | none ↦ none
  | some k1 ↦ elim (read_line keys k1.vga) [
    | none ↦ none
    | some (line, rest, v) ↦ elim (say (codes "\n") (record k1 { vga = v })) [
      | none ↦ none
      | some k2 ↦ elim (split_line line) [
        | none ↦ none
        | some args ↦ elim (execute fuel buf args k2) [ none ↦ none | some k3 ↦ some (rest, k3) ]
      ]
    ]
  ]
]

-- `n` rounds, behind the greeting.
unfoldable pub shell_rounds : (n fuel buf : ℕ) → List ℕ → Kernel → Option (List ℕ × Kernel)
unfolding shell_round
shell_rounds zero fuel buf keys k = some (keys, k)
shell_rounds (suc n) fuel buf keys k = elim (shell_round fuel buf keys k) [
  | none ↦ none
  | some (rest, k') ↦ shell_rounds n fuel buf rest k'
]

unfoldable pub start_shell : (n fuel buf : ℕ) → List ℕ → Kernel → Option (List ℕ × Kernel)
unfolding shell_rounds
start_shell n fuel buf keys k = elim (say (codes "\nShed userspace shell\n") k) [
  | none ↦ none
  | some k' ↦ shell_rounds n fuel buf keys k'
]
