-- ===== src/User.antt =====
-- user/shed.h, user/syscalls.c and user/user_shell.c: the programs' side of the system calls.
--
-- A program's variables and buffers stand in the memory of the kernel's state, at addresses that are
-- parameters. The functions with an `int` argument get it as a number, and lengths are not negative.
-- `printf` and `putchar` of the C library, which the streams leave unbuffered, put their text on the
-- screen as `_write` does.
pub mod Calls
pub mod Output
pub mod Input
pub mod ShellLine
pub mod Cat
pub mod Programs
pub mod Session
mod Tests
use shed_kernel.Prelude.{
  ℕ, zero, suc, ◌+◌, ◌-◌, ◌*◌, ◌/◌, ◌%◌, Bool, true, false, Option, none, some, List, [], ◌∷◌, ◌++◌,
  ltb, leb, ◌==◌, if◌then◌else◌, length, take, codes,
}
use shed_kernel.CString.{text, strcmp}
use shed_kernel.Console.{Vga, u32_mod}
use shed_kernel.Console.Format.{put_text}
use shed_kernel.Fs.Dir.{is_zero}
use shed_kernel.Kbd.{kbd_getchar}
use shed_kernel.Shell.{strtok, tok_delim}
use shed_kernel.Syscall.{
  Kernel, Result, exit, print, getchar, list_files, clear, sbrk, editor, write_char, create_file,
  string_at, erase_cell, run_call, create_named, delete_named, read_named,
}

abbrev pub set_byte : (a c : ℕ) → (ℕ → ℕ) → ℕ → ℕ
set_byte a c memory b = if b == a then c else memory b

-- shed.h

abbrev pub shed_shared_mem : ℕ
shed_shared_mem = 0xF0000000

-- The loop of `sys_exec_editor`, and the zero byte behind it.
unfoldable pub copy_name : (a : ℕ) → List ℕ → (ℕ → ℕ) → ℕ → ℕ
copy_name a [] memory = set_byte a 0 memory
copy_name a (c ∷ s) memory =
    if c == 0 then set_byte a 0 memory else copy_name (a + 1) s (set_byte a c memory)

unfoldable pub sys_exec_editor : List ℕ → Kernel → Result
unfolding copy_name run_call
sys_exec_editor filename k =
    run_call 0 editor (record k { memory = copy_name shed_shared_mem filename k.memory })

-- A character's byte and its attribute in one argument.
abbrev pub pack : (c attr : ℕ) → ℕ
pack c attr = attr % 256 * 256 + c % 256

unfoldable pub sys_vga_write_char : (row col c attr : ℕ) → Kernel → Result
sys_vga_write_char row col c attr k = run_call 0 (write_char row col (pack c attr)) k

unfoldable pub sys_vga_write_str : (row col : ℕ) → List ℕ → (attr : ℕ) → Kernel → Option Kernel
unfolding sys_vga_write_char
sys_vga_write_str row col [] attr k = some k
sys_vga_write_str row col (c ∷ s) attr k = elim (sys_vga_write_char row col c attr k) [
  | none ↦ none
  | some (r, k') ↦ sys_vga_write_str row ((col + 1) % u32_mod) s attr k'
]

-- `user_heap` has 4096 bytes; `heap_pos` is where its unused part starts.
abbrev pub user_heap_size : ℕ
user_heap_size = 4096

unfoldable pub u_malloc : (user_heap heap_pos size : ℕ) → ℕ × ℕ
u_malloc user_heap heap_pos size = (user_heap + heap_pos, (heap_pos + size) % u32_mod)

-- The blocks that calls of `u_malloc` return, for the sizes in turn, after `u_heap_reset`.
unfoldable pub u_mallocs : (user_heap heap_pos : ℕ) → List ℕ → List ℕ
unfolding u_malloc
u_mallocs user_heap heap_pos [] = []
u_mallocs user_heap heap_pos (size ∷ sizes) =
    let (p, heap_pos') = u_malloc user_heap heap_pos size in p ∷ u_mallocs user_heap heap_pos' sizes

-- syscalls.c

-- `_sbrk`: the result of the system call; -1 as a pointer, with ENOMEM, if that is 0xFFFFFFFF.
unfoldable pub _sbrk : (fuel incr : ℕ) → Kernel → Result
unfolding run_call
_sbrk fuel incr k = run_call fuel (sbrk incr) k

-- The loop of `_write`, with `n` rounds left at index `i`; `tmp` is the address of its two bytes.
unfoldable pub write_loop : (fuel tmp buf n i : ℕ) → Kernel → Option Kernel
write_loop fuel tmp buf zero i k = some k
write_loop fuel tmp buf (suc n) i k =
    elim (run_call fuel (print tmp)
      (record k { memory = set_byte (tmp + 1) 0 (set_byte tmp (k.memory (buf + i)) k.memory) })) [
        | none ↦ none
        | some (r, k') ↦ write_loop fuel tmp buf n (i + 1) k'
      ]

unfoldable pub _write : (fuel tmp fd buf len : ℕ) → Kernel → Result
unfolding write_loop
_write fuel tmp fd buf len k = elim (write_loop fuel tmp buf len 0 k) [
  | none ↦ none
  | some k' ↦ some (len, k')
]

-- The loop of `_read`.
unfoldable pub read_loop : (buf n i : ℕ) → Kernel → Result
read_loop buf zero i k = some (i, k)
read_loop buf (suc n) i k = elim (kbd_getchar k.kbd) [
  | none ↦ none
  | some (c, kbd') ↦
      let k' : Kernel = record k { kbd = kbd'; memory = set_byte (buf + i) (c % 256) k.memory } in
      if c % 256 == 10 then some (i + 1, k') else read_loop buf n (i + 1) k'
]

unfoldable pub _read : (fd buf len : ℕ) → Kernel → Result
unfolding read_loop
_read fd buf len k = read_loop buf len 0 k

-- `_open` makes the file and always returns descriptor 3.
unfoldable pub _open : (fuel name flags mode : ℕ) → Kernel → Result
_open fuel name flags mode k = elim (run_call fuel (create_file name) k) [
  | none ↦ none
  | some (r, k') ↦ some (3, k')
]

-- `_exit`, up to its endless loop.
unfoldable pub _exit : (status : ℕ) → Kernel → Result
unfolding run_call
_exit status k = run_call 0 exit k

-- user_shell.c

abbrev pub bufsize : ℕ
bufsize = 1024

abbrev pub toksize : ℕ
toksize = 64

-- The loop of `read_line` over the codes that `sys_getchar` is going to get; `none` when they end
-- before the line does.
unfoldable pub line_loop : (keys buf : List ℕ) → Vga → Option (List ℕ × List ℕ × Vga)
unfolding erase_cell put_text
line_loop [] buf v = none
line_loop (k ∷ keys) buf v =
    let c = k % 256 in
    let shorter = line_loop keys (take (length buf - 1) buf) (erase_cell v) in
    let same = line_loop keys buf v in
    let longer = line_loop keys (buf ++ c ∷ []) (put_text (text (c ∷ [])) v) in
    if c == 10
    then some (buf, keys, v)
    else if c == 8
    then (if ltb 0 (length buf) then shorter else same)
    else if leb (bufsize - 1) (length buf + 1)
    then some (buf ++ c ∷ [], keys, put_text (text (c ∷ [])) v)
    else longer

unfoldable pub read_line : List ℕ → Vga → Option (List ℕ × List ℕ × Vga)
unfolding line_loop
read_line keys v = line_loop keys [] v

-- The loop of `split_line` from index `pos` on; `none` where it stores behind the `toksize` pointers,
-- or the fuel is used up.
unfoldable pub token_loop : (fuel pos : ℕ) → Option (List ℕ) → Option (List (List ℕ))
unfolding strtok
token_loop zero pos s = none
token_loop (suc f) pos s = if leb toksize pos then none else elim (strtok s tok_delim) [
  | none ↦ some []
  | some (token, s') ↦ elim (token_loop f (pos + 1) s') [
    | none ↦ none
    | some tokens ↦ some (token ∷ tokens)
  ]
]

unfoldable pub split_line : List ℕ → Option (List (List ℕ))
unfolding token_loop
split_line line = token_loop (length line + 2) 0 (some line)

abbrev pub say : List ℕ → Kernel → Option Kernel
say s k = some (record k { vga = put_text s k.vga })

abbrev pub kernel_of : Result → Option Kernel
kernel_of none = none
kernel_of (some (r, k)) = some k

-- `cat`: up to 512 bytes into the buffer, and what is printed of it.
unfoldable pub cat_file : (fuel buf : ℕ) → List ℕ → Kernel → Option Kernel
cat_file fuel buf name k = elim (read_named name buf 512 k) [
  | none ↦ none
  | some (r, k') ↦ elim (string_at fuel k'.memory buf) [
    | none ↦ none
    | some s ↦ say (s ++ 10 ∷ []) k'
  ]
]

abbrev pub is_name : List ℕ → List ℕ → Bool
is_name s name = is_zero (strcmp s name)

-- A command that needs a file name, and what it prints without one.
abbrev pub on_name :
    List (List ℕ) → (message : List ℕ) → (List ℕ → Kernel → Option Kernel) → Kernel → Option Kernel
on_name [] message command k = say message k
on_name (name ∷ args) message command k = command name k

-- `buf` is where `malloc` finds room for `cat`.
unfoldable pub execute : (fuel buf : ℕ) → List (List ℕ) → Kernel → Option Kernel
unfolding cat_file sys_exec_editor
execute fuel buf [] k = some k
execute fuel buf (command ∷ args) k =
    if is_name command (codes "ls")
    then kernel_of (run_call fuel list_files k)
    else if is_name command (codes "touch")
    then on_name args (codes "touch: no filename\n") (λ s k. kernel_of (create_named s k)) k
    else if is_name command (codes "del")
    then on_name args (codes "del: no filename\n") (λ s k. kernel_of (delete_named s k)) k
    else if is_name command (codes "cat")
    then on_name args (codes "cat: no filename\n") (cat_file fuel buf) k
    else if is_name command (codes "edit")
    then on_name args (codes "edit: no filename\n") (λ s k. kernel_of (sys_exec_editor s k)) k
    else if is_name command (codes "help")
    then say (codes "commands: ls, touch, del, cat, edit, clear, exit\n") k
    else if is_name command (codes "clear")
    then kernel_of (run_call fuel clear k)
    else if is_name command (codes "exit")
    then kernel_of (run_call fuel exit k)
    else say (codes "unknown command: " ++ text command ++ 10 ∷ []) k
