-- ===== src/Syscall.antt =====
-- kernel/kernel.c: system calls and the timer, on the state of the whole kernel.
--
-- The state is that of the parts the calls reach, `memory` the bytes that the running program sees,
-- to which its pointers refer; it is apart from the kernel's own data, and a call that would write
-- over these is `none`. A page that call 12 maps is in `paging` only: what it shows is said by
-- `walk`. The state variables of the file stand behind it. `user_entry` is the address to which the
-- last `iret` of the `jump_to` functions went. A call is `none` while it has not returned:
-- `getchar` while no key is there, a string that has no terminator, the page loop. `fuel` bounds
-- the length of strings and the rounds of the page loop.
pub mod Keep
pub mod Steps
pub mod Frame
pub mod Files
pub mod Returns
mod Tests
use shed_kernel.Prelude.{
  ℕ, zero, suc, ◌+◌, ◌-◌, ◌*◌, ◌/◌, ◌%◌, Bool, true, false, ◌&&◌, ltb, Option, none, some, List, [],
  ◌∷◌, leb, ◌==◌, if◌then◌else◌, ℤ, pos, negsuc, codes,
}
use shed_kernel.Console.{
  Vga, u32_mod, put_at, clear_screen, kvga_write_char, kvga_set_cursor, kvga_clear_to_eol,
}
use shed_kernel.Console.Format.{num, str, kprintf}
use shed_kernel.Fs.Disk.{Fs}
use shed_kernel.Fs.Dir.{fs_create_file, fs_delete_file, fs_read_file, fs_write_file}
use shed_kernel.Fs.Messages.{
  Line, kprintf_all, create_prints, delete_prints, list_prints, write_prints,
}
use shed_kernel.Kbd.{Kbd, kbd_getchar, write_port}
use shed_kernel.Mm.{Mm, malloc, mem_free}
use shed_kernel.Paging.{Paging, user_sbrk}

pub record Kernel : Type 0 where
  pub fs : Fs
  pub mm : Mm
  pub kbd : Kbd
  pub vga : Vga
  pub paging : Paging
  pub memory : ℕ → ℕ
  pub user_heap_ptr : ℕ
  pub exit_requested : ℕ
  pub jiffies : ℕ
  pub user_entry : ℕ

abbrev pub hz : ℕ
hz = 100

abbrev pub pit_freq : ℕ
pit_freq = 1193180

unfoldable pub timer_callback : Kernel → Kernel
timer_callback k = record k {
  jiffies = (k.jiffies + 1) % u32_mod;
  kbd = write_port 0x20 0x20 k.kbd;
}

unfoldable pub uptime : Kernel → ℕ
uptime k = k.jiffies / hz

abbrev pub jump_to_userspace : Kernel → Kernel
jump_to_userspace k = record k { user_entry = 0xA0000020 }

abbrev pub jump_to_editor : Kernel → Kernel
jump_to_editor k = record k { user_entry = 0x70000000 }

abbrev pub jump_to_shell : Kernel → Kernel
jump_to_shell k = record k { user_entry = 0xC0000000 }

-- The string to which a pointer points.
unfoldable pub string_at : (fuel : ℕ) → (ℕ → ℕ) → ℕ → Option (List ℕ)
string_at zero memory p = none
string_at (suc f) memory p =
    let rest = string_at f memory ((p + 1) % u32_mod) in
    if memory p == 0 then some [] else elim rest [ none ↦ none | some s ↦ some (memory p ∷ s) ]

-- A result as the register holds it.
abbrev pub to_u32 : ℤ → ℕ
to_u32 (pos n) = n
to_u32 (negsuc n) = u32_mod - 1 - n

-- The cases of the `switch`, with the arguments that each one uses.
pub data Call : Type 0 where
  exit : Call
  print : (str : ℕ) → Call
  getchar : Call
  malloc_call : (size : ℕ) → Call
  free : (p : ℕ) → Call
  list_files : Call
  create_file : (name : ℕ) → Call
  delete_file : (name : ℕ) → Call
  read_file : (name buf size : ℕ) → Call
  write_file : (name buf size : ℕ) → Call
  erase : Call
  clear : Call
  sbrk : (increment : ℕ) → Call
  editor : Call
  write_char : (row col cell : ℕ) → Call
  set_cursor : (row col : ℕ) → Call
  clear_to_eol : (row col : ℕ) → Call
  unknown : (number : ℕ) → Call

unfoldable pub decode_call : (syscall_num arg1 arg2 arg3 : ℕ) → Call
decode_call n a b c =
    if n == 0
    then exit
    else if n == 1
    then print a
    else if n == 2
    then getchar
    else if n == 3
    then malloc_call a
    else if n == 4
    then free a
    else if n == 5
    then list_files
    else if n == 6
    then create_file a
    else if n == 7
    then delete_file a
    else if n == 8
    then read_file a b c
    else if n == 9
    then write_file a b c
    else if n == 10
    then erase
    else if n == 11
    then clear
    else if n == 12
    then sbrk a
    else if n == 13
    then editor
    else if n == 14
    then write_char a b c
    else if n == 15
    then set_cursor a b
    else if n == 16
    then clear_to_eol a b
    else unknown n

-- A call returns a number and leaves a kernel.
abbrev pub Result : Type 0
Result = Option (ℕ × Kernel)

abbrev pub on_screen : (result : ℕ) → Option Vga → Kernel → Result
on_screen result none k = none
on_screen result (some v) k = some (result, record k { vga = v })

-- Case 10 takes back one cell.
unfoldable pub erase_cell : Vga → Vga
erase_cell v =
    if leb 2 v.current_loc
    then put_at (v.current_loc - 2) 32 7 (record v { current_loc = v.current_loc - 2 })
    else v

-- The bytes from a pointer on, and memory after a write to them.
abbrev pub bytes_from : ℕ → (ℕ → ℕ) → ℕ → ℕ
bytes_from p memory o = memory ((p + o) % u32_mod)

abbrev pub store_from : ℕ → (ℕ → ℕ) → ℕ → ℕ
store_from p buf a = buf ((a + u32_mod - p) % u32_mod)

-- The calls on a file whose name has been read.
unfoldable pub create_named : List ℕ → Kernel → Result
unfolding create_prints
create_named name k =
    on_screen 0 (kprintf_all (create_prints name k.fs) k.vga)
      (record k { fs = (fs_create_file name k.fs).1 })

unfoldable pub delete_named : List ℕ → Kernel → Result
unfolding delete_prints
delete_named name k =
    on_screen 0 (kprintf_all (delete_prints name k.fs) k.vga)
      (record k { fs = (fs_delete_file name k.fs).1 })

unfoldable pub read_named : List ℕ → (buf size : ℕ) → Kernel → Result
read_named name buf size k = elim (fs_read_file name (bytes_from buf k.memory) size k.fs) [
  | none ↦ none
  | some (n, bytes) ↦ some (to_u32 n, record k { memory = store_from buf bytes })
]

unfoldable pub write_named : List ℕ → (buf size : ℕ) → Kernel → Result
unfolding write_prints
write_named name buf size k =
    elim (fs_write_file name (buf == 0) (bytes_from buf k.memory) size k.fs) [
      | none ↦ none
      | some (n, fs') ↦
          on_screen (to_u32 n) (kprintf_all (write_prints name (buf == 0) size k.fs) k.vga)
            (record k { fs = fs' })
    ]

-- A call whose arguments the test accepts; `none` where it would write over the kernel.
abbrev pub guarded : Bool → Result → Result
guarded false r = none
guarded true r = r

-- The blocks that a call copies for `size` bytes from `p` on end within the address space, and start
-- behind the 8 MB that the kernel maps for itself. The test is on the size that is asked for: a call
-- that it refuses is left open also where no file, or only a shorter one, is found.
abbrev pub is_inside : (p size : ℕ) → Bool
is_inside p size = leb (p + size + 4096) u32_mod

abbrev pub is_own : (p size : ℕ) → Bool
is_own p size = leb 0x800000 p && is_inside p size

abbrev pub with_string : Option (List ℕ) → (List ℕ → Result) → Result
with_string none call = none
with_string (some s) call = call s

unfoldable pub run_call : (fuel : ℕ) → Call → Kernel → Result
unfolding string_at erase_cell create_named delete_named read_named write_named
run_call fuel exit k = some (0, record k { exit_requested = 1 })
run_call fuel (print p) k =
    with_string (string_at fuel k.memory p)
      (λ s. on_screen 0 (kprintf (codes "%s") (str s ∷ []) k.vga) k)
run_call fuel getchar k = elim (kbd_getchar k.kbd) [
  | none ↦ none
  | some (c, kbd') ↦ some (c, record k { kbd = kbd' })
]
run_call fuel (malloc_call size) k = elim (malloc size k.mm) [
  | none ↦ none
  | some (p, mm') ↦ some (p, record k { mm = mm' })
]
run_call fuel (free p) k = some (0, record k { mm = mem_free p k.mm })
run_call fuel list_files k = on_screen 0 (kprintf_all (list_prints k.fs) k.vga) k
run_call fuel (create_file p) k = with_string (string_at fuel k.memory p) (λ s. create_named s k)
run_call fuel (delete_file p) k = with_string (string_at fuel k.memory p) (λ s. delete_named s k)
run_call fuel (read_file p buf size) k =
    guarded (is_own buf size)
      (with_string (string_at fuel k.memory p) (λ s. read_named s buf size k))
run_call fuel (write_file p buf size) k =
    guarded (is_inside buf size)
      (with_string (string_at fuel k.memory p) (λ s. write_named s buf size k))
run_call fuel erase k = some (0, record k { vga = erase_cell k.vga })
run_call fuel clear k = some (0, record k { vga = clear_screen k.vga })
run_call fuel (sbrk increment) k = elim (user_sbrk fuel k.user_heap_ptr increment k.paging) [
  | none ↦ none
  | some (old, new_ptr, paging') ↦
      some (old, record k { paging = paging'; user_heap_ptr = new_ptr })
]
-- The jump does not come back: the state is the one in which the editor starts, and 0 no result.
run_call fuel editor k = some (0, jump_to_editor k)
run_call fuel (write_char row col cell) k =
    guarded (ltb row 25 && ltb col 80)
      (some (0, record k { vga = kvga_write_char row col (cell % 256) (cell / 256 % 256) k.vga }))
run_call fuel (set_cursor row col) k = some (0, record k { vga = kvga_set_cursor row col k.vga })
run_call fuel (clear_to_eol row col) k =
    guarded (ltb row 25 && leb col 80)
      (some (0, record k { vga = kvga_clear_to_eol row col k.vga }))
run_call fuel (unknown n) k =
    on_screen 0xFFFFFFFF (kprintf (codes "unknown syscall %d\n") (num n ∷ []) k.vga) k

unfoldable pub syscall_dispatch : (fuel syscall_num arg1 arg2 arg3 : ℕ) → Kernel → Result
unfolding decode_call run_call
syscall_dispatch fuel n a b c k = run_call fuel (decode_call n a b c) k
