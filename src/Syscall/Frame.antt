-- ===== src/Syscall/Frame.antt =====
-- kernel/kernel.c: which state each system call changes.
use shed_kernel.Prelude.{◌≡◌, none, some}
use shed_kernel.Fs.Disk.{Fs}
use shed_kernel.Syscall.{
  Kernel, Call, exit, getchar, malloc_call, free, create_file, delete_file, read_file, write_file,
  sbrk, editor, Result,
}

-- `k` with the parts of `k'` that a call may change.
abbrev pub touched : Call → (k k' : Kernel) → Kernel
touched exit k k' = record k { exit_requested = k'.exit_requested }
touched getchar k k' = record k { kbd = k'.kbd }
touched (malloc_call size) k k' = record k { mm = k'.mm }
touched (free p) k k' = record k { mm = k'.mm }
touched (create_file p) k k' = record k { fs = k'.fs; vga = k'.vga }
touched (delete_file p) k k' = record k { fs = k'.fs; vga = k'.vga }
touched (read_file p buf size) k k' = record k { memory = k'.memory }
touched (write_file p buf size) k k' = record k { fs = k'.fs; vga = k'.vga }
touched (sbrk n) k k' = record k { paging = k'.paging; user_heap_ptr = k'.user_heap_ptr }
touched editor k k' = record k { user_entry = k'.user_entry }
touched call k k' = record k { vga = k'.vga }

abbrev pub Frames : Call → Kernel → Result → Type 0
Frames call k none = Unit
Frames call k (some (r, k')) = k' ≡ touched call k k'
