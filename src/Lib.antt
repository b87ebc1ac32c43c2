-- ===== src/Lib.antt =====
-- ShedKernel: a small 32-bit kernel with a file system, a heap, a keyboard driver, a text editor and a
-- shell.
--
-- The parts and the files that model them:
--   * CString: kernel/string.h, the string functions, on lists of bytes, and those on memory
--     (CString/Memory, CString/Copy).
--   * Console: kernel/kprintf.c. Console has the cell and cursor functions and `itoa_into`;
--     Console/Format the loops of `ksprintf` and `kprintf`; Console/Cursor and Console/Returns are
--     about the cursor and about which formats print.
--   * Time: kernel/time.c, `kernel_mktime`.
--   * Fs: fs/easyfs.c with fs/fs_types.h and fs/fs_config.h. Fs/Disk has the state, the blocks and the
--     bitmap; Fs/Dir the root directory and `fs_read_file` and `fs_write_file`; Fs/Messages what the
--     operations print.
--   * Mm: the heap of kernel/mm.c: `malloc`, `mem_free` and `realloc`.
--   * Paging: the page frames of kernel/mm.c, and of kernel/kernel.c `init_paging`, `map_user_page` and
--     the user heap of system call 12.
--   * Descriptors: the GDT, the IDT, and the values for the interrupt controller and the timer, of
--     kernel/kernel.c.
--   * Kbd: drivers/kbd_driver.c and the tables of drivers/keyboard_map.h.
--   * Vga13: drivers/vga13.c, the framebuffer.
--   * Editor: fs/ed.c. Editor has the state and the editing operations, Editor/Command loading, saving
--     and the command line, Editor/Keys the dispatch of a key, Editor/Draw the screen, Editor/Run the
--     main loop.
--   * Shell: kernel/Shell.c. Shell has the line reader, the tokeniser with `strtok` and the dispatch,
--     Shell/Commands the commands and `lsh_loop`.
--   * Syscall: the state of the whole kernel and `syscall_dispatch` of kernel/kernel.c; Syscall/Steps
--     its runs, whose steps are system calls, keyboard interrupts and timer ticks.
--   * Boot: `kernel_main` of kernel/kernel.c up to the start of the shell; Boot/Serial its messages.
--   * User: user/syscalls.c, user/shed.h and user/user_shell.c, on top of the system calls;
--     User/Programs the entry points, of user/user.c and user/editor.c too.
-- A function keeps its name in snake case. The keyboard driver feeds the shell, the editor and the
-- system calls; all work on the file system, and print on the console. The user programs reach the
-- kernel by the system calls only.
--
-- State is a record that each operation takes and returns. A loop that waits for the hardware takes
-- what it reads as an argument, and returns `none` while nothing is there. `none` also stands for what
-- the C standard leaves undefined: an access behind an array, a string or the arguments, a signed
-- overflow. Numbers of 32 bits are natural numbers with the wrap-around written out.
--
-- The memory of the programs, the screen and the kernel's own data are apart. A system call that would
-- write over the kernel, through a buffer below 8 MB or a place that is not on the screen, is `none`.
-- Printing writes behind the screen once the cursor has left it; the theorems on the whole kernel
-- bound the cursor where this matters. A write to a page table behind the 8 MB that are mapped is a
-- page fault, `none` too.
--
-- Fuel: `find_best_mem_block` and `malloc` have 65538 rounds, since each block of the heap of 1 MB takes
-- 16 bytes; the formatting loops one more than the format has bytes, `lsh_split_line` two more than the
-- line has, `itoa_into` 33 for at most 32 digits. A caller gives the fuel for what has no bound of its
-- own: for a string in memory (`string_at`) one round more than it has bytes, for the loop of system
-- call 12 three more than its pages, for the mapping of the framebuffer one more than its pages.
--
-- Specifications: the heap is the list of its blocks in address order (Mm/Chain), the ring buffer a queue
-- of at most 255 codes (Kbd/Queue), the editor a text with a gap (Editor/Buffer), the calendar a sum of
-- days over the years and months (Time/Calendar), the tokeniser the words of a line (Shell/Words).
--
-- Not modelled: drivers/acpi.h and kernel/template.c, which nothing calls, the assembly files, the
-- inline assembly that loads registers and switches stacks (a jump to user space sets the entry point),
-- `map_kernel_page`, the stubs of user/syscalls.c that return a constant, and the C library under the
-- user programs, whose `strtok` is taken to work as the kernel's and whose unbuffered `printf` as
-- system call 1. In the editor and the shells, malloc is taken to succeed, and the kernel's shell takes
-- the typed keys as an argument.
pub mod Boot
pub mod CString
pub mod Console
pub mod Descriptors
pub mod Editor
pub mod Fs
pub mod Kbd
pub mod Mm
pub mod Paging
pub mod Prelude
pub mod Shell
pub mod Syscall
pub mod Time
pub mod User
pub mod Vga13
