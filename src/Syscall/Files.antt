-- ===== src/Syscall/Files.antt =====
-- kernel/kernel.c: what a program gets back from a file through the system calls.
use shed_kernel.Fs.Disk.{Fs}
