-- ===== src/Syscall/Returns.antt =====
-- kernel/kernel.c: which system calls return.
use shed_kernel.Prelude.{
  ℕ, ◌⊎◌, ◌*◌, ◌+◌, ◌/◌, ◌<◌, ◌≤◌, ◌≡◌, ◌≢◌, refl, true, none, some, List, [], ◌∷◌, arith, inl, inr,
  Option-cases, is_some, ◌==◌,
}
use shed_kernel.Console.{Vga}
use shed_kernel.Console.Format.{kprintf, parse_precision, convert}
use shed_kernel.Console.Returns.{accepts, kprintf-returns}
use shed_kernel.Fs.Disk.{Fs, fs_alloc_block}
use shed_kernel.Fs.Dir.{is_file, find_slot, fs_find_file, entry_at}
use shed_kernel.Fs.Messages.{Line, kprintf_all, create_prints, delete_prints}
use shed_kernel.Paging.{frame_of, alloc_page_frame, table_of}
use shed_kernel.Syscall.{
  Kernel, Call, print, getchar, malloc_call, free, create_file, delete_file, read_file, write_file,
  sbrk, editor, write_char, clear_to_eol, Result, string_at, is_own, is_inside,
}
use shed_kernel.Syscall.Keep.{IsFreeable}

-- A line whose format and arguments agree.
abbrev pub Prints : Line → Type 0
Prints (format, args) = (v : Vga) → is_some (kprintf format args v) ≡ true

abbrev pub AllPrint : List Line → Type 0
AllPrint [] = Unit
AllPrint (l ∷ lines) = Prints l × AllPrint lines

pub kprintf_all-returns :
    (lines : List Line) (v : Vga) → AllPrint lines → is_some (kprintf_all lines v) ≡ true
unfolding kprintf_all
kprintf_all-returns [] v h = refl
kprintf_all-returns ((format, args) ∷ lines) v (h, hs) =
    elim (Option-cases (kprintf format args v)) [
      | inl e ↦ absurd (ground (arith, e, h v))
      | inr (v', e) ↦ rw (e, kprintf_all) (kprintf_all-returns lines v' hs)
    ]

pub create_prints-print : (name : List ℕ) (fs : Fs) → AllPrint (create_prints name fs)
unfolding create_prints accepts parse_precision convert
create_prints-print name fs = elim (Option-cases (fs_find_file name fs)) [
  | inr (i, e) ↦ rw (e, create_prints) (kprintf-returns _ _ refl, tt)
  | inl e ↦ elim (Option-cases (find_slot (λ e. e.is_used == 0) fs.fs_rootdir)) [
    | inl full ↦ rw (e, create_prints) (rw (full, create_prints) (kprintf-returns _ _ refl, tt))
    | inr (i, slot) ↦ elim (Option-cases (fs_alloc_block fs)) [
      | inl full ↦
          rw (e, create_prints)
            (rw (slot, create_prints) (rw (full, create_prints) (kprintf-returns _ _ refl, tt)))
      | inr (b, found) ↦
          rw (e, create_prints) (rw (slot, create_prints) (rw (found, create_prints) tt))
    ]
  ]
]

pub delete_prints-print : (name : List ℕ) (fs : Fs) → AllPrint (delete_prints name fs)
unfolding delete_prints accepts parse_precision convert
delete_prints-print name fs = elim (Option-cases (find_slot (is_file name) fs.fs_rootdir)) [
  | inl e ↦ rw (e, delete_prints) (kprintf-returns _ _ refl, tt)
  | inr (i, e) ↦ rw (e, delete_prints) tt
]

-- Every entry's blocks end within the disk.
abbrev pub AllInside : Fs → Type 0
AllInside fs =
    (i : ℕ) → (entry_at i fs).first_data_block + (entry_at i fs).file_size / 4096 + 1 ≤ 1024

-- What a call waits for, or relies on, to return.
abbrev pub IsReady : (area fuel : ℕ) → Call → Kernel → Type 0
IsReady area fuel (print p) k = is_some (string_at fuel k.memory p) ≡ true
IsReady area fuel getchar k = k.kbd.kbd_buf_read ≢ k.kbd.kbd_buf_write
IsReady area fuel (malloc_call size) k = size < 4294967296
IsReady area fuel (free p) k = IsFreeable area p k.mm
IsReady area fuel (create_file p) k = is_some (string_at fuel k.memory p) ≡ true
IsReady area fuel (delete_file p) k = is_some (string_at fuel k.memory p) ≡ true
IsReady area fuel (read_file p buf size) k =
    (is_own buf size ≡ true) × (is_some (string_at fuel k.memory p) ≡ true) × AllInside k.fs
IsReady area fuel (write_file p buf size) k =
    (is_inside buf size ≡ true) × (is_some (string_at fuel k.memory p) ≡ true) × (size < 4294967296)
IsReady area fuel (sbrk n) k =
    let table = table_of (frame_of k.user_heap_ptr) (alloc_page_frame k.paging).1 in
    (0 < n)
    × (k.user_heap_ptr + n ≤ 4194304 * (k.user_heap_ptr / 4194304) + 4194304)
    × (k.user_heap_ptr + n ≤ 4294963200)
    × (n / 4096 + 3 ≤ fuel)
    × (table < 0x800000)
    × ((table + 4096 ≤ 0x9C000) ⊎ (0x9D000 ≤ table))
IsReady area fuel editor k = ⊥
IsReady area fuel (write_char row col cell) k = (row < 25) × (col < 80)
IsReady area fuel (clear_to_eol row col) k = (row < 25) × (col ≤ 80)
IsReady area fuel call k = Unit

-- What has been printed is within the 32 KB of the screen's memory.
abbrev pub HasRoom : Result → Type 0
HasRoom none = Unit
HasRoom (some (r, k)) = k.vga.current_loc ≤ 0x8000
