-- ===== src/Paging.antt =====
-- kernel/mm.c and kernel/kernel.c: page frames and page tables.
--
-- `memory` holds the 32-bit word at each address: the page directory and the page tables. Memory below
-- 8 MB is mapped to itself, so the tables are read and written at their physical addresses. A mask of
-- low bits is written as arithmetic: `x | 7` is `x - x % 8 + 7`, `x & ~0xFFF` is `x / 4096 * 4096`,
-- `x & 1` is `x % 2`.
pub mod Walk
pub mod Sbrk
pub mod Growth
pub mod Frames
mod Tests
use shed_kernel.Prelude.{
  ℕ, zero, suc, ◌+◌, ◌-◌, ◌*◌, ◌/◌, ◌%◌, Bool, true, false, leb, ◌==◌, if◌then◌else◌, Option, none,
  some, ltb,
}

abbrev pub u32_mod : ℕ
u32_mod = 4294967296

abbrev pub page_size : ℕ
page_size = 4096

abbrev pub phys_mem_end : ℕ
phys_mem_end = 134217728

abbrev pub page_directory : ℕ
page_directory = 0x9C000

abbrev pub page_table_kernel : ℕ
page_table_kernel = 0x9D000

abbrev pub page_table_kernel2 : ℕ
page_table_kernel2 = 0x9E000

pub record Paging : Type 0 where
  pub memory : ℕ → ℕ
  pub next_free_page : ℕ

abbrev pub set_word : (a w : ℕ) → Paging → Paging
set_word a w p = record p { memory = λ b. if b == a then w else p.memory b }

-- PAGE_PRESENT | PAGE_WRITE, and with PAGE_USER
abbrev pub or_kernel : ℕ → ℕ
or_kernel x = x - x % 4 + 3

abbrev pub or_user : ℕ → ℕ
or_user x = x - x % 8 + 7

abbrev pub frame_of : ℕ → ℕ
frame_of x = x / page_size * page_size

unfoldable pub paging_alloc_init : (kernel_end : ℕ) → Paging → Paging
paging_alloc_init kernel_end p = record p {
  next_free_page = frame_of ((kernel_end + 4095) % u32_mod);
}

unfoldable pub alloc_page_frame : Paging → ℕ × Paging
alloc_page_frame p =
    if leb phys_mem_end p.next_free_page
    then (0, p)
    else (p.next_free_page, record p { next_free_page = (p.next_free_page + page_size) % u32_mod })

-- The loop of `init_paging`, with `n` rounds left at index `i`.
unfoldable pub init_tables : (n i : ℕ) → Paging → Paging
init_tables zero i p = p
init_tables (suc n) i p = init_tables n (i + 1) (
    set_word (page_table_kernel2 + 4 * i) (or_kernel (0x400000 + i * page_size)) (
      set_word (page_table_kernel + 4 * i) (or_kernel (i * page_size))
        (set_word (page_directory + 4 * i) 0 p)))

unfoldable pub init_paging : Paging → Paging
unfolding init_tables
init_paging p =
    set_word (page_directory + 4) (or_kernel page_table_kernel2)
      (set_word page_directory (or_kernel page_table_kernel) (init_tables 1024 0 p))

abbrev pub dir_slot : ℕ → ℕ
dir_slot virt = page_directory + 4 * (virt / 4194304)

abbrev pub table_offset : ℕ → ℕ
table_offset virt = 4 * (virt / page_size % 1024)

-- The first part of `map_user_page`: a table for the directory slot, if it has none.
unfoldable pub ensure_table : ℕ → Paging → Paging
unfolding alloc_page_frame
ensure_table virt p =
    let (new_table, p') = alloc_page_frame p in
    if p.memory (dir_slot virt) % 2 == 0 then set_word (dir_slot virt) (or_user new_table) p' else p

unfoldable pub map_user_page : (virt phys : ℕ) → Paging → Paging
unfolding ensure_table
map_user_page virt phys p =
    let p' = ensure_table virt p in
    set_word (frame_of (p'.memory (dir_slot virt)) + table_offset virt) (or_user phys) p'

-- The table that `map_user_page` uses for the address.
abbrev pub table_of : ℕ → Paging → ℕ
table_of virt p = frame_of ((ensure_table virt p).memory (dir_slot virt))

-- `init_paging` maps the first 8 MB to themselves; a write to a table behind them is a page fault.
abbrev pub mapped_end : ℕ
mapped_end = 0x800000

-- The loop of system call 12 over the pages from `addr` on; `none` when the fuel is used up, or at a
-- page fault.
unfoldable pub sbrk_loop : (fuel addr new_ptr : ℕ) → Paging → Option Paging
unfolding map_user_page alloc_page_frame
sbrk_loop zero addr new_ptr p = none
sbrk_loop (suc f) addr new_ptr p =
    let (frame, p') = alloc_page_frame p in
    let rest = sbrk_loop f ((addr + page_size) % u32_mod) new_ptr (map_user_page addr frame p') in
    if ltb addr new_ptr then (if ltb (table_of addr p') mapped_end then rest else none) else some p

-- System call 12: the old end of the user heap, the new one, and the pages after it.
unfoldable pub user_sbrk : (fuel user_heap_ptr arg : ℕ) → Paging → Option (ℕ × ℕ × Paging)
unfolding sbrk_loop
user_sbrk fuel user_heap_ptr arg p =
    let new_ptr = (user_heap_ptr + arg) % u32_mod in
    elim (sbrk_loop fuel (frame_of user_heap_ptr) new_ptr p) [
      | none ↦ none
      | some p' ↦ some (user_heap_ptr, new_ptr, p')
    ]
