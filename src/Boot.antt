-- ===== src/Boot.antt =====
-- kernel/kernel.c: `kernel_main` up to the call of the shell.
--
-- `Boot.Env` is what comes from outside of the sources: what the boot loader passes on, the addresses
-- that the linker chooses, the programs that it puts into the kernel, and what memory, the tables and
-- the interrupt mask hold before. The static variables start as the sources say. `fuel` bounds the
-- pages of the framebuffer.
pub mod Ready
pub mod Mask
pub mod Serial
mod Tests
use shed_kernel.Prelude.{
  ℕ, zero, suc, ◌+◌, ◌-◌, ◌*◌, ◌/◌, ◌%◌, Bool, true, false, Option, none, some, List, [], ◌∷◌, ◌++◌,
  ltb, leb, ◌==◌, ◌&&◌, if◌then◌else◌, replicate, get_or, length,
}
use shed_kernel.Console.{Vga, u32_mod, clear_screen}
use shed_kernel.Descriptors.{GdtEntry, IdtEntry, gdt_init, idt_init, pic_writes, pit_writes}
use shed_kernel.Fs.Disk.{Fs, fs_init}
use shed_kernel.Fs.Messages.{kprintf_all, init_prints}
use shed_kernel.Kbd.{Kbd, kbd_init, kbd_enable, write_port}
use shed_kernel.Mm.{Mm, init_dynamic_mem}
use shed_kernel.Paging.{
  Paging, paging_alloc_init, init_paging, alloc_page_frame, map_user_page, set_word, dir_slot,
  table_offset, frame_of, or_kernel, page_size,
}
use shed_kernel.Syscall.{Kernel}
use Serial.{boot_messages}
use shed_kernel.Vga13.{Vga13, vga13_init, vga13_put_pixel, vga13_clear}

-- The fields of the multiboot structure that are read.
pub record Multiboot : Type 0 where
  pub flags : ℕ
  pub framebuffer_addr : ℕ
  pub framebuffer_pitch : ℕ
  pub framebuffer_width : ℕ
  pub framebuffer_height : ℕ
  pub framebuffer_bpp : ℕ

pub record Framebuffer : Type 0 where
  pub fb_phys_addr : ℕ
  pub fb_pitch : ℕ
  pub fb_width : ℕ
  pub fb_height : ℕ
  pub fb_bpp : ℕ

pub record Env : Type 0 where
  pub mb : Option Multiboot
  pub kernel_end : ℕ
  pub dynamic_mem_area : ℕ
  pub default_tss : ℕ
  pub kbd_handler : ℕ
  pub timer_handler : ℕ
  pub syscall_handler : ℕ
  pub user_flat : List ℕ
  pub user_editor_flat : List ℕ
  pub user_shell_flat : List ℕ
  -- what reading port 0x21 returns
  pub mask : ℕ
  -- memory before: the screen, the words of the tables, the bytes of the programs, the pixels
  pub screen : ℕ → ℕ
  pub words : ℕ → ℕ
  pub bytes : ℕ → ℕ
  pub pixels : ℕ → ℕ
  pub idt : ℕ → IdtEntry

pub record Machine : Type 0 where
  pub kernel : Kernel
  pub kgdt : List GdtEntry
  pub idt : ℕ → IdtEntry
  pub framebuffer : Framebuffer
  pub vga13 : Vga13
  pub serial : List ℕ

abbrev pub no_framebuffer : Framebuffer
no_framebuffer = record { fb_phys_addr = 0; fb_pitch = 0; fb_width = 0; fb_height = 0; fb_bpp = 0 }

-- Bit 12 of the flags says that the framebuffer's fields are there.
unfoldable pub parse_framebuffer : Option Multiboot → Framebuffer
parse_framebuffer none = no_framebuffer
parse_framebuffer (some mb) =
    if mb.flags / 4096 % 2 == 1
    then record {
      fb_phys_addr = mb.framebuffer_addr % u32_mod;
      fb_pitch = mb.framebuffer_pitch;
      fb_width = mb.framebuffer_width;
      fb_height = mb.framebuffer_height;
      fb_bpp = mb.framebuffer_bpp;
    }
    else no_framebuffer

-- The loop that zeroes a new table, with `n` rounds left at index `i`.
unfoldable pub zero_table : (n i table : ℕ) → Paging → Paging
zero_table zero i table p = p
zero_table (suc n) i table p = zero_table n (i + 1) table (set_word (table + 4 * i) 0 p)

-- A round of the framebuffer's loop: the table of a page, and the page itself.
unfoldable pub fb_table : ℕ → Paging → Paging
unfolding zero_table alloc_page_frame
fb_table addr p =
    let (new_tbl, p') = alloc_page_frame p in
    if p.memory (dir_slot addr) % 2 == 0
    then set_word (dir_slot addr) (or_kernel new_tbl) (zero_table 1024 0 new_tbl p')
    else p

unfoldable pub fb_page : ℕ → Paging → Paging
unfolding fb_table
fb_page addr p =
    let p' = fb_table addr p in
    set_word (frame_of (p'.memory (dir_slot addr)) + table_offset addr) (or_kernel addr) p'

unfoldable pub map_framebuffer : (fuel off fb_size fb_phys_addr : ℕ) → Paging → Option Paging
map_framebuffer zero off fb_size fb_phys_addr p = none
map_framebuffer (suc f) off fb_size fb_phys_addr p =
    let rest =
      map_framebuffer f ((off + page_size) % u32_mod) fb_size fb_phys_addr
        (fb_page ((fb_phys_addr + off) % u32_mod) p) in
    if ltb off fb_size then rest else some p

unfoldable pub framebuffer_pages : (fuel : ℕ) → Framebuffer → Paging → Option Paging
unfolding map_framebuffer
framebuffer_pages fuel f p =
    if f.fb_phys_addr == 0
    then some p
    else map_framebuffer fuel 0 (f.fb_pitch * f.fb_height % u32_mod) f.fb_phys_addr p

-- `map_user_page(virt, alloc_page_frame())`, and the loops of it over `n` pages.
unfoldable pub map_frame : ℕ → Paging → Paging
unfolding alloc_page_frame map_user_page
map_frame virt p = let (frame, p') = alloc_page_frame p in map_user_page virt frame p'

unfoldable pub map_frames : (n virt : ℕ) → Paging → Paging
unfolding map_frame
map_frames zero virt p = p
map_frames (suc n) virt p = map_frames n (virt + page_size) (map_frame virt p)

abbrev pub set_byte : (a c : ℕ) → (ℕ → ℕ) → ℕ → ℕ
set_byte a c memory b = if b == a then c else memory b

unfoldable pub copy_binary : (dst : ℕ) → List ℕ → (ℕ → ℕ) → ℕ → ℕ
copy_binary dst [] memory = memory
copy_binary dst (c ∷ binary) memory = copy_binary (dst + 1) binary (set_byte dst c memory)

-- The loop with `bytes` rounds left at the address `ptr`.
unfoldable pub zero_region : (ptr bytes : ℕ) → (ℕ → ℕ) → ℕ → ℕ
zero_region ptr zero memory = memory
zero_region ptr (suc n) memory = zero_region (ptr + 1) n (set_byte ptr 0 memory)

-- The pages of the three programs and of the page that they share.
unfoldable pub user_pages : Paging → Paging
unfolding map_frame map_frames
user_pages p = map_frame 0xD0000000 (
    map_frames 12 0xC0000000 (
      map_frame 0x71000000 (
        map_frames 12 0x70000000
          (map_frame 0xF0000000 (map_frame 0xB0000000 (map_frame 0xA0000000 p))))))

unfoldable pub user_memory : Env → (ℕ → ℕ) → ℕ → ℕ
unfolding copy_binary zero_region
user_memory env memory = copy_binary 0xC0000000 env.user_shell_flat (
    zero_region 0xC0000000 49152 (
      copy_binary 0x70000000 env.user_editor_flat (
        zero_region 0x70000000 49152
          (zero_region 0xF0000000 4096 (copy_binary 0xA0000000 env.user_flat memory)))))

abbrev pub write_ports : List (ℕ × ℕ) → Kbd → Kbd
write_ports ws k = record k { ports = k.ports ++ ws }

-- `write_port(0x21, read_port(0x21) & ~0x01)`
abbrev pub unmask_timer : ℕ → Kbd → Kbd
unmask_timer mask k = write_port 0x21 (mask - mask % 2) k

unfoldable pub hardware_init : (mask : ℕ) → Kbd → Kbd
unfolding pit_writes kbd_init kbd_enable
hardware_init mask k =
    let k1 = write_ports pit_writes (write_ports pic_writes k) in
    kbd_enable (kbd_init (unmask_timer mask k1)).1

-- The static variables of the kernel before `kernel_main`; `mm` is unset.
abbrev pub kbd_start : Kbd
kbd_start = record {
  kbd_buf = replicate 256 0;
  kbd_buf_read = 0;
  kbd_buf_write = 0;
  shift_held = false;
  initialized = false;
  enabled = false;
  ports = [];
}

abbrev pub mm_start : Mm
mm_start = record {
  nodes = λ a. record { size = 0; used = 0; next = 0; prev = 0 };
  bytes = λ a. 0;
  dynamic_mem_start = 0;
}

abbrev pub vga13_start : (ℕ → ℕ) → Vga13
vga13_start pixels = record { fb = 0; fb_pitch = 0; fb_width = 0; fb_height = 0; pixels = pixels }

unfoldable pub init_vga13 : Framebuffer → Vga13 → Vga13
unfolding vga13_init
init_vga13 f v =
    if f.fb_phys_addr == 0 then v else vga13_init f.fb_phys_addr f.fb_pitch f.fb_width f.fb_height v

abbrev pub flags_of : Option Multiboot → ℕ
flags_of none = 0
flags_of (some mb) = mb.flags

abbrev pub messages : Option Multiboot → Framebuffer → List ℕ
messages mb f =
    boot_messages (flags_of mb / 4096 % 2) (flags_of mb) f.fb_phys_addr f.fb_width f.fb_height
      f.fb_pitch f.fb_bpp

unfoldable pub kernel_main : (fuel : ℕ) → Env → Option Machine
unfolding parse_framebuffer framebuffer_pages user_pages user_memory hardware_init init_vga13
kernel_main fuel env =
    let f = parse_framebuffer env.mb in
    let tables =
      init_paging
        (paging_alloc_init env.kernel_end (record { memory = env.words; next_free_page = 0 })) in
    let screen = clear_screen (record { vidptr = env.screen; current_loc = 0 }) in
    elim (framebuffer_pages fuel f tables) [
      | none ↦ none
      | some p ↦ elim (kprintf_all init_prints screen) [
        | none ↦ none
        | some v ↦ some (record {
          kernel = record {
            fs = fs_init;
            mm = init_dynamic_mem env.dynamic_mem_area mm_start;
            kbd = hardware_init env.mask kbd_start;
            vga = v;
            paging = user_pages p;
            memory = user_memory env env.bytes;
            user_heap_ptr = 0xE0000000;
            exit_requested = 0;
            jiffies = 0;
            user_entry = 0;
          };
          kgdt = gdt_init env.default_tss;
          idt = idt_init env.kbd_handler env.timer_handler env.syscall_handler env.idt;
          framebuffer = f;
          vga13 =
              vga13_put_pixel 10 10 0x00FFFFFF
                (vga13_clear 0x00FF0000 (init_vga13 f (vga13_start env.pixels)));
          serial = messages env.mb f;
        })
      ]
    ]
