-- ===== src/Descriptors.antt =====
-- kernel/kernel.c: the global and the interrupt descriptor table, and the interrupt controllers.
--
-- The addresses of the handlers, of `default_tss` and of `IDT` are parameters. Of `default_tss` the
-- fields that `gdt_init` sets are there. A descriptor's bytes are those that it has in memory, the
-- lowest first; `lim16_19` and `other` share one, `lim16_19` in its low half.
pub mod Bytes
mod Tests
use shed_kernel.Prelude.{ℕ, ◌+◌, ◌-◌, ◌*◌, ◌/◌, ◌%◌, ◌∷◌, List, [], ◌==◌, if◌then◌else◌}

abbrev pub u32_mod : ℕ
u32_mod = 4294967296

abbrev pub gdt_base : ℕ
gdt_base = 0x800

abbrev pub kernel_code_segment_offset : ℕ
kernel_code_segment_offset = 0x08

abbrev pub interrupt_gate : ℕ
interrupt_gate = 0x8E

abbrev pub idt_size : ℕ
idt_size = 256

pub record GdtEntry : Type 0 where
  pub lim0_15 : ℕ
  pub base0_15 : ℕ
  pub base16_23 : ℕ
  pub acces : ℕ
  pub lim16_19 : ℕ
  pub other : ℕ
  pub base24_31 : ℕ

pub record IdtEntry : Type 0 where
  pub offset_lowerbits : ℕ
  pub selector : ℕ
  pub zero_byte : ℕ
  pub type_attr : ℕ
  pub offset_higherbits : ℕ

pub record Tss : Type 0 where
  pub io_map : ℕ
  pub esp0 : ℕ
  pub ss0 : ℕ

unfoldable pub init_gdt_descriptor : (base limite acces other : ℕ) → GdtEntry
init_gdt_descriptor base limite acces other = record {
  lim0_15 = limite % 65536;
  base0_15 = base % 65536;
  base16_23 = base % 16777216 / 65536;
  acces = acces;
  lim16_19 = limite % 1048576 / 65536;
  other = other % 16;
  base24_31 = base / 16777216;
}

abbrev pub gdt_tss : Tss
gdt_tss = record { io_map = 0; esp0 = 0x1FFF0; ss0 = 0x10 }

-- The table that `gdt_init` fills and copies to `gdt_base`.
unfoldable pub gdt_init : (default_tss : ℕ) → List GdtEntry
unfolding init_gdt_descriptor
gdt_init default_tss =
    init_gdt_descriptor 0 0 0x00 0x00
    ∷ init_gdt_descriptor 0 0xFFFFF 0x9B 0x0D
    ∷ init_gdt_descriptor 0 0xFFFFF 0x93 0x0D
    ∷ init_gdt_descriptor 0 0 0x97 0x0D
    ∷ init_gdt_descriptor 0 0xFFFFF 0xFF 0x0D
    ∷ init_gdt_descriptor 0 0xFFFFF 0xF3 0x0D
    ∷ init_gdt_descriptor 0 0xFFFFF 0xF7 0x0D
    ∷ init_gdt_descriptor default_tss 0x67 0xE9 0x00
    ∷ []

-- `kgdtr`: the limit and the base.
abbrev pub gdt_register : ℕ × ℕ
gdt_register = (8 * 8 - 1, gdt_base)

-- An entry of `IDT` for the handler at an address.
unfoldable pub gate : (address attr : ℕ) → IdtEntry
gate address attr = record {
  offset_lowerbits = address % 65536;
  selector = kernel_code_segment_offset;
  zero_byte = 0;
  type_attr = attr;
  offset_higherbits = address / 65536;
}

-- The table after `idt_init`; `idt` is the table before it.
unfoldable pub idt_init :
    (keyboard_address timer_address syscall_address : ℕ) (idt : ℕ → IdtEntry) → ℕ → IdtEntry
unfolding gate
idt_init keyboard_address timer_address syscall_address idt n =
    if n == 0x80
    then gate syscall_address 0xEF
    else if n == 0x20
    then gate timer_address interrupt_gate
    else if n == 0x21
    then gate keyboard_address interrupt_gate
    else idt n

-- The two words for `lidt`.
unfoldable pub idt_ptr : (idt_address : ℕ) → ℕ × ℕ
idt_ptr idt_address = ((8 * idt_size + idt_address % 65536 * 65536) % u32_mod, idt_address / 65536)

-- What `idt_init` writes to the ports of the two interrupt controllers.
abbrev pub pic_writes : List (ℕ × ℕ)
pic_writes =
    (0x20, 0x11)
    ∷ (0xA0, 0x11)
    ∷ (0x21, 0x20)
    ∷ (0xA1, 0x28)
    ∷ (0x21, 0x04)
    ∷ (0xA1, 0x02)
    ∷ (0x21, 0x01)
    ∷ (0xA1, 0x01)
    ∷ (0x21, 0xFC)
    ∷ (0xA1, 0xFE)
    ∷ []

-- What `pit_init` writes to the ports of the timer.
unfoldable pub pit_writes : List (ℕ × ℕ)
pit_writes =
    let divisor : ℕ = 1193180 / 100 % 65536 in
    (0x43, 0x36) ∷ (0x40, divisor % 256) ∷ (0x40, divisor / 256) ∷ []

-- The bytes of an entry in memory.
unfoldable pub gdt_bytes : GdtEntry → List ℕ
gdt_bytes e =
    (e.lim0_15 % 256)
    ∷ (e.lim0_15 / 256)
    ∷ (e.base0_15 % 256)
    ∷ (e.base0_15 / 256)
    ∷ e.base16_23
    ∷ e.acces
    ∷ (e.other * 16 + e.lim16_19)
    ∷ e.base24_31
    ∷ []
