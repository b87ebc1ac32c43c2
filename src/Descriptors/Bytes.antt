-- ===== src/Descriptors/Bytes.antt =====
-- kernel/kernel.c: the descriptors as the processor reads them.
use shed_kernel.Prelude.{ℕ, ◌+◌, ◌*◌, ◌/◌, ◌%◌, ◌<◌, ◌≡◌, refl, List, arith, get_or}
use shed_kernel.Descriptors.{IdtEntry, init_gdt_descriptor, gdt_bytes, gate, idt_init, idt_ptr}

-- The base, the limit, the access byte and the flags of the descriptor in eight bytes.
pub record Segment : Type 0 where
  pub base : ℕ
  pub limit : ℕ
  pub access : ℕ
  pub flags : ℕ

abbrev pub byte : List ℕ → ℕ → ℕ
byte bs i = get_or bs i 0

abbrev pub segment : List ℕ → Segment
segment bs = record {
  base = byte bs 2 + 256 * byte bs 3 + 65536 * byte bs 4 + 16777216 * byte bs 7;
  limit = byte bs 0 + 256 * byte bs 1 + 65536 * (byte bs 6 % 16);
  access = byte bs 5;
  flags = byte bs 6 / 16;
}

-- The processor reads back from the bytes of a descriptor the base, the limit, the access byte and
-- the flags for which it was made, if the base is a 32-bit number, the limit one of 20 bits, and the
-- flags one of 4 bits.
pub segment-init_gdt_descriptor :
    (base limite acces other : ℕ)
    → base < 4294967296
    → limite < 1048576
    → other < 16
    → let s = segment (gdt_bytes (init_gdt_descriptor base limite acces other)) in
      (s.base ≡ base) × (s.limit ≡ limite) × (s.access ≡ acces) × (s.flags ≡ other)
unfolding gdt_bytes init_gdt_descriptor
segment-init_gdt_descriptor base limite acces other small limited four =
    (omega arith, omega arith, refl, omega arith)

-- The address of the handler to which a gate leads.
abbrev pub gate_target : IdtEntry → ℕ
gate_target e = e.offset_lowerbits + 65536 * e.offset_higherbits

-- The table at the words for `lidt`: the limit in the low 16 bits, then the base.
abbrev pub table_limit : ℕ × ℕ → ℕ
table_limit (w0, w1) = w0 % 65536

abbrev pub table_base : ℕ × ℕ → ℕ
table_base (w0, w1) = w0 / 65536 + 65536 * (w1 % 65536)

-- After `idt_init` the interrupts 0x20, 0x21 and 0x80 lead to the timer's, the keyboard's and the
-- system call's handler, if the addresses are 32-bit numbers; the words for `lidt` hold the address
-- of the table, and as its limit 2048, the size of the table and not the offset of its last byte.
pub gate_target-idt_init :
    (keyboard timer syscall table : ℕ) (idt : ℕ → IdtEntry)
    → keyboard < 4294967296
    → timer < 4294967296
    → syscall < 4294967296
    → table < 4294967296
    → let idt' = idt_init keyboard timer syscall idt in
      (gate_target (idt' 0x20) ≡ timer)
      × (gate_target (idt' 0x21) ≡ keyboard)
      × (gate_target (idt' 0x80) ≡ syscall)
      × (table_base (idt_ptr table) ≡ table)
      × (table_limit (idt_ptr table) ≡ 2048)
unfolding idt_init gate idt_ptr
gate_target-idt_init keyboard timer syscall table idt hk ht hs hp =
    (omega arith, omega arith, omega arith, omega arith, omega arith)
