-- ===== src/Descriptors/Tests.antt =====
-- kernel/kernel.c: the descriptor tables at concrete addresses.
use shed_kernel.Prelude.{◌≡◌, refl, arith, ◌∷◌, []}
use shed_kernel.Descriptors.{
  IdtEntry, init_gdt_descriptor, gdt_bytes, idt_init, idt_ptr, pit_writes,
}
use shed_kernel.Descriptors.Bytes.{
  segment, gate_target, table_base, table_limit, segment-init_gdt_descriptor, gate_target-idt_init,
}

segment-init_gdt_descriptor_example :
    ((segment (gdt_bytes (init_gdt_descriptor 0x123456 0xFFFFF 0x9B 0x0D))).base ≡ 0x123456)
    × ((segment (gdt_bytes (init_gdt_descriptor 0x123456 0xFFFFF 0x9B 0x0D))).limit ≡ 0xFFFFF)
    × ((segment (gdt_bytes (init_gdt_descriptor 0x123456 0xFFFFF 0x9B 0x0D))).access ≡ 0x9B)
    × ((segment (gdt_bytes (init_gdt_descriptor 0x123456 0xFFFFF 0x9B 0x0D))).flags ≡ 0x0D)
segment-init_gdt_descriptor_example =
    segment-init_gdt_descriptor 0x123456 0xFFFFF 0x9B 0x0D (omega arith) (omega arith) (omega arith)

abbrev no_gate : IdtEntry
no_gate = record {
  offset_lowerbits = 0;
  selector = 0;
  zero_byte = 0;
  type_attr = 0;
  offset_higherbits = 0;
}

gate_target-idt_init_example :
    (gate_target (idt_init 0x101000 0x102000 0x103000 (λ n. no_gate) 0x20) ≡ 0x102000)
    × (gate_target (idt_init 0x101000 0x102000 0x103000 (λ n. no_gate) 0x21) ≡ 0x101000)
    × (gate_target (idt_init 0x101000 0x102000 0x103000 (λ n. no_gate) 0x80) ≡ 0x103000)
    × (table_base (idt_ptr 0x104000) ≡ 0x104000)
    × (table_limit (idt_ptr 0x104000) ≡ 2048)
gate_target-idt_init_example =
    gate_target-idt_init 0x101000 0x102000 0x103000 0x104000 (λ n. no_gate) (omega arith)
      (omega arith) (omega arith) (omega arith)

-- 100 ticks in a second, of 11931 periods.
pit_divisor : pit_writes ≡ (0x43, 0x36) ∷ (0x40, 0x9B) ∷ (0x40, 0x2E) ∷ []
unfolding pit_writes
pit_divisor = refl
