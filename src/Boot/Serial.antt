-- ===== src/Boot/Serial.antt =====
-- kernel/kernel.c: what `kernel_main` sends to the serial port. The wait for the port is left out.
use shed_kernel.Prelude.{
  ℕ, zero, suc, ◌*◌, ◌/◌, ◌%◌, ◌^◌, List, [], ◌∷◌, ◌++◌, ◌==◌, if◌then◌else◌, codes,
}
use shed_kernel.Console.{u32_mod, digit}

-- The bytes that `serial_print` writes: a carriage return before each newline.
unfoldable pub serial_print : List ℕ → List ℕ
serial_print [] = []
serial_print (c ∷ s) = if c == 10 then 13 ∷ c ∷ serial_print s else c ∷ serial_print s

-- The loop of `serial_hex` over the lowest `n` digits, the highest first.
unfoldable pub hex_loop : (n val : ℕ) → List ℕ
unfolding digit
hex_loop zero val = []
hex_loop (suc n) val = digit (val / 16 ^ n % 16) ∷ hex_loop n val

unfoldable pub serial_hex : ℕ → List ℕ
unfolding serial_print hex_loop
serial_hex val = serial_print (codes "0x") ++ hex_loop 8 val

-- The messages about the framebuffer: whether it was described, the fields, and its mapping.
unfoldable pub field_messages : (described flags addr width height pitch bpp : ℕ) → List ℕ
unfolding serial_print serial_hex
field_messages described flags addr width height pitch bpp =
    (if described == 0
      then serial_print (codes "[3] no fb in multiboot (bit 12 not set)\n")
      else serial_print (codes "[3] fb fields parsed\n"))
    ++ serial_print (codes "[3] flags=")
    ++ serial_hex flags
    ++ serial_print (codes " fb_addr=")
    ++ serial_hex addr
    ++ serial_print (codes " w=")
    ++ serial_hex width
    ++ serial_print (codes " h=")
    ++ serial_hex height
    ++ serial_print (codes " pitch=")
    ++ serial_hex pitch
    ++ serial_print (codes " bpp=")
    ++ serial_hex bpp
    ++ serial_print (codes "\n")

unfoldable pub mapping_messages : (addr fb_size : ℕ) → List ℕ
unfolding serial_print serial_hex
mapping_messages addr fb_size =
    if addr == 0
    then serial_print (codes "[8] fb_phys_addr=0, skipping fb map\n")
    else serial_print (codes "[8] mapping framebuffer...\n")
      ++ serial_print (codes "    fb_size=")
      ++ serial_hex fb_size
      ++ serial_print (codes "\n")
      ++ serial_print (codes "[9] fb mapped, calling vga13_init\n")
      ++ serial_print (codes "[10] vga13_init done\n")

abbrev start_messages : List (List ℕ)
start_messages = codes "[1] kernel_main entered\n" ∷ codes "[2] mb ptr set\n" ∷ []

abbrev table_messages : List (List ℕ)
table_messages =
    codes "[4] clear_screen done\n"
    ∷ codes "[5] gdt_init done\n"
    ∷ codes "[6] paging_alloc_init done\n"
    ∷ codes "[7] init_paging done\n"
    ∷ []

abbrev later_messages : List (List ℕ)
later_messages =
    codes "[11] mapping user pages\n"
    ∷ codes "[12] user binary mapped\n"
    ∷ codes "[13] IPC page mapped\n"
    ∷ codes "[14] editor mapped\n"
    ∷ codes "[15] shell mapped\n"
    ∷ codes "[16] idt_init done\n"
    ∷ codes "[17] pit_init done\n"
    ∷ codes "[18] interrupts enabled\n"
    ∷ codes "[19] kbd init done\n"
    ∷ codes "[20] heap init done\n"
    ∷ codes "[21] fs init done\n"
    ∷ codes "[22] vga13_clear done\n"
    ∷ codes "[23] vga13_put_pixel done\n"
    ∷ []

unfoldable pub print_all : List (List ℕ) → List ℕ
unfolding serial_print
print_all [] = []
print_all (s ∷ rest) = serial_print s ++ print_all rest

-- Everything, in order, for the flags (0 without a structure) and the fields that were parsed.
unfoldable pub boot_messages : (described flags addr width height pitch bpp : ℕ) → List ℕ
unfolding print_all field_messages mapping_messages
boot_messages described flags addr width height pitch bpp =
    print_all start_messages
    ++ field_messages described flags addr width height pitch bpp
    ++ print_all table_messages
    ++ mapping_messages addr (pitch * height % u32_mod)
    ++ print_all later_messages
