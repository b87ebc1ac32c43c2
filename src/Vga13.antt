-- ===== src/Vga13.antt =====
-- drivers/vga13.c: the linear framebuffer.
--
-- `pixels` holds the 32-bit word at each index from `fb` on. The colour and the position are 32-bit
-- patterns.
pub mod Pixels
mod Tests
use shed_kernel.Prelude.{ℕ, zero, suc, ◌+◌, ◌*◌, ◌/◌, ◌%◌, ◌==◌, if◌then◌else◌}

abbrev pub u32_mod : ℕ
u32_mod = 4294967296

pub record Vga13 : Type 0 where
  pub fb : ℕ
  pub fb_pitch : ℕ
  pub fb_width : ℕ
  pub fb_height : ℕ
  pub pixels : ℕ → ℕ

abbrev pub set_pixel : (i colour : ℕ) → Vga13 → Vga13
set_pixel i colour v = record v { pixels = λ j. if j == i then colour else v.pixels j }

unfoldable pub vga13_init : (phys_addr pitch width height : ℕ) → Vga13 → Vga13
vga13_init phys_addr pitch width height v = record v {
  fb = phys_addr;
  fb_pitch = pitch;
  fb_width = width;
  fb_height = height;
}

abbrev pub pixels_per_row : Vga13 → ℕ
pixels_per_row v = v.fb_pitch / 4

unfoldable pub vga13_put_pixel : (x y colour : ℕ) → Vga13 → Vga13
vga13_put_pixel x y colour v = set_pixel ((y * pixels_per_row v + x) % u32_mod) colour v

-- The loop of `vga13_clear`, with `n` rounds left at index `i`.
unfoldable pub clear_loop : (n i colour : ℕ) → Vga13 → Vga13
clear_loop zero i colour v = v
clear_loop (suc n) i colour v = clear_loop n (i + 1) colour (set_pixel i colour v)

unfoldable pub vga13_clear : (colour : ℕ) → Vga13 → Vga13
unfolding clear_loop
vga13_clear colour v =
    let total_pixels = pixels_per_row v * v.fb_height % u32_mod in
    clear_loop total_pixels 0 colour v
