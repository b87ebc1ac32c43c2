-- ===== src/Vga13/Tests.antt =====
-- drivers/vga13.c: a framebuffer of four by two pixels.
use shed_kernel.Prelude.{◌≡◌, arith}
use shed_kernel.Vga13.{Vga13, vga13_put_pixel, vga13_clear}
use shed_kernel.Vga13.Pixels.{pixel, pixel-put_pixel-clear}

abbrev small : Vga13
small = record { fb = 4096; fb_pitch = 16; fb_width = 4; fb_height = 2; pixels = λ i. 0 }

pixel-put_pixel-clear_example :
    pixel 3 1 (vga13_put_pixel 2 1 0xFFFFFF (vga13_clear 0xFF0000 small)) ≡ 0xFF0000
pixel-put_pixel-clear_example =
    pixel-put_pixel-clear small 0xFF0000 0xFFFFFF 2 1 3 1 (omega arith) (omega arith) (omega arith)
      (omega arith) (omega arith)
