-- ===== src/Vga13/Pixels.antt =====
-- drivers/vga13.c: which pixels the operations set.
use native.Mathlib.Nat.{mul-le-mul_right, mul_comm, suc-mul}
use shed_kernel.Prelude.{
  ℕ, zero, suc, ◌+◌, ◌*◌, ◌/◌, ◌%◌, ◌<◌, ◌≡◌, refl, ap, ◌∙◌, ◌&&◌, ltb, leb, ◌==◌, if◌then◌else◌,
  arith,
}
use shed_kernel.Vga13.{Vga13, set_pixel, pixels_per_row, clear_loop, vga13_put_pixel, vga13_clear}

clear_loop-pixels :
    (n i colour : ℕ) (v : Vga13) (j : ℕ)
    → (clear_loop n i colour v).pixels j ≡ (if leb i j && ltb j (i + n) then colour else v.pixels j)
unfolding clear_loop
clear_loop-pixels zero i colour v j = ground arith
clear_loop-pixels (suc n) i colour v j =
    ground (arith, clear_loop-pixels n (i + 1) colour (set_pixel i colour v) j)

-- Pixels that are in the rows lie at different indices.
module _ (w x x' : ℕ) (in_row : x < w) (in_row' : x' < w) where
  row_apart : (y y' : ℕ) → y < y' → y * w + x < y' * w + x'
  row_apart y y' h = omega (arith, suc-mul y w, mul-le-mul_right {m = suc y} {n = y'} w h)

  index-eq_iff : (y y' : ℕ) → ((y * w + x) == (y' * w + x')) ≡ ((x == x') && (y == y'))
  index-eq_iff y y' = ground (arith, row_apart y y', row_apart' y' y)
    where
      row_apart' : (y y' : ℕ) → y < y' → y * w + x' < y' * w + x
      row_apart' y y' h = omega (arith, suc-mul y w, mul-le-mul_right {m = suc y} {n = y'} w h)

-- The pixel in column `x` of row `y`.
abbrev pub pixel : (x y : ℕ) → Vga13 → ℕ
pixel x y v = v.pixels (y * pixels_per_row v + x)

index_inside : (w h x y : ℕ) → w * h < 4294967296 → x < w → y < h → y * w + x < w * h
index_inside w h x y small hx hy =
    omega (arith, suc-mul y w, mul-le-mul_right {m = suc y} {n = h} w hy, mul_comm h w)

pixel-put_pixel :
    (v : Vga13) (w x y x' y' d : ℕ)
    → pixels_per_row v ≡ w
    → y * w + x < 4294967296
    → x < w
    → x' < w
    → pixel x' y' (vga13_put_pixel x y d v)
      ≡ (if (x' == x) && (y' == y) then d else v.pixels (y' * w + x'))
unfolding vga13_put_pixel
pixel-put_pixel v w x y x' y' d e small hx hx' =
    let wrap : (y * w + x) % 4294967296 ≡ y * w + x = omega arith in
    rw e (rw wrap (rw (index-eq_iff w x' x hx' hx y' y) refl))

clear_loop-pitch : (n i colour : ℕ) (v : Vga13) → (clear_loop n i colour v).fb_pitch ≡ v.fb_pitch
unfolding clear_loop
clear_loop-pitch zero i colour v = refl
clear_loop-pitch (suc n) i colour v = clear_loop-pitch n (i + 1) colour (set_pixel i colour v)

vga13_clear-pixels :
    (v : Vga13) (c i : ℕ)
    → pixels_per_row v * v.fb_height < 4294967296
    → i < pixels_per_row v * v.fb_height
    → (vga13_clear c v).pixels i ≡ c
unfolding vga13_clear
vga13_clear-pixels v c i small h =
    ground (arith, clear_loop-pixels (pixels_per_row v * v.fb_height % 4294967296) 0 c v i)

pitch-vga13_clear : (v : Vga13) (c : ℕ) → pixels_per_row (vga13_clear c v) ≡ pixels_per_row v
unfolding vga13_clear
pitch-vga13_clear v c =
    ap (λ k. k / 4) (clear_loop-pitch (pixels_per_row v * v.fb_height % 4294967296) 0 c v)

-- After the framebuffer, of fewer than 2^32 pixels, has been cleared with one colour and one of its
-- pixels set to another, each pixel of it has the first colour, except the one that was set.
pub pixel-put_pixel-clear :
    (v : Vga13) (c d x y x' y' : ℕ)
    → pixels_per_row v * v.fb_height < 4294967296
    → x < pixels_per_row v
    → x' < pixels_per_row v
    → y < v.fb_height
    → y' < v.fb_height
    → pixel x' y' (vga13_put_pixel x y d (vga13_clear c v))
      ≡ (if (x' == x) && (y' == y) then d else c)
pixel-put_pixel-clear v c d x y x' y' small hx hx' hy hy' =
    let w = pixels_per_row v in
    let inside = index_inside w v.fb_height x y small hx hy in
    pixel-put_pixel (vga13_clear c v) w x y x' y' d (pitch-vga13_clear v c) (omega arith) hx hx'
    ∙ ap (λ k. if (x' == x) && (y' == y) then d else k)
        (vga13_clear-pixels v c (y' * w + x') small
          (index_inside w v.fb_height x' y' small hx' hy'))
