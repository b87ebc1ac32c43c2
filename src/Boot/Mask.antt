-- ===== src/Boot/Mask.antt =====
-- kernel/kernel.c and drivers/kbd_driver.c: the interrupt mask after `kernel_main`.
use shed_kernel.Prelude.{
  arith, ℕ, Bool, true, false, ◌-◌, ◌++◌, ◌%◌, ◌/◌, ◌≡◌, refl, subst, Option, none, some, List, [],
  ◌∷◌, ◌==◌, if◌then◌else◌, Option-cases, inl, inr,
}
use shed_kernel.Console.{Vga, clear_screen}
use shed_kernel.Descriptors.{pit_writes}
use shed_kernel.Fs.Messages.{kprintf_all, init_prints}
use shed_kernel.Kbd.{Kbd, kbd_init, kbd_enable}
use shed_kernel.Paging.{Paging, paging_alloc_init, init_paging}
use shed_kernel.Boot.{
  Env, Machine, Framebuffer, parse_framebuffer, framebuffer_pages, unmask_timer, hardware_init,
  kbd_start, kernel_main,
}

-- The last byte that was written to a port, of a log of (port, byte) pairs.
abbrev pub last_written : (port byte : ℕ) → List (ℕ × ℕ) → ℕ
last_written port b [] = b
last_written port b ((p, c) ∷ ws) = last_written port (if p == port then c else b) ws

-- Bit 0 of the mask is the timer's, bit 1 the keyboard's; a bit that is set keeps the interrupt off.
abbrev pub timer_masked : ℕ → Bool
timer_masked mask = mask % 2 == 1

abbrev pub keyboard_masked : ℕ → Bool
keyboard_masked mask = mask / 2 % 2 == 1

hardware_init-mask : (mask : ℕ) → last_written 0x21 mask (hardware_init mask kbd_start).ports ≡ 0xFD
unfolding hardware_init kbd_init kbd_enable pit_writes
hardware_init-mask mask = refl

abbrev Masks : ℕ → Option Machine → Type 0
Masks mask none = Unit
Masks mask (some m) = last_written 0x21 mask m.kernel.kbd.ports ≡ 0xFD

kernel_main-Masks : (fuel : ℕ) (env : Env) → Masks env.mask (kernel_main fuel env)
unfolding kernel_main
kernel_main-Masks fuel env = elim (Option-cases (framebuffer_pages fuel f tables)) [
  | inl e ↦ rw (e, kernel_main) tt
  | inr (p, e) ↦ elim (Option-cases (kprintf_all init_prints screen)) [
    | inl e' ↦ rw (e, kernel_main) (rw (e', kernel_main) tt)
    | inr (v, e') ↦ rw (e, kernel_main) (rw (e', kernel_main) (hardware_init-mask env.mask))
  ]
]
  where
    f : Framebuffer
    f = parse_framebuffer env.mb

    tables : Paging
    tables =
        init_paging
          (paging_alloc_init env.kernel_end (record { memory = env.words; next_free_page = 0 }))

    screen : Vga
    screen = clear_screen (record { vidptr = env.screen; current_loc = 0 })

last_written-append :
    (port b p c : ℕ) (ws : List (ℕ × ℕ))
    → last_written port b (ws ++ ((p, c) ∷ [])) ≡ (if p == port then c else last_written port b ws)
last_written-append port b p c [] = refl
last_written-append port b p c ((q, d) ∷ ws) =
    last_written-append port (if q == port then d else b) p c ws

-- Whatever was written before, and whatever the mask register holds: after the unmasking.
mask-unmask_timer :
    (mask b : ℕ) (k : Kbd) → last_written 0x21 b (unmask_timer mask k).ports ≡ mask - mask % 2
mask-unmask_timer mask b k = last_written-append 0x21 b 0x21 (mask - mask % 2) k.ports

mask-kbd_init :
    (b : ℕ) (k : Kbd)
    → k.initialized ≡ false
    → last_written 0x21 b (kbd_enable (kbd_init k).1).ports ≡ 0xFD
unfolding kbd_init kbd_enable
mask-kbd_init b k first =
    rw (first, kbd_init, kbd_enable) (last_written-append 0x21 b 0x21 0xFD k.ports)

-- The step of `kernel_main` that unmasks the timer does so, whatever was written to the ports before,
-- and `kbd_init` behind it, on a driver that is not initialised, masks the timer again. So when
-- `kernel_main` has come to the shell, the interrupt of the timer is masked, and that of the keyboard is
-- not.
pub kernel_main-timer_masked :
    (fuel b : ℕ) (env : Env) {m : Machine} (k : Kbd)
    → k.initialized ≡ false
    → kernel_main fuel env ≡ some m
    → let unmasked = unmask_timer env.mask k in
      let mask = last_written 0x21 env.mask m.kernel.kbd.ports in
      (timer_masked (last_written 0x21 b unmasked.ports) ≡ false)
      × (timer_masked (last_written 0x21 b (kbd_enable (kbd_init unmasked).1).ports) ≡ true)
      × (timer_masked mask ≡ true)
      × (keyboard_masked mask ≡ false)
kernel_main-timer_masked fuel b env k first e =
    let mask = subst (Masks env.mask) e (kernel_main-Masks fuel env) in
    (
      rw (mask-unmask_timer env.mask b k) (ground arith),
      rw (mask-kbd_init b (unmask_timer env.mask k) first) refl,
      rw mask refl,
      rw mask refl,
    )
