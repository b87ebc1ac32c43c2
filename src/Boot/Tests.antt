-- ===== src/Boot/Tests.antt =====
-- kernel/kernel.c: `kernel_main` without a framebuffer.
use shed_kernel.Prelude.{◌≡◌, refl, true, false, none, some, [], ◌∷◌, arith, some_of_is_some}
use shed_kernel.Descriptors.{IdtEntry}
use shed_kernel.Kbd.{kbd_init, kbd_enable}
use shed_kernel.Boot.{Env, Machine, unmask_timer, kbd_start, parse_framebuffer, kernel_main}
use shed_kernel.Boot.Ready.{kernel_main-returns}
use shed_kernel.Boot.Mask.{last_written, timer_masked, keyboard_masked, kernel_main-timer_masked}

abbrev no_gate : IdtEntry
no_gate = record {
  offset_lowerbits = 0;
  selector = 0;
  zero_byte = 0;
  type_attr = 0;
  offset_higherbits = 0;
}

abbrev plain : Env
plain = record {
  mb = none;
  kernel_end = 2000000;
  dynamic_mem_area = 1200000;
  default_tss = 1100000;
  kbd_handler = 1048600;
  timer_handler = 1048700;
  syscall_handler = 1048800;
  user_flat = 144 ∷ [];
  user_editor_flat = 144 ∷ [];
  user_shell_flat = 144 ∷ [];
  mask = 0xFC;
  screen = λ a. 0;
  words = λ a. 0;
  bytes = λ a. 0;
  pixels = λ a. 0;
  idt = λ n. no_gate;
}

plain_boots : (m : Machine) × (kernel_main 1 plain ≡ some m)
unfolding parse_framebuffer
plain_boots =
    some_of_is_some (kernel_main 1 plain) (kernel_main-returns 0 plain (omega arith) (omega arith))

kernel_main-timer_masked_example :
    (timer_masked (last_written 0x21 0xFF (unmask_timer 0xFC kbd_start).ports) ≡ false)
    × (timer_masked
          (last_written 0x21 0xFF (kbd_enable (kbd_init (unmask_timer 0xFC kbd_start)).1).ports)
        ≡ true)
    × (timer_masked (last_written 0x21 0xFC plain_boots.0.kernel.kbd.ports) ≡ true)
    × (keyboard_masked (last_written 0x21 0xFC plain_boots.0.kernel.kbd.ports) ≡ false)
kernel_main-timer_masked_example =
    kernel_main-timer_masked 1 0xFF plain kbd_start refl plain_boots.1
