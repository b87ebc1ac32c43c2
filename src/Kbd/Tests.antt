-- ===== src/Kbd/Tests.antt =====
-- The keyboard driver's theorems at concrete inputs, and tests.
use shed_kernel.Prelude.{◌≡◌, refl, true, false, none, some, List, [], ◌∷◌, arith, replicate}
use shed_kernel.Kbd.{Kbd, kbd_push, kbd_getchar, kbd_handler_main, kbd_read, handle_keycode}
use shed_kernel.Kbd.Map.{keyboard_map, keyboard_map_shift}
use shed_kernel.Kbd.Queue.{IsRing}
use shed_kernel.Kbd.Session.{Event, irq, get, run, run_view, run-run_view}

abbrev start : Kbd
start = record {
  kbd_buf = replicate 256 0;
  kbd_buf_read = 255;
  kbd_buf_write = 255;
  shift_held = false;
  initialized = true;
  enabled = true;
  ports = [];
}

start-IsRing : IsRing start
start-IsRing = omega arith

-- Shift down, `a`, shift up, `a`, arrow up, and four reads.
abbrev keys : List Event
keys =
    irq 1 0x2A
    ∷ irq 1 30
    ∷ irq 1 0xAA
    ∷ irq 1 30
    ∷ irq 0 30
    ∷ irq 1 0x48
    ∷ get
    ∷ get
    ∷ get
    ∷ get
    ∷ []

keys_typed : run keys start ≡ some b'A' ∷ some b'a' ∷ some 1000 ∷ none ∷ []
unfolding run kbd_handler_main kbd_getchar kbd_push kbd_read handle_keycode keyboard_map
    keyboard_map_shift
keys_typed = refl

run-run_view_example : run keys start ≡ run_view true keys (false, [])
run-run_view_example = run-run_view keys (omega arith) start-IsRing
