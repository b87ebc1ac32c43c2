-- ===== src/Kbd/Session.antt =====
-- The whole driver over time: interrupts and reads in any order.
use Prim.Native.Nat.{bit_and}
use shed_kernel.Prelude.{
  ℕ, ◌%◌, ◌<◌, ◌≡◌, refl, Bool, true, ◌&&◌, Option, none, some, List, [], ◌∷◌, arith, ◌==◌,
  if◌then◌else◌, all_below, all_below-eq_true, Option-cases, inl, inr, All,
}
use shed_kernel.Kbd.{Kbd, kbd_getchar, kbd_handler_main, kbd_read, write_port}
use shed_kernel.Kbd.Queue.{
  IsRing, waiting, enqueue, dequeue, kbd_push-IsRing, kbd_push-enqueue, kbd_getchar-dequeue,
  kbd_getchar-IsRing, flags-kbd_push, flags-kbd_getchar,
}
use shed_kernel.Kbd.Handler.{typed, decode, handle_keycode-typed}

-- What the driver promises: a shift state and a bounded queue.
abbrev pub View : Type 0
View = Bool × List ℕ

abbrev pub view : Kbd → View
view k = (k.shift_held, waiting k)

abbrev key_press : Bool × ℕ → List ℕ → View
key_press (shift, c) q = (shift, if c == 0 then q else enqueue c q)

-- An interrupt counts if the driver is enabled and the status byte is odd.
unfoldable pub interrupt : (enabled : Bool) (status byte : ℕ) → View → View
interrupt enabled status byte (shift, q) =
    if enabled && (status % 2 == 1) then key_press (decode shift byte) q else (shift, q)

status_agrees : ℕ → Bool
status_agrees s = if bit_and s 0x01 == 0 then s % 2 == 0 else s % 2 == 1

status_table : all_below 256 status_agrees ≡ true
unfolding status_agrees
status_table = refl

bit_and-status : (s : ℕ) → s < 256 → status_agrees s ≡ true
bit_and-status s h = all_below-eq_true 256 status_agrees s status_table h

typed-IsRing : (c : ℕ) {k : Kbd} → IsRing k → IsRing (typed c k)
typed-IsRing c {k} v = ground (arith, kbd_push-IsRing c v)

view-typed :
    (c : ℕ) {k : Kbd} → IsRing k → view (typed c k) ≡ key_press (k.shift_held, c) (waiting k)
view-typed c {k} v = ground (arith, kbd_push-enqueue c v, flags-kbd_push c k)

pub kbd_handler_main-IsRing :
    (status byte : ℕ) {k : Kbd} → byte < 256 → IsRing k → IsRing (kbd_handler_main status byte k)
unfolding kbd_handler_main kbd_read
kbd_handler_main-IsRing status byte {k} h v = ground (
  arith,
  handle_keycode-typed byte (write_port 0x20 0x20 k) h,
  typed-IsRing (decode k.shift_held byte).1
      {k = record (write_port 0x20 0x20 k) { shift_held = (decode k.shift_held byte).0 }},
)

-- On a valid ring and with byte-sized port values, the interrupt handler does to the shift state and
-- to the waiting codes what `interrupt` says: nothing while the driver is disabled or no byte is
-- there, and otherwise what the decoded scancode does to the queue.
pub kbd_handler_main-interrupt :
    (status byte : ℕ) {k : Kbd}
    → status < 256
    → byte < 256
    → IsRing k
    → view (kbd_handler_main status byte k) ≡ interrupt k.enabled status byte (view k)
unfolding kbd_handler_main kbd_read interrupt status_agrees
kbd_handler_main-interrupt status byte {k} hs hb v = ground (
  arith,
  bit_and-status status hs,
  handle_keycode-typed byte (write_port 0x20 0x20 k) hb,
  view-typed (decode k.shift_held byte).1
      {k = record (write_port 0x20 0x20 k) { shift_held = (decode k.shift_held byte).0 }},
)

-- An interrupt with the bytes that the two ports then hold, or a call of `kbd_getchar`.
pub data Event : Type 0 where
  irq : (status byte : ℕ) → Event
  get : Event

abbrev IsByteEvent : Event → Type 0
IsByteEvent (irq status byte) = (status < 256) × (byte < 256)
IsByteEvent get = Unit

-- What each call of `kbd_getchar` returned, in order; `none` where it found nothing to return.
unfoldable pub run : List Event → Kbd → List (Option ℕ)
run [] k = []
run (irq status byte ∷ es) k = run es (kbd_handler_main status byte k)
run (get ∷ es) k = elim (kbd_getchar k) [
  | none ↦ none ∷ run es k
  | some (c, k') ↦ some c ∷ run es k'
]

unfoldable pub run_view : Bool → List Event → View → List (Option ℕ)
run_view enabled [] v = []
run_view enabled (irq status byte ∷ es) v = run_view enabled es (interrupt enabled status byte v)
run_view enabled (get ∷ es) (shift, q) = elim (dequeue q) [
  | none ↦ none ∷ run_view enabled es (shift, q)
  | some (c, q') ↦ some c ∷ run_view enabled es (shift, q')
]

enabled-kbd_handler_main :
    (status byte : ℕ) (k : Kbd) → byte < 256 → (kbd_handler_main status byte k).enabled ≡ k.enabled
unfolding kbd_handler_main kbd_read
enabled-kbd_handler_main status byte k h = ground (
  arith,
  handle_keycode-typed byte (write_port 0x20 0x20 k) h,
  flags-kbd_push (decode k.shift_held byte).1
      (record (write_port 0x20 0x20 k) { shift_held = (decode k.shift_held byte).0 }),
)

-- For a valid ring and any sequence of interrupts, with byte-sized port values, and reads, the reads
-- return what they return from a queue of at most 255 codes to which the interrupts append the
-- decoded codes while the driver is enabled, in order, dropping what does not fit.
pub run-run_view :
    (es : List Event) {k : Kbd}
    → All IsByteEvent es
    → IsRing k
    → run es k ≡ run_view k.enabled es (view k)
unfolding run run_view
run-run_view [] h v = refl
run-run_view (irq status byte ∷ es) {k} (h, hs) v = ground (
  arith,
  run-run_view es {k = kbd_handler_main status byte k} hs
      (kbd_handler_main-IsRing status byte h.1 v),
  enabled-kbd_handler_main status byte k h.1,
  kbd_handler_main-interrupt status byte h.0 h.1 v,
)
run-run_view (get ∷ es) {k} (h, hs) v = elim (Option-cases (kbd_getchar k)) [
  | inl e ↦ ground (arith, e, kbd_getchar-dequeue v, run-run_view es hs v)
  | inr ((c, k'), e) ↦ ground (
    arith,
    e,
    kbd_getchar-dequeue v,
    flags-kbd_getchar k c k' e,
    run-run_view es hs (kbd_getchar-IsRing k c k' v e),
  )
]
