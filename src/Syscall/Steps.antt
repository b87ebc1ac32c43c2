-- ===== src/Syscall/Steps.antt =====
-- kernel/kernel.c: the kernel over time, system calls and interrupts in any order.
use shed_kernel.Prelude.{
  ℕ, ◌%◌, ◌<◌, ◌≤◌, ◌≡◌, refl, ap, ◌∙◌, subst, true, none, some, List, [], ◌∷◌, ◌++◌, arith, ◌≢◌,
  Bool-cases, inl, inr, Option, length, ◌==◌,
}
use shed_kernel.Kbd.{Kbd, kbd_handler_main, kbd_getchar, write_port}
use shed_kernel.Kbd.Queue.{IsRing, waiting, dequeue, got, enqueue, kbd_getchar-dequeue}
use shed_kernel.Kbd.Handler.{decode}
use shed_kernel.Kbd.Session.{kbd_handler_main-IsRing, kbd_handler_main-interrupt, interrupt}
use shed_kernel.Syscall.{Kernel, getchar, run_call, decode_call, syscall_dispatch, timer_callback}
use shed_kernel.Syscall.Keep.{IsKernel, IsPolite, Keeps, kept, run_call-Keeps}

-- A system call that returns and has printed within the 32 KB of the screen's memory, an interrupt
-- of the keyboard with the bytes that its ports hold, or a tick of the timer.
pub data Step (area : ℕ) : Kernel → Kernel → Type 0 where
  call :
      {k k' : Kernel} (fuel n a b c r : ℕ)
      → IsPolite area (decode_call n a b c) k
      → syscall_dispatch fuel n a b c k ≡ some (r, k')
      → k'.vga.current_loc ≤ 0x8000
      → Step area k k'
  key :
      (k : Kernel) (status byte : ℕ)
      → byte < 256
      → Step area k (record k { kbd = kbd_handler_main status byte k.kbd })
  tick : (k : Kernel) → Step area k (timer_callback k)

pub data Reach (area : ℕ) (k : Kernel) : Kernel → Type 0 where
  here : Reach area k k
  next : {l m : Kernel} → Reach area k l → Step area l m → Reach area k m

IsRing-write_port : (port byte : ℕ) {k : Kbd} → IsRing k → IsRing (write_port port byte k)
IsRing-write_port port byte v = record {
  buf_size = v.buf_size;
  read_in = v.read_in;
  write_in = v.write_in;
}

Step-IsKernel : {area : ℕ} {k k' : Kernel} → Step area k k' → IsKernel area k → IsKernel area k'
unfolding syscall_dispatch timer_callback
Step-IsKernel {area} {k} (call fuel n a b c r polite e room) w =
    subst (Keeps area) e (run_call-Keeps w fuel (decode_call n a b c) polite)
Step-IsKernel (key k status byte h) w =
    kept w.blocks w.files (kbd_handler_main-IsRing status byte h w.keys) w.heap w.cursor w.frames
Step-IsKernel (tick k) w =
    kept w.blocks w.files (IsRing-write_port 0x20 0x20 w.keys) w.heap w.cursor w.frames

-- From a well-formed kernel, any sequence of system calls that return, keyboard interrupts and
-- timer ticks leads to a well-formed kernel: file system, key ring, heap, cursor and next page
-- frame, if the calls read and write files with buffers in the address space, those of read from 8
-- MB on, write characters only on the screen, leave the cursor within the first 32 KB of the
-- screen's memory, free only NULL or the payload of a block of the heap and allocate 32-bit sizes.
pub Reach-IsKernel :
    {area : ℕ} {k k' : Kernel} → Reach area k k' → IsKernel area k → IsKernel area k'
Reach-IsKernel here w = w
Reach-IsKernel (next r s) w = Step-IsKernel s (Reach-IsKernel r w)

-- The first of the codes, or another one if there is none.
abbrev pub oldest : ℕ → List ℕ → ℕ
oldest c [] = c
oldest c (x ∷ q) = x

dequeue-enqueue :
    (c : ℕ) (q : List ℕ) → (rest : List ℕ) × (dequeue (enqueue c q) ≡ some (oldest c q, rest))
unfolding dequeue enqueue
dequeue-enqueue c [] = ([], refl)
dequeue-enqueue c (x ∷ q) = elim (Bool-cases (length (x ∷ q) == 255)) [
  | inl full ↦ (q, rw (full, dequeue) refl)
  | inr room ↦ (q ++ (c ∷ []), rw (room, dequeue) refl)
]

kbd_getchar_of_got :
    (k : Kbd) (o : Option (ℕ × Kbd)) (c : ℕ) (q : List ℕ)
    → got k o ≡ some (c, q)
    → (k' : Kbd) × (o ≡ some (c, k'))
kbd_getchar_of_got k none c q e = absurd (ground (arith, e))
kbd_getchar_of_got k (some (d, k')) c q e =
    (k', ap (λ x. some (x, k')) (ap (λ o. elim o [ none ↦ d | some x ↦ x.0 ]) e))

waiting-key :
    {k : Kbd} (status byte : ℕ)
    → IsRing k
    → k.enabled ≡ true
    → status < 256
    → status % 2 ≡ 1
    → byte < 256
    → (decode k.shift_held byte).1 ≢ 0
    → waiting (kbd_handler_main status byte k) ≡ enqueue (decode k.shift_held byte).1 (waiting k)
unfolding interrupt
waiting-key {k} status byte v on hs odd hb types =
    ap (λ x. x.1) (kbd_handler_main-interrupt status byte hs hb v) ∙ ground (arith, on)

run_getchar :
    (k : Kernel) (fuel code : ℕ) (kbd' : Kbd)
    → kbd_getchar k.kbd ≡ some (code, kbd')
    → run_call fuel getchar k ≡ some (code, record k { kbd = kbd' })
unfolding run_call
run_getchar k fuel code kbd' e = rw (e, run_call) refl

getchar-returns :
    (k : Kernel) (fuel a b c code : ℕ) (kbd' : Kbd)
    → kbd_getchar k.kbd ≡ some (code, kbd')
    → syscall_dispatch fuel 2 a b c k ≡ some (code, record k { kbd = kbd' })
unfolding syscall_dispatch decode_call
getchar-returns k fuel a b c code kbd' e = run_getchar k fuel code kbd' e

-- In a well-formed kernel with the keyboard enabled, after the interrupt of a key that types a code,
-- the system call `getchar` returns, with the oldest of the codes that waited, or with that of the
-- key if none did.
pub getchar-after_key :
    {area : ℕ} {k : Kernel} (status byte fuel a b c : ℕ)
    → IsKernel area k
    → k.kbd.enabled ≡ true
    → status < 256
    → status % 2 ≡ 1
    → byte < 256
    → (decode k.kbd.shift_held byte).1 ≢ 0
    → (k' : Kernel) × (syscall_dispatch fuel 2 a b c
          (record k { kbd = kbd_handler_main status byte k.kbd })
        ≡ some (oldest (decode k.kbd.shift_held byte).1 (waiting k.kbd), k'))
getchar-after_key {k = k} status byte fuel a b c w on hs odd hb types =
    let typed = (decode k.kbd.shift_held byte).1 in
    let kbd' = kbd_handler_main status byte k.kbd in
    let queue = waiting-key status byte w.keys on hs odd hb types in
    let (rest, first) = dequeue-enqueue typed (waiting k.kbd) in
    let (left, done) =
      kbd_getchar_of_got kbd' (kbd_getchar kbd') (oldest typed (waiting k.kbd)) rest (
        kbd_getchar-dequeue (kbd_handler_main-IsRing status byte hb w.keys)
        ∙ ap dequeue queue
        ∙ first) in
    (
      record k { kbd = left },
      getchar-returns (record k { kbd = kbd' }) fuel a b c (oldest typed (waiting k.kbd)) left done,
    )
