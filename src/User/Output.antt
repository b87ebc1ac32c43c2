-- ===== src/User/Output.antt =====
-- user/syscalls.c: `_write`.
use shed_kernel.Prelude.{
  ℕ, zero, suc, ◌+◌, ◌<◌, ◌≤◌, ◌≡◌, ◌⊎◌, refl, ap, ◌∙◌, some, List, [], ◌∷◌, arith, Bool-cases, inl,
  inr, ◌==◌, ==_iff, if◌then◌else◌, codes,
}
use shed_kernel.CString.{text}
use shed_kernel.Console.{Vga}
use shed_kernel.Console.Format.{
  str, kprintf, kprintf_from, parse_precision, print_converted, convert, put_text,
}
use shed_kernel.Syscall.{Kernel, print, string_at, run_call}
use shed_kernel.User.{set_byte, write_loop, _write}
use shed_kernel.User.Calls.{string_at-end, string_at-more}

-- The bytes from an address on that are not zero.
abbrev pub shown : (n a : ℕ) → (ℕ → ℕ) → List ℕ
shown zero a memory = []
shown (suc n) a memory =
    if memory a == 0 then shown n (a + 1) memory else memory a ∷ shown n (a + 1) memory

kprintf-string :
    (s : List ℕ) (v : Vga) → kprintf (codes "%s") (str s ∷ []) v ≡ some (put_text (text s) v)
unfolding kprintf kprintf_from parse_precision print_converted convert
kprintf-string s v = refl

print-string :
    (fuel p : ℕ) (k : Kernel) (s : List ℕ)
    → string_at fuel k.memory p ≡ some s
    → run_call fuel (print p) k ≡ some (0, record k { vga = put_text (text s) k.vga })
unfolding run_call
print-string fuel p k s e = rw (e, run_call) (rw (kprintf-string s k.vga, run_call) refl)

-- The text of one byte.
abbrev one_byte : ℕ → List ℕ
one_byte c = if c == 0 then [] else c ∷ []

print-byte :
    (f p c : ℕ) (k : Kernel)
    → p + 1 < 4294967296
    → k.memory p ≡ c
    → k.memory (p + 1) ≡ 0
    → run_call (suc (suc f)) (print p) k ≡ some (0, record k { vga = put_text (one_byte c) k.vga })
print-byte f p c k small first last = elim (Bool-cases (c == 0)) [
  | inl z ↦
      let zero_byte : c ≡ 0 = (==_iff c 0).0 z in
      rw z
        (print-string (suc (suc f)) p k [] (string_at-end (suc f) k.memory p (first ∙ zero_byte)))
  | inr nz ↦
      let one : text (c ∷ []) ≡ c ∷ [] = rw nz refl in
      rw nz (
        print-string (suc (suc f)) p k (k.memory p ∷ []) (
          string_at-more (suc f) k.memory p [] small (rw first nz)
            (string_at-end f k.memory (p + 1) last))
        ∙ ap (λ x. some (0, record k { vga = put_text (text (x ∷ [])) k.vga })) first
        ∙ ap (λ t. some (0, record k { vga = put_text t k.vga })) one)
]

-- A byte that is written outside of a range does not change what is shown of it.
shown-set_byte :
    (n a p c : ℕ) (memory : ℕ → ℕ)
    → (a + n ≤ p) ⊎ (p < a)
    → shown n a (set_byte p c memory) ≡ shown n a memory
shown-set_byte zero a p c memory apart = refl
shown-set_byte (suc n) a p c memory apart =
    let same : set_byte p c memory a ≡ memory a = ground arith in
    rw same (rw (shown-set_byte n (a + 1) p c memory (omega arith)) refl)

put_text-first :
    (c n a : ℕ) (memory : ℕ → ℕ) (v : Vga)
    → memory a ≡ c
    → put_text (shown n (a + 1) memory) (put_text (one_byte c) v)
      ≡ put_text (shown (suc n) a memory) v
unfolding put_text
put_text-first c n a memory v e = elim (Bool-cases (c == 0)) [
  | inl z ↦ rw e (rw z refl)
  | inr nz ↦ rw e (rw nz refl)
]

module _ (f tmp buf : ℕ) (small : tmp + 1 < 4294967296) where
  write_loop-put_text :
      (n i : ℕ) (k : Kernel)
      → (buf + i + n ≤ tmp) ⊎ (tmp + 1 < buf + i)
      → (k' : Kernel) × (write_loop (suc (suc f)) tmp buf n i k ≡ some k')
        × (k'.vga ≡ put_text (shown n (buf + i) k.memory) k.vga)
  unfolding write_loop put_text
  write_loop-put_text zero i k apart = (k, refl, refl)
  write_loop-put_text (suc n) i k apart =
      let c = k.memory (buf + i) in
      let m = set_byte (tmp + 1) 0 (set_byte tmp c k.memory) in
      let k1 : Kernel = record k { memory = m } in
      let k2 : Kernel = record k1 { vga = put_text (one_byte c) k.vga } in
      let printed = print-byte f tmp c k1 small (ground arith) (ground arith) in
      let (k', done, screen) = write_loop-put_text n (i + 1) k2 (omega arith) in
      let same : shown n (buf + i + 1) m ≡ shown n (buf + i + 1) k.memory =
        shown-set_byte n (buf + i + 1) (tmp + 1) 0 (set_byte tmp c k.memory) (omega arith)
        ∙ shown-set_byte n (buf + i + 1) tmp c k.memory (omega arith) in
      let shift : buf + (i + 1) ≡ buf + i + 1 = omega arith in
      (
        k',
        rw (printed, write_loop) done,
        screen
            ∙ ap (λ a. put_text (shown n a m) k2.vga) shift
            ∙ ap (λ t. put_text t k2.vga) same
            ∙ put_text-first c n (buf + i) k.memory k.vga refl,
      )

-- `_write` prints the bytes of its buffer that are not zero, in order, and returns the length, if its
-- two bytes on the stack lie outside of the buffer, and the fuel is 2 or more.
pub _write-put_text :
    (f tmp fd buf len : ℕ) (k : Kernel)
    → tmp + 1 < 4294967296
    → (buf + len ≤ tmp) ⊎ (tmp + 1 < buf)
    → (k' : Kernel) × (_write (suc (suc f)) tmp fd buf len k ≡ some (len, k'))
      × (k'.vga ≡ put_text (shown len buf k.memory) k.vga)
unfolding _write
_write-put_text f tmp fd buf len k small apart =
    let (k', done, screen) = write_loop-put_text f tmp buf small len 0 k (omega arith) in
    let start : buf + 0 ≡ buf = omega arith in
    (k', rw (done, _write) refl, screen ∙ ap (λ a. put_text (shown len a k.memory) k.vga) start)
