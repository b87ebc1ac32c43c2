-- ===== src/User/Input.antt =====
-- user/syscalls.c: `_read`.
use shed_kernel.Prelude.{
  ℕ, zero, suc, ◌+◌, ◌%◌, ◌<◌, ◌≡◌, refl, ap, ◌∙◌, Bool, true, false, not, ◌&&◌, none, some, List,
  [], ◌∷◌, ◌++◌, arith, ◌==◌, length, Option,
}
use shed_kernel.Kbd.{Kbd, kbd_getchar}
use shed_kernel.Kbd.Queue.{IsRing, waiting, dequeue, got, kbd_getchar-dequeue, kbd_getchar-IsRing}
use shed_kernel.Syscall.{Kernel}
use shed_kernel.User.{set_byte, read_loop, _read}

-- Codes that are not taken for a newline.
abbrev pub has_no_newline : List ℕ → Bool
has_no_newline [] = true
has_no_newline (c ∷ keys) = not (c % 256 == 10) && has_no_newline keys

-- Memory with the codes' low bytes from an address on.
abbrev pub store_line : ℕ → List ℕ → (ℕ → ℕ) → ℕ → ℕ
store_line a [] memory = memory
store_line a (c ∷ keys) memory = store_line (a + 1) keys (set_byte a (c % 256) memory)

-- A read of a ring in which a code waits.
getchar-waiting :
    (k : Kbd) (c : ℕ) (q : List ℕ)
    → IsRing k
    → waiting k ≡ c ∷ q
    → (k' : Kbd) × (kbd_getchar k ≡ some (c, k')) × IsRing k' × (waiting k' ≡ q)
unfolding dequeue
getchar-waiting k c q v e = go (kbd_getchar k) refl (kbd_getchar-dequeue v ∙ ap dequeue e)
  where
    go :
        (o : Option (ℕ × Kbd))
        → kbd_getchar k ≡ o
        → got k o ≡ some (c, q)
        → (k' : Kbd) × (kbd_getchar k ≡ some (c, k')) × IsRing k' × (waiting k' ≡ q)
    go none read e = absurd (ground (arith, e))
    go (some (d, k')) read e =
        let pair : ◌≡◌ {A = ℕ × List ℕ} (d, waiting k') (c, q) =
          ap (λ o. elim o [ none ↦ (c, q) | some x ↦ x ]) e in
        (
          k',
          read ∙ ap (λ x. some (x, k')) (ap (λ x. x.0) pair),
          kbd_getchar-IsRing k d k' v read,
          ap (λ x. x.1) pair,
        )

read_loop-line :
    (keys rest : List ℕ) (buf n i : ℕ) (k : Kernel)
    → IsRing k.kbd
    → waiting k.kbd ≡ keys ++ (10 ∷ rest)
    → has_no_newline keys ≡ true
    → length keys < n
    → (k' : Kernel) × (read_loop buf n i k ≡ some (i + length keys + 1, k'))
      × (waiting k'.kbd ≡ rest)
      × (k'.memory ≡ store_line (buf + i) (keys ++ (10 ∷ [])) k.memory)
unfolding read_loop
read_loop-line keys rest buf zero i k v e plain h = absurd (omega arith)
read_loop-line [] rest buf (suc n) i k v e plain h =
    let (kbd', read, _, left) = getchar-waiting k.kbd 10 rest v e in
    let k1 : Kernel = record k { kbd = kbd'; memory = set_byte (buf + i) 10 k.memory } in
    let count : i + 1 ≡ i + 0 + 1 = omega arith in
    (k1, rw (read, read_loop) (ap (λ x. some (x, k1)) count), left, refl)
read_loop-line (c ∷ keys) rest buf (suc n) i k v e plain h =
    let (kbd', read, ring, left) = getchar-waiting k.kbd c (keys ++ (10 ∷ rest)) v e in
    let k1 : Kernel = record k { kbd = kbd'; memory = set_byte (buf + i) (c % 256) k.memory } in
    let other : (c % 256 == 10) ≡ false = ground arith in
    let (k', done, gone, bytes) =
      read_loop-line keys rest buf n (i + 1) k1 ring left (ground arith) (omega arith) in
    let shift : buf + (i + 1) ≡ buf + i + 1 = omega arith in
    let count : i + 1 + length keys + 1 ≡ i + suc (length keys) + 1 = omega arith in
    (
      k',
      rw (read, read_loop) (rw (other, read_loop) (done ∙ ap (λ x. some (x, k')) count)),
      gone,
      bytes ∙ ap (λ a. store_line a (keys ++ (10 ∷ [])) k1.memory) shift,
    )

-- If the codes that wait in a valid ring begin with a line, a newline behind codes that are not
-- taken for one, and the buffer is longer than the line, `_read` returns with the line's length, the
-- newline counted; the low bytes of its codes and the newline stand in the buffer, and the codes
-- behind it still wait.
pub _read-line :
    (keys rest : List ℕ) (fd buf len : ℕ) (k : Kernel)
    → IsRing k.kbd
    → waiting k.kbd ≡ keys ++ (10 ∷ rest)
    → has_no_newline keys ≡ true
    → length keys < len
    → (k' : Kernel) × (_read fd buf len k ≡ some (length keys + 1, k'))
      × (waiting k'.kbd ≡ rest)
      × (k'.memory ≡ store_line buf (keys ++ (10 ∷ [])) k.memory)
unfolding _read
_read-line keys rest fd buf len k v e plain h =
    let (k', done, left, bytes) = read_loop-line keys rest buf len 0 k v e plain h in
    let count : 0 + length keys + 1 ≡ length keys + 1 = omega arith in
    let start : buf + 0 ≡ buf = omega arith in
    (
      k',
      done ∙ ap (λ x. some (x, k')) count,
      left,
      bytes ∙ ap (λ a. store_line a (keys ++ (10 ∷ [])) k.memory) start,
    )
