-- ===== src/CString/Memory.antt =====
-- kernel/string.h: the functions on memory, which is a function from addresses to bytes. A count is the
-- number of rounds: the callers pass none below 0.
use shed_kernel.Prelude.{
  ℕ, zero, suc, ◌+◌, ◌-◌, ◌≤◌, ◌<◌, ◌≡◌, ◌∙◌, true, false, ◌&&◌, ltb, leb, ◌==◌, if◌then◌else◌,
  arith, ◌⊎◌, inl, inr, Option, none, some, ℤ, pos, sub_ℕ, Bool-cases,
}

abbrev pub Memory : Type 0
Memory = ℕ → ℕ

abbrev pub store : (p c : ℕ) → Memory → Memory
store p c m a = if a == p then c else m a

-- The loop that copies upwards.
unfoldable pub copy_up : (dest src n : ℕ) → Memory → Memory
copy_up dest src zero m = m
copy_up dest src (suc n) m = copy_up (dest + 1) (src + 1) n (store dest (m src) m)

-- The loop that copies downwards, from the last of `n` bytes on.
unfoldable pub copy_down : (dest src n : ℕ) → Memory → Memory
copy_down dest src zero m = m
copy_down dest src (suc n) m = copy_down dest src n (store (dest + n) (m (src + n)) m)

unfoldable pub memcpy : (dest src n : ℕ) → Memory → Memory
unfolding copy_up
memcpy dest src n m = copy_up dest src n m

unfoldable pub memmove : (dest src n : ℕ) → Memory → Memory
unfolding copy_up copy_down
memmove dest src n m = if ltb dest src then copy_up dest src n m else copy_down dest src n m

unfoldable pub memset : (s c n : ℕ) → Memory → Memory
memset s c zero m = m
memset s c (suc n) m = memset (s + 1) c n (store s c m)

unfoldable pub memcmp : (cs ct n : ℕ) → Memory → ℤ
memcmp cs ct zero m = pos 0
memcmp cs ct (suc n) m = if m cs == m ct then memcmp (cs + 1) (ct + 1) n m else sub_ℕ (m cs) (m ct)

unfoldable pub memchr : (s c n : ℕ) → Memory → Option ℕ
memchr s c zero m = none
memchr s c (suc n) m = if m s == c then some s else memchr (s + 1) c n m

-- The memory with `n` bytes from `src` on put to `dest`, all taken from the memory before.
abbrev pub moved : (dest src n : ℕ) → Memory → Memory
moved dest src n m a = if leb dest a && ltb a (dest + n) then m (src + (a - dest)) else m a

pub copy_up-moved :
    (dest src n : ℕ) (m : Memory) (a : ℕ)
    → (dest < src) ⊎ (src + n ≤ dest)
    → copy_up dest src n m a ≡ moved dest src n m a
unfolding copy_up
copy_up-moved dest src zero m a h = ground arith
copy_up-moved dest src (suc n) m a h =
    copy_up-moved (dest + 1) (src + 1) n (store dest (m src) m) a (ground (arith, h))
    ∙ step (Bool-cases (a == dest)) (Bool-cases (leb (dest + 1) a))
  where
    step :
        ((a == dest) ≡ true) ⊎ ((a == dest) ≡ false)
        → (leb (dest + 1) a ≡ true) ⊎ (leb (dest + 1) a ≡ false)
        → moved (dest + 1) (src + 1) n (store dest (m src) m) a ≡ moved dest src (suc n) m a
    step (inl at) later =
        let here : src + (a - dest) ≡ src = ground (arith, at) in rw here (ground (arith, at))
    step (inr off) (inl later) =
        let same : src + 1 + (a - (dest + 1)) ≡ src + (a - dest) = ground (arith, later) in
        rw same (ground (arith, off, later, h))
    step (inr off) (inr before) = ground (arith, off, before)

copy_down-moved :
    (dest src n : ℕ) (m : Memory) (a : ℕ)
    → src ≤ dest
    → copy_down dest src n m a ≡ moved dest src n m a
unfolding copy_down
copy_down-moved dest src zero m a h = ground arith
copy_down-moved dest src (suc n) m a h =
    copy_down-moved dest src n (store (dest + n) (m (src + n)) m) a h
    ∙ step (Bool-cases (a == dest + n)) (Bool-cases (leb dest a && ltb a (dest + n)))
  where
    step :
        ((a == dest + n) ≡ true) ⊎ ((a == dest + n) ≡ false)
        → ((leb dest a && ltb a (dest + n)) ≡ true) ⊎ ((leb dest a && ltb a (dest + n)) ≡ false)
        → moved dest src n (store (dest + n) (m (src + n)) m) a ≡ moved dest src (suc n) m a
    step (inl at) inside =
        let here : src + (a - dest) ≡ src + n = ground (arith, at) in rw here (ground (arith, at))
    step (inr off) inside = ground (arith, off, inside, h)

-- `memmove` puts the `n` bytes that were at the source to the destination, whether the two overlap
-- or not, and changes no other byte.
pub memmove-moved :
    (dest src n : ℕ) (m : Memory) (a : ℕ) → memmove dest src n m a ≡ moved dest src n m a
unfolding memmove
memmove-moved dest src n m a = elim (Bool-cases (ltb dest src)) [
  | inl up ↦ rw (up, memmove) (copy_up-moved dest src n m a (inl (ground arith)))
  | inr down ↦ rw (down, memmove) (copy_down-moved dest src n m a (ground arith))
]
