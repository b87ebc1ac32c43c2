-- ===== src/User/Calls.antt =====
-- user/shed.h: the name that a program passes to the editor.
use shed_kernel.Prelude.{
  ℕ, zero, suc, ◌+◌, ◌%◌, ◌<◌, ◌≡◌, refl, ap, ◌∙◌, false, some, List, [], ◌∷◌, arith, Bool-cases,
  inl, inr, ◌==◌, length,
}
use shed_kernel.CString.{text}
use shed_kernel.Syscall.{Kernel, string_at, run_call}
use shed_kernel.User.{set_byte, shed_shared_mem, copy_name, sys_exec_editor}

copy_name-below :
    (a : ℕ) (s : List ℕ) (memory : ℕ → ℕ) (b : ℕ) → b < a → copy_name a s memory b ≡ memory b
unfolding copy_name
copy_name-below a [] memory b h = ground arith
copy_name-below a (c ∷ s) memory b h = elim (Bool-cases (c == 0)) [
  | inl z ↦ rw (z, copy_name) (ground arith)
  | inr nz ↦
      rw (nz, copy_name)
        (copy_name-below (a + 1) s (set_byte a c memory) b (omega arith) ∙ ground arith)
]

pub string_at-end :
    (f : ℕ) (memory : ℕ → ℕ) (a : ℕ) → memory a ≡ 0 → string_at (suc f) memory a ≡ some []
unfolding string_at
string_at-end f memory a z = rw (z, string_at) refl

pub string_at-more :
    (f : ℕ) (memory : ℕ → ℕ) (a : ℕ) (s : List ℕ)
    → a + 1 < 4294967296
    → (memory a == 0) ≡ false
    → string_at f memory (a + 1) ≡ some s
    → string_at (suc f) memory a ≡ some (memory a ∷ s)
unfolding string_at
string_at-more f memory a s small nz e =
    let wrap : (a + 1) % 4294967296 ≡ a + 1 = omega arith in
    rw (nz, string_at) (rw wrap (rw (e, string_at) refl))

string_at-copy_name :
    (f a : ℕ) (s : List ℕ) (memory : ℕ → ℕ)
    → length s < f
    → a + length s < 4294967296
    → string_at f (copy_name a s memory) a ≡ some (text s)
unfolding copy_name
string_at-copy_name zero a s memory h small = absurd (omega arith)
string_at-copy_name (suc f) a [] memory h small = string_at-end f _ a (ground arith)
string_at-copy_name (suc f) a (c ∷ s) memory h small = elim (Bool-cases (c == 0)) [
  | inl z ↦ rw (z, copy_name, text) (string_at-end f (set_byte a 0 memory) a (ground arith))
  | inr nz ↦
      let m' = copy_name (a + 1) s (set_byte a c memory) in
      let first : m' a ≡ c =
        copy_name-below (a + 1) s (set_byte a c memory) a (omega arith) ∙ ground arith in
      rw (nz, copy_name, text)
        (string_at-more f m' a (text s) (omega arith) (rw first nz)
            (string_at-copy_name f (a + 1) s (set_byte a c memory) (omega arith) (omega arith))
          ∙ ap (λ x. some (x ∷ text s)) first)
]

-- For a file name of fewer than 2^28 bytes, `sys_exec_editor` starts the editor, which finds the
-- name at the shared address.
pub sys_exec_editor-name :
    (filename : List ℕ) (k : Kernel)
    → length filename < 268435456
    → (k' : Kernel) × (sys_exec_editor filename k ≡ some (0, k'))
      × (k'.user_entry ≡ 0x70000000)
      × (string_at (length filename + 1) k'.memory shed_shared_mem ≡ some (text filename))
unfolding sys_exec_editor run_call
sys_exec_editor-name filename k small = (
  record k { memory = copy_name 0xF0000000 filename k.memory; user_entry = 0x70000000 },
  refl,
  refl,
  string_at-copy_name (length filename + 1) 0xF0000000 filename k.memory (omega arith)
      (omega arith),
)
