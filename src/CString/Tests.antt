-- ===== src/CString/Tests.antt =====
-- The string functions on short strings.
use shed_kernel.Prelude.{◌≡◌}
use shed_kernel.CString.Memory.{memmove, moved, memmove-moved}

memmove-moved_example : memmove 11 10 3 (λ a. a) 13 ≡ moved 11 10 3 (λ a. a) 13
memmove-moved_example = memmove-moved 11 10 3 (λ a. a) 13
