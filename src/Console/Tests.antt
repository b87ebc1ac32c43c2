-- ===== src/Console/Tests.antt =====
-- The console on concrete values.
use shed_kernel.Prelude.{ℕ, ◌≡◌, refl, some, List, [], ◌∷◌, arith, take}
use shed_kernel.CString.{text}
use shed_kernel.Console.{Vga, itoa_into, itoa_loop, digit}
use shed_kernel.Console.Format.{num, str, ksprintf, kprintf, put_text}
use shed_kernel.Console.Printed.{read_digits, read_digits-itoa_into, kprintf-precision}

abbrev dark : Vga
dark = record { vidptr = λ a. 0; current_loc = 0 }

read_digits-itoa_into_example : read_digits 16 0 (itoa_into 3735928559 16) ≡ 3735928559
read_digits-itoa_into_example =
    read_digits-itoa_into 16 3735928559 (omega arith) (omega arith) (omega arith)

itoa_255 : itoa_into 255 16 ≡ 70 ∷ 70 ∷ []
unfolding itoa_into itoa_loop digit
itoa_255 = refl

kprintf-precision_example :
    let format : List ℕ = 37 ∷ 46 ∷ 42 ∷ 115 ∷ [] in
    (ksprintf format (num 1 ∷ str (97 ∷ 98 ∷ []) ∷ []) ≡ some (take 1 (text (97 ∷ 98 ∷ []))))
    × (kprintf format (num 1 ∷ str (97 ∷ 98 ∷ []) ∷ []) dark
        ≡ some (put_text (text (97 ∷ 98 ∷ [])) dark))
kprintf-precision_example = kprintf-precision 1 (97 ∷ 98 ∷ []) dark (omega arith)
