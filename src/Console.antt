-- ===== src/Console.antt =====
-- kernel/kprintf.c: text output to the VGA memory, and formatted text.
--
-- `vidptr` is the memory from 0xb8000 on, `current_loc` an unsigned 32-bit offset in it. A format is
-- the list of its bytes before the terminator. A value among the variable arguments is the bit
-- pattern of an `int`, or a string. What would read behind the end of the format or of the arguments
-- is `none`. The functions do not test where they write: that it is within the screen's memory is up to
-- the callers. Rows and columns are bit patterns of `int`s: what is computed from them wraps at 2^32.
pub mod Format
pub mod Printed
pub mod Screen
pub mod Cursor
pub mod Returns
mod Tests
use shed_kernel.CString.{text}
use shed_kernel.Prelude.{
  ℕ, zero, suc, ◌+◌, ◌-◌, ◌*◌, ◌/◌, ◌%◌, Bool, true, false, List, [], ◌∷◌, ltb, ◌==◌, if◌then◌else◌,
}

abbrev pub columns_in_line : ℕ
columns_in_line = 80

abbrev pub screen_size : ℕ
screen_size = 4000

abbrev pub u32_mod : ℕ
u32_mod = 4294967296

pub record Vga : Type 0 where
  pub vidptr : ℕ → ℕ
  pub current_loc : ℕ

abbrev pub write_at : (loc c : ℕ) → Vga → Vga
write_at loc c v = record v { vidptr = λ a. if a == loc then c else v.vidptr a }

-- A character and its attribute at an offset.
abbrev pub put_at : (loc c attr : ℕ) → Vga → Vga
put_at loc c attr v = write_at ((loc + 1) % u32_mod) attr (write_at loc c v)

-- `vidptr[current_loc++] = c; vidptr[current_loc++] = 0x07;`
unfoldable pub put_cell : ℕ → Vga → Vga
put_cell c v = record (put_at v.current_loc c 7 v) { current_loc = (v.current_loc + 2) % u32_mod }

unfoldable pub digit : ℕ → ℕ
digit d = if ltb d 10 then 48 + d else 55 + d

-- The do-while loop of `itoa_into`, in front of what has been written.
unfoldable pub itoa_loop : (fuel num base : ℕ) → List ℕ → List ℕ
unfolding digit
itoa_loop zero num base acc = acc
itoa_loop (suc f) num base acc =
    let acc' = digit (num % base) ∷ acc in
    let rest = itoa_loop f (num / base) base acc' in if num / base == 0 then acc' else rest

-- A 32-bit number has at most 32 digits.
unfoldable pub itoa_into : (num base : ℕ) → List ℕ
unfolding itoa_loop
itoa_into num base = itoa_loop 33 num base []

unfoldable pub kvga_set_cursor : (row col : ℕ) → Vga → Vga
kvga_set_cursor row col v = record v { current_loc = (row * columns_in_line + col) * 2 % u32_mod }

-- The loops that write `n` blank cells from an offset on.
unfoldable pub blank_cells : (n loc : ℕ) → Vga → Vga
blank_cells zero loc v = v
blank_cells (suc n) loc v = blank_cells n (loc + 2) (put_at loc 32 7 v)

unfoldable pub kvga_clear_to_eol : (row col : ℕ) → Vga → Vga
unfolding blank_cells
kvga_clear_to_eol row col v =
    let loc = (row * columns_in_line + col) * 2 % u32_mod in
    let end = (row * columns_in_line + columns_in_line) * 2 % u32_mod in
    blank_cells ((end - loc) / 2) loc v

unfoldable pub kvga_write_char : (row col c attr : ℕ) → Vga → Vga
kvga_write_char row col c attr v = put_at ((row * columns_in_line + col) * 2 % u32_mod) c attr v

-- The loops that write a string as it is.
unfoldable pub put_string : List ℕ → Vga → Vga
unfolding put_cell
put_string [] v = v
put_string (c ∷ s) v = put_string s (put_cell c v)

unfoldable pub kprint : List ℕ → Vga → Vga
unfolding put_string
kprint str v = put_string (text str) v

unfoldable pub kprint_newline : Vga → Vga
kprint_newline v =
    let line_size = 2 * columns_in_line in
    record v { current_loc = (v.current_loc + (line_size - v.current_loc % line_size)) % u32_mod }

unfoldable pub clear_screen : Vga → Vga
unfolding blank_cells
clear_screen v = record (blank_cells (screen_size / 2) 0 v) { current_loc = 0 }

-- The loop of `kprint_hex` from the last of `n` digits back.
unfoldable pub hex_digits : (n val : ℕ) → List ℕ → List ℕ
unfolding digit
hex_digits zero val acc = acc
hex_digits (suc n) val acc = hex_digits n (val / 16) (digit (val % 16) ∷ acc)

unfoldable pub kprint_hex : ℕ → Vga → Vga
unfolding hex_digits kprint kprint_newline
kprint_hex val v = kprint_newline (kprint (48 ∷ 120 ∷ hex_digits 8 val []) v)
