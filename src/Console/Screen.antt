-- ===== src/Console/Screen.antt =====
-- kernel/kprintf.c: the cells that `clear_screen` writes.
use shed_kernel.Prelude.{
  ℕ, zero, suc, ◌+◌, ◌*◌, ◌%◌, ◌≤◌, ◌≡◌, refl, ap, ◌∙◌, ◌&&◌, ltb, leb, ◌==◌, if◌then◌else◌, arith,
  Bool-cases, ==_iff, inl, inr,
}
use shed_kernel.Console.{Vga, put_at, blank_cells, clear_screen}

-- A blank and the attribute at every other byte.
abbrev pub blank_byte : ℕ → ℕ
blank_byte a = if a % 2 == 0 then 32 else 7

blank_cells-bytes :
    (n loc : ℕ) (v : Vga) (a : ℕ)
    → loc % 2 ≡ 0
    → loc + 2 * n ≤ 4294967296
    → (blank_cells n loc v).vidptr a
      ≡ (if leb loc a && ltb a (loc + 2 * n) then blank_byte a else v.vidptr a)
unfolding blank_cells
blank_cells-bytes zero loc v a even h = ground arith
blank_cells-bytes (suc n) loc v a even h =
    blank_cells-bytes n (loc + 2) (put_at loc 32 7 v) a (omega arith) (omega arith)
    ∙ first_cell (blank_byte a) refl
  where
    wrap : (loc + 1) % 4294967296 ≡ loc + 1
    wrap = omega arith

    even_byte : blank_byte loc ≡ 32
    even_byte = ground arith

    odd_byte : blank_byte (loc + 1) ≡ 7
    odd_byte = ground arith

    first_cell :
        (x : ℕ)
        → x ≡ blank_byte a
        → (if leb (loc + 2) a && ltb a (loc + 2 + 2 * n) then x else (put_at loc 32 7 v).vidptr a)
          ≡ (if leb loc a && ltb a (loc + 2 * suc n) then x else v.vidptr a)
    first_cell x e = elim (Bool-cases (a == loc + 1)) [
      | inl odd ↦
          let at : a ≡ loc + 1 = (==_iff a (loc + 1)).0 odd in
          let value : x ≡ 7 = e ∙ ap blank_byte at ∙ odd_byte in
          rw wrap (ground (arith, odd, value))
      | inr not_odd ↦ elim (Bool-cases (a == loc)) [
        | inl here ↦
            let value : x ≡ 32 = e ∙ ap blank_byte ((==_iff a loc).0 here) ∙ even_byte in
            rw wrap (ground (arith, here, not_odd, value))
        | inr other ↦ rw wrap (ground (arith, not_odd, other))
      ]
    ]

-- `clear_screen` blanks the 25 rows of 80 cells, changes no other byte, and puts the cursor at the
-- start.
pub clear_screen-blank :
    (v : Vga) (a : ℕ)
    → ((clear_screen v).vidptr a ≡ (if ltb a 4000 then blank_byte a else v.vidptr a))
      × ((clear_screen v).current_loc ≡ 0)
unfolding clear_screen
clear_screen-blank v a =
    (blank_cells-bytes 2000 0 v a (omega arith) (omega arith) ∙ ground arith, refl)
