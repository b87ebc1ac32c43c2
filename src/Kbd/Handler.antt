-- ===== src/Kbd/Handler.antt =====
-- `kbd_handler_main` against a description of the keyboard by one table for each shift state.
use Prim.Native.Nat.{bit_and}
use shed_kernel.Prelude.{
  ℕ, ◌<◌, ◌≡◌, refl, Bool, true, false, ◌&&◌, ◌||◌, none, some, List, arith, get_or, set, ltb, leb,
  ◌==◌, if◌then◌else◌, all_below, all_below-eq_true,
}
use shed_kernel.Kbd.{Kbd, kbd_push, handle_keycode, special, press_regular}
use shed_kernel.Kbd.Map.{keyboard_map, keyboard_map_shift}

abbrev regular : Bool → List ℕ
regular true = keyboard_map_shift
regular false = keyboard_map

-- The code of each key: the Dvorak table with the arrow and navigation keys put in.
unfoldable pub layout : Bool → List ℕ
layout shift =
    set
      (set
        (set
          (set
            (set (set (set (set (set (regular shift) 0x47 1004) 0x48 1000) 0x49 1006) 0x4B 1002)
              0x4D 1003)
            0x4F 1005)
          0x50 1001)
        0x51 1007)
      0x53 1008

-- What a scan code does: the new shift state, and the code that it types, 0 for none.
unfoldable pub decode : Bool → ℕ → Bool × ℕ
unfolding layout
decode shift b =
    if leb 128 b
    then (if b == 170 || b == 182 then false else shift, 0)
    else (if b == 42 || b == 54 then true else shift, get_or (layout shift) b 0)

abbrev special_agrees : Bool → ℕ → Bool
special_agrees shift b = elim (special b) [
  | some c ↦ (get_or (layout shift) b 0 == c) && ltb 0 c
  | none ↦ get_or (layout shift) b 0 == get_or (regular shift) b 0
]

special_table : (shift : Bool) → all_below 128 (special_agrees shift) ≡ true
unfolding special layout keyboard_map keyboard_map_shift
special_table true = refl
special_table false = refl

abbrev release_agrees : ℕ → Bool
release_agrees b = if bit_and b 0x80 == 0 then ltb b 128 else leb 128 b

release_table : all_below 256 release_agrees ≡ true
release_table = refl

shift_keys : (shift : Bool) → (get_or (layout shift) 42 0 ≡ 0) × (get_or (layout shift) 54 0 ≡ 0)
unfolding layout keyboard_map keyboard_map_shift
shift_keys true = (refl, refl)
shift_keys false = (refl, refl)

-- What a typed code does to the ring.
abbrev pub typed : ℕ → Kbd → Kbd
typed c k = if c == 0 then k else kbd_push c k

special-layout : (shift : Bool) (b : ℕ) → b < 128 → special_agrees shift b ≡ true
special-layout shift b h = all_below-eq_true 128 (special_agrees shift) b (special_table shift) h

bit_and-release : (b : ℕ) → b < 256 → release_agrees b ≡ true
bit_and-release b h = all_below-eq_true 256 release_agrees b release_table h

pub handle_keycode-typed :
    (b : ℕ) (k : Kbd)
    → b < 256
    → handle_keycode b k
      ≡ typed (decode k.shift_held b).1 (record k { shift_held = (decode k.shift_held b).0 })
unfolding handle_keycode decode press_regular
handle_keycode-typed b k h =
    ground (arith, bit_and-release b h, special-layout k.shift_held b, shift_keys k.shift_held)
