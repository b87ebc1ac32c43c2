-- ===== src/Kbd.antt =====
-- drivers/kbd_driver.c and drivers/keyboard_map.h: the PS/2 keyboard driver.
--
-- The file's static variables are one record. Reads of the controller's ports are arguments: the
-- byte that `read_port` returned. Writes to ports are appended to a log.
pub mod Map
pub mod Queue
pub mod Handler
pub mod Session
mod Tests
use Prim.Native.Nat.{bit_and}
use shed_kernel.Prelude.{
  ℕ, ◌+◌, ◌%◌, Bool, true, false, not, ◌||◌, Option, none, some, List, [], ◌∷◌, ◌++◌, ltb, leb,
  ◌==◌, if◌then◌else◌, get_or, set,
}
use Map.{keyboard_map, keyboard_map_shift}

abbrev pub kbd_buf_size : ℕ
kbd_buf_size = 256

-- The synthetic key codes of kbd_driver.h.
abbrev pub arrow_up : ℕ
arrow_up = 1000

abbrev pub arrow_down : ℕ
arrow_down = 1001

abbrev pub arrow_left : ℕ
arrow_left = 1002

abbrev pub arrow_right : ℕ
arrow_right = 1003

abbrev pub key_home : ℕ
key_home = 1004

abbrev pub key_end : ℕ
key_end = 1005

abbrev pub key_page_up : ℕ
key_page_up = 1006

abbrev pub key_page_down : ℕ
key_page_down = 1007

abbrev pub key_del : ℕ
key_del = 1008

abbrev pub backspace : ℕ
backspace = 8

abbrev pub newline : ℕ
newline = 10

pub record Kbd : Type 0 where
  pub kbd_buf : List ℕ
  pub kbd_buf_read : ℕ
  pub kbd_buf_write : ℕ
  pub shift_held : Bool
  pub initialized : Bool
  pub enabled : Bool
  -- (port, byte) pairs, the last written last
  pub ports : List (ℕ × ℕ)

abbrev pub driver_ok : Bool
driver_ok = true

abbrev pub driver_err : Bool
driver_err = false

abbrev pub write_port : ℕ → ℕ → Kbd → Kbd
write_port port byte k = record k { ports = k.ports ++ ((port, byte) ∷ []) }

pub kbd_push : ℕ → Kbd → Kbd
kbd_push code k = if (k.kbd_buf_write + 1) % kbd_buf_size == k.kbd_buf_read then k else record k {
  kbd_buf = set k.kbd_buf k.kbd_buf_write code;
  kbd_buf_write = (k.kbd_buf_write + 1) % kbd_buf_size;
}

-- `none` while the loop `while (kbd_buf_read == kbd_buf_write);` still spins.
unfoldable pub kbd_getchar : Kbd → Option (ℕ × Kbd)
kbd_getchar k =
    if k.kbd_buf_read == k.kbd_buf_write
    then none
    else some (
      get_or k.kbd_buf k.kbd_buf_read 0,
      record k { kbd_buf_read = (k.kbd_buf_read + 1) % kbd_buf_size },
    )

unfoldable pub kbd_init : Kbd → Bool × Kbd
kbd_init k =
    if k.initialized
    then (driver_ok, k)
    else (driver_ok, record (write_port 0x21 0xFD k) { initialized = true; enabled = false })

unfoldable pub kbd_enable : Kbd → Kbd
kbd_enable k = if not k.initialized then k else record k { enabled = true }

pub kbd_disable : Kbd → Kbd
kbd_disable k = record k { enabled = false }

-- `status` and `byte` are what the status port and the data port hold. `none` is DRIVER_ERR.
pub kbd_read : (status byte : ℕ) → Kbd → Option ℕ
kbd_read status byte k =
    if not k.enabled then none else if bit_and status 0x01 == 0 then none else some (byte % 256)

-- The loop on the status port reads `busy` as long as bit 1 is set: `statuses` is what it reads.
-- `none` while it still waits.
pub kbd_write : (statuses : List ℕ) (byte : ℕ) → Kbd → Option (Bool × Kbd)
kbd_write [] byte k = if not k.enabled then some (driver_err, k) else none
kbd_write (s ∷ ss) byte k =
    let rest = kbd_write ss byte k in
    if not k.enabled
    then some (driver_err, k)
    else if bit_and s 0x02 == 0
    then some (driver_ok, write_port 0x60 (byte % 256) k)
    else rest

-- The `switch` over the special scan codes; `none` is its `default`.
pub special : ℕ → Option ℕ
special keycode =
    if keycode == 0x48
    then some arrow_up
    else if keycode == 0x50
    then some arrow_down
    else if keycode == 0x4B
    then some arrow_left
    else if keycode == 0x4D
    then some arrow_right
    else if keycode == 0x47
    then some key_home
    else if keycode == 0x4F
    then some key_end
    else if keycode == 0x49
    then some key_page_up
    else if keycode == 0x51
    then some key_page_down
    else if keycode == 0x53
    then some key_del
    else if keycode == 0x0E
    then some backspace
    else if keycode == 0x1C
    then some newline
    else none

pub press_regular : ℕ → Kbd → Kbd
press_regular keycode k =
    let c =
      if k.shift_held then get_or keyboard_map_shift keycode 0 else get_or keyboard_map keycode 0 in
    if c == 0 then k else kbd_push c k

pub handle_keycode : ℕ → Kbd → Kbd
unfolding special press_regular
handle_keycode keycode k =
    if keycode == 0xAA || keycode == 0xB6
    then record k { shift_held = false }
    else if not (bit_and keycode 0x80 == 0)
    then k
    else if keycode == 0x2A || keycode == 0x36
    then record k { shift_held = true }
    else elim (special keycode) [ some code ↦ kbd_push code k | none ↦ press_regular keycode k ]

pub kbd_handler_main : (status byte : ℕ) → Kbd → Kbd
kbd_handler_main status byte k =
    let k' = write_port 0x20 0x20 k in
    if not k.enabled
    then k'
    else elim (kbd_read status byte k') [ none ↦ k' | some keycode ↦ handle_keycode keycode k' ]
