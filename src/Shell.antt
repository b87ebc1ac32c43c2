-- ===== src/Shell.antt =====
-- kernel/Shell.c: the line reader, the tokeniser, the table of commands and the commands on files; and
-- `strtok` of kernel/string.h.
--
-- The buffers are lists: that malloc and realloc find room for them is taken for granted. A key is the
-- code that `kbd_getchar` returns; none is EOF.
pub mod Line
pub mod Words
pub mod Commands
pub mod Session
mod Tests
use shed_kernel.Prelude.{
  ℕ, zero, suc, ◌+◌, ◌-◌, ◌%◌, Bool, true, false, not, ◌&&◌, ◌||◌, Option, none, some, List, [],
  ◌∷◌, ◌++◌, ltb, leb, ◌==◌, if◌then◌else◌, length, take, is_some,
}
use shed_kernel.CString.{head, text, strcmp, strchr}
use shed_kernel.Console.{Vga, put_at, put_cell}
use shed_kernel.Fs.Disk.{Fs, fs_read_block}
use shed_kernel.Fs.Dir.{is_zero, entry_at, fs_find_file, fs_create_file, fs_delete_file}

-- What a backspace does on the screen.
unfoldable pub erase_cell : Vga → Vga
erase_cell v =
    if leb 2 v.current_loc
    then record (put_at (v.current_loc - 2) 32 7 v) { current_loc = v.current_loc - 2 }
    else v

-- The loop of `lsh_read_line` over the keys to come; `none` when they end before the line does. A key
-- goes into the buffer and on the screen as a `char`.
unfoldable pub read_loop : (keys buffer : List ℕ) → Vga → Option (List ℕ × List ℕ × Vga)
unfolding erase_cell put_cell
read_loop [] buffer v = none
read_loop (c ∷ keys) buffer v =
    let shorter = read_loop keys (take (length buffer - 1) buffer) (erase_cell v) in
    let same = read_loop keys buffer v in
    let longer = read_loop keys (buffer ++ (c % 256) ∷ []) (put_cell (c % 256) v) in
    if c == 8
    then (if ltb 0 (length buffer) then shorter else same)
    else if c == 10
    then some (buffer, keys, v)
    else longer

unfoldable pub lsh_read_line : List ℕ → Vga → Option (List ℕ × List ℕ × Vga)
unfolding read_loop
lsh_read_line keys v = read_loop keys [] v

-- " \t\r\n\a"
abbrev pub tok_delim : List ℕ
tok_delim = 32 ∷ 9 ∷ 13 ∷ 10 ∷ 7 ∷ []

abbrev pub is_delim : List ℕ → ℕ → Bool
is_delim ct c = is_some (strchr ct c)

-- The first loop of `strtok`.
unfoldable pub skip_delims : List ℕ → List ℕ → List ℕ
skip_delims ct [] = []
skip_delims ct (c ∷ s) = if not (c == 0) && is_delim ct c then skip_delims ct s else c ∷ s

-- The second loop: the token, and `___strtok` behind it, NULL as `none`.
unfoldable pub cut_token : List ℕ → List ℕ → List ℕ × Option (List ℕ)
cut_token ct [] = ([], none)
cut_token ct (c ∷ s) =
    let (token, rest) = cut_token ct s in
    if c == 0 then ([], none) else if is_delim ct c then ([], some s) else (c ∷ token, rest)

-- `strtok` on what is left of the string.
unfoldable pub strtok : Option (List ℕ) → (ct : List ℕ) → Option (List ℕ × Option (List ℕ))
unfolding skip_delims cut_token
strtok none ct = none
strtok (some s) ct =
    if head (skip_delims ct s) == 0 then none else some (cut_token ct (skip_delims ct s))

-- The loop of `lsh_split_line`.
unfoldable pub split_loop : (fuel : ℕ) → Option (List ℕ) → Option (List (List ℕ))
unfolding strtok
split_loop zero s = none
split_loop (suc f) s = elim (strtok s tok_delim) [
  | none ↦ some []
  | some (token, s') ↦ elim (split_loop f s') [ none ↦ none | some tokens ↦ some (token ∷ tokens) ]
]

-- Each token takes at least one byte of the line.
unfoldable pub lsh_split_line : List ℕ → Option (List (List ℕ))
unfolding split_loop
lsh_split_line line = split_loop (length line + 2) (some line)

-- The names of the commands: help, ls, touch, del, edit, clear, cat, ring3, ring3_shell, shutdown.
abbrev pub builtin_str : List (List ℕ)
builtin_str =
    (104 ∷ 101 ∷ 108 ∷ 112 ∷ [])
    ∷ (108 ∷ 115 ∷ [])
    ∷ (116 ∷ 111 ∷ 117 ∷ 99 ∷ 104 ∷ [])
    ∷ (100 ∷ 101 ∷ 108 ∷ [])
    ∷ (101 ∷ 100 ∷ 105 ∷ 116 ∷ [])
    ∷ (99 ∷ 108 ∷ 101 ∷ 97 ∷ 114 ∷ [])
    ∷ (99 ∷ 97 ∷ 116 ∷ [])
    ∷ (114 ∷ 105 ∷ 110 ∷ 103 ∷ 51 ∷ [])
    ∷ (114 ∷ 105 ∷ 110 ∷ 103 ∷ 51 ∷ 95 ∷ 115 ∷ 104 ∷ 101 ∷ 108 ∷ 108 ∷ [])
    ∷ (115 ∷ 104 ∷ 117 ∷ 116 ∷ 100 ∷ 111 ∷ 119 ∷ 110 ∷ [])
    ∷ []

-- The index of the first name that is equal.
unfoldable pub find_builtin : List ℕ → List (List ℕ) → Option ℕ
find_builtin s [] = none
find_builtin s (name ∷ names) =
    let rest = find_builtin s names in
    if is_zero (strcmp s name) then some 0 else elim rest [ none ↦ none | some i ↦ some (i + 1) ]

-- Which handler `lsh_execute` calls: none for an empty line, a built-in one, or `lsh_launch`.
pub data Handler : Type 0 where
  no_command : Handler
  builtin_func : ℕ → Handler
  lsh_launch : Handler

unfoldable pub lsh_execute : List (List ℕ) → Handler
unfolding find_builtin
lsh_execute [] = no_command
lsh_execute (command ∷ args) = elim (find_builtin command builtin_str) [
  | some i ↦ builtin_func i
  | none ↦ lsh_launch
]

-- The commands on files, with the arguments behind the name of the command; without one they only
-- print a message.
unfoldable pub lsh_touch : List (List ℕ) → Fs → Fs
lsh_touch [] fs = fs
lsh_touch (name ∷ args) fs = (fs_create_file name fs).1

unfoldable pub lsh_del : List (List ℕ) → Fs → Fs
lsh_del [] fs = fs
lsh_del (name ∷ args) fs = (fs_delete_file name fs).1

abbrev pub page_bytes : (n i : ℕ) → (ℕ → ℕ) → List ℕ
page_bytes zero i f = []
page_bytes (suc n) i f = f i ∷ page_bytes n (i + 1) f

-- The text that `lsh_cat` prints, without the message for a missing file and the newline: the first
-- block up to a zero byte, whatever the size of the file.
-- Without a zero byte it reads behind the buffer.
unfoldable pub lsh_cat : (stack : ℕ → ℕ) → List ℕ → Fs → Option (List ℕ)
lsh_cat stack name fs = elim (fs_find_file name fs) [
  | none ↦ some []
  | some i ↦ elim (fs_read_block (entry_at i fs).first_data_block stack fs) [
    | none ↦ none
    | some buf ↦
        let out = text (page_bytes 4096 0 buf) in if length out == 4096 then none else some out
  ]
]
